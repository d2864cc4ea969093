-- ===== src/Types.antt =====
-- src/vm/types.rs: the data that the components of the machine share.
pub mod Value
pub mod Method
pub mod Action
pub mod Fallible
pub mod Descriptor
