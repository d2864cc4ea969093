-- ===== src/Frame.antt =====
-- src/vm/frame.rs: the execution frame of one method activation.
pub mod Defs
pub mod Ops
pub mod Pool
pub mod Locals
pub mod Fetch
pub mod Entry
mod Tests
