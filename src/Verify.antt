-- ===== src/Verify.antt =====
-- src/vm/verify.rs: the bytecode verifier.
pub mod Types
pub mod State
pub mod Merge
pub mod Descriptors
pub mod Instruction
pub mod Arms
pub mod Shuffle
pub mod Members
pub mod Apply
pub mod Operands
pub mod Decode
pub mod Scan
pub mod Entry
pub mod StackMap
pub mod Lattice
pub mod Keeps
pub mod Ensures
pub mod Heights
pub mod Advance
pub mod Method
pub mod Covers
pub mod Descent
pub mod Grows
pub mod Termination
pub mod Fixpoint
pub mod Scanned
pub mod Total
pub mod Soundness
pub mod Refines
pub mod Handlers
mod Tests
