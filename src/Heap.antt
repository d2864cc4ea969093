-- ===== src/Heap.antt =====
-- src/vm/heap.rs: the heap of the machine and its garbage collector.
pub mod Defs
pub mod Arrays
pub mod Mark
pub mod Gc
pub mod Reach
pub mod Pushing
pub mod Marking
pub mod Sweep
pub mod Valid
pub mod Finish
pub mod Collect
pub mod Roots
pub mod Safety
pub mod Accounts
pub mod ArrayElements
pub mod Stores
mod Tests
