-- ===== src/Jit.antt =====
-- src/vm/jit: the passes of the compiler.
pub mod Optimizer
