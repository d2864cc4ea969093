-- ===== src/Lib.antt =====
-- jvm-rs: a Java virtual machine in Rust.
--
-- The program's parts, as far as they are modelled here, and how they interact. A thread
-- (src/vm/thread.rs) is a stack of frames (src/vm/frame.rs). A frame is made of a method
-- (src/vm/types.rs): it holds its code and program counter, its locals, its operand stack and its
-- projections of the constant pool. The instruction handlers (src/vm/interpreter.rs) run on the
-- innermost frame of a thread. Objects, arrays and strings live in a heap of slots (src/vm/heap.rs)
-- that all threads share, with a generational collector; a value refers to them by slot index.
-- Monitors (src/vm/mod.rs) are a table beside the heap, by slot index too. The interner
-- (src/vm/intern.rs) and the arena of class metadata (src/vm/arena.rs) share equal strings. The
-- JIT's constant folding (src/vm/jit/optimizer.rs) rewrites bytecode; so far only unit tests call
-- it. Before a method runs, the verifier (src/vm/verify.rs) decodes its code (src/bytecode.rs
-- has the opcodes) and follows the types of its locals and its operand stack along every path.
--
-- The files, beside src/vm:
--   Prelude, Prelude/*  lists, tests, 32-bit integers and 64-bit counters that the models share
--   Types/Value         types.rs: `Value`, `Reference`, `VmError` and the `as_*` projections
--   Types/Method        types.rs and src/classfile.rs: `Method` and the data in it
--   Types/Descriptor    types.rs: the descriptor parsers and `stub_return_value`
--   Types/Descriptor/Parsing, Counting, Stub  what they make of descriptors of a grammar, and of any
--                       text
--   Types/Action        methods that change an object and may fail, with do blocks for them
--   Frame/Defs, Ops, Pool  frame.rs: `Frame` and its methods, by their names in the source
--   Frame/Locals, Fetch, Entry  theorems on locals, code reading and branches, and new frames,
--                       counters and the invoke cache
--   Thread              thread.rs: `Thread`
--   Interpreter         interpreter.rs: the `execute_*` handlers
--   Interpreter/Dispatch  mod.rs: the fetch of an opcode, and some arms of `execute_opcode`
--   Interpreter/Bounded, Bounds, Arithmetic  theorems on the handlers
--   Heap/Defs, Arrays, Mark, Gc  heap.rs: the heap and allocation; array loads and stores; the
--                       marking loop; the sweeps and `gc`
--   Heap/Reach, Pushing, Marking, Sweep, Finish, Collect, Roots, Safety, Accounts  theorems on the
--                       collector
--   Heap/Valid, ArrayElements, Stores  theorems on allocation, and on array loads and stores
--   Monitor             mod.rs: `enter_monitor`, `exit_monitor`, `wait_on_monitor`, `notify_monitor`
--   Monitor/Entries, Threads, Protocol  what each does to each monitor; every interleaving of them
--   Jit/Optimizer       jit/optimizer.rs: `constant_fold_bytecode` and the inlining threshold
--   Jit/Optimizer/Loop, Engine, Meaning, Operands, Refused  the bytes that folding leaves; runs of
--                       straight-line code, and what folding does to them
--   Strings             intern.rs and arena.rs: `Interner` and `ClassMetaArena`
--   Strings/Sharing     which strings they share
--   Types/Fallible      chains of results, and the texts of errors
--   Opcode              src/bytecode.rs: `Opcode`; Opcode/FromByte: `Opcode::from_byte`
--   Opcode/Bytes        bytes and opcodes
--   Verify/Types, State, Merge  verify.rs: `VerifyType` and `merge_type`; `FrameState`, `push`, `pop`,
--                       `load_local`, `store_local` and the `require_*`; `merge_state`
--   Verify/Descriptors, Instruction, Operands, Decode  the parsers; reads from the code; the arms of
--                       `decode_instruction`, and the whole
--   Verify/Arms, Shuffle, Members, Apply  the arms of `apply_instruction`, and the whole
--   Verify/Scan, Entry, StackMap  `scan_method` and the checks of indices, targets and handlers;
--                       `initial_frame`; `validate_stack_map_frames`
--   Verify/Method       `verify_method`
--   Verify/Lattice      the merge of types against an order of types
--   Verify/Keeps, Keeps/*  the shape of a frame state under `apply_instruction`
--   Verify/Advance, Advance/Decode  the addresses of decoded instructions
--   Verify/Ensures, Heights, Descent, Termination, Scanned, Total  how far merges go down; the loops of
--                       `verify_method` against their fuel
--   Verify/Covers, Grows, Fixpoint, Soundness  the states that an accepted method is left with
--   Verify/Refines, Handlers  a frame and its types, under frame.rs, interpreter.rs and verify.rs
--   Tests modules       concrete inputs
--
-- How state and operations correspond to the code. A `&mut self` method is a function that returns
-- its result beside the new object. `Result` is `ok`, `err`, or `panic` where Rust panics. `Vec` is
-- a list; an operand stack, a call stack and the worklist of the marking list their top first. A
-- `HashMap` is an association list. `f32` and `f64` are their bit patterns. The `i32` and `i64` are
-- integers; wrapping operations are written out on 32 bits. Where the code adds to a counter of 32
-- or 64 bits with `+=`, the counter wraps around, as in a release build; `saturating_add` stops at
-- 2 ^ 64 - 1. An index into a text or a vector, and a count of its items, is a number. In the
-- verifier the name of a class is the list of its bytes, an index past the end of a vector and an
-- unwrap of `None` are `panic`, and the map of decoded instructions is a list in the order of their
-- addresses. Slot indices and the lengths of vectors are natural numbers, and the buffer of the
-- heap is within 2 ^ 64 slots by the validity of the heap.
--
-- Bounds and fuel. The marking loop takes fuel: one, the length of its worklist, and the number of
-- references in the values of the slots that are not marked. Every round takes an index off the
-- worklist, and pushes only references of a slot that it marks, so this is enough. The scan of the
-- verifier takes one more than the length of the code, since an instruction has a byte at least.
-- Its data flow takes a unit for each address that comes off the queue: an address is queued when
-- its state changes, and a state changes only so often, since every type in it falls at most three
-- times. All other loops are structural: a loop over a descriptor walks its bytes, and counts those
-- that it passes over.
--
-- What is given to the model: the sizes of types of std (`Layout`), which `heap_size` adds up, and
-- the pause time of a collection, which a clock measures. In runs of straight-line code, what the
-- engine does at a byte that is no opcode, and at the opcodes whose arms are not modelled.
--
-- A monitor operation is one section under the lock of the table, from its start to its return or
-- its wait, and a wake-up of a waiting thread is one more; `Monitor/Threads` takes the sections in
-- any order. That a sleeping thread is woken at all is a matter of `Condvar` and is not modelled.
--
-- What is not modelled: the dispatch loop beyond its fetch and a few arms, method invocation and
-- the root set of collections (vm/mod.rs), the class file reader and loader, the built-in classes,
-- and the JIT compiler, which is written against cranelift. `optimize` and
-- `optimize_function` only call cranelift. `method_key` builds a string for logs.

pub mod Prelude
pub mod Types
pub mod Frame
pub mod Thread
pub mod Interpreter
pub mod Heap
pub mod Jit
pub mod Monitor
pub mod Opcode
pub mod Strings
pub mod Verify
