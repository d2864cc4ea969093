-- ===== src/Jit/Optimizer/Refused.antt =====
-- src/vm/jit/optimizer.rs: the code that the constant-fold pass leaves, and the fetch of opcodes in the
-- interpreter's loop of src/vm/mod.rs.
use jvm_rs.Prelude.{
  ℕ, ◌+◌, ◌≡◌, ◌∙◌, ap, false, some, List, ◌∷◌, length, leb, get_elem?, lt-get_elem?, arith,
}
use jvm_rs.Prelude.Int.{ℤ}
use jvm_rs.Types.Value.{ok, err, invalid_opcode}
use jvm_rs.Types.Action.{ok_or}
use jvm_rs.Frame.Defs.{Frame}
use jvm_rs.Frame.Ops.{read_u8}
use jvm_rs.Thread.{Thread, current_frame, current_frame_mut}
use jvm_rs.Opcode.{Opcode}
use jvm_rs.Opcode.FromByte.{from_byte}
use jvm_rs.Interpreter.{execute_iconst}
use jvm_rs.Interpreter.Arithmetic.{thread}
use jvm_rs.Interpreter.Dispatch.{Step, completes, fetch_opcode, execute_opcode}
use jvm_rs.Jit.Optimizer.{constant_fold_bytecode}
use jvm_rs.Jit.Optimizer.Loop.{fold_loop-HasFold, constant_fold_bytecode-fold_loop}
use jvm_rs.Jit.Optimizer.Engine.{iconst_lem}

-- The innermost frame runs the code, and stands at an index of it.
abbrev pub at : Frame → List ℕ → ℕ → List Frame → Thread
at f code i callers = thread (record f { code = code; pc = i } ∷ callers)

leb-get_elem? :
    (code : List ℕ) (i : ℕ) {b : ℕ} → get_elem? code i ≡ some b → leb (length code) i ≡ false
leb-get_elem? code i e = ground (arith, lt-get_elem? {0} code i e)

fetch_lem :
    (f : Frame) (code : List ℕ) (i b : ℕ) (callers : List Frame)
    → get_elem? code i ≡ some b
    → fetch_opcode (at f code i callers)
      ≡ (ok_or (from_byte b) (invalid_opcode b i), at f code (i + 1) callers)
unfolding fetch_opcode current_frame current_frame_mut read_u8
fetch_lem f code i b callers e = rw (leb-get_elem? code i e, e)

-- Where the pass rewrites code, the new code has an index at which the interpreter fetches an opcode
-- that pushes an `int` constant, while its fetch at the next index, of the byte 0x00, fails with
-- `InvalidOpcode`, the program counter past that byte.
pub constant_fold_bytecode-refused :
    (other : Opcode → Step) (f : Frame) (callers : List Frame) (code result : List ℕ)
    → constant_fold_bytecode code ≡ some result
    → (i : ℕ) × (op : Opcode) × (n : ℤ) × (fetch_opcode (at f result i callers)
        ≡ (ok op, at f result (i + 1) callers))
      × (execute_opcode other op ≡ completes (execute_iconst n))
      × (fetch_opcode (at f result (i + 1) callers)
          ≡ (err (invalid_opcode 0x00 (i + 1)), at f result (i + 2) callers))
unfolding from_byte
constant_fold_bytecode-refused other f callers code result folds =
    let (same, changed) = constant_fold_bytecode-fold_loop code result folds in
    let (i, e, n, decoded, here, after) = fold_loop-HasFold code changed in
    let (op, read, runs) = iconst_lem other e n decoded in
    let e_here : get_elem? result i ≡ some e = rw same at here in
    let zero_after : get_elem? result (i + 1) ≡ some 0x00 =
      ap (get_elem? result) (omega arith) ∙ (rw same at after) in
    let next : (i + 1) + 1 ≡ i + 2 = omega arith in
    (
      i,
      op,
      n,
      fetch_lem f result i e callers e_here ∙ rw read,
      runs,
      fetch_lem f result (i + 1) 0x00 callers zero_after
          ∙ ap (λ (k : ℕ). (err (invalid_opcode 0x00 (i + 1)), at f result k callers)) next,
    )
