-- ===== src/Verify/Handlers.antt =====
-- src/vm/interpreter.rs and src/vm/verify.rs: the int arithmetic of a frame, and of its types.
use jvm_rs.Prelude.{
  ◌<◌, ◌≡◌, refl, sym, ap, ◌∙◌, Option, List, [], ◌∷◌, length, leb, Bool-cases, inl, inr, arith,
}
use jvm_rs.Prelude.Int.{ℤ, wrapping_add, wrapping_sub, wrapping_mul}
use jvm_rs.Types.Value.{Value, ok}
use jvm_rs.Types.Method.{Method}
use jvm_rs.Opcode.{Opcode}
use jvm_rs.Frame.Defs.{Frame}
use jvm_rs.Interpreter.{Handler, execute_iadd, execute_isub, execute_imul}
use jvm_rs.Interpreter.Arithmetic.{thread, with_stack, int_handlers}
use jvm_rs.Verify.Types.{VerifyType, int, FrameState, eq_type, type_compatible}
use jvm_rs.Verify.State.{push, pop, pop_expect_int, require_type}
use jvm_rs.Verify.Instruction.{DecodedInstruction}
use jvm_rs.Verify.Arms.{verify_type_from_value, push_type, binary}
use jvm_rs.Verify.Apply.{apply_opcode}
use jvm_rs.Verify.Refines.{value_types, frame_state, length-value_types}

pub data IntOp : Type 0 where
  add sub mul : IntOp

abbrev pub opcode_of : IntOp → Opcode
opcode_of add = Opcode.iadd
opcode_of sub = Opcode.isub
opcode_of mul = Opcode.imul

abbrev pub handler_of : IntOp → Handler
handler_of add = execute_iadd
handler_of sub = execute_isub
handler_of mul = execute_imul

-- The handler succeeds on the innermost frame, changes no other, and leaves a frame of the types.
abbrev pub Runs : Handler → Frame → List Frame → FrameState → Type 0
Runs handler f callers after =
    (g : Frame) × (handler (thread (f ∷ callers)) ≡ (ok tt, thread (g ∷ callers)))
    × (frame_state g ≡ after)

-- Two ints on top of the stack, and the types that follow.
abbrev TwoInts : Frame → FrameState → Type 0
TwoInts f after =
    (b : ℤ) × (a : ℤ) × (rest : List Value) × (f.stack ≡ Value.int b ∷ Value.int a ∷ rest)
    × (length rest < f.max_stack)
    × (after ≡ record (frame_state f) { stack = int ∷ value_types rest })

two_ints :
    (method : Method) (insn : DecodedInstruction) (f : Frame) (after : FrameState)
    → method.max_stack ≡ f.max_stack
    → binary method insn pop_expect_int pop_expect_int int (frame_state f) ≡ (ok tt, after)
    → TwoInts f after
unfolding binary pop_expect_int pop require_type type_compatible eq_type verify_type_from_value
    push_type push
two_ints method insn f after size e = go f f.stack refl size e
  where
    go :
        (f : Frame) (stack : List Value)
        → f.stack ≡ stack
        → method.max_stack ≡ f.max_stack
        → binary method insn pop_expect_int pop_expect_int int
            (record (frame_state f) { stack = value_types stack })
          ≡ (ok tt, after)
        → TwoInts f after
    go f [] s size e = absurd (cc)
    go f (Value.int b ∷ []) s size e = absurd (cc)
    go f (Value.int b ∷ Value.int a ∷ rest) s size e =
        elim (Bool-cases (leb method.max_stack (length (value_types rest)))) [
          | inl full ↦ absurd (ground (arith, full, e))
          | inr room ↦ (
            b,
            a,
            rest,
            s,
            ground (arith, room, size, length-value_types rest),
            ground (arith, room, e),
          )
        ]
    go f (Value.int b ∷ w ∷ rest) s size e = absurd (cc)
    go f (v ∷ rest) s size e = absurd (cc)

-- Where the verifier accepts an int addition, subtraction or multiplication on the types of the innermost
-- frame, the interpreter's handler of it succeeds on that frame and leaves a frame of the types that the
-- verifier computed; the frames of the callers stay as they are.
pub handler_of-Runs :
    (op : IntOp) (method : Method) (insn : DecodedInstruction) (ret_ty : Option VerifyType)
    (f : Frame) (callers : List Frame) (after : FrameState)
    → method.max_stack ≡ f.max_stack
    → apply_opcode method insn ret_ty (opcode_of op) (frame_state f) ≡ (ok tt, after)
    → Runs (handler_of op) f callers after
unfolding apply_opcode verify_type_from_value
handler_of-Runs op method insn ret_ty f callers after size e =
    let accepted : binary method insn pop_expect_int pop_expect_int int (frame_state f)
        ≡ (ok tt, after) =
      by_op op e in
    let (b, a, rest, s, room, left) = two_ints method insn f after size accepted in
    run op b a rest s room left
  where
    by_op :
        (op : IntOp)
        → apply_opcode method insn ret_ty (opcode_of op) (frame_state f) ≡ (ok tt, after)
        → binary method insn pop_expect_int pop_expect_int int (frame_state f) ≡ (ok tt, after)
    by_op add e = e
    by_op sub e = e
    by_op mul e = e

    run :
        (op : IntOp) (b a : ℤ) (rest : List Value)
        → f.stack ≡ Value.int b ∷ Value.int a ∷ rest
        → length rest < f.max_stack
        → after ≡ record (frame_state f) { stack = int ∷ value_types rest }
        → Runs (handler_of op) f callers after
    run add b a rest s room left = (
      with_stack f (Value.int (wrapping_add a b) ∷ rest),
      ap (λ g. execute_iadd (thread (g ∷ callers))) (ap (with_stack f) s)
          ∙ (int_handlers f callers a b rest room).0,
      sym left,
    )
    run sub b a rest s room left = (
      with_stack f (Value.int (wrapping_sub a b) ∷ rest),
      ap (λ g. execute_isub (thread (g ∷ callers))) (ap (with_stack f) s)
          ∙ (int_handlers f callers a b rest room).1,
      sym left,
    )
    run mul b a rest s room left = (
      with_stack f (Value.int (wrapping_mul a b) ∷ rest),
      ap (λ g. execute_imul (thread (g ∷ callers))) (ap (with_stack f) s)
          ∙ (int_handlers f callers a b rest room).2,
      sym left,
    )
