-- ===== src/Interpreter/Arithmetic.antt =====
-- What the `int` and return handlers of src/vm/interpreter.rs compute.
use jvm_rs.Prelude.{◌<◌, ◌≡◌, none, some, List, [], ◌∷◌, length, arith}
use jvm_rs.Prelude.Int.{ℤ, wrapping_add, wrapping_sub, wrapping_mul}
use jvm_rs.Types.Value.{Value, int, ok, as_int}
use jvm_rs.Frame.Defs.{Frame}
use jvm_rs.Frame.Ops.{push, pop}
use jvm_rs.Thread.{Thread, current_frame_mut, pop_frame, depth}
use jvm_rs.Interpreter.{
  value, int_binary, execute_iadd, execute_isub, execute_imul, return_to_caller,
  execute_ireturn_full,
}

abbrev pub with_stack : Frame → List Value → Frame
with_stack f s = record f { stack = s }

abbrev pub thread : List Frame → Thread
thread fs = record { frames = fs }

int_binary_lem :
    (op : ℤ → ℤ → ℤ) (f : Frame) (callers : List Frame) (a b : ℤ) (rest : List Value)
    → length rest < f.max_stack
    → int_binary op (thread (with_stack f (int b ∷ int a ∷ rest) ∷ callers))
      ≡ (ok tt, thread (with_stack f (int (op a b) ∷ rest) ∷ callers))
unfolding int_binary current_frame_mut pop push as_int
int_binary_lem op f callers a b rest room = ground arith

-- With two `int` operands on the stack and room for one, the handlers of `iadd`, `isub` and `imul`
-- replace the operands by one `int`, the wrapped result of the first operand pushed and the second,
-- and change nothing else of the thread.
pub int_handlers :
    (f : Frame) (callers : List Frame) (a b : ℤ) (rest : List Value)
    → length rest < f.max_stack
    → let t = thread (with_stack f (int b ∷ int a ∷ rest) ∷ callers) in
      let leaves = λ (r : ℤ). thread (with_stack f (int r ∷ rest) ∷ callers) in
      (execute_iadd t ≡ (ok tt, leaves (wrapping_add a b)))
      × (execute_isub t ≡ (ok tt, leaves (wrapping_sub a b)))
      × (execute_imul t ≡ (ok tt, leaves (wrapping_mul a b)))
unfolding execute_iadd execute_isub execute_imul
int_handlers f callers a b rest room = (
  int_binary_lem wrapping_add f callers a b rest room,
  int_binary_lem wrapping_sub f callers a b rest room,
  int_binary_lem wrapping_mul f callers a b rest room,
)

-- A value return from a called method drops the frame and pushes the value for the caller, whose
-- stack has room; a return from the outermost frame hands the value out and keeps the frame.
pub execute_ireturn_full_lem :
    (f g : Frame) (callers : List Frame) (v : Value) (rest : List Value)
    → length g.stack < g.max_stack
    → (execute_ireturn_full (thread (with_stack f (v ∷ rest) ∷ g ∷ callers))
        ≡ (ok none, thread (with_stack g (v ∷ g.stack) ∷ callers)))
      × (execute_ireturn_full (thread (with_stack f (v ∷ rest) ∷ []))
          ≡ (ok (some (value v)), thread (with_stack f rest ∷ [])))
unfolding execute_ireturn_full return_to_caller current_frame_mut pop push pop_frame depth
execute_ireturn_full_lem f g callers v rest room = (ground arith, ground arith)
