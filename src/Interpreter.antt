-- ===== src/Interpreter.antt =====
-- src/vm/interpreter.rs: the opcode handlers, each on the innermost frame of a thread.
pub mod Bounded
pub mod Bounds
pub mod Arithmetic
pub mod Dispatch
pub mod Tests
use jvm_rs.Prelude.{ℕ, Option, none, some, ◌==◌, if◌then◌else◌}
use jvm_rs.Prelude.Int.{ℤ, from_u8, wrapping_add, wrapping_sub, wrapping_mul}
use jvm_rs.Types.Value.{
  Value, Reference, Result, ok, err, panic, int, long, float, double, reference, as_int,
}
use jvm_rs.Types.Action.{Action, pure, lift, and_then, ◌>>=◌, ◌>>◌}
use jvm_rs.Frame.Ops.{push, pop, load_local, store_local, read_u8, read_u16, read_i16}
use jvm_rs.Frame.Pool.{load_constant}
use jvm_rs.Thread.{Thread, current_frame, current_frame_mut, pop_frame, depth}

pub data ExecutionResult : Type 0 where
  void : ExecutionResult
  value : Value → ExecutionResult

abbrev pub Handler : Type 0
Handler = Action Thread (Unit {0})

unfoldable pub execute_aconst_null : Handler
execute_aconst_null = current_frame_mut (push (reference Reference.null))

unfoldable pub execute_iconst : ℤ → Handler
execute_iconst val = current_frame_mut (push (int val))

unfoldable pub execute_lconst : ℤ → Handler
execute_lconst val = current_frame_mut (push (long val))

unfoldable pub execute_fconst : ℕ → Handler
execute_fconst val = current_frame_mut (push (float val))

unfoldable pub execute_dconst : ℕ → Handler
execute_dconst val = current_frame_mut (push (double val))

unfoldable pub execute_bipush : Handler
execute_bipush = do b ← current_frame_mut read_u8; current_frame_mut (push (int (from_u8 b)))

unfoldable pub execute_sipush : Handler
execute_sipush = do v ← current_frame_mut read_i16; current_frame_mut (push (int v))

unfoldable pub execute_iload : ℕ → Handler
execute_iload index = do v ← current_frame (load_local index); current_frame_mut (push v)

unfoldable pub execute_lload : ℕ → Handler
unfolding execute_iload
execute_lload index = execute_iload index

unfoldable pub execute_fload : ℕ → Handler
unfolding execute_iload
execute_fload index = execute_iload index

unfoldable pub execute_dload : ℕ → Handler
unfolding execute_iload
execute_dload index = execute_iload index

unfoldable pub execute_aload : ℕ → Handler
unfolding execute_iload
execute_aload index = execute_iload index

unfoldable pub execute_istore : ℕ → Handler
execute_istore index = do v ← current_frame_mut pop; current_frame_mut (store_local index v)

unfoldable pub execute_lstore : ℕ → Handler
unfolding execute_istore
execute_lstore index = execute_istore index

unfoldable pub execute_fstore : ℕ → Handler
unfolding execute_istore
execute_fstore index = execute_istore index

unfoldable pub execute_dstore : ℕ → Handler
unfolding execute_istore
execute_dstore index = execute_istore index

unfoldable pub execute_astore : ℕ → Handler
unfolding execute_istore
execute_astore index = execute_istore index

-- `pop()?.as_int()?` twice, the second operand first, and the push of the result.
unfoldable pub int_binary : (ℤ → ℤ → ℤ) → Handler
int_binary op = do
  v ← current_frame_mut pop
  b ← lift (as_int v)
  w ← current_frame_mut pop
  a ← lift (as_int w)
  current_frame_mut (push (int (op a b)))

unfoldable pub execute_iadd : Handler
unfolding int_binary
execute_iadd = int_binary wrapping_add

unfoldable pub execute_isub : Handler
unfolding int_binary
execute_isub = int_binary wrapping_sub

unfoldable pub execute_imul : Handler
unfolding int_binary
execute_imul = int_binary wrapping_mul

-- The return into the caller's frame, which gets the value.
unfoldable pub return_to_caller : Value → Action Thread (Option ExecutionResult)
return_to_caller v = do f ← pop_frame; current_frame_mut (push v); pure none

unfoldable pub execute_ireturn_full : Action Thread (Option ExecutionResult)
unfolding return_to_caller
execute_ireturn_full = do
  v ← current_frame_mut pop
  λ t. if depth t == 1 then (ok (some (value v)), t) else return_to_caller v t

unfoldable pub execute_lreturn_full : Action Thread (Option ExecutionResult)
unfolding execute_ireturn_full
execute_lreturn_full = execute_ireturn_full

unfoldable pub execute_areturn_full : Action Thread (Option ExecutionResult)
unfolding execute_ireturn_full
execute_areturn_full = execute_ireturn_full

unfoldable pub execute_return_full : Action Thread (Option ExecutionResult)
execute_return_full t =
    if depth t == 1 then (ok (some void), t) else (do f ← pop_frame; pure none) t

unfoldable pub execute_pop : Handler
execute_pop = do v ← current_frame_mut pop; pure tt

unfoldable pub execute_dup : Handler
execute_dup = do v ← current_frame_mut pop; current_frame_mut (push v); current_frame_mut (push v)

unfoldable pub execute_ldc : Handler
execute_ldc = do
  index ← current_frame_mut read_u8
  v ← current_frame (load_constant index)
  current_frame_mut (push v)

unfoldable pub execute_ldc_w : Handler
execute_ldc_w = do
  index ← current_frame_mut read_u16
  v ← current_frame (load_constant index)
  current_frame_mut (push v)
