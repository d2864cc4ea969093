-- ===== src/Interpreter/Tests.antt =====
-- The theorems on the handlers of src/vm/interpreter.rs at a small thread.
use jvm_rs.Prelude.{◌≡◌, [], ◌∷◌, arith}
use jvm_rs.Prelude.Int.{ℤ, pos, wrapping_add, wrapping_sub, wrapping_mul}
use jvm_rs.Types.Value.{int, ok}
use jvm_rs.Frame.Defs.{Frame}
use jvm_rs.Thread.{Thread}
use jvm_rs.Interpreter.{
  execute_iadd, execute_isub, execute_imul, execute_ireturn_full, execute_lreturn_full,
  execute_areturn_full, execute_return_full,
}
use jvm_rs.Interpreter.Bounded.{AllFit}
use jvm_rs.Interpreter.Bounds.{dup, handler, handler-AllFit, return-AllFit}
use jvm_rs.Interpreter.Arithmetic.{with_stack, thread, int_handlers}

-- An empty frame with room for two values.
abbrev pub frame : Frame
frame = record {
  class_name = "Main";
  method_name = "run";
  descriptor = "()V";
  code = [];
  pc = 0;
  locals = [];
  stack = [];
  max_stack = 2;
  constants = [];
  reference_classes = [];
  field_refs = [];
  method_refs = [];
  exception_handlers = [];
  line_numbers = [];
  invoke_dynamic_sites = [];
  condy_sites = [];
  invoke_cache = [];
  call_counts = [];
  backedge_counts = [];
  invocation_count = 0;
  backedge_hit_count = 0;
}

abbrev largest : ℤ
largest = pos 0x7fff_ffff

-- The largest `int` plus one wraps to the smallest.
int_handlers_example :
    let t = thread (with_stack frame (int (pos 1) ∷ int largest ∷ []) ∷ []) in
    let leaves = λ (r : ℤ). thread (with_stack frame (int r ∷ []) ∷ []) in
    (execute_iadd t ≡ (ok tt, leaves (wrapping_add largest (pos 1))))
    × (execute_isub t ≡ (ok tt, leaves (wrapping_sub largest (pos 1))))
    × (execute_imul t ≡ (ok tt, leaves (wrapping_mul largest (pos 1))))
int_handlers_example = int_handlers frame [] largest (pos 1) [] (omega arith)

abbrev full : Thread
full = thread (with_stack frame (int (pos 1) ∷ int (pos 2) ∷ []) ∷ frame ∷ [])

handler-AllFit_example : AllFit (handler dup full).1.frames
handler-AllFit_example = handler-AllFit dup full (omega arith)

return-AllFit_example :
    AllFit (execute_ireturn_full full).1.frames
    × AllFit (execute_lreturn_full full).1.frames
    × AllFit (execute_areturn_full full).1.frames
    × AllFit (execute_return_full full).1.frames
return-AllFit_example = return-AllFit full (omega arith)
