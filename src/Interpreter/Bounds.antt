-- ===== src/Interpreter/Bounds.antt =====
-- The operand stacks under the handlers of src/vm/interpreter.rs.
use jvm_rs.Prelude.{ℕ, Bool, true, false, none, some, ◌==◌, if◌then◌else◌}
use jvm_rs.Prelude.Int.{ℤ}
use jvm_rs.Types.Value.{as_int}
use jvm_rs.Types.Action.{Action, pure, ◌>>=◌}
use jvm_rs.Frame.Ops.{load_local, read_u8, read_u16, read_i16}
use jvm_rs.Thread.{Thread, pop_frame, depth}
use jvm_rs.Interpreter.{
  ExecutionResult, Handler, execute_aconst_null, execute_iconst, execute_lconst, execute_fconst,
  execute_dconst, execute_bipush, execute_sipush, execute_iload, execute_lload, execute_fload,
  execute_dload, execute_aload, execute_istore, execute_lstore, execute_fstore, execute_dstore,
  execute_astore, int_binary, execute_iadd, execute_isub, execute_imul, return_to_caller,
  execute_ireturn_full, execute_lreturn_full, execute_areturn_full, execute_return_full,
  execute_pop, execute_dup, execute_ldc, execute_ldc_w,
}
use jvm_rs.Interpreter.Bounded.{
  AllFit, Bounded, bind-Bounded, frame-Bounded, read-Bounded, lift-Bounded, push-Bounded,
  pop-Bounded, store-Bounded, read_u8-fits, read_u16-fits, pop_frame-Bounded,
}

if-Bounded :
    {A : Type 0} (test : Thread → Bool) (m k : Action Thread A)
    → Bounded m
    → Bounded k
    → Bounded (λ t. if test t then m t else k t)
if-Bounded {A} test m k hm hk = record { keeps = λ t fits. go t fits (test t) }
  where
    go : (t : Thread) → AllFit t.frames → (b : Bool) → AllFit (if b then m t else k t).1.frames
    go t fits true = hm.keeps t fits
    go t fits false = hk.keeps t fits

pure-Bounded : {A : Type 0} (a : A) → Bounded (pure a)
pure-Bounded a = record { keeps = λ t h. h }

iload-Bounded : (i : ℕ) → Bounded (execute_iload i)
unfolding execute_iload
iload-Bounded i = bind-Bounded _ _ (read-Bounded (load_local i)) push-Bounded

istore-Bounded : (i : ℕ) → Bounded (execute_istore i)
unfolding execute_istore
istore-Bounded i = bind-Bounded _ _ pop-Bounded (store-Bounded i)

int_binary-Bounded : (op : ℤ → ℤ → ℤ) → Bounded (int_binary op)
unfolding int_binary
int_binary-Bounded op = bind-Bounded _ _ pop-Bounded λ v.
    bind-Bounded _ _ (lift-Bounded (as_int v)) λ b.
      bind-Bounded _ _ pop-Bounded
        λ w. bind-Bounded _ _ (lift-Bounded (as_int w)) λ a. push-Bounded _

ireturn-Bounded : Bounded execute_ireturn_full
unfolding execute_ireturn_full return_to_caller
ireturn-Bounded = bind-Bounded _ _ pop-Bounded λ v.
    if-Bounded (λ t. depth t == 1) (pure (some (ExecutionResult.value v))) (return_to_caller v)
      (pure-Bounded _)
      (bind-Bounded _ _ pop_frame-Bounded
        λ f. bind-Bounded _ _ (push-Bounded v) λ u. pure-Bounded none)

ldc-Bounded : Bounded execute_ldc × Bounded execute_ldc_w
unfolding execute_ldc execute_ldc_w
ldc-Bounded = (
  bind-Bounded _ _ (frame-Bounded read_u8 read_u8-fits)
      λ i. bind-Bounded _ _ (read-Bounded _) push-Bounded,
  bind-Bounded _ _ (frame-Bounded read_u16 read_u16-fits.0)
      λ i. bind-Bounded _ _ (read-Bounded _) push-Bounded,
)

-- The handlers that return nothing.
pub data Instruction : Type 0 where
  aconst_null bipush sipush iadd isub imul pop_top dup ldc ldc_w : Instruction
  iconst lconst : ℤ → Instruction
  fconst dconst : ℕ → Instruction
  iload lload fload dload aload istore lstore fstore dstore astore : ℕ → Instruction

abbrev pub handler : Instruction → Handler
handler aconst_null = execute_aconst_null
handler bipush = execute_bipush
handler sipush = execute_sipush
handler iadd = execute_iadd
handler isub = execute_isub
handler imul = execute_imul
handler pop_top = execute_pop
handler dup = execute_dup
handler ldc = execute_ldc
handler ldc_w = execute_ldc_w
handler (iconst val) = execute_iconst val
handler (lconst val) = execute_lconst val
handler (fconst val) = execute_fconst val
handler (dconst val) = execute_dconst val
handler (iload i) = execute_iload i
handler (lload i) = execute_lload i
handler (fload i) = execute_fload i
handler (dload i) = execute_dload i
handler (aload i) = execute_aload i
handler (istore i) = execute_istore i
handler (lstore i) = execute_lstore i
handler (fstore i) = execute_fstore i
handler (dstore i) = execute_dstore i
handler (astore i) = execute_astore i

handler_keeps : (op : Instruction) → Bounded (handler op)
unfolding execute_aconst_null execute_bipush execute_sipush execute_iadd execute_isub execute_imul
    execute_pop execute_dup execute_iconst execute_lconst execute_fconst execute_dconst
    execute_lload execute_fload execute_dload execute_aload execute_lstore execute_fstore
    execute_dstore execute_astore
handler_keeps aconst_null = push-Bounded _
handler_keeps bipush = bind-Bounded _ _ (frame-Bounded read_u8 read_u8-fits) (λ b. push-Bounded _)
handler_keeps sipush =
    bind-Bounded _ _ (frame-Bounded read_i16 read_u16-fits.1) (λ v. push-Bounded _)
handler_keeps iadd = int_binary-Bounded _
handler_keeps isub = int_binary-Bounded _
handler_keeps imul = int_binary-Bounded _
handler_keeps pop_top = bind-Bounded _ _ pop-Bounded (λ v. pure-Bounded tt)
handler_keeps dup =
    bind-Bounded _ _ pop-Bounded λ v. bind-Bounded _ _ (push-Bounded v) λ u. push-Bounded v
handler_keeps ldc = ldc-Bounded.0
handler_keeps ldc_w = ldc-Bounded.1
handler_keeps (iconst val) = push-Bounded _
handler_keeps (lconst val) = push-Bounded _
handler_keeps (fconst val) = push-Bounded _
handler_keeps (dconst val) = push-Bounded _
handler_keeps (iload i) = iload-Bounded i
handler_keeps (lload i) = iload-Bounded i
handler_keeps (fload i) = iload-Bounded i
handler_keeps (dload i) = iload-Bounded i
handler_keeps (aload i) = iload-Bounded i
handler_keeps (istore i) = istore-Bounded i
handler_keeps (lstore i) = istore-Bounded i
handler_keeps (fstore i) = istore-Bounded i
handler_keeps (dstore i) = istore-Bounded i
handler_keeps (astore i) = istore-Bounded i

return-Bounded : Bounded execute_return_full
unfolding execute_return_full
return-Bounded =
    if-Bounded (λ t. depth t == 1) (pure (some ExecutionResult.void)) (do f ← pop_frame; pure none)
      (pure-Bounded _) (bind-Bounded _ _ pop_frame-Bounded (λ f. pure-Bounded none))

-- Whichever of the instructions runs, and however it ends: every operand stack of the thread stays
-- within the maximum of its frame, if it was so before.
pub handler-AllFit :
    (op : Instruction) (t : Thread) → AllFit t.frames → AllFit (handler op t).1.frames
handler-AllFit op = (handler_keeps op).keeps

-- The four return handlers keep every operand stack within the maximum of its frame too, however
-- they end.
pub return-AllFit :
    (t : Thread)
    → AllFit t.frames
    → AllFit (execute_ireturn_full t).1.frames
      × AllFit (execute_lreturn_full t).1.frames
      × AllFit (execute_areturn_full t).1.frames
      × AllFit (execute_return_full t).1.frames
unfolding execute_lreturn_full execute_areturn_full
return-AllFit t fits = (
  ireturn-Bounded.keeps t fits,
  ireturn-Bounded.keeps t fits,
  ireturn-Bounded.keeps t fits,
  return-Bounded.keeps t fits,
)
