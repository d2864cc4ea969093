-- ===== src/Interpreter/Dispatch.antt =====
-- src/vm/mod.rs: how the interpreter's loop fetches an opcode, and the arms of `execute_opcode` for
-- the `int` constants and the `int` arithmetic; what the other arms do is a parameter.
use jvm_rs.Prelude.{Option, none, leb, length, if◌then◌else◌}
use jvm_rs.Prelude.Int.{pos, negsuc}
use jvm_rs.Types.Value.{ok, err, invalid_opcode, missing_return}
use jvm_rs.Types.Action.{Action, pure, lift, ok_or, ◌>>=◌, ◌>>◌}
use jvm_rs.Frame.Ops.{read_u8}
use jvm_rs.Thread.{Thread, current_frame, current_frame_mut}
use jvm_rs.Opcode.{Opcode}
use jvm_rs.Opcode.FromByte.{from_byte}
use jvm_rs.Interpreter.{
  ExecutionResult, Handler, execute_iconst, execute_iadd, execute_isub, execute_imul,
}

unfoldable pub fetch_opcode : Action Thread Opcode
fetch_opcode = do
  opcode_pc ← current_frame (λ f. ok f.pc)
  current_frame (λ f. if leb (length f.code) f.pc then err missing_return else ok tt)
  opcode_byte ← current_frame_mut read_u8
  lift (ok_or (from_byte opcode_byte) (invalid_opcode opcode_byte opcode_pc))

abbrev pub Step : Type 0
Step = Action Thread (Option ExecutionResult)

-- A handler under `?`, and the `Ok(None)` at the end of `execute_opcode`.
abbrev pub completes : Handler → Step
completes h = do h; pure none

unfoldable pub execute_opcode : (Opcode → Step) → Opcode → Step
execute_opcode other Opcode.iconst_m1 = completes (execute_iconst (negsuc 0))
execute_opcode other Opcode.iconst0 = completes (execute_iconst (pos 0))
execute_opcode other Opcode.iconst1 = completes (execute_iconst (pos 1))
execute_opcode other Opcode.iconst2 = completes (execute_iconst (pos 2))
execute_opcode other Opcode.iconst3 = completes (execute_iconst (pos 3))
execute_opcode other Opcode.iconst4 = completes (execute_iconst (pos 4))
execute_opcode other Opcode.iconst5 = completes (execute_iconst (pos 5))
execute_opcode other Opcode.iadd = completes execute_iadd
execute_opcode other Opcode.isub = completes execute_isub
execute_opcode other Opcode.imul = completes execute_imul
execute_opcode other opcode = other opcode
