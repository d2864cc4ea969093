-- ===== src/Verify/Tests.antt =====
-- Tests of the verifier of src/vm/verify.rs.
use jvm_rs.Prelude.{ℕ, false, none, some, List, [], ◌∷◌, ◌≡◌, refl, ◌↔◌, String, arith}
use jvm_rs.Types.Value.{Result, ok, err, panic, verification_error}
use jvm_rs.Types.Method.{Method}
use jvm_rs.Verify.Types.{
  top, int, float, null, reference, FrameState, type_name, eq_type, merge_type, type_compatible,
  is_wide_verify_type,
}
use jvm_rs.Verify.Instruction.{
  DecodedInstruction, read_u8, read_u16, read_i16, read_i8, branch_target,
}
use jvm_rs.Verify.Method.{verify_method}
use jvm_rs.Verify.Scan.{
  scan_method, scan_instruction, validate_operand, validate_exception_handlers,
}
use jvm_rs.Verify.Decode.{decode_instruction}
use jvm_rs.Opcode.FromByte.{from_byte}
use jvm_rs.Verify.Entry.{initial_frame}
use jvm_rs.Verify.Descriptors.{parse_method_descriptor}
use jvm_rs.Types.Fallible.{as_bytes}
use jvm_rs.Verify.Apply.{apply_instruction}
use jvm_rs.Verify.Arms.{
  push_type, load_type, increment, return_type, return_reference, return_void, jump_subroutine,
  return_from_subroutine, store_reference, clear_stack, ret_target,
}
use jvm_rs.Verify.State.{
  require_type, is_wide_local, push, pop, pop_expect_int, pop_expect_float, load_local, store_local,
  require_astore_type, require_return_type,
}
use jvm_rs.Verify.Operands.{decode_wide, decode_branch, decode_iinc, decode_ret, fixed_local}
use jvm_rs.Verify.StackMap.{validate_stack_map_frames}
use jvm_rs.Verify.Merge.{merge_state}
use jvm_rs.Opcode.{Opcode}
use jvm_rs.Prelude.Int.{◌+ℤ◌, from_u16}
use jvm_rs.Frame.Ops.{u16_from_be}
use jvm_rs.Verify.Soundness.{Typing, verify_method-Typing}
use jvm_rs.Prelude.Int.{pos}
use jvm_rs.Types.Value.{Value}
use jvm_rs.Frame.Defs.{Frame}
use jvm_rs.Frame.Ops
use jvm_rs.Verify.State
use jvm_rs.Verify.Apply.{apply_opcode}
use jvm_rs.Verify.Refines.{Agrees, Simulates, frame_state, frame_state-Simulates}
use jvm_rs.Verify.Handlers.{Runs, add, handler_of, handler_of-Runs}
use jvm_rs.Verify.Arms.{binary, verify_type_from_value}
use jvm_rs.Verify.Total.{verify_method_answers}
use jvm_rs.Verify.Ensures.{Ensures}
use jvm_rs.Verify.Advance.{Advances}
use jvm_rs.Verify.Advance.Decode.{decode_instruction-Advances}
use jvm_rs.Verify.Lattice.{Below, merge_type-Below, merge_type-failed}
use jvm_rs.Verify.Keeps.{Fits}
use jvm_rs.Verify.Keeps.Apply.{apply_instruction-Fits}

-- A static method with the code.
abbrev method : String → List ℕ → ℕ → ℕ → Method
method descriptor code max_locals max_stack = record {
  class_name = "Main";
  name = "run";
  descriptor = descriptor;
  access_flags = 8;
  code = code;
  max_locals = max_locals;
  max_stack = max_stack;
  constants = [];
  reference_classes = [];
  field_refs = [];
  method_refs = [];
  exception_handlers = [];
  line_numbers = [];
  stack_map_frames = [];
  invoke_dynamic_sites = [];
  condy_sites = [];
  initial_locals = [];
  code_parsed = false;
}

-- `while (n != 0) n--; return n;`
abbrev countdown : Method
countdown =
    method "(I)I" (0x1a ∷ 0x99 ∷ 0 ∷ 9 ∷ 0x84 ∷ 0 ∷ 0xff ∷ 0xa7 ∷ 0xff ∷ 0xf9 ∷ 0x1a ∷ 0xac ∷ []) 1
      1

-- In turn: the loop; `iconst_0` with nothing after it, where the state of the address after the code is
-- asked for; `wide getstatic`, whose index the scan does not find; `wide wide`; `fconst_0; ireturn`; and
-- `jsr 4; return; astore_0; ret 0`.
verify_method_runs :
    (verify_method countdown ≡ some (ok tt))
    × (verify_method (method "()V" (0x03 ∷ []) 0 1) ≡ some panic)
    × (verify_method (method "()V" (0xc4 ∷ 0xb2 ∷ 0 ∷ 0 ∷ 0xb1 ∷ []) 0 1) ≡ some panic)
    × (verify_method (method "()V" (0xc4 ∷ 0xc4 ∷ 0 ∷ 0 ∷ 0xb1 ∷ []) 0 1) ≡ some panic)
    × (verify_method (method "()I" (0x0b ∷ 0xac ∷ []) 0 1)
        ≡ some (err (verification_error 1 "type mismatch: expected int, got float")))
    × (verify_method (method "()V" (0xa8 ∷ 0 ∷ 4 ∷ 0xb1 ∷ 0x4b ∷ 0xa9 ∷ 0 ∷ []) 1 1) ≡ some (ok tt))
unfolding verify_method scan_method scan_instruction validate_operand validate_exception_handlers
    decode_instruction from_byte initial_frame parse_method_descriptor as_bytes apply_instruction
    push_type load_type increment return_type return_reference return_void jump_subroutine
    return_from_subroutine store_reference clear_stack ret_target push pop pop_expect_int
    pop_expect_float load_local store_local require_astore_type require_return_type decode_wide
    decode_branch decode_iinc decode_ret fixed_local read_u8 read_u16 read_i16 read_i8 branch_target
    validate_stack_map_frames merge_state type_name eq_type merge_type type_compatible
    is_wide_verify_type ◌+ℤ◌ from_u16 u16_from_be require_type is_wide_local
verify_method_runs = (refl, refl, refl, refl, refl, refl)

merge_type-Below_example :
    (Below null (reference none) × Below (reference (some (65 ∷ []))) (reference none))
    ↔ Below (reference (some (65 ∷ []))) (reference none)
unfolding merge_type
merge_type-Below_example =
    merge_type-Below null (reference (some (65 ∷ []))) (reference (some (65 ∷ []))) (reference none)
      refl

merge_type-failed_example : (Below int top × Below float top) ↔ (top ≡ top)
unfolding merge_type
merge_type-failed_example = merge_type-failed int float top "incompatible types int and float" refl

-- `iadd` of countdown's method, of an int and an int
abbrev two_ints : FrameState
two_ints = record { locals = int ∷ []; stack = int ∷ int ∷ [] }

abbrev iadd_at : DecodedInstruction
iadd_at = record {
  pc = 3;
  next_pc = 4;
  opcode = Opcode.iadd;
  local_index = none;
  cp_index = none;
  branch_targets = [];
  iinc_delta = none;
  atype = none;
  dimensions = none;
}

apply_instruction-Fits_example : Fits 1 2 (apply_instruction countdown iadd_at two_ints).1
apply_instruction-Fits_example =
    apply_instruction-Fits countdown iadd_at {n = 1} {cap = 2} (omega arith) two_ints
      (refl, omega arith)

verify_method_answers_example : (r : Result (Unit {0})) × (verify_method countdown ≡ some r)
verify_method_answers_example = verify_method_answers countdown

-- the `ifeq` of the countdown
decode_instruction-Advances_example :
    Ensures (Advances countdown.code 1) (decode_instruction countdown.code 1)
decode_instruction-Advances_example = decode_instruction-Advances countdown.code 1

verify_method-Typing_example : Typing countdown
verify_method-Typing_example = verify_method-Typing countdown (omega arith) verify_method_runs.0

-- A frame with 3 and 4 on its stack, and a local of two slots.
abbrev sums : Frame
sums = record {
  class_name = "Main";
  method_name = "run";
  descriptor = "()V";
  code = [];
  pc = 0;
  locals = some (Value.long (pos 7)) ∷ none ∷ [];
  stack = Value.int (pos 4) ∷ Value.int (pos 3) ∷ [];
  max_stack = 2;
  constants = [];
  reference_classes = [];
  field_refs = [];
  method_refs = [];
  exception_handlers = [];
  line_numbers = [];
  invoke_dynamic_sites = [];
  condy_sites = [];
  invoke_cache = [];
  call_counts = [];
  backedge_counts = [];
  invocation_count = 0;
  backedge_hit_count = 0;
}

-- The store clears the long whose second slot it takes.
frame_state-Simulates_example :
    Agrees verify_type_from_value (Ops.load_local 1 sums) (State.load_local 1 9 (frame_state sums))
    × Simulates
        (λ u. u)
        (Ops.store_local 1 (Value.int (pos 5)) sums)
        (State.store_local 1 (verify_type_from_value (Value.int (pos 5))) 9 (frame_state sums))
    × Simulates
        (λ u. u)
        (Ops.push (Value.int (pos 5)) sums)
        (State.push (verify_type_from_value (Value.int (pos 5))) 9 2 (frame_state sums))
    × Simulates verify_type_from_value (Ops.pop sums) (State.pop 9 (frame_state sums))
frame_state-Simulates_example = frame_state-Simulates 1 9 (Value.int (pos 5)) sums

handler_of-Runs_example :
    Runs (handler_of add) sums [] (record (frame_state sums) { stack = int ∷ [] })
unfolding apply_opcode binary pop_expect_int pop require_type type_compatible eq_type
    verify_type_from_value push_type push
handler_of-Runs_example = handler_of-Runs add (method "()V" [] 2 2) iadd_at none sums [] _ refl refl
