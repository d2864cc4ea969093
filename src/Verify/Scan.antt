-- ===== src/Verify/Scan.antt =====
-- src/vm/verify.rs: `scan_method` and `validate_exception_handlers`. The decoded instructions are
-- listed in the order of their addresses.
use Prim.Native.String.{◌++◌ as ◌^^◌}
use jvm_rs.Prelude.{
  ℕ, zero, suc, ◌-◌, Bool, true, false, not, ◌||◌, Option, none, some, List, [], ◌∷◌, String, ltb,
  leb, ◌==◌, if◌then◌else◌, length, get_elem?, min,
}
use jvm_rs.Prelude.Int.{pos}
use jvm_rs.Types.Value.{
  Result, ok, err, panic, verification_error, unexpected_eof, invalid_branch_target,
}
use jvm_rs.Types.Method.{Method, ExceptionHandler}
use jvm_rs.Types.Fallible.{◌>>=◌, ◌>>◌, unwrap, decimal}
use jvm_rs.Opcode.{Opcode}
use jvm_rs.Verify.Instruction.{DecodedInstruction}
use jvm_rs.Verify.Decode.{decode_instruction}

-- The entry of the constant pool at the index is there.
unfoldable pub validate_index : {A : Type 0} → String → List (Option A) → ℕ → ℕ → Result (Unit {0})
validate_index what entries index pc = elim (get_elem? entries index) [
  | some (some entry) ↦ ok tt
  | some none ↦ err (verification_error pc ("invalid " ^^ what ^^ " index " ^^ decimal index))
  | none ↦ err (verification_error pc ("invalid " ^^ what ^^ " index " ^^ decimal index))
]

module _ (method : Method) (insn : DecodedInstruction) where
  unfoldable pub validate_at : {A : Type 0} → String → List (Option A) → Result (Unit {0})
  validate_at what entries =
      unwrap insn.cp_index >>= λ index. validate_index what entries index insn.pc

  unfoldable pub validate_constant : Result (Unit {0})
  validate_constant = validate_at "constant pool" method.constants

  unfoldable pub validate_field_ref : Result (Unit {0})
  validate_field_ref = validate_at "field reference" method.field_refs

  unfoldable pub validate_method_ref : Result (Unit {0})
  validate_method_ref = validate_at "method reference" method.method_refs

  unfoldable pub validate_class : Result (Unit {0})
  validate_class = validate_at "class reference" method.reference_classes

  unfoldable pub validate_operand : Opcode → Result (Unit {0})
  unfolding validate_constant validate_field_ref validate_method_ref validate_class validate_at
      validate_index
  validate_operand Opcode.ldc = validate_constant
  validate_operand Opcode.ldc_w = validate_constant
  validate_operand Opcode.ldc2_w = validate_constant
  validate_operand Opcode.getstatic = validate_field_ref
  validate_operand Opcode.putstatic = validate_field_ref
  validate_operand Opcode.getfield = validate_field_ref
  validate_operand Opcode.putfield = validate_field_ref
  validate_operand Opcode.invokevirtual = validate_method_ref
  validate_operand Opcode.invokespecial = validate_method_ref
  validate_operand Opcode.invokestatic = validate_method_ref
  validate_operand Opcode.invokeinterface = validate_method_ref
  validate_operand Opcode.invokedynamic = validate_at "invokedynamic" method.invoke_dynamic_sites
  validate_operand Opcode.new = validate_class
  validate_operand Opcode.anewarray = validate_class
  validate_operand Opcode.checkcast = validate_class
  validate_operand Opcode.instanceof = validate_class
  validate_operand Opcode.multianewarray = validate_class
  validate_operand _ = ok tt

-- One round of the scan.
unfoldable pub scan_instruction : Method → ℕ → Result DecodedInstruction
scan_instruction method pc = do
  insn ← decode_instruction method.code pc
  (if ltb (length method.code) insn.next_pc then err (unexpected_eof pc) else ok tt)
  validate_operand method insn insn.opcode
  ok insn

-- The loop over the code, on fuel.
unfoldable pub scan_from : ℕ → Method → ℕ → Option (Result (List DecodedInstruction))
scan_from zero method pc = none
scan_from (suc fuel) method pc = elim (ltb pc (length method.code)) [
  | false ↦ some (ok [])
  | true ↦ elim (scan_instruction method pc) [
    | err e ↦ some (err e)
    | panic ↦ some panic
    | ok insn ↦ elim (scan_from fuel method insn.next_pc) [
      | none ↦ none
      | some decoded ↦ some (decoded >>= λ rest. ok (insn ∷ rest))
    ]
  ]
]

-- `decoded.get(&pc)`
unfoldable pub instruction_at : ℕ → List DecodedInstruction → Option DecodedInstruction
instruction_at pc [] = none
instruction_at pc (insn ∷ decoded) =
    let rest = instruction_at pc decoded in if insn.pc == pc then some insn else rest

unfoldable pub starts : List DecodedInstruction → ℕ → Bool
unfolding instruction_at
starts decoded pc = elim (instruction_at pc decoded) [ none ↦ false | some insn ↦ true ]

unfoldable pub check_targets : ℕ → List DecodedInstruction → List ℕ → Result (Unit {0})
unfolding starts
check_targets len decoded [] = ok tt
check_targets len decoded (target ∷ targets) =
    let rest = check_targets len decoded targets in
    if leb len target || not (starts decoded target)
    then err (invalid_branch_target (pos target) len)
    else rest

unfoldable pub check_all_targets :
    ℕ → List DecodedInstruction → List DecodedInstruction → Result (Unit {0})
unfolding check_targets
check_all_targets len decoded [] = ok tt
check_all_targets len decoded (insn ∷ insns) = do
  check_targets len decoded insn.branch_targets
  check_all_targets len decoded insns

unfoldable pub scan_method : Method → Option (Result (List DecodedInstruction))
unfolding scan_from check_all_targets
scan_method method = elim (scan_from (suc (length method.code)) method 0) [
  | none ↦ none
  | some scanned ↦
      some (
        scanned >>= λ decoded. check_all_targets (length method.code) decoded decoded >> ok decoded)
]

unfoldable pub validate_handler : ℕ → List DecodedInstruction → ExceptionHandler → Result (Unit {0})
unfolding starts
validate_handler len decoded h =
    if ltb h.end_pc h.start_pc || ltb len h.end_pc
    then err
        (verification_error (min h.handler_pc (len - 1)) "exception handler range is out of bounds")
    else if leb len h.handler_pc || not (starts decoded h.handler_pc)
    then err (
        verification_error (min h.handler_pc (len - 1))
          "exception handler target is not an instruction boundary")
    else ok tt

unfoldable pub validate_exception_handlers :
    ℕ → List DecodedInstruction → List ExceptionHandler → Result (Unit {0})
unfolding validate_handler
validate_exception_handlers len decoded [] = ok tt
validate_exception_handlers len decoded (h ∷ handlers) = do
  validate_handler len decoded h
  validate_exception_handlers len decoded handlers
