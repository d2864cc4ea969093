-- ===== src/Verify/Arms.antt =====
-- src/vm/verify.rs: the arms of `apply_instruction` for constants, locals, arrays, arithmetic,
-- conversions, branches and returns.
use Prim.Native.String.{◌++◌ as ◌^^◌}
use jvm_rs.Prelude.{ℕ, Option, none, some, List, [], get_elem?}
use jvm_rs.Types.Value.{Result, ok, err, verification_error, invalid_constant_index, Value}
use jvm_rs.Types.Method.{Method}
use jvm_rs.Types.Action.{Action, pure, fail, gets, lift, modify, ok_or, ◌>>=◌, ◌>>◌}
use jvm_rs.Types.Fallible.{unwrap}
use jvm_rs.Types.Fallible
use jvm_rs.Prelude.{length, ◌-◌}
use jvm_rs.Verify.Types.{
  VerifyType, int, float, long, double, return_address, reference, FrameState, type_name,
}
use jvm_rs.Verify.State.{
  require_type, require_one_of, require_reference_like, require_astore_type, require_assignable,
  require_return_type, push, pop, pop_expect_int, pop_expect_reference, load_local, store_local,
}
use jvm_rs.Verify.Instruction.{DecodedInstruction}

abbrev pub Step : Type 0
Step = Action FrameState (Unit {0})

unfoldable pub verify_type_from_value : Value → VerifyType
verify_type_from_value (Value.int _) = int
verify_type_from_value (Value.long _) = long
verify_type_from_value (Value.float _) = float
verify_type_from_value (Value.double _) = double
verify_type_from_value (Value.return_address pc) = return_address pc
verify_type_from_value (Value.reference _) = reference none

unfoldable pub constant_at : Option (Option Value) → Option Value
constant_at none = none
constant_at (some value) = value

unfoldable pub constant_type : Method → ℕ → Result VerifyType
unfolding constant_at verify_type_from_value
constant_type method index = elim (constant_at (get_elem? method.constants index)) [
  | none ↦ err (invalid_constant_index index (length method.constants - 1))
  | some value ↦ ok (verify_type_from_value value)
]

unfoldable pub clear_stack : Step
clear_stack = modify (λ state. record state { stack = [] })

unfoldable pub expect_address : DecodedInstruction → VerifyType → Result ℕ
expect_address insn (return_address target) = ok target
expect_address insn ty =
    err (verification_error insn.pc ("ret expects returnAddress local, got " ^^ type_name ty))

module _ (method : Method) (insn : DecodedInstruction) where
  unfoldable pub push_type : VerifyType → Step
  push_type ty = push ty insn.pc method.max_stack

  unfoldable pub push_constant : Step
  push_constant = do
    index ← lift (unwrap insn.cp_index)
    ty ← lift (constant_type method index)
    push_type ty

  unfoldable pub load_type : VerifyType → Step
  load_type expected = do
    index ← lift (unwrap insn.local_index)
    ty ← gets (load_local index insn.pc)
    lift (require_type insn.pc ty expected)
    push_type expected

  unfoldable pub load_reference : Step
  load_reference = do
    index ← lift (unwrap insn.local_index)
    ty ← gets (load_local index insn.pc)
    lift (require_reference_like insn.pc ty)
    push_type ty

  unfoldable pub store_type : VerifyType → Step
  store_type expected = do
    ty ← pop insn.pc
    lift (require_type insn.pc ty expected)
    index ← lift (unwrap insn.local_index)
    store_local index expected insn.pc

  unfoldable pub store_reference : Step
  store_reference = do
    ty ← pop insn.pc
    lift (require_astore_type insn.pc ty)
    index ← lift (unwrap insn.local_index)
    store_local index ty insn.pc

  unfoldable pub load_element : VerifyType → Step
  load_element ty = do pop_expect_int insn.pc; pop_expect_reference insn.pc; push_type ty

  unfoldable pub store_element : (ℕ → Step) → Step
  store_element pop_value = do
    pop_value insn.pc
    pop_expect_int insn.pc
    pop_expect_reference insn.pc

  unfoldable pub unary : (ℕ → Step) → VerifyType → Step
  unary pop_value ty = do pop_value insn.pc; push_type ty

  unfoldable pub binary : (ℕ → Step) → (ℕ → Step) → VerifyType → Step
  binary pop_right pop_left ty = do pop_right insn.pc; pop_left insn.pc; push_type ty

  unfoldable pub increment : Step
  increment = do
    index ← lift (unwrap insn.local_index)
    ty ← gets (load_local index insn.pc)
    lift (require_type insn.pc ty int)

  unfoldable pub convert : List VerifyType → VerifyType → Step
  convert sources ty = do src ← pop insn.pc; lift (require_one_of insn.pc src sources); push_type ty

  unfoldable pub compare : (ℕ → Step) → Step
  compare pop_value = do pop_value insn.pc; pop_value insn.pc

  unfoldable pub jump_subroutine : Step
  jump_subroutine = push_type (return_address insn.next_pc)

  unfoldable pub return_from_subroutine : Step
  return_from_subroutine = do
    index ← lift (unwrap insn.local_index)
    ty ← gets (load_local index insn.pc)
    target ← lift (expect_address insn ty)
    pure tt

  unfoldable pub return_type : Option VerifyType → (ℕ → Step) → VerifyType → Step
  return_type ret_ty pop_value ty = do
    pop_value insn.pc
    lift (require_return_type insn.pc ret_ty ty)
    clear_stack

  unfoldable pub return_reference : Option VerifyType → Step
  return_reference ret_ty = do
    actual ← pop insn.pc
    lift (require_reference_like insn.pc actual)
    expected ← lift (ok_or ret_ty (verification_error insn.pc "reference return in void method"))
    lift (require_assignable insn.pc actual expected)
    clear_stack

  unfoldable pub return_void : Option VerifyType → Step
  return_void none = clear_stack
  return_void (some ty) = fail (verification_error insn.pc "void return in non-void method")

-- `ret_target`
unfoldable pub ret_target : FrameState → DecodedInstruction → Result ℕ
unfolding expect_address
ret_target state insn =
    Fallible.◌>>=◌ (unwrap insn.local_index)
      λ index. Fallible.◌>>=◌ (load_local index insn.pc state) λ ty. expect_address insn ty
