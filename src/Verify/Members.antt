-- ===== src/Verify/Members.antt =====
-- src/vm/verify.rs: the arms of `apply_instruction` for fields, calls, objects and monitors.
use text.Mathlib.Text.{◌==◌ as str_eq}
use jvm_rs.Prelude.{
  ℕ, zero, suc, ◌%◌, Bool, Option, none, some, List, [], ◌∷◌, String, if◌then◌else◌, get_elem?,
  reverse, ◌&&◌,
}
use jvm_rs.Types.Value.{Result, ok, panic, verification_error}
use jvm_rs.Types.Method.{Method, MethodRef}
use jvm_rs.Types.Action.{pure, lift, modify, ok_or, ◌>>=◌, ◌>>◌}
use jvm_rs.Types.Fallible.{unwrap, as_bytes}
use jvm_rs.Verify.Types.{VerifyType, reference, uninitialized}
use jvm_rs.Verify.State.{
  require_assignable, require_reference_like, require_constructor_receiver,
  initialize_uninitialized, pop, pop_expect_int, pop_expect_reference,
}
use jvm_rs.Verify.Instruction.{DecodedInstruction}
use jvm_rs.Verify.Descriptors.{parse_field_descriptor, parse_method_descriptor}
use jvm_rs.Verify.Arms.{Step, push_type, clear_stack}

-- `v[i].as_ref().unwrap()`
abbrev pub entry_at : {A : Type 0} → Option (Option A) → Result A
entry_at (some (some a)) = ok a
entry_at (some none) = panic
entry_at none = panic

-- `v.get(i).and_then(|x| x.as_ref())`
abbrev pub entry_of : {A : Type 0} → Option (Option A) → Option A
entry_of (some a) = a
entry_of none = none

module _ (method : Method) (insn : DecodedInstruction) where
  unfoldable pub get_static : Step
  get_static = do
    index ← lift (unwrap insn.cp_index)
    field ← lift (entry_at (get_elem? method.field_refs index))
    ty ← lift (parse_field_descriptor (as_bytes field.descriptor))
    push_type method insn ty

  unfoldable pub put_static : Step
  put_static = do
    index ← lift (unwrap insn.cp_index)
    field ← lift (entry_at (get_elem? method.field_refs index))
    expected ← lift (parse_field_descriptor (as_bytes field.descriptor))
    actual ← pop insn.pc
    lift (require_assignable insn.pc actual expected)

  unfoldable pub get_field : Step
  get_field = do
    index ← lift (unwrap insn.cp_index)
    field ← lift (entry_at (get_elem? method.field_refs index))
    pop_expect_reference insn.pc
    ty ← lift (parse_field_descriptor (as_bytes field.descriptor))
    push_type method insn ty

  unfoldable pub put_field : Step
  put_field = do
    index ← lift (unwrap insn.cp_index)
    field ← lift (entry_at (get_elem? method.field_refs index))
    expected ← lift (parse_field_descriptor (as_bytes field.descriptor))
    actual ← pop insn.pc
    lift (require_assignable insn.pc actual expected)
    pop_expect_reference insn.pc

  -- `for expected in args.iter().rev()`, of the arguments last first
  unfoldable pub pop_args : List VerifyType → Step
  pop_args [] = pure tt
  pop_args (expected ∷ rest) = do
    actual ← pop insn.pc
    lift (require_assignable insn.pc actual expected)
    pop_args rest

  unfoldable pub push_return : Option VerifyType → Step
  push_return none = pure tt
  push_return (some ret) = push_type method insn ret

  unfoldable pub pop_receiver : Bool → MethodRef → Step
  pop_receiver is_special method_ref = do
    receiver ← pop insn.pc
    if is_special && str_eq method_ref.method_name "<init>"
        then (do
          lift (require_constructor_receiver insn.pc receiver)
          modify (initialize_uninitialized receiver (as_bytes method_ref.class_name)))
        else lift (require_reference_like insn.pc receiver)

  unfoldable pub invoke : Bool → Bool → Step
  invoke is_static is_special = do
    index ← lift (unwrap insn.cp_index)
    method_ref ← lift (entry_at (get_elem? method.method_refs index))
    descriptor ← lift (parse_method_descriptor (as_bytes method_ref.descriptor))
    pop_args (reverse descriptor.0)
    (if is_static then pure tt else pop_receiver is_special method_ref)
    push_return descriptor.1

  unfoldable pub invoke_dynamic : Step
  invoke_dynamic = do
    index ← lift (unwrap insn.cp_index)
    site ← lift (
        ok_or (entry_of (get_elem? method.invoke_dynamic_sites index))
          (verification_error insn.pc "invalid invokedynamic site index"))
    descriptor ← lift (parse_method_descriptor (as_bytes site.descriptor))
    pop_args (reverse descriptor.0)
    push_return descriptor.1

  unfoldable pub new_object : Step
  new_object = push_type method insn (uninitialized (insn.pc % 0x1_0000))

  unfoldable pub pop_ints : ℕ → Step
  pop_ints zero = pure tt
  pop_ints (suc n) = do pop_expect_int insn.pc; pop_ints n

  unfoldable pub dimensions_of : Option ℕ → ℕ
  dimensions_of none = 1
  dimensions_of (some n) = n

  unfoldable pub new_array : Step
  new_array = do pop_ints (dimensions_of insn.dimensions); push_type method insn (reference none)

  unfoldable pub throw : Step
  throw = do pop_expect_reference insn.pc; clear_stack

  -- `method.reference_classes[i].clone()`
  unfoldable pub class_at : Option (Option String) → Result (Option (List ℕ))
  class_at none = panic
  class_at (some none) = ok none
  class_at (some (some name)) = ok (some (as_bytes name))

  unfoldable pub check_cast : Step
  check_cast = do
    pop_expect_reference insn.pc
    index ← lift (unwrap insn.cp_index)
    target ← lift (class_at (get_elem? method.reference_classes index))
    push_type method insn (reference target)
