-- ===== src/Verify/Keeps/Arms.antt =====
-- The arms of `apply_instruction` of src/vm/verify.rs: the shape of the frame state.
use jvm_rs.Prelude.{ℕ, ◌≤◌, Option, none, some, List, arith}
use jvm_rs.Types.Method.{Method}
use jvm_rs.Verify.Types.{VerifyType}
use jvm_rs.Verify.Instruction.{DecodedInstruction}
use jvm_rs.Verify.Arms.{
  Step, push_type, push_constant, load_type, load_reference, store_type, store_reference,
  load_element, store_element, unary, binary, increment, convert, compare, jump_subroutine,
  return_from_subroutine, return_type, return_reference, return_void, clear_stack,
}
use jvm_rs.Verify.Keeps.{
  Keeps, keeps_rules, bind-Keeps, gets-Keeps, lift-Keeps, pure-Keeps, fail-Keeps, if-Keeps,
  push-Keeps, pop-Keeps, pop_int-Keeps, pop_reference-Keeps, store-Keeps,
}

module _ (m : Method) (i : DecodedInstruction) {n cap : ℕ} (le : m.max_stack ≤ cap) where
  pub push_type-Keeps : (ty : VerifyType) → Keeps n cap (push_type m i ty)
  unfolding push_type
  push_type-Keeps ty = push-Keeps ty i.pc m.max_stack le

  pub load_type-Keeps : (ty : VerifyType) → Keeps n cap (load_type m i ty)
  unfolding load_type
  load_type-Keeps ty = search (keeps_rules, push_type-Keeps) depth 9

  pub push_constant-Keeps : Keeps n cap (push_constant m i)
  unfolding push_constant
  push_constant-Keeps = search (keeps_rules, push_type-Keeps) depth 9

  pub load_reference-Keeps : Keeps n cap (load_reference m i)
  unfolding load_reference
  load_reference-Keeps = search (keeps_rules, push_type-Keeps) depth 9

  pub store_type-Keeps : (ty : VerifyType) → Keeps n cap (store_type m i ty)
  unfolding store_type
  store_type-Keeps ty = search keeps_rules depth 9

  pub store_reference-Keeps : Keeps n cap (store_reference m i)
  unfolding store_reference
  store_reference-Keeps = search keeps_rules depth 9

  pub load_element-Keeps : (ty : VerifyType) → Keeps n cap (load_element m i ty)
  unfolding load_element
  load_element-Keeps ty = search (keeps_rules, push_type-Keeps) depth 9

  pub store_element-Keeps :
      (pop_value : ℕ → Step)
      → Keeps n cap (pop_value i.pc)
      → Keeps n cap (store_element m i pop_value)
  unfolding store_element
  store_element-Keeps pop_value h = search keeps_rules depth 9

  pub unary-Keeps :
      (pop_value : ℕ → Step) (ty : VerifyType)
      → Keeps n cap (pop_value i.pc)
      → Keeps n cap (unary m i pop_value ty)
  unfolding unary
  unary-Keeps pop_value ty h = search (keeps_rules, push_type-Keeps) depth 9

  pub binary-Keeps :
      (pop_right pop_left : ℕ → Step) (ty : VerifyType)
      → Keeps n cap (pop_right i.pc)
      → Keeps n cap (pop_left i.pc)
      → Keeps n cap (binary m i pop_right pop_left ty)
  unfolding binary
  binary-Keeps pop_right pop_left ty h k = search (keeps_rules, push_type-Keeps) depth 9

  pub increment-Keeps : Keeps n cap (increment m i)
  unfolding increment
  increment-Keeps = search keeps_rules depth 9

  pub convert-Keeps :
      (sources : List VerifyType) (ty : VerifyType) → Keeps n cap (convert m i sources ty)
  unfolding convert
  convert-Keeps sources ty = search (keeps_rules, push_type-Keeps) depth 9

  pub compare-Keeps :
      (pop_value : ℕ → Step) → Keeps n cap (pop_value i.pc) → Keeps n cap (compare m i pop_value)
  unfolding compare
  compare-Keeps pop_value h = search keeps_rules depth 9

  pub jump_subroutine-Keeps : Keeps n cap (jump_subroutine m i)
  unfolding jump_subroutine
  jump_subroutine-Keeps = push_type-Keeps _

  pub return_from_subroutine-Keeps : Keeps n cap (return_from_subroutine m i)
  unfolding return_from_subroutine
  return_from_subroutine-Keeps = search keeps_rules depth 9

  pub clear_stack-Keeps : Keeps n cap clear_stack
  unfolding clear_stack
  clear_stack-Keeps = record { keeps = λ s h. (h.0, omega arith) }

  pub return_type-Keeps :
      (ret_ty : Option VerifyType) (pop_value : ℕ → Step) (ty : VerifyType)
      → Keeps n cap (pop_value i.pc)
      → Keeps n cap (return_type m i ret_ty pop_value ty)
  unfolding return_type
  return_type-Keeps ret_ty pop_value ty h = search (keeps_rules, clear_stack-Keeps) depth 9

  pub return_reference-Keeps :
      (ret_ty : Option VerifyType) → Keeps n cap (return_reference m i ret_ty)
  unfolding return_reference
  return_reference-Keeps ret_ty = search (keeps_rules, clear_stack-Keeps) depth 9

  pub return_void-Keeps : (ret_ty : Option VerifyType) → Keeps n cap (return_void m i ret_ty)
  unfolding return_void
  return_void-Keeps none = clear_stack-Keeps
  return_void-Keeps (some ty) = fail-Keeps _

pub ruleset arm_rules = (
  keeps_rules, push_type-Keeps, push_constant-Keeps, load_type-Keeps, load_reference-Keeps,
  store_type-Keeps, store_reference-Keeps, load_element-Keeps, store_element-Keeps, unary-Keeps,
  binary-Keeps, increment-Keeps, convert-Keeps, compare-Keeps, jump_subroutine-Keeps,
  return_from_subroutine-Keeps, return_type-Keeps, return_reference-Keeps, return_void-Keeps,
)
