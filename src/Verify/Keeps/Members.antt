-- ===== src/Verify/Keeps/Members.antt =====
-- The arms of `apply_instruction` of src/vm/verify.rs for the stack, members and objects: the shape of
-- the frame state.
use jvm_rs.Prelude.{ℕ, zero, suc, ◌≤◌, Bool, Option, none, some, List, [], ◌∷◌, String}
use jvm_rs.Types.Method.{Method, MethodRef}
use jvm_rs.Verify.Types.{VerifyType}
use jvm_rs.Verify.Instruction.{DecodedInstruction}
use jvm_rs.Verify.Shuffle.{
  push_all, refuse, pop_one, pop_two, dup, dup_x1, dup2, dup_x2, dup2_x1, dup2_x2, swap,
}
use jvm_rs.Verify.Members.{
  get_static, put_static, get_field, put_field, pop_args, push_return, pop_receiver, invoke,
  invoke_dynamic, new_object, pop_ints, new_array, throw, check_cast,
}
use jvm_rs.Verify.Keeps.{
  Keeps, keeps_rules, bind-Keeps, lift-Keeps, pure-Keeps, fail-Keeps, pop-Keeps, pop_int-Keeps,
}
use jvm_rs.Verify.Keeps.Arms.{push_type-Keeps, clear_stack-Keeps}

module _ (m : Method) (i : DecodedInstruction) {n cap : ℕ} (le : m.max_stack ≤ cap) where
  pub push_all-Keeps : (tys : List VerifyType) → Keeps n cap (push_all m i tys)
  unfolding push_all
  push_all-Keeps [] = pure-Keeps tt
  push_all-Keeps (ty ∷ tys) = bind-Keeps _ _ (push_type-Keeps m i le ty) λ u. push_all-Keeps tys

  refuse-Keeps : (reason : String) → Keeps n cap (refuse m i reason)
  unfolding refuse
  refuse-Keeps reason = fail-Keeps _

  pub pop_one-Keeps : Keeps n cap (pop_one m i)
  unfolding pop_one
  pop_one-Keeps = search keeps_rules depth 9

  pub pop_two-Keeps : Keeps n cap (pop_two m i)
  unfolding pop_two
  pop_two-Keeps = search (keeps_rules, refuse-Keeps) depth 12

  pub dup-Keeps : Keeps n cap (dup m i)
  unfolding dup
  dup-Keeps = search (keeps_rules, refuse-Keeps, push_all-Keeps) depth 12

  pub dup_x1-Keeps : Keeps n cap (dup_x1 m i)
  unfolding dup_x1
  dup_x1-Keeps = search (keeps_rules, refuse-Keeps, push_all-Keeps) depth 12

  pub dup2-Keeps : Keeps n cap (dup2 m i)
  unfolding dup2
  dup2-Keeps = search (keeps_rules, refuse-Keeps, push_all-Keeps) depth 12

  pub dup_x2-Keeps : Keeps n cap (dup_x2 m i)
  unfolding dup_x2
  dup_x2-Keeps = search (keeps_rules, refuse-Keeps, push_all-Keeps) depth 12

  pub dup2_x1-Keeps : Keeps n cap (dup2_x1 m i)
  unfolding dup2_x1
  dup2_x1-Keeps = search (keeps_rules, refuse-Keeps, push_all-Keeps) depth 12

  pub dup2_x2-Keeps : Keeps n cap (dup2_x2 m i)
  unfolding dup2_x2
  dup2_x2-Keeps = search (keeps_rules, refuse-Keeps, push_all-Keeps) depth 16 fits 4000

  pub swap-Keeps : Keeps n cap (swap m i)
  unfolding swap
  swap-Keeps = search (keeps_rules, refuse-Keeps, push_all-Keeps) depth 12

  pub get_static-Keeps : Keeps n cap (get_static m i)
  unfolding get_static
  get_static-Keeps = search (keeps_rules, push_type-Keeps) depth 9

  pub put_static-Keeps : Keeps n cap (put_static m i)
  unfolding put_static
  put_static-Keeps = search keeps_rules depth 9

  pub get_field-Keeps : Keeps n cap (get_field m i)
  unfolding get_field
  get_field-Keeps = search (keeps_rules, push_type-Keeps) depth 9

  pub put_field-Keeps : Keeps n cap (put_field m i)
  unfolding put_field
  put_field-Keeps = search keeps_rules depth 12

  pop_args-Keeps : (tys : List VerifyType) → Keeps n cap (pop_args m i tys)
  unfolding pop_args
  pop_args-Keeps [] = pure-Keeps tt
  pop_args-Keeps (ty ∷ tys) =
      bind-Keeps _ _ (pop-Keeps i.pc) λ a. bind-Keeps _ _ (lift-Keeps _) λ u. pop_args-Keeps tys

  push_return-Keeps : (ret_ty : Option VerifyType) → Keeps n cap (push_return m i ret_ty)
  unfolding push_return
  push_return-Keeps none = pure-Keeps tt
  push_return-Keeps (some ty) = push_type-Keeps m i le ty

  pop_receiver-Keeps :
      (is_special : Bool) (r : MethodRef) → Keeps n cap (pop_receiver m i is_special r)
  unfolding pop_receiver
  pop_receiver-Keeps is_special r = search keeps_rules depth 12

  pub invoke-Keeps : (is_static is_special : Bool) → Keeps n cap (invoke m i is_static is_special)
  unfolding invoke
  invoke-Keeps is_static is_special =
      search (keeps_rules, pop_args-Keeps, pop_receiver-Keeps, push_return-Keeps) depth 12

  pub invoke_dynamic-Keeps : Keeps n cap (invoke_dynamic m i)
  unfolding invoke_dynamic
  invoke_dynamic-Keeps = search (keeps_rules, pop_args-Keeps, push_return-Keeps) depth 12

  pub new_object-Keeps : Keeps n cap (new_object m i)
  unfolding new_object
  new_object-Keeps = push_type-Keeps m i le _

  pop_ints-Keeps : (k : ℕ) → Keeps n cap (pop_ints m i k)
  unfolding pop_ints
  pop_ints-Keeps zero = pure-Keeps tt
  pop_ints-Keeps (suc k) = bind-Keeps _ _ (pop_int-Keeps i.pc) λ u. pop_ints-Keeps k

  pub new_array-Keeps : Keeps n cap (new_array m i)
  unfolding new_array
  new_array-Keeps = bind-Keeps _ _ (pop_ints-Keeps _) λ u. push_type-Keeps m i le _

  pub throw-Keeps : Keeps n cap (throw m i)
  unfolding throw
  throw-Keeps = search (keeps_rules, clear_stack-Keeps) depth 9

  pub check_cast-Keeps : Keeps n cap (check_cast m i)
  unfolding check_cast
  check_cast-Keeps = search (keeps_rules, push_type-Keeps) depth 12

pub ruleset member_rules = (
  pop_one-Keeps, pop_two-Keeps, dup-Keeps, dup_x1-Keeps, dup2-Keeps, dup_x2-Keeps, dup2_x1-Keeps,
  dup2_x2-Keeps, swap-Keeps, get_static-Keeps, put_static-Keeps, get_field-Keeps, put_field-Keeps,
  invoke-Keeps, invoke_dynamic-Keeps, new_object-Keeps, new_array-Keeps, throw-Keeps,
  check_cast-Keeps,
)
