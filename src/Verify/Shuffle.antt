-- ===== src/Verify/Shuffle.antt =====
-- src/vm/verify.rs: the arms of `apply_instruction` for the instructions that rearrange the stack.
use jvm_rs.Prelude.{String, ◌||◌, if◌then◌else◌, List, [], ◌∷◌}
use jvm_rs.Types.Value.{verification_error}
use jvm_rs.Types.Method.{Method}
use jvm_rs.Types.Action.{pure, fail, ◌>>=◌, ◌>>◌}
use jvm_rs.Verify.Types.{VerifyType, is_wide_verify_type}
use jvm_rs.Verify.State.{pop}
use jvm_rs.Verify.Instruction.{DecodedInstruction}
use jvm_rs.Verify.Arms.{Step, push_type}

module _ (method : Method) (insn : DecodedInstruction) where
  -- The pushes in the order of the list.
  unfoldable pub push_all : List VerifyType → Step
  push_all [] = pure tt
  push_all (ty ∷ tys) = do push_type method insn ty; push_all tys

  unfoldable pub refuse : String → Step
  refuse reason = fail (verification_error insn.pc reason)

  unfoldable pub pop_one : Step
  pop_one = do top ← pop insn.pc; pure tt

  unfoldable pub pop_two : Step
  pop_two = do
    top ← pop insn.pc
    if is_wide_verify_type top then pure tt else (do
      second ← pop insn.pc
      if is_wide_verify_type second
          then refuse "pop2 requires either one category-2 or two category-1 values"
          else pure tt)

  unfoldable pub dup : Step
  dup = do
    value ← pop insn.pc
    if is_wide_verify_type value
        then refuse "dup does not support category-2 values"
        else push_all (value ∷ value ∷ [])

  unfoldable pub dup_x1 : Step
  dup_x1 = do
    v1 ← pop insn.pc
    v2 ← pop insn.pc
    if is_wide_verify_type v1 || is_wide_verify_type v2
        then refuse "dup_x1 requires two category-1 values"
        else push_all (v1 ∷ v2 ∷ v1 ∷ [])

  unfoldable pub dup2 : Step
  dup2 = do
    v1 ← pop insn.pc
    if is_wide_verify_type v1 then push_all (v1 ∷ v1 ∷ []) else (do
      v2 ← pop insn.pc
      if is_wide_verify_type v2
          then refuse "dup2 requires either one category-2 or two category-1 values"
          else push_all (v2 ∷ v1 ∷ v2 ∷ v1 ∷ []))

  unfoldable pub dup_x2 : Step
  dup_x2 = do
    v1 ← pop insn.pc
    if is_wide_verify_type v1 then refuse "dup_x2 requires top value to be category-1" else (do
      v2 ← pop insn.pc
      if is_wide_verify_type v2 then push_all (v1 ∷ v2 ∷ v1 ∷ []) else (do
        v3 ← pop insn.pc
        if is_wide_verify_type v3
            then refuse "dup_x2 requires either [cat1, cat2] or [cat1, cat1, cat1]"
            else push_all (v1 ∷ v3 ∷ v2 ∷ v1 ∷ [])))

  unfoldable pub dup2_x1 : Step
  dup2_x1 = do
    v1 ← pop insn.pc
    v2 ← pop insn.pc
    if is_wide_verify_type v1
        then (if is_wide_verify_type v2
            then refuse "dup2_x1 wide form requires [..., cat1, cat2]"
            else push_all (v1 ∷ v2 ∷ v1 ∷ []))
        else if is_wide_verify_type v2
        then refuse "dup2_x1 narrow form requires top two values category-1"
        else (do
          v3 ← pop insn.pc
          if is_wide_verify_type v3
              then refuse "dup2_x1 narrow form requires three category-1 values"
              else push_all (v2 ∷ v1 ∷ v3 ∷ v2 ∷ v1 ∷ []))

  unfoldable pub dup2_x2 : Step
  dup2_x2 = do
    v1 ← pop insn.pc
    v2 ← pop insn.pc
    if is_wide_verify_type v1
        then (if is_wide_verify_type v2 then push_all (v1 ∷ v2 ∷ v1 ∷ []) else (do
          v3 ← pop insn.pc
          if is_wide_verify_type v3
              then refuse "dup2_x2 wide-top form requires [cat1, cat1, cat2] or [cat2, cat2]"
              else push_all (v1 ∷ v3 ∷ v2 ∷ v1 ∷ [])))
        else if is_wide_verify_type v2
        then (do
          v3 ← pop insn.pc
          if is_wide_verify_type v3
              then refuse "dup2_x2 mixed form requires [cat1, cat2, cat1]"
              else push_all (v2 ∷ v1 ∷ v3 ∷ v2 ∷ v1 ∷ []))
        else (do
          v3 ← pop insn.pc
          v4 ← pop insn.pc
          if is_wide_verify_type v3 || is_wide_verify_type v4
              then refuse "dup2_x2 narrow form requires four category-1 values"
              else push_all (v2 ∷ v1 ∷ v4 ∷ v3 ∷ v2 ∷ v1 ∷ []))

  unfoldable pub swap : Step
  swap = do
    v1 ← pop insn.pc
    v2 ← pop insn.pc
    if is_wide_verify_type v1 || is_wide_verify_type v2
        then refuse "swap requires two category-1 values"
        else push_all (v1 ∷ v2 ∷ [])
