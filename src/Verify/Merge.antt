-- ===== src/Verify/Merge.antt =====
-- src/vm/verify.rs: the merge of a frame state into the one that an instruction has.
use Prim.Native.String.{◌++◌ as ◌^^◌}
use jvm_rs.Prelude.{
  ℕ, ◌+◌, Bool, true, false, not, ◌||◌, Option, none, some, List, [], ◌∷◌, String, ltb, ◌==◌,
  if◌then◌else◌, length, resize,
}
use jvm_rs.Types.Value.{verification_error, Result, ok, err}
use jvm_rs.Types.Fallible.{◌>>=◌, decimal}
use jvm_rs.Verify.Types.{VerifyType, top, FrameState, eq_type, merged, failed, merge_type}

-- `merge_type(..).map_err(..)?` for the slot `i` of `what`
unfoldable pub merge_slot : ℕ → String → ℕ → VerifyType → VerifyType → Result VerifyType
merge_slot pc what i existing incoming = elim (merge_type existing incoming) [
  | merged ty ↦ ok ty
  | failed reason ↦
      err (verification_error pc (what ^^ " " ^^ decimal i ^^ " merge failed: " ^^ reason))
]

-- What a loop of `merge_state` leaves: the slots, and whether one has changed.
abbrev pub Slots : Type 0
Slots = List VerifyType × Bool

abbrev pub put_slot : VerifyType → VerifyType → Slots → Slots
put_slot existing ty (rest, changed) = (ty ∷ rest, not (eq_type ty existing) || changed)

-- The locals from the `i`-th on. The two lists are of one length.
unfoldable pub merge_locals : ℕ → ℕ → List VerifyType → List VerifyType → Result Slots
unfolding merge_slot
merge_locals pc i [] ys = ok ([], false)
merge_locals pc i (x ∷ xs) [] = ok (x ∷ xs, false)
merge_locals pc i (x ∷ xs) (y ∷ ys) = do
  ty ← merge_slot pc "local" i x y
  rest ← merge_locals pc (i + 1) xs ys
  ok (put_slot x ty rest)

-- The stack is merged from its bottom on, which stands last.
unfoldable pub merge_stack : ℕ → List VerifyType → List VerifyType → Result Slots
unfolding merge_slot
merge_stack pc [] ys = ok ([], false)
merge_stack pc (x ∷ xs) [] = ok (x ∷ xs, false)
merge_stack pc (x ∷ xs) (y ∷ ys) = do
  rest ← merge_stack pc xs ys
  ty ← merge_slot pc "stack" (length xs) x y
  ok (put_slot x ty rest)

abbrev pub max : ℕ → ℕ → ℕ
max a b = if ltb a b then b else a

unfoldable pub merge_frames : ℕ → FrameState → FrameState → Result (FrameState × Bool)
unfolding merge_locals merge_stack
merge_frames pc existing incoming =
    let max_len = max (length existing.locals) (length incoming.locals) in
    if length existing.stack == length incoming.stack
    then (do
      locals ←
          merge_locals pc 0 (resize max_len top existing.locals)
            (resize max_len top incoming.locals)
      stack ← merge_stack pc existing.stack incoming.stack
      ok (record { locals = locals.0; stack = stack.0 }, locals.1 || stack.1))
    else err (
        verification_error pc (
          "stack height mismatch across control-flow merge: "
          ^^ decimal (length existing.stack)
          ^^ " vs "
          ^^ decimal (length incoming.stack)))

-- The state that the slot then holds, and whether it has changed.
unfoldable pub merge_state : Option FrameState → FrameState → ℕ → Result (FrameState × Bool)
unfolding merge_frames
merge_state none incoming pc = ok (incoming, true)
merge_state (some existing) incoming pc = merge_frames pc existing incoming
