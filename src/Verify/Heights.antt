-- ===== src/Verify/Heights.antt =====
-- src/vm/verify.rs: how far the merge of types and of states can go down.
use jvm_rs.Prelude.{
  ℕ, zero, suc, ◌+◌, ◌*◌, ◌≤◌, ◌<◌, ◌≡◌, refl, sym, ap, ◌∙◌, ◌⊎◌, inl, inr, Bool, true, false, not,
  ◌||◌, Option, none, some, List, [], ◌∷◌, String, length, resize, ◌==◌, arith,
}
use jvm_rs.Verify.Types.{
  VerifyType, top, int, null, reference, FrameState, Merged, merged, failed, merge_type, eq_type,
}
use jvm_rs.Verify.Merge.{
  merge_slot, Slots, put_slot, merge_locals, merge_stack, max, merge_frames, merge_state,
}
use jvm_rs.Verify.Lattice.{Below, same, null_below, reference_below, top_above, upper, eq_type_refl}
use jvm_rs.Verify.Ensures.{Ensures, returns, fails, bind-Ensures, if-Ensures}
use jvm_rs.Verify.Keeps.{Fits}

-- The number of times that a type can become another by a merge.
abbrev pub height : VerifyType → ℕ
height top = 0
height null = 3
height (reference (some name)) = 2
height _ = 1

abbrev pub heights : List VerifyType → ℕ
heights [] = 0
heights (ty ∷ tys) = height ty + heights tys

abbrev pub state_height : FrameState → ℕ
state_height state = heights state.locals + heights state.stack

abbrev pub bit : Bool → ℕ
bit true = 1
bit false = 0

height_le : (ty : VerifyType) → height ty ≤ 3
height_le top = omega arith
height_le null = omega arith
height_le (reference (some name)) = omega arith
height_le (reference none) = omega arith
height_le int = omega arith
height_le ty = omega arith

heights_le : (tys : List VerifyType) → heights tys ≤ 3 * length tys
heights_le [] = omega arith
heights_le (ty ∷ tys) = omega (arith, height_le ty, heights_le tys)

Below-height : (x z : VerifyType) → Below x z → (z ≡ x) ⊎ (height z < height x)
Below-height x z (same _) = inl refl
Below-height x z (null_below none) = inr (omega arith)
Below-height x z (null_below (some name)) = inr (omega arith)
Below-height x z (reference_below none) = inl refl
Below-height x z (reference_below (some name)) = inr (omega arith)
Below-height x z (top_above top) = inl refl
Below-height x z (top_above null) = inr (omega arith)
Below-height x z (top_above (reference none)) = inr (omega arith)
Below-height x z (top_above (reference (some name))) = inr (omega arith)
Below-height x z (top_above int) = inr (omega arith)
Below-height x z (top_above y) = inr (omega arith)

-- A merge leaves the height, or takes from it where it changes the type.
merge_falls :
    (x y z : VerifyType) → merge_type x y ≡ merged z → height z + bit (not (eq_type z x)) ≤ height x
merge_falls x y z e = elim (Below-height x z (upper x y z e).0) [
  | inl s ↦ let t : eq_type z x ≡ true = rw s (eq_type_refl x) in rw (t, s) (omega arith)
  | inr lt ↦ go (not (eq_type z x)) lt
]
  where
    go : (b : Bool) → height z < height x → height z + bit b ≤ height x
    go true lt = omega arith
    go false lt = omega arith

pub Merged-cases :
    (m : Merged) → ((ty : VerifyType) × (m ≡ merged ty)) ⊎ ((s : String) × (m ≡ failed s))
Merged-cases (merged ty) = inl (ty, refl)
Merged-cases (failed s) = inr (s, refl)

abbrev SlotFalls : VerifyType → VerifyType → Type 0
SlotFalls x ty = height ty + bit (not (eq_type ty x)) ≤ height x

merge_slot-Ensures :
    (pc : ℕ) (what : String) (i : ℕ) (x y : VerifyType)
    → Ensures (SlotFalls x) (merge_slot pc what i x y)
unfolding merge_slot
merge_slot-Ensures pc what i x y = elim (Merged-cases (merge_type x y)) [
  | inl (ty, e) ↦ rw (merge_slot, e) (returns ty (merge_falls x y ty e))
  | inr (s, e) ↦ rw (merge_slot, e) (fails _)
]

-- A list of types that has fallen.
abbrev pub Falls : List VerifyType → Slots → Type 0
Falls xs slots = (length slots.0 ≡ length xs) × (heights slots.0 + bit slots.1 ≤ heights xs)

put_slot-Falls :
    (x ty : VerifyType) (xs : List VerifyType) (rest : Slots)
    → SlotFalls x ty
    → Falls xs rest
    → Falls (x ∷ xs) (put_slot x ty rest)
put_slot-Falls x ty xs (tys, changed) h (l, k) = (ap suc l, go (not (eq_type ty x)) changed h k)
  where
    go :
        (a b : Bool)
        → height ty + bit a ≤ height x
        → heights tys + bit b ≤ heights xs
        → height ty + heights tys + bit (a || b) ≤ height x + heights xs
    go true true h k = omega arith
    go true false h k = omega arith
    go false true h k = omega arith
    go false false h k = omega arith

merge_locals-Ensures :
    (pc i : ℕ) (xs ys : List VerifyType) → Ensures (Falls xs) (merge_locals pc i xs ys)
unfolding merge_locals
merge_locals-Ensures pc i [] ys = returns _ (refl, omega arith)
merge_locals-Ensures pc i (x ∷ xs) [] = returns _ (refl, omega arith)
merge_locals-Ensures pc i (x ∷ xs) (y ∷ ys) =
    bind-Ensures (SlotFalls x) (Falls (x ∷ xs)) _ _ (merge_slot-Ensures pc "local" i x y) λ ty h.
      bind-Ensures (Falls xs) (Falls (x ∷ xs)) _ _ (merge_locals-Ensures pc (i + 1) xs ys)
        λ rest k. returns _ (put_slot-Falls x ty xs rest h k)

merge_stack-Ensures : (pc : ℕ) (xs ys : List VerifyType) → Ensures (Falls xs) (merge_stack pc xs ys)
unfolding merge_stack
merge_stack-Ensures pc [] ys = returns _ (refl, omega arith)
merge_stack-Ensures pc (x ∷ xs) [] = returns _ (refl, omega arith)
merge_stack-Ensures pc (x ∷ xs) (y ∷ ys) =
    bind-Ensures (Falls xs) (Falls (x ∷ xs)) _ _ (merge_stack-Ensures pc xs ys) λ rest k.
      bind-Ensures (SlotFalls x) (Falls (x ∷ xs)) _ _
        (merge_slot-Ensures pc "stack" (length xs) x y)
        λ ty h. returns _ (put_slot-Falls x ty xs rest h k)

pub resize-length : (n : ℕ) (xs : List VerifyType) → length xs ≡ n → resize n top xs ≡ xs
resize-length zero [] e = refl
resize-length zero (x ∷ xs) e = absurd (omega arith)
resize-length (suc n) [] e = absurd (omega arith)
resize-length (suc n) (x ∷ xs) e = ap (λ t. x ∷ t) (resize-length n xs (omega arith))

-- A frame state that has fallen, and keeps its shape.
abbrev pub StateFalls : ℕ → ℕ → ℕ → FrameState × Bool → Type 0
StateFalls n cap h m = Fits n cap m.0 × (state_height m.0 + bit m.1 ≤ h)

merge_frames-Ensures :
    (n cap pc : ℕ) (existing incoming : FrameState)
    → Fits n cap existing
    → Fits n cap incoming
    → Ensures (StateFalls n cap (state_height existing)) (merge_frames pc existing incoming)
unfolding merge_frames
merge_frames-Ensures n cap pc existing incoming (hn, hc) (kn, kc) =
    let P = StateFalls n cap (state_height existing) in
    let size : max (length existing.locals) (length incoming.locals) ≡ length existing.locals =
      ground arith in
    if-Ensures P (length existing.stack == length incoming.stack) _ _
      (λ t. bind-Ensures (Falls existing.locals) P _ _ (locals size) λ l h.
        bind-Ensures (Falls existing.stack) P _ _
          (merge_stack-Ensures pc existing.stack incoming.stack)
          λ s k. returns _ (together l s h k))
      (λ t. fails _)
  where
    locals :
        {size : ℕ}
        → size ≡ length existing.locals
        → Ensures
            (Falls existing.locals)
            (merge_locals pc 0 (resize size top existing.locals) (resize size top incoming.locals))
    locals e =
        rw (resize-length _ existing.locals (sym e)) (merge_locals-Ensures pc 0 existing.locals _)

    together :
        (l s : Slots)
        → Falls existing.locals l
        → Falls existing.stack s
        → StateFalls n cap
            (state_height existing)
            (record { locals = l.0; stack = s.0 }, l.1 || s.1)
    together (l, a) (s, b) (e, h) (f, k) = ((e ∙ hn, omega arith), bits a b h k)
      where
        bits :
            (a b : Bool)
            → heights l + bit a ≤ heights existing.locals
            → heights s + bit b ≤ heights existing.stack
            → heights l + heights s + bit (a || b) ≤ state_height existing
        bits true true h k = omega arith
        bits true false h k = omega arith
        bits false true h k = omega arith
        bits false false h k = omega arith

-- The most that the height of a slot of the search can be, which has no state yet.
abbrev pub full_height : ℕ → ℕ → ℕ
full_height n cap = suc (3 * (n + cap))

abbrev pub slot_height : ℕ → ℕ → Option FrameState → ℕ
slot_height n cap none = full_height n cap
slot_height n cap (some state) = state_height state

abbrev pub SlotFits : ℕ → ℕ → Option FrameState → Type 0
SlotFits n cap none = Unit
SlotFits n cap (some state) = Fits n cap state

pub state_height_lt :
    (n cap : ℕ) (state : FrameState) → Fits n cap state → state_height state < full_height n cap
state_height_lt n cap state (hn, hc) =
    omega (arith, heights_le state.locals, heights_le state.stack)

pub merge_state-Ensures :
    (n cap pc : ℕ) (slot : Option FrameState) (incoming : FrameState)
    → SlotFits n cap slot
    → Fits n cap incoming
    → Ensures (StateFalls n cap (slot_height n cap slot)) (merge_state slot incoming pc)
unfolding merge_state
merge_state-Ensures n cap pc none incoming h k =
    returns _ (k, omega (arith, state_height_lt n cap incoming k))
merge_state-Ensures n cap pc (some existing) incoming h k =
    merge_frames-Ensures n cap pc existing incoming h k
