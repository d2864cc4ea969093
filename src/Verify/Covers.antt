-- ===== src/Verify/Covers.antt =====
-- src/vm/verify.rs: a merge of two states against the order of the types.
use jvm_rs.Prelude.{
  ℕ, ◌+◌, ◌≡◌, refl, sym, inl, inr, Bool, true, false, not, ◌||◌, Option, none, some, List, [], ◌∷◌,
  String, length, resize, ◌==◌, ==_iff, arith,
}
use jvm_rs.Verify.Types.{VerifyType, top, FrameState, eq_type, merge_type}
use jvm_rs.Verify.Merge.{
  merge_slot, Slots, put_slot, merge_locals, merge_stack, max, merge_frames, merge_state,
}
use jvm_rs.Verify.Lattice.{Below, same, upper, Below-trans, eq_type-≡}
use jvm_rs.Verify.Ensures.{Ensures, returns, fails, bind-Ensures, if-Ensures}
use jvm_rs.Verify.Keeps.{Fits}
use jvm_rs.Verify.Heights.{Merged-cases, resize-length, SlotFits}

-- One list of types below another, and one state below another: slot by slot.
pub data ListBelow : List VerifyType → List VerifyType → Type 0 where
  ends : ListBelow [] []
  slot_below :
      (x z : VerifyType) (xs zs : List VerifyType)
      → Below x z
      → ListBelow xs zs
      → ListBelow (x ∷ xs) (z ∷ zs)

abbrev pub Under : FrameState → FrameState → Type 0
Under a b = ListBelow a.locals b.locals × ListBelow a.stack b.stack

ListBelow_refl : (xs : List VerifyType) → ListBelow xs xs
ListBelow_refl [] = ends
ListBelow_refl (x ∷ xs) = slot_below x x xs xs (same x) (ListBelow_refl xs)

ListBelow_trans : (xs ys zs : List VerifyType) → ListBelow xs ys → ListBelow ys zs → ListBelow xs zs
ListBelow_trans xs ys zs ends k = k
ListBelow_trans xs ys zs (slot_below x y as' bs h hs) (slot_below _ z _ cs k ks) =
    slot_below x z as' cs (Below-trans x y z h k) (ListBelow_trans as' bs cs hs ks)

pub Under-refl : (a : FrameState) → Under a a
Under-refl a = (ListBelow_refl a.locals, ListBelow_refl a.stack)

pub Under-trans : (a b c : FrameState) → Under a b → Under b c → Under a c
Under-trans a b c h k = (ListBelow_trans _ _ _ h.0 k.0, ListBelow_trans _ _ _ h.1 k.1)

-- A type above two others, which is the first one if it did not change.
abbrev SlotCovers : VerifyType → VerifyType → VerifyType → Type 0
SlotCovers x y ty = Below x ty × Below y ty

merge_slot-Covers :
    (pc : ℕ) (what : String) (i : ℕ) (x y : VerifyType)
    → Ensures (SlotCovers x y) (merge_slot pc what i x y)
unfolding merge_slot
merge_slot-Covers pc what i x y = elim (Merged-cases (merge_type x y)) [
  | inl (ty, e) ↦ rw (merge_slot, e) (returns ty (upper x y ty e))
  | inr (s, e) ↦ rw (merge_slot, e) (fails _)
]

abbrev SlotsCover : List VerifyType → List VerifyType → Slots → Type 0
SlotsCover xs ys slots =
    ListBelow xs slots.0 × ListBelow ys slots.0 × (slots.1 ≡ false → slots.0 ≡ xs)

put_slot-Cover :
    (x y ty : VerifyType) (xs ys : List VerifyType) (rest : Slots)
    → SlotCovers x y ty
    → SlotsCover xs ys rest
    → SlotsCover (x ∷ xs) (y ∷ ys) (put_slot x ty rest)
put_slot-Cover x y ty xs ys (tys, changed) h (a, b, k) = (
  slot_below x ty xs tys h.0 a,
  slot_below y ty ys tys h.1 b,
  λ e. go (eq_type ty x) changed refl refl e,
)
  where
    go : (c d : Bool) → eq_type ty x ≡ c → changed ≡ d → not c || d ≡ false → ty ∷ tys ≡ x ∷ xs
    go true false e f g = let s : ty ≡ x = eq_type-≡ ty x e in let t : tys ≡ xs = k f in cc
    go true true e f g = absurd (cc)
    go false d e f g = absurd (cc)

merge_locals-Cover :
    (pc i : ℕ) (xs ys : List VerifyType)
    → length xs ≡ length ys
    → Ensures (SlotsCover xs ys) (merge_locals pc i xs ys)
unfolding merge_locals
merge_locals-Cover pc i [] [] e = returns _ (ends, ends, λ f. refl)
merge_locals-Cover pc i [] (y ∷ ys) e = absurd (omega arith)
merge_locals-Cover pc i (x ∷ xs) [] e = absurd (omega arith)
merge_locals-Cover pc i (x ∷ xs) (y ∷ ys) e =
    let P = SlotsCover (x ∷ xs) (y ∷ ys) in
    bind-Ensures (SlotCovers x y) P _ _ (merge_slot-Covers pc "local" i x y) λ ty h.
      bind-Ensures (SlotsCover xs ys) P _ _ (merge_locals-Cover pc (i + 1) xs ys (omega arith))
        λ rest k. returns _ (put_slot-Cover x y ty xs ys rest h k)

merge_stack-Cover :
    (pc : ℕ) (xs ys : List VerifyType)
    → length xs ≡ length ys
    → Ensures (SlotsCover xs ys) (merge_stack pc xs ys)
unfolding merge_stack
merge_stack-Cover pc [] [] e = returns _ (ends, ends, λ f. refl)
merge_stack-Cover pc [] (y ∷ ys) e = absurd (omega arith)
merge_stack-Cover pc (x ∷ xs) [] e = absurd (omega arith)
merge_stack-Cover pc (x ∷ xs) (y ∷ ys) e =
    let P = SlotsCover (x ∷ xs) (y ∷ ys) in
    bind-Ensures (SlotsCover xs ys) P _ _ (merge_stack-Cover pc xs ys (omega arith)) λ rest k.
      bind-Ensures (SlotCovers x y) P _ _ (merge_slot-Covers pc "stack" (length xs) x y)
        λ ty h. returns _ (put_slot-Cover x y ty xs ys rest h k)

-- What the merge leaves is above the incoming state and above the one that was there, which it is if
-- nothing has changed.
abbrev Kept : Option FrameState → FrameState × Bool → Type 0
Kept none m = m.1 ≡ true
Kept (some state) m = Under state m.0 × (m.1 ≡ false → m.0 ≡ state)

abbrev pub StateCovers : Option FrameState → FrameState → FrameState × Bool → Type 0
StateCovers slot incoming m = Under incoming m.0 × Kept slot m

abbrev frame_of : List VerifyType → List VerifyType → FrameState
frame_of l s = record { locals = l; stack = s }

merge_frames-Covers :
    (n cap pc : ℕ) (existing incoming : FrameState)
    → Fits n cap existing
    → Fits n cap incoming
    → Ensures (StateCovers (some existing) incoming) (merge_frames pc existing incoming)
unfolding merge_frames
merge_frames-Covers n cap pc existing incoming (hn, hc) (kn, kc) =
    let P = StateCovers (some existing) incoming in
    let size : max (length existing.locals) (length incoming.locals) ≡ length existing.locals =
      ground arith in
    if-Ensures P (length existing.stack == length incoming.stack) _ _
      (λ t. bind-Ensures (SlotsCover existing.locals incoming.locals) P _ _ (locals size) λ l h.
        bind-Ensures (SlotsCover existing.stack incoming.stack) P _ _
          (merge_stack-Cover pc existing.stack incoming.stack ((==_iff _ _).0 t))
          λ s k. returns _ (together l s h k))
      (λ t. fails _)
  where
    locals :
        {size : ℕ}
        → size ≡ length existing.locals
        → Ensures
            (SlotsCover existing.locals incoming.locals)
            (merge_locals pc 0 (resize size top existing.locals) (resize size top incoming.locals))
    locals {size} e =
        rw
          (
            resize-length size existing.locals (sym e),
            resize-length size incoming.locals (omega arith),
          )
          (merge_locals-Cover pc 0 existing.locals incoming.locals (omega arith))

    together :
        (l s : Slots)
        → SlotsCover existing.locals incoming.locals l
        → SlotsCover existing.stack incoming.stack s
        → StateCovers (some existing) incoming (record { locals = l.0; stack = s.0 }, l.1 || s.1)
    together (l, a) (s, b) (p, q, r) (u, v, w) = ((q, v), ((p, u), λ e. go a b refl refl e))
      where
        go : (c d : Bool) → a ≡ c → b ≡ d → c || d ≡ false → frame_of l s ≡ existing
        go false false e f g = rw (r e, w f) refl
        go true d e f g = absurd (cc)
        go false true e f g = absurd (cc)

pub merge_state-Covers :
    (n cap pc : ℕ) (slot : Option FrameState) (incoming : FrameState)
    → SlotFits n cap slot
    → Fits n cap incoming
    → Ensures (StateCovers slot incoming) (merge_state slot incoming pc)
unfolding merge_state
merge_state-Covers n cap pc none incoming h k = returns _ (Under-refl incoming, refl)
merge_state-Covers n cap pc (some existing) incoming h k =
    merge_frames-Covers n cap pc existing incoming h k
