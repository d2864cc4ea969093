-- ===== src/Verify/Descent.antt =====
-- src/vm/verify.rs: a round of `verify_method` takes from the heights of the states what it adds to
-- the queue.
use jvm_rs.Prelude.{
  ℕ, zero, suc, ◌+◌, ◌≤◌, ◌≡◌, refl, ap, Bool, true, false, Option, none, some, List, [], ◌∷◌, ◌++◌,
  if◌then◌else◌, length, get_elem?, set, arith,
}
use jvm_rs.Verify.Types.{FrameState}
use jvm_rs.Verify.Method.{States, Search, Flow, merge_into, merge_all}
use jvm_rs.Verify.Keeps.{Fits}
use jvm_rs.Verify.Ensures.{Ensures, returns, panics, bind-Ensures}
use jvm_rs.Verify.Heights.{
  bit, slot_height, SlotFits, state_height, StateFalls, merge_state-Ensures,
}

module _ (n cap : ℕ) where
  -- The heights of all states
  abbrev pub total : States → ℕ
  total [] = 0
  total (slot ∷ slots) = slot_height n cap slot + total slots

  abbrev pub AllSlotsFit : States → Type 0
  AllSlotsFit [] = Unit
  AllSlotsFit (slot ∷ slots) = SlotFits n cap slot × AllSlotsFit slots

  -- A search with states of the right shape, whose queue and heights come to no more than a bound
  abbrev pub Bounded : ℕ → Search → Type 0
  Bounded h s = AllSlotsFit s.states × (total s.states + length s.queue ≤ h)

  abbrev pub AllFlowsFit : List Flow → Type 0
  AllFlowsFit [] = Unit
  AllFlowsFit (flow ∷ flows) = Fits n cap flow.1 × AllFlowsFit flows

  pub slot-Fits :
      (states : States) (i : ℕ) (slot : Option FrameState)
      → AllSlotsFit states
      → get_elem? states i ≡ some slot
      → SlotFits n cap slot
  slot-Fits [] i slot h e = absurd (cc)
  slot-Fits (s ∷ states) zero slot h e = let e' : s ≡ slot = cc in rw⁻¹ e' h.0
  slot-Fits (s ∷ states) (suc i) slot h e = slot-Fits states i slot h.1 e

  pub set-Fits :
      (states : States) (i : ℕ) (state : FrameState)
      → AllSlotsFit states
      → Fits n cap state
      → AllSlotsFit (set states i (some state))
  set-Fits [] i state h k = tt
  set-Fits (s ∷ states) zero state h k = (k, h.1)
  set-Fits (s ∷ states) (suc i) state h k = (h.0, set-Fits states i state h.1 k)

  pub total-set :
      (states : States) (i : ℕ) (slot : Option FrameState) (state : FrameState)
      → get_elem? states i ≡ some slot
      → total (set states i (some state)) + slot_height n cap slot
        ≡ total states + state_height state
  total-set [] i slot state e = absurd (cc)
  total-set (s ∷ states) zero slot state e = let e' : s ≡ slot = cc in rw⁻¹ e' (omega arith)
  total-set (s ∷ states) (suc i) slot state e = omega (arith, total-set states i slot state e)

  length-append_one : (xs : List ℕ) (x : ℕ) → length (xs ++ x ∷ []) ≡ suc (length xs)
  length-append_one [] x = refl
  length-append_one (y ∷ xs) x = ap suc (length-append_one xs x)

  -- The search after a merge.
  merged_search :
      (h target : ℕ) (s : Search) (slot : Option FrameState) (m : FrameState × Bool)
      → Bounded h s
      → get_elem? s.states target ≡ some slot
      → StateFalls n cap (slot_height n cap slot) m
      → Bounded h (record {
        states = set s.states target (some m.0);
        queue = if m.1 then s.queue ++ target ∷ [] else s.queue;
      })
  merged_search h target s slot (state, changed) (fit, le) e (k, falls) =
      (set-Fits s.states target state fit k, go changed falls)
    where
      go :
          (b : Bool)
          → state_height state + bit b ≤ slot_height n cap slot
          → total (set s.states target (some state))
              + length (if b then s.queue ++ target ∷ [] else s.queue)
            ≤ h
      go true f =
          omega (arith, total-set s.states target slot state e, length-append_one s.queue target)
      go false f = omega (arith, total-set s.states target slot state e)

  pub merge_into-Ensures :
      (h target : ℕ) (incoming : FrameState) (s : Search)
      → Fits n cap incoming
      → Bounded h s
      → Ensures (Bounded h) (merge_into target incoming s)
  unfolding merge_into
  merge_into-Ensures h target incoming s k b = go (get_elem? s.states target) refl
    where
      go :
          (o : Option (Option FrameState))
          → get_elem? s.states target ≡ o
          → Ensures (Bounded h) (merge_into target incoming s)
      go none e = rw (merge_into, e) panics
      go (some slot) e =
          rw (merge_into, e)
            (bind-Ensures (StateFalls n cap (slot_height n cap slot)) (Bounded h) _ _
              (merge_state-Ensures n cap target slot incoming (slot-Fits s.states target slot b.0 e)
                k)
              λ m f. returns _ (merged_search h target s slot m b e f))

  pub merge_all-Ensures :
      (h : ℕ) (flows : List Flow) (s : Search)
      → AllFlowsFit flows
      → Bounded h s
      → Ensures (Bounded h) (merge_all flows s)
  unfolding merge_all
  merge_all-Ensures h [] s k b = returns s b
  merge_all-Ensures h (flow ∷ flows) s k b =
      bind-Ensures (Bounded h) (Bounded h) _ _ (merge_into-Ensures h flow.0 flow.1 s k.0 b)
        λ s' b'. merge_all-Ensures h flows s' k.1 b'
