-- ===== src/Verify/Grows.antt =====
-- src/vm/verify.rs: what a merge into the states of the search leaves of them.
use mathlib.Core.List.{Memᴰ}
use jvm_rs.Prelude.{
  ℕ, zero, suc, ◌≡◌, refl, sym, ap, ◌∙◌, ◌⊎◌, inl, inr, Bool, true, false, Option, none, some, List,
  [], ◌∷◌, ◌++◌, if◌then◌else◌, ◌==◌, ==_iff, Bool-cases, get_elem?, set, get_elem?-set_ne, arith,
}
use jvm_rs.Verify.Types.{FrameState}
use jvm_rs.Verify.Method.{States, Search, Flow, merge_into, merge_all}
use jvm_rs.Verify.Keeps.{Fits}
use jvm_rs.Verify.Ensures.{Ensures, returns, panics, bind-Ensures, both-Ensures, map-Ensures}
use jvm_rs.Verify.Descent.{Bounded, AllFlowsFit, slot-Fits, merge_into-Ensures}
use jvm_rs.Verify.Covers.{Under, Under-refl, Under-trans, StateCovers, merge_state-Covers}

-- The state of an instruction that is reached
abbrev pub At : States → ℕ → FrameState → Type 0
At states i state = get_elem? states i ≡ some (some state)

-- States only rise, the queue loses nothing, and what is not queued has the state that it had.
pub record Grows (s s' : Search) : Type 0 where
  pub rises :
      (i : ℕ) (state : FrameState)
      → At s.states i state
      → (state' : FrameState) × At s'.states i state' × Under state state'
  pub queued : (i : ℕ) → Memᴰ i s.queue → Memᴰ i s'.queue
  pub fresh :
      (i : ℕ) (state : FrameState) → At s'.states i state → Memᴰ i s'.queue ⊎ At s.states i state

-- A flow that the state of its target is above.
abbrev pub Covered : States → Flow → Type 0
Covered states flow = (state : FrameState) × At states flow.0 state × Under flow.1 state

abbrev pub AllCovered : States → List Flow → Type 0
AllCovered states [] = Unit
AllCovered states (flow ∷ flows) = Covered states flow × AllCovered states flows

pub Grows-refl : (s : Search) → Grows s s
Grows-refl s = record {
  rises = λ i state at. (state, at, Under-refl state);
  queued = λ i m. m;
  fresh = λ i state at. inr at;
}

pub Grows-trans : (s t u : Search) → Grows s t → Grows t u → Grows s u
Grows-trans s t u g h = record {
  rises = λ i state at.
      let (a, b, c) = g.rises i state at in
      let (d, e, f) = h.rises i a b in (d, e, Under-trans state a d c f);
  queued = λ i m. h.queued i (g.queued i m);
  fresh = λ i state at. elim (h.fresh i state at) [
    | inl m ↦ inl m
    | inr b ↦ elim (g.fresh i state b) [ inl m ↦ inl (h.queued i m) | inr c ↦ inr c ]
  ];
}

pub Covered-Grows :
    (s t : Search) (flow : Flow) → Grows s t → Covered s.states flow → Covered t.states flow
Covered-Grows s t flow g (state, at, under) =
    let (a, b, c) = g.rises flow.0 state at in (a, b, Under-trans flow.1 state a under c)

pub AllCovered-Grows :
    (s t : Search) (flows : List Flow)
    → Grows s t
    → AllCovered s.states flows
    → AllCovered t.states flows
AllCovered-Grows s t [] g h = tt
AllCovered-Grows s t (flow ∷ flows) g h =
    (Covered-Grows s t flow g h.0, AllCovered-Grows s t flows g h.1)

queued_last : (xs : List ℕ) (x : ℕ) → Memᴰ x (xs ++ x ∷ [])
queued_last [] x = Memᴰ.head refl
queued_last (y ∷ xs) x = Memᴰ.tail (queued_last xs x)

queued_append : (xs : List ℕ) (x y : ℕ) → Memᴰ y xs → Memᴰ y (xs ++ x ∷ [])
queued_append [] x y m = elim m [ ]
queued_append (z ∷ xs) x y (Memᴰ.head e) = Memᴰ.head e
queued_append (z ∷ xs) x y (Memᴰ.tail m) = Memᴰ.tail (queued_append xs x y m)

get_elem?-set_found :
    {A : Type 0} (xs : List A) (i : ℕ) (a v : A)
    → get_elem? xs i ≡ some a
    → get_elem? (set xs i v) i ≡ some v
get_elem?-set_found [] i a v e = absurd (cc)
get_elem?-set_found (x ∷ xs) zero a v e = refl
get_elem?-set_found (x ∷ xs) (suc i) a v e = get_elem?-set_found xs i a v e

-- The search after a merge into a target with the slot.
abbrev after_merge : ℕ → FrameState × Bool → Search → Search
after_merge target m s = record {
  states = set s.states target (some m.0);
  queue = if m.1 then s.queue ++ target ∷ [] else s.queue;
}

module _ (target : ℕ) (incoming : FrameState) (s : Search) (slot : Option FrameState)
    (m : FrameState × Bool) (e : get_elem? s.states target ≡ some slot)
    (covers : StateCovers slot incoming m) where
  At-target : At (after_merge target m s).states target m.0
  At-target = get_elem?-set_found s.states target slot (some m.0) e

  target_rises : (state : FrameState) → At s.states target state → Under state m.0
  target_rises state at = go slot e covers
    where
      go :
          (o : Option FrameState)
          → get_elem? s.states target ≡ some o
          → StateCovers o incoming m
          → Under state m.0
      go none f c = absurd (cc)
      go (some existing) f c = let same : existing ≡ state = cc in rw⁻¹ same c.1.0

  target_fresh :
      (b : Bool) → m.1 ≡ b → Memᴰ target (after_merge target m s).queue ⊎ At s.states target m.0
  target_fresh true f = inl (rw f (queued_last s.queue target))
  target_fresh false f = inr (go slot e covers)
    where
      go :
          (o : Option FrameState)
          → get_elem? s.states target ≡ some o
          → StateCovers o incoming m
          → At s.states target m.0
      go none g c = let h : m.1 ≡ true = c.1 in absurd (cc)
      go (some existing) g c = rw (c.1.1 f) g

  still_queued :
      (i : ℕ) (b : Bool) → m.1 ≡ b → Memᴰ i s.queue → Memᴰ i (after_merge target m s).queue
  still_queued i true f q = rw f (queued_append s.queue target i q)
  still_queued i false f q = rw f q

  after_merge-Grows : Grows s (after_merge target m s)
  after_merge-Grows = record {
    rises = λ i state at. elim (Bool-cases (target == i)) [
      | inl t ↦
          let t' : target ≡ i = (==_iff target i).0 t in
          (m.0, rw⁻¹ t' At-target, target_rises state (rw t' at))
      | inr t ↦ (
        state,
        get_elem?-set_ne s.states target i (some m.0) (ground (arith, t)) ∙ at,
        Under-refl state,
      )
    ];
    queued = λ i q. still_queued i m.1 refl q;
    fresh = λ i state at. elim (Bool-cases (target == i)) [
      | inl t ↦
          let t' : target ≡ i = (==_iff target i).0 t in
          let at' : At (after_merge target m s).states target state =
            ap (get_elem? (after_merge target m s).states) t' ∙ at in
          let top' : m.0 ≡ state = (let h = At-target in cc) in
          let f : Memᴰ target (after_merge target m s).queue ⊎ At s.states target state =
            rw top' at (target_fresh m.1 refl) in
          rw⁻¹ t' f
      | inr t ↦ inr (sym (get_elem?-set_ne s.states target i (some m.0) (ground (arith, t))) ∙ at)
    ];
  }

-- What a merge of flows ensures of the search: its bound, its growth, and that the flows are covered.
abbrev pub Merges : ℕ → ℕ → ℕ → Search → List Flow → Search → Type 0
Merges n cap h s flows s' = Bounded n cap h s' × Grows s s' × AllCovered s'.states flows

module _ (n cap h : ℕ) where
  merge_into-Grows :
      (target : ℕ) (incoming : FrameState) (s : Search)
      → Fits n cap incoming
      → Bounded n cap h s
      → Ensures
          (λ s'. Grows s s' × Covered s'.states (target, incoming))
          (merge_into target incoming s)
  unfolding merge_into
  merge_into-Grows target incoming s k b = go (get_elem? s.states target) refl
    where
      P : Search → Type 0
      P s' = Grows s s' × Covered s'.states (target, incoming)

      go :
          (o : Option (Option FrameState))
          → get_elem? s.states target ≡ o
          → Ensures P (merge_into target incoming s)
      go none e = rw (merge_into, e) panics
      go (some slot) e =
          rw (merge_into, e)
            (bind-Ensures (StateCovers slot incoming) P _ _
              (merge_state-Covers n cap target slot incoming
                (slot-Fits n cap s.states target slot b.0 e) k)
              λ m c. returns (after_merge target m s) (
                after_merge-Grows target incoming s slot m e c,
                (m.0, At-target target incoming s slot m e c, c.0),
              ))

  pub merge_all-Merges :
      (flows : List Flow) (s : Search)
      → AllFlowsFit n cap flows
      → Bounded n cap h s
      → Ensures (Merges n cap h s flows) (merge_all flows s)
  unfolding merge_all
  merge_all-Merges [] s k b = returns s (b, Grows-refl s, tt)
  merge_all-Merges (flow ∷ flows) s k b =
      bind-Ensures (λ s'. Bounded n cap h s' × (Grows s s' × Covered s'.states flow))
        (Merges n cap h s (flow ∷ flows)) _ _
        (both-Ensures (Bounded n cap h) (λ s'. Grows s s' × Covered s'.states flow) _
          (merge_into-Ensures n cap h flow.0 flow.1 s k.0 b)
          (merge_into-Grows flow.0 flow.1 s k.0 b))
        λ s1 p.
          map-Ensures (Merges n cap h s1 flows) (Merges n cap h s (flow ∷ flows)) _
            (merge_all-Merges flows s1 k.1 p.0)
            λ s2 q. (q.0, Grows-trans s s1 s2 p.1.0 q.1, (Covered-Grows s1 s2 flow q.1 p.1.1, q.2))
