-- ===== src/Verify/Fixpoint.antt =====
-- src/vm/verify.rs: what the states are that `verify_method` ends with.
use mathlib.Core.List.{Memᴰ}
use mathlib.Core.List.Memᴰ
use jvm_rs.Prelude.{
  ℕ, zero, suc, ◌≤◌, ◌≡◌, refl, sym, ap, ◌⊎◌, inl, inr, Option, none, some, List, [], ◌∷◌,
  get_elem?, arith,
}
use jvm_rs.Types.Value.{Result, ok, err, panic, verification_error}
use jvm_rs.Types.Action.{ok_or}
use jvm_rs.Types.Method.{Method}
use jvm_rs.Verify.Types.{FrameState}
use jvm_rs.Verify.Instruction.{DecodedInstruction}
use jvm_rs.Verify.Apply.{apply_instruction}
use jvm_rs.Verify.Scan.{instruction_at}
use jvm_rs.Verify.Method.{
  States, Search, Flow, handler_flows, target_flows, fallthrough_flows, ret_flows, after_of, visit,
  round, flow_loop,
}
use jvm_rs.Verify.Keeps.{Fits}
use jvm_rs.Verify.Keeps.Apply.{apply_instruction-Fits}
use jvm_rs.Verify.Ensures.{
  Ensures, returns, panics, bind-Ensures, known-Ensures, map-Ensures, ensured,
}
use jvm_rs.Verify.Descent.{Bounded, AllFlowsFit, slot-Fits}
use jvm_rs.Verify.Termination.{
  handler_flows-Fit, target_flows-Fit, fallthrough_flows-Fit, ret_flows-Fit,
}
use jvm_rs.Verify.Grows.{
  At, Grows, Covered, AllCovered, Grows-refl, Grows-trans, AllCovered-Grows, Covered-Grows, Merges,
  merge_all-Merges,
}

-- An instruction that is typed by the states: it applies to its own state, and all that flows from it
-- is covered.
pub record Settled (method : Method) (decoded : List DecodedInstruction) (states : States) (pc : ℕ)
    (state : FrameState) : Type 0 where
  pub insn : DecodedInstruction
  pub after : FrameState
  pub rets : List Flow
  pub decodes : instruction_at pc decoded ≡ some insn
  pub applies : apply_instruction method insn state ≡ (ok tt, after)
  pub returning : ret_flows insn after ≡ ok rets
  pub handled : AllCovered states (handler_flows pc state method.exception_handlers)
  pub falls : AllCovered states (fallthrough_flows insn after)
  pub returned : AllCovered states rets
  pub branches : AllCovered states (target_flows after insn.branch_targets)

Settled-Grows :
    (method : Method) (decoded : List DecodedInstruction) (s t : Search) (pc : ℕ)
    (state : FrameState)
    → Grows s t
    → Settled method decoded s.states pc state
    → Settled method decoded t.states pc state
Settled-Grows method decoded s t pc state g c = record {
  insn = c.insn;
  after = c.after;
  rets = c.rets;
  decodes = c.decodes;
  applies = c.applies;
  returning = c.returning;
  handled = AllCovered-Grows s t _ g c.handled;
  falls = AllCovered-Grows s t _ g c.falls;
  returned = AllCovered-Grows s t _ g c.returned;
  branches = AllCovered-Grows s t _ g c.branches;
}

after_of-≡ :
    (r : Result (Unit {0}) × FrameState) (after : FrameState)
    → after_of r ≡ ok after
    → r ≡ (ok tt, after)
after_of-≡ (ok u, a) after e = ground (arith, e)
after_of-≡ (err x, a) after e = absurd (cc)
after_of-≡ (panic, a) after e = absurd (cc)

ok_or-≡ : {A : Type 0} (o : Option A) (e : _) (a : A) → ok_or o e ≡ ok a → o ≡ some a
ok_or-≡ none e a h = absurd (cc)
ok_or-≡ (some b) e a h = let k : b ≡ a = cc in ap some k

module _ (n cap h : ℕ) (method : Method) (decoded : List DecodedInstruction) where
  -- The search after a round at an address.
  abbrev Visited : ℕ → FrameState → Search → Search → Type 0
  Visited pc state s s' =
      Bounded n cap h s' × Grows s s' × Settled method decoded s'.states pc state

  visit-Visited :
      (pc : ℕ) (state : FrameState) (s : Search)
      → method.max_stack ≤ cap
      → 1 ≤ cap
      → Fits n cap state
      → Bounded n cap h s
      → Ensures (Visited pc state s) (visit method decoded pc state s)
  unfolding visit
  visit-Visited pc state s le one fit b =
      let V = Visited pc state s in
      known-Ensures V
        (ok_or (instruction_at pc decoded) (verification_error pc "missing decoded instruction")) _
        λ insn d. known-Ensures V (after_of (apply_instruction method insn state)) _ λ after a.
          let a' = after_of-≡ _ after a in
          let k : Fits n cap after = rw a' at (apply_instruction-Fits method insn le state fit) in
          bind-Ensures (Merges n cap h s (handler_flows pc state method.exception_handlers)) V _ _
            (merge_all-Merges n cap h _ s
              (handler_flows-Fit n cap pc state method.exception_handlers one fit) b)
            λ s1 m1.
              bind-Ensures (Merges n cap h s1 (fallthrough_flows insn after)) V _ _
                (merge_all-Merges n cap h _ s1 (fallthrough_flows-Fit n cap insn after k) m1.0)
                λ s2 m2. known-Ensures V (ret_flows insn after) _ λ rets r.
                  bind-Ensures (Merges n cap h s2 rets) V _ _
                    (merge_all-Merges n cap h rets s2
                      (ensured (AllFlowsFit n cap) (ret_flows insn after) rets
                        (ret_flows-Fit n cap insn after k) r)
                      m2.0)
                    λ s3 m3.
                      map-Ensures (Merges n cap h s3 (target_flows after insn.branch_targets)) V _
                        (merge_all-Merges n cap h _ s3
                          (target_flows-Fit n cap after insn.branch_targets k) m3.0)
                        λ s4 m4.
                          let g3 = m4.1 in
                          let g2 = Grows-trans s2 s3 s4 m3.1 g3 in
                          let g1 = Grows-trans s1 s2 s4 m2.1 g2 in
                          (
                            m4.0,
                            Grows-trans s s1 s4 m1.1 g1,
                            record {
                              insn = insn;
                              after = after;
                              rets = rets;
                              decodes = ok_or-≡ (instruction_at pc decoded) _ insn d;
                              applies = a';
                              returning = r;
                              handled = AllCovered-Grows s1 s4 _ g1 m1.2;
                              falls = AllCovered-Grows s2 s4 _ g2 m2.2;
                              returned = AllCovered-Grows s3 s4 _ g3 m3.2;
                              branches = m4.2;
                            },
                          )

  -- What is not queued is settled.
  abbrev Inv : Search → Type 0
  Inv s =
      (i : ℕ) (state : FrameState)
      → At s.states i state
      → Memᴰ i s.queue ⊎ Settled method decoded s.states i state

  round-Inv :
      (pc : ℕ) (states : States) (queue : List ℕ)
      → method.max_stack ≤ cap
      → 1 ≤ cap
      → Bounded n cap h (record { states = states; queue = queue })
      → Inv (record { states = states; queue = pc ∷ queue })
      → Ensures
          (λ s'. Bounded n cap h s' × Grows (record { states = states; queue = queue }) s' × Inv s')
          (round method decoded pc (record { states = states; queue = queue }))
  unfolding round
  round-Inv pc states queue le one b inv = go (get_elem? states pc) refl
    where
      s : Search
      s = record { states = states; queue = queue }

      P : Search → Type 0
      P s' = Bounded n cap h s' × Grows s s' × Inv s'

      unvisited : get_elem? states pc ≡ some none → Inv s
      unvisited e i state at = elim (inv i state at) [
        | inl m ↦ elim m [
          | Memᴰ.head f ↦ (let e' : get_elem? states i ≡ some none = rw f e in absurd (cc))
          | Memᴰ.tail q ↦ inl q
        ]
        | inr c ↦ inr c
      ]

      visited :
          (state : FrameState) → At states pc state → (s' : Search) → Visited pc state s s' → Inv s'
      visited state at s' v i st st_at = elim (v.1.fresh i st st_at) [
        | inl q ↦ inl q
        | inr old ↦ elim (inv i st old) [
          | inl m ↦ elim m [
            | Memᴰ.head f ↦
                let same : state ≡ st = (let o : At states pc st = rw⁻¹ f old in cc) in
                inr (rw (f, sym same) v.2)
            | Memᴰ.tail q ↦ inl (v.1.queued i q)
          ]
          | inr c ↦ inr (Settled-Grows method decoded s s' i st v.1 c)
        ]
      ]

      go :
          (o : Option (Option FrameState))
          → get_elem? states pc ≡ o
          → Ensures P (round method decoded pc s)
      go none e = rw (round, e) panics
      go (some none) e = rw (round, e) (returns s (b, Grows-refl s, unvisited e))
      go (some (some state)) e =
          rw (round, e)
            (map-Ensures (Visited pc state s) P _
              (visit-Visited pc state s le one (slot-Fits n cap states pc (some state) b.0 e) b)
              λ s' v. (v.0, v.1, visited state e s' v))

  -- The states that the loop ends with: above those it began with, and all settled.
  abbrev Fixed : States → States → Type 0
  Fixed states final =
      ((flow : Flow) → Covered states flow → Covered final flow)
      × ((i : ℕ) (state : FrameState) → At final i state → Settled method decoded final i state)

  pub flow_loop-Fixed :
      (fuel : ℕ) (states final : States) (queue : List ℕ)
      → method.max_stack ≤ cap
      → 1 ≤ cap
      → Bounded n cap h (record { states = states; queue = queue })
      → Inv (record { states = states; queue = queue })
      → flow_loop fuel method decoded (record { states = states; queue = queue }) ≡ some (ok final)
      → Fixed states final
  unfolding flow_loop
  flow_loop-Fixed zero states final queue le one b inv e = absurd (cc)
  flow_loop-Fixed (suc fuel) states final [] le one b inv e =
      let same : states ≡ final = cc in
      rw⁻¹ same (
        (λ flow c. c),
        λ i state at. elim (inv i state at) [ inl m ↦ absurd (Memᴰ.not-nil m) | inr c ↦ c ],
      )
  flow_loop-Fixed (suc fuel) states final (pc ∷ queue) le one b inv e =
      let b' : Bounded n cap h next = (b.0, omega (arith, b.1)) in
      go (round method decoded pc next) (round-Inv pc states queue le one b' inv) e
        λ s' c i f. flow_loop-Fixed fuel s'.states final s'.queue le one c i f
    where
      next : Search
      next = record { states = states; queue = queue }

      go :
          (r : Result Search)
          → Ensures (λ s'. Bounded n cap h s' × Grows next s' × Inv s') r
          → (elim r [
            | ok s ↦ flow_loop fuel method decoded s
            | err x ↦ some (err x)
            | panic ↦ some panic
          ])
            ≡ some (ok final)
          → ((s' : Search)
              → Bounded n cap h s'
              → Inv s'
              → flow_loop fuel method decoded s' ≡ some (ok final)
              → Fixed s'.states final)
          → Fixed states final
      go (ok s') (returns _ p) f k =
          let (a, c) = k s' p.0 p.2 f in ((λ flow d. a flow (Covered-Grows next s' flow p.1 d)), c)
      go (err x) p f k = absurd (cc)
      go panic p f k = absurd (cc)
