-- ===== src/Verify/Termination.antt =====
-- src/vm/verify.rs: the loop of `verify_method` against its fuel.
use jvm_rs.Prelude.{
  ℕ, zero, suc, ◌≤◌, ◌≡◌, refl, Bool, true, false, ◌&&◌, Option, none, some, List, [], ◌∷◌,
  if◌then◌else◌, leb, ltb, get_elem?, arith,
}
use jvm_rs.Types.Value.{Result, ok, err, panic, verification_error}
use jvm_rs.Types.Action.{ok_or}
use jvm_rs.Types.Method.{Method, ExceptionHandler}
use jvm_rs.Verify.Types.{FrameState}
use jvm_rs.Verify.Instruction.{DecodedInstruction}
use jvm_rs.Verify.Arms.{ret_target}
use jvm_rs.Verify.Scan.{instruction_at}
use jvm_rs.Verify.Method.{
  States, Search, has_fallthrough, is_ret, catch_type, handler_flows, target_flows,
  fallthrough_flows, ret_flows, after_of, visit, round, flow_loop,
}
use jvm_rs.Verify.Keeps.{Fits}
use jvm_rs.Verify.Keeps.Apply.{apply_instruction-Fits}
use jvm_rs.Verify.Ensures.{Ensures, returns, fails, panics, bind-Ensures, then-Ensures, if-Ensures}
use jvm_rs.Verify.Descent.{AllSlotsFit, Bounded, AllFlowsFit, slot-Fits, merge_all-Ensures}

module _ (n cap : ℕ) where
  pub handler_flows-Fit :
      (pc : ℕ) (state : FrameState) (handlers : List ExceptionHandler)
      → 1 ≤ cap
      → Fits n cap state
      → AllFlowsFit n cap (handler_flows pc state handlers)
  unfolding handler_flows
  handler_flows-Fit pc state [] one fit = tt
  handler_flows-Fit pc state (h ∷ handlers) one fit =
      go (leb h.start_pc pc && ltb pc h.end_pc) (handler_flows-Fit pc state handlers one fit)
    where
      go :
          (b : Bool)
          → AllFlowsFit n cap (handler_flows pc state handlers)
          → AllFlowsFit n cap (
              if b
              then ((
                h.handler_pc,
                record { locals = state.locals; stack = catch_type h.catch_class ∷ [] },
              )
                  ∷ handler_flows pc state handlers)
              else handler_flows pc state handlers)
      go true rest = ((fit.0, one), rest)
      go false rest = rest

  pub target_flows-Fit :
      (after : FrameState) (targets : List ℕ)
      → Fits n cap after
      → AllFlowsFit n cap (target_flows after targets)
  unfolding target_flows
  target_flows-Fit after [] fit = tt
  target_flows-Fit after (target ∷ targets) fit = (fit, target_flows-Fit after targets fit)

  pub fallthrough_flows-Fit :
      (insn : DecodedInstruction) (after : FrameState)
      → Fits n cap after
      → AllFlowsFit n cap (fallthrough_flows insn after)
  unfolding fallthrough_flows
  fallthrough_flows-Fit insn after fit = go (has_fallthrough insn.opcode)
    where
      go : (b : Bool) → AllFlowsFit n cap (if b then ((insn.next_pc, after) ∷ []) else [])
      go true = (fit, tt)
      go false = tt

  pub ret_flows-Fit :
      (insn : DecodedInstruction) (after : FrameState)
      → Fits n cap after
      → Ensures (AllFlowsFit n cap) (ret_flows insn after)
  unfolding ret_flows
  ret_flows-Fit insn after fit =
      if-Ensures (AllFlowsFit n cap) (is_ret insn.opcode) _ _
        (λ t.
          then-Ensures (AllFlowsFit n cap) (ret_target after insn) _ λ target. returns _ (fit, tt))
        (λ t. returns _ tt)

  after_of-Fits :
      (r : Result (Unit {0}) × FrameState) → Fits n cap r.1 → Ensures (Fits n cap) (after_of r)
  after_of-Fits (ok u, after) fit = returns after fit
  after_of-Fits (err e, after) fit = fails e
  after_of-Fits (panic, after) fit = panics

  visit-Ensures :
      (h : ℕ) (method : Method) (decoded : List DecodedInstruction) (pc : ℕ) (state : FrameState)
      (s : Search)
      → method.max_stack ≤ cap
      → 1 ≤ cap
      → Fits n cap state
      → Bounded n cap h s
      → Ensures (Bounded n cap h) (visit method decoded pc state s)
  unfolding visit
  visit-Ensures h method decoded pc state s le one fit b =
      let B = Bounded n cap h in
      then-Ensures B
        (ok_or (instruction_at pc decoded) (verification_error pc "missing decoded instruction")) _
        λ insn.
          bind-Ensures (Fits n cap) B _ _
            (after_of-Fits _ (apply_instruction-Fits method insn le state fit))
            λ after k.
              bind-Ensures B B _ _
                (merge_all-Ensures n cap h _ s
                  (handler_flows-Fit pc state method.exception_handlers one fit) b)
                λ s1 b1.
                  bind-Ensures B B _ _
                    (merge_all-Ensures n cap h _ s1 (fallthrough_flows-Fit insn after k) b1)
                    λ s2 b2.
                      bind-Ensures (AllFlowsFit n cap) B _ _ (ret_flows-Fit insn after k) λ rets f.
                        bind-Ensures B B _ _ (merge_all-Ensures n cap h rets s2 f b2) λ s3 b3.
                          merge_all-Ensures n cap h _ s3
                            (target_flows-Fit after insn.branch_targets k) b3

  round-Ensures :
      (h : ℕ) (method : Method) (decoded : List DecodedInstruction) (pc : ℕ) (s : Search)
      → method.max_stack ≤ cap
      → 1 ≤ cap
      → Bounded n cap h s
      → Ensures (Bounded n cap h) (round method decoded pc s)
  unfolding round
  round-Ensures h method decoded pc s le one b = go (get_elem? s.states pc) refl
    where
      go :
          (o : Option (Option FrameState))
          → get_elem? s.states pc ≡ o
          → Ensures (Bounded n cap h) (round method decoded pc s)
      go none e = rw (round, e) panics
      go (some none) e = rw (round, e) (returns s b)
      go (some (some state)) e =
          rw (round, e)
            (visit-Ensures h method decoded pc state s le one
              (slot-Fits n cap s.states pc (some state) b.0 e) b)

  -- What the loop returns has states of the right shape.
  abbrev pub Ends : Option (Result States) → Type 0
  Ends r = (result : Result States) × (r ≡ some result) × Ensures (AllSlotsFit n cap) result

  pub flow_loop-Ends :
      (fuel : ℕ) (method : Method) (decoded : List DecodedInstruction) (states : States)
      (queue : List ℕ)
      → method.max_stack ≤ cap
      → 1 ≤ cap
      → Bounded n cap fuel (record { states = states; queue = queue })
      → Ends (flow_loop (suc fuel) method decoded (record { states = states; queue = queue }))
  unfolding flow_loop
  flow_loop-Ends fuel method decoded states [] le one b = (ok states, refl, returns _ b.0)
  flow_loop-Ends zero method decoded states (pc ∷ queue) le one b = absurd (omega (arith, b.1))
  flow_loop-Ends (suc fuel) method decoded states (pc ∷ queue) le one b =
      go (round method decoded pc next)
        (round-Ensures fuel method decoded pc next le one (b.0, omega (arith, b.1)))
        (λ s c. flow_loop-Ends fuel method decoded s.states s.queue le one c)
    where
      next : Search
      next = record { states = states; queue = queue }

      go :
          (r : Result Search)
          → Ensures (Bounded n cap fuel) r
          → ((s : Search) → Bounded n cap fuel s → Ends (flow_loop (suc fuel) method decoded s))
          → Ends (elim r [
            | ok s ↦ flow_loop (suc fuel) method decoded s
            | err e ↦ some (err e)
            | panic ↦ some panic
          ])
      go (ok s) (returns _ c) f = f s c
      go (err e) (fails _) f = (err e, refl, fails e)
      go panic panics f = (panic, refl, panics)
