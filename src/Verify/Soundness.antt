-- ===== src/Verify/Soundness.antt =====
-- src/vm/verify.rs: what it means that `verify_method` accepts a method.
use mathlib.Core.List.{Memᴰ}
use jvm_rs.Prelude.{
  ℕ, zero, suc, ◌+◌, ◌*◌, ◌<◌, ◌≡◌, refl, inl, Option, none, some, List, [], ◌∷◌, length, get_elem?,
  set, replicate, arith,
}
use jvm_rs.Types.Value.{Result, ok, err, panic}
use jvm_rs.Types.Method.{Method}
use jvm_rs.Types.Fallible.{◌>>◌}
use jvm_rs.Verify.Types.{FrameState}
use jvm_rs.Verify.Merge.{max}
use jvm_rs.Verify.Instruction.{DecodedInstruction}
use jvm_rs.Verify.Scan.{scan_method, validate_exception_handlers}
use jvm_rs.Verify.Entry.{initial_frame}
use jvm_rs.Verify.StackMap.{validate_stack_map_frames}
use jvm_rs.Verify.Method.{
  States, start, finish, flow_loop, flow_fuel, verify_decoded, verify_code, verify_method,
}
use jvm_rs.Verify.Keeps.{Fits}
use jvm_rs.Verify.Ensures.{ensured}
use jvm_rs.Verify.Heights.{full_height}
use jvm_rs.Verify.Total.{initial_frame-Ensures, start-Bounded}
use jvm_rs.Verify.Covers.{Under-refl}
use jvm_rs.Verify.Grows.{At, Covered}
use jvm_rs.Verify.Fixpoint.{Settled, flow_loop-Fixed}

module _ (method : Method) (decoded : List DecodedInstruction) (states : States) where
  -- The states of the slots from an address on are all settled.
  abbrev pub AllSettled : ℕ → States → Type 0
  AllSettled i [] = Unit
  AllSettled i (none ∷ slots) = AllSettled (suc i) slots
  AllSettled i (some state ∷ slots) =
      Settled method decoded states i state × AllSettled (suc i) slots

-- A typing of the method: the entry state is covered at the first instruction, and all states are
-- settled.
pub record Typing (method : Method) : Type 0 where
  pub decoded : List DecodedInstruction
  pub entry : FrameState
  pub states : States
  pub scanned : scan_method method ≡ some (ok decoded)
  pub enters : initial_frame method ≡ ok entry
  pub entered : Covered states (0, entry)
  pub settled : AllSettled method decoded states 0 states
  pub mapped : validate_stack_map_frames method states ≡ ok tt

finished :
    (method : Method) (o : Option (Result States))
    → finish method o ≡ some (ok tt)
    → (states : States) × (o ≡ some (ok states)) × (validate_stack_map_frames method states ≡ ok tt)
unfolding finish
finished method none e = absurd (cc)
finished method (some (err x)) e = absurd (cc)
finished method (some panic) e = absurd (cc)
finished method (some (ok states)) e = (states, refl, cc)

entered_at :
    (method : Method) (decoded : List DecodedInstruction)
    → verify_decoded method (ok decoded) ≡ some (ok tt)
    → (entry : FrameState) × (initial_frame method ≡ ok entry)
      × (finish method (flow_loop (flow_fuel method) method decoded (start method entry))
          ≡ some (ok tt))
unfolding verify_decoded
entered_at method decoded e =
    go (validate_exception_handlers (length method.code) decoded method.exception_handlers)
      (initial_frame method) e
  where
    go :
        (v : Result (Unit {0})) (r : Result FrameState)
        → (elim (v >> r) [
          | err x ↦ some (err x)
          | panic ↦ some panic
          | ok entry ↦
              finish method (flow_loop (flow_fuel method) method decoded (start method entry))
        ])
          ≡ some (ok tt)
        → (entry : FrameState) × (r ≡ ok entry)
          × (finish method (flow_loop (flow_fuel method) method decoded (start method entry))
              ≡ some (ok tt))
    go (ok u) (ok entry) e = (entry, refl, e)
    go (ok u) (err x) e = absurd (cc)
    go (ok u) panic e = absurd (cc)
    go (err x) r e = absurd (cc)
    go panic r e = absurd (cc)

scanned_as :
    (method : Method)
    → verify_code method ≡ some (ok tt)
    → (decoded : List DecodedInstruction) × (scan_method method ≡ some (ok decoded))
      × (verify_decoded method (ok decoded) ≡ some (ok tt))
unfolding verify_code verify_decoded
scanned_as method e = go (scan_method method) e
  where
    go :
        (o : Option (Result (List DecodedInstruction)))
        → (elim o [ none ↦ none | some scanned ↦ verify_decoded method scanned ]) ≡ some (ok tt)
        → (decoded : List DecodedInstruction) × (o ≡ some (ok decoded))
          × (verify_decoded method (ok decoded) ≡ some (ok tt))
    go none e = absurd (cc)
    go (some (ok decoded)) e = (decoded, refl, e)
    go (some (err x)) e = absurd (cc)
    go (some panic) e = absurd (cc)

no_state : (k i : ℕ) (state : FrameState) → get_elem? (replicate k none) i ≡ some (some state) → ⊥
no_state zero i state e = absurd (cc)
no_state (suc k) zero state e = absurd (cc)
no_state (suc k) (suc i) state e = no_state k i state e

-- At the start nothing but the first address has a state, and it is queued.
start_queued :
    (k i : ℕ) (entry state : FrameState)
    → get_elem? (set (replicate k none) 0 (some entry)) i ≡ some (some state)
    → Memᴰ i (0 ∷ [])
start_queued zero i entry state e = absurd (cc)
start_queued (suc k) zero entry state e = Memᴰ.head refl
start_queued (suc k) (suc i) entry state e = absurd (no_state k i state e)

start_covered :
    (k : ℕ) (entry : FrameState)
    → 0 < k
    → Covered (set (replicate k none) 0 (some entry)) (0, entry)
start_covered zero entry lt = absurd (omega arith)
start_covered (suc k) entry lt = (entry, refl, Under-refl entry)

settle_all :
    (method : Method) (decoded : List DecodedInstruction) (states : States) (i : ℕ) (slots : States)
    → ((j : ℕ) (state : FrameState)
        → At slots j state
        → Settled method decoded states (i + j) state)
    → AllSettled method decoded states i slots
settle_all method decoded states i [] f = tt
settle_all method decoded states i (none ∷ slots) f =
    settle_all method decoded states (suc i) slots
      λ j state at. let e : suc i + j ≡ i + suc j = omega arith in rw e (f (suc j) state at)
settle_all method decoded states i (some state ∷ slots) f =
    let z : i ≡ i + 0 = omega arith in
    (
      rw z (f 0 state refl),
      settle_all method decoded states (suc i) slots
          λ j state at. let e : suc i + j ≡ i + suc j = omega arith in rw e (f (suc j) state at),
    )

flow-Typing :
    (method : Method) (decoded : List DecodedInstruction) (entry : FrameState) (states : States)
    → 0 < length method.code
    → initial_frame method ≡ ok entry
    → flow_loop (flow_fuel method) method decoded (start method entry) ≡ some (ok states)
    → Covered states (0, entry) × AllSettled method decoded states 0 states
unfolding start
flow-Typing method decoded entry states lt enters e =
    let n = method.max_locals in
    let room = max method.max_stack 1 in
    let fit =
      ensured (Fits n room) (initial_frame method) entry (initial_frame-Ensures method room)
        enters in
    let fixed =
      flow_loop-Fixed n room (suc (length method.code * full_height n room)) method decoded
        (flow_fuel method) (start method entry).states states (start method entry).queue
        (ground arith) (ground arith) (start-Bounded method entry room fit)
        (λ i state at. inl (start_queued (length method.code) i entry state at)) e in
    (
      fixed.0 (0, entry) (start_covered (length method.code) entry lt),
      settle_all method decoded states 0 states
          λ j state at. let z : 0 + j ≡ j = omega arith in rw z (fixed.1 j state at),
    )

-- A method with code that the verifier accepts has a typing: its code is decoded, and there are states
-- of its instructions such that the one of the first instruction is above the entry state, and every
-- instruction that has a state applies to it and leaves, for each handler, branch, return and next
-- instruction that it flows to, a state that the one there is above. They agree with the stack maps.
pub verify_method-Typing :
    (method : Method) → 0 < length method.code → verify_method method ≡ some (ok tt) → Typing method
unfolding verify_method
verify_method-Typing method lt e =
    let (decoded, scanned, rest) = scanned_as method (accepted method.code lt e) in
    let (entry, enters, finishes) = entered_at method decoded rest in
    let (states, loops, maps) = finished method _ finishes in
    let (entered, settled) = flow-Typing method decoded entry states lt enters loops in
    record {
      decoded = decoded;
      entry = entry;
      states = states;
      scanned = scanned;
      enters = enters;
      entered = entered;
      settled = settled;
      mapped = maps;
    }
  where
    verdict : List ℕ → Option (Result (Unit {0}))
    verdict [] = some (ok tt)
    verdict (byte ∷ code) = verify_code method

    accepted :
        (code : List ℕ)
        → 0 < length code
        → verdict code ≡ some (ok tt)
        → verify_code method ≡ some (ok tt)
    accepted [] lt e = absurd (omega arith)
    accepted (byte ∷ rest) lt e = e
