-- ===== src/Verify/Total.antt =====
-- src/vm/verify.rs: `verify_method` against the fuel of its loops.
use jvm_rs.Prelude.{
  ℕ, zero, suc, ◌+◌, ◌*◌, ◌≤◌, ◌≡◌, refl, ap, ◌∙◌, Option, none, some, List, [], ◌∷◌, leb, length,
  set, replicate, length-set, arith,
}
use jvm_rs.Types.Value.{Value, Result, ok, err, panic}
use jvm_rs.Types.Method.{Method}
use jvm_rs.Types.Fallible.{as_bytes}
use jvm_rs.Verify.Types.{VerifyType, top, FrameState, is_wide_verify_type}
use jvm_rs.Verify.Merge.{max}
use jvm_rs.Verify.Descriptors.{parse_method_descriptor}
use jvm_rs.Verify.Instruction.{DecodedInstruction}
use jvm_rs.Verify.Scan.{scan_method, validate_exception_handlers}
use jvm_rs.Verify.Entry.{
  is_instance, this_type, place_params, place_value, place_values, initial_frame,
}
use jvm_rs.Verify.Method.{
  States, start, finish, flow_loop, flow_fuel, verify_decoded, verify_code, verify_method,
}
use jvm_rs.Verify.Keeps.{Fits}
use jvm_rs.Verify.Ensures.{Ensures, returns, fails, bind-Ensures, then-Ensures, if-Ensures}
use jvm_rs.Verify.Heights.{full_height, state_height_lt}
use jvm_rs.Verify.Descent.{total, AllSlotsFit, Bounded, set-Fits}
use jvm_rs.Verify.Termination.{flow_loop-Ends}
use jvm_rs.Verify.Scanned.{Scans, scan_method-Scans}

abbrev HasLength : ℕ → List VerifyType → Type 0
HasLength n locals = length locals ≡ n

place_params-Ensures :
    (n : ℕ) (params : List VerifyType) (index : ℕ) (locals : List VerifyType)
    → HasLength n locals
    → Ensures (HasLength n) (place_params params index locals)
unfolding place_params
place_params-Ensures n [] index locals h = returns locals h
place_params-Ensures n (ty ∷ params) index locals h =
    let P = HasLength n in
    let h1 : length (set locals index ty) ≡ n = length-set locals index ty ∙ h in
    let h2 : length (set (set locals index ty) (index + 1) top) ≡ n =
      length-set (set locals index ty) (index + 1) top ∙ h1 in
    if-Ensures P (leb (length locals) index) _ _ (λ e. fails _)
      λ e.
        if-Ensures P (is_wide_verify_type ty) _ _
          (λ w.
            if-Ensures P (leb (length locals) (index + 1)) _ _ (λ e. fails _)
              λ e. place_params-Ensures n params (index + 2) _ h2)
          λ w. place_params-Ensures n params (index + 1) _ h1

length-place_value :
    (index : ℕ) (value : Option Value) (locals : List VerifyType)
    → length (place_value index value locals) ≡ length locals
length-place_value index none locals = refl
length-place_value index (some value) locals = length-set locals index _

place_values-Ensures :
    (n : ℕ) (values : List (Option Value)) (index : ℕ) (locals : List VerifyType)
    → HasLength n locals
    → Ensures (HasLength n) (place_values values index locals)
unfolding place_values
place_values-Ensures n [] index locals h = returns locals h
place_values-Ensures n (value ∷ values) index locals h =
    if-Ensures (HasLength n) (leb (length locals) index) _ _ (λ e. fails _)
      λ e. place_values-Ensures n values (index + 1) _ (length-place_value index value locals ∙ h)

length-replicate : {A : Type 0} (n : ℕ) (a : A) → length (replicate n a) ≡ n
length-replicate zero a = refl
length-replicate (suc n) a = ap suc (length-replicate n a)

-- The entry state has the method's number of locals and an empty stack.
pub initial_frame-Ensures :
    (method : Method) (cap : ℕ) → Ensures (Fits method.max_locals cap) (initial_frame method)
unfolding initial_frame
initial_frame-Ensures method cap =
    let n = method.max_locals in
    let P = Fits n cap in
    let locals = replicate n top in
    let h : length locals ≡ n = length-replicate n top in
    then-Ensures P (parse_method_descriptor (as_bytes method.descriptor)) _ λ d.
      bind-Ensures (HasLength n) P _ _
        (if-Ensures (HasLength n) (is_instance method) _ _
          (λ e. place_params-Ensures n d.0 1 _ (length-set locals 0 (this_type method) ∙ h))
          (λ e. place_params-Ensures n d.0 0 _ h))
        λ placed k.
          bind-Ensures (HasLength n) P _ _ (place_values-Ensures n method.initial_locals 0 placed k)
            λ valued f. returns _ (f, omega arith)

slots_le :
    (n cap : ℕ) (states : States)
    → AllSlotsFit n cap states
    → total n cap states ≤ length states * full_height n cap
slots_le n cap [] fit = omega arith
slots_le n cap (none ∷ states) fit = omega (arith, slots_le n cap states fit.1)
slots_le n cap (some state ∷ states) fit =
    omega (arith, slots_le n cap states fit.1, state_height_lt n cap state fit.0)

empty_slots-Fit : (n cap k : ℕ) → AllSlotsFit n cap (replicate k none)
empty_slots-Fit n cap zero = tt
empty_slots-Fit n cap (suc k) = (tt, empty_slots-Fit n cap k)

pub start-Bounded :
    (method : Method) (entry : FrameState) (cap : ℕ)
    → Fits method.max_locals cap entry
    → Bounded method.max_locals cap
        (suc (length method.code * full_height method.max_locals cap))
        (start method entry)
unfolding start
start-Bounded method entry cap fit =
    let n = method.max_locals in
    let states = replicate (length method.code) none in
    let entered = set-Fits n cap states 0 entry (empty_slots-Fit n cap _) fit in
    let size : length (set states 0 (some entry)) ≡ length method.code =
      length-set states 0 (some entry) ∙ length-replicate _ none in
    let le : total n cap (set states 0 (some entry)) ≤ length method.code * full_height n cap =
      rw size at (slots_le n cap _ entered) in
    (entered, omega (arith, le))

abbrev Answers : Option (Result (Unit {0})) → Type 0
Answers o = (r : Result (Unit {0})) × (o ≡ some r)

finish-Answers :
    (method : Method) (o : Option (Result States))
    → ((r : Result States) × (o ≡ some r))
    → Answers (finish method o)
unfolding finish
finish-Answers method none (r, e) = absurd (cc)
finish-Answers method (some s) h = (_, refl)

verify_decoded-Answers :
    (method : Method) (decoded : Result (List DecodedInstruction))
    → Answers (verify_decoded method decoded)
unfolding verify_decoded
verify_decoded-Answers method (err e) = (_, refl)
verify_decoded-Answers method panic = (_, refl)
verify_decoded-Answers method (ok decoded) = go _ (
    then-Ensures (Fits n room)
      (validate_exception_handlers (length method.code) decoded method.exception_handlers) _
      λ u. initial_frame-Ensures method room)
  where
    n : ℕ
    n = method.max_locals

    room : ℕ
    room = max method.max_stack 1

    go :
        (r : Result FrameState)
        → Ensures (Fits n room) r
        → Answers (elim r [
          | err e ↦ some (err e)
          | panic ↦ some panic
          | ok entry ↦
              finish method (flow_loop (flow_fuel method) method decoded (start method entry))
        ])
    go (err e) h = (_, refl)
    go panic h = (_, refl)
    go (ok entry) (returns _ fit) =
        let b = start-Bounded method entry room fit in
        let ends =
          flow_loop-Ends n room (suc (length method.code * full_height n room)) method decoded
            (start method entry).states (start method entry).queue (ground arith) (ground arith)
            b in
        finish-Answers method _ (ends.0, ends.1)

verify_code-Answers : (method : Method) → Answers (verify_code method)
unfolding verify_code
verify_code-Answers method = go (scan_method method) (scan_method-Scans method)
  where
    go :
        (o : Option (Result (List DecodedInstruction)))
        → Scans o
        → Answers (elim o [ none ↦ none | some scanned ↦ verify_decoded method scanned ])
    go none (r, e) = absurd (cc)
    go (some scanned) h = verify_decoded-Answers method scanned

-- Of every method the verifier says whether it accepts it, refuses it or panics: the scan and the data
-- flow end within their fuel.
pub verify_method_answers :
    (method : Method) → (r : Result (Unit {0})) × (verify_method method ≡ some r)
unfolding verify_method
verify_method_answers method = go method.code
  where
    go :
        (code : List ℕ)
        → Answers (elim code [ [] ↦ some (ok tt) | byte ∷ rest ↦ verify_code method ])
    go [] = (_, refl)
    go (byte ∷ rest) = verify_code-Answers method
