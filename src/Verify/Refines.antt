-- ===== src/Verify/Refines.antt =====
-- src/vm/frame.rs and src/vm/verify.rs: the frame of a call, and the frame state of the verifier.
use jvm_rs.Prelude.{
  ℕ, zero, suc, ◌+◌, ◌≡◌, refl, sym, ap, ◌∙◌, Bool, true, false, ◌&&◌, Option, none, some, List, [],
  ◌∷◌, leb, ltb, if◌then◌else◌, length, get_elem?, set,
}
use jvm_rs.Types.Value.{Value, Result, ok, err, VmError}
use jvm_rs.Frame.Defs.{Frame}
use jvm_rs.Frame.Ops.{is_wide, is_wide_slot, clear_wide_below, clear_wide_above, stored}
use jvm_rs.Frame.Ops
use jvm_rs.Verify.Types.{VerifyType, top, FrameState, eq_type, is_wide_verify_type}
use jvm_rs.Verify.State.{is_wide_local, clear_below, clear_above}
use jvm_rs.Verify.State
use jvm_rs.Verify.Arms.{verify_type_from_value}

-- The types of the values in a frame. A slot with no value is unusable.
abbrev pub slot_type : Option Value → VerifyType
slot_type none = top
slot_type (some value) = verify_type_from_value value

abbrev pub slot_types : List (Option Value) → List VerifyType
slot_types [] = []
slot_types (slot ∷ slots) = slot_type slot ∷ slot_types slots

abbrev pub value_types : List Value → List VerifyType
value_types [] = []
value_types (value ∷ values) = verify_type_from_value value ∷ value_types values

abbrev pub frame_state : Frame → FrameState
frame_state f = record { locals = slot_types f.locals; stack = value_types f.stack }

-- Two results that succeed with values in the relation, or fail together.
pub data Agrees {A B : Type 0} (f : A → B) : Result A → Result B → Type 0 where
  both_ok : (a : A) → Agrees f (ok a) (ok (f a))
  both_err : (d e : VmError) → Agrees f (err d) (err e)

length-slot_types : (xs : List (Option Value)) → length (slot_types xs) ≡ length xs
length-slot_types [] = refl
length-slot_types (x ∷ xs) = ap suc (length-slot_types xs)

pub length-value_types : (xs : List Value) → length (value_types xs) ≡ length xs
length-value_types [] = refl
length-value_types (x ∷ xs) = ap suc (length-value_types xs)

slot_types-set :
    (xs : List (Option Value)) (i : ℕ) (v : Option Value)
    → slot_types (set xs i v) ≡ set (slot_types xs) i (slot_type v)
slot_types-set [] i v = refl
slot_types-set (x ∷ xs) zero v = refl
slot_types-set (x ∷ xs) (suc i) v = ap (λ t. slot_type x ∷ t) (slot_types-set xs i v)

is_wide_type : (v : Value) → is_wide_verify_type (verify_type_from_value v) ≡ is_wide v
unfolding is_wide_verify_type verify_type_from_value is_wide
is_wide_type (Value.int _) = refl
is_wide_type (Value.long _) = refl
is_wide_type (Value.float _) = refl
is_wide_type (Value.double _) = refl
is_wide_type (Value.return_address _) = refl
is_wide_type (Value.reference _) = refl

is_wide_at :
    (xs : List (Option Value)) (i : ℕ)
    → is_wide_local (get_elem? (slot_types xs) i) ≡ is_wide_slot (get_elem? xs i)
unfolding is_wide_local is_wide_slot is_wide_verify_type
is_wide_at [] i = refl
is_wide_at (none ∷ xs) zero = refl
is_wide_at (some v ∷ xs) zero = is_wide_type v
is_wide_at (x ∷ xs) (suc i) = is_wide_at xs i

clear_below-slot_types :
    (i : ℕ) (xs : List (Option Value))
    → clear_below i (slot_types xs) ≡ slot_types (clear_wide_below i xs)
unfolding clear_below clear_wide_below
clear_below-slot_types zero xs = refl
clear_below-slot_types (suc i) xs = rw (is_wide_at xs i) (go (is_wide_slot (get_elem? xs i)))
  where
    go :
        (b : Bool)
        → (if b then set (slot_types xs) i top else slot_types xs)
          ≡ slot_types (if b then set xs i none else xs)
    go true = sym (slot_types-set xs i none)
    go false = refl

clear_above-slot_types :
    (i : ℕ) (xs : List (Option Value))
    → clear_above i (slot_types xs) ≡ slot_types (clear_wide_above i xs)
unfolding clear_above clear_wide_above
clear_above-slot_types i xs =
    rw (is_wide_at xs i, length-slot_types xs)
      (go (is_wide_slot (get_elem? xs i) && ltb (i + 1) (length xs)))
  where
    go :
        (b : Bool)
        → (if b then set (slot_types xs) (i + 1) top else slot_types xs)
          ≡ slot_types (if b then set xs (i + 1) none else xs)
    go true = sym (slot_types-set xs (i + 1) none)
    go false = refl

stored-slot_types :
    (i : ℕ) (v : Value) (xs : List (Option Value))
    → set (clear_above i (clear_below i (slot_types xs))) i (verify_type_from_value v)
      ≡ slot_types (stored i v xs)
unfolding stored
stored-slot_types i v xs =
    ap (λ t. set (clear_above i t) i (verify_type_from_value v)) (clear_below-slot_types i xs)
    ∙ ap (λ t. set t i (verify_type_from_value v)) (clear_above-slot_types i _)
    ∙ sym (slot_types-set _ i (some v))

-- The operation on the frame and the one on its types agree, and leave a frame and its types.
abbrev pub Simulates : {A B : Type 0} → (A → B) → Result A × Frame → Result B × FrameState → Type 0
Simulates f r q = Agrees f r.0 q.0 × (q.1 ≡ frame_state r.1)

if-Simulates :
    {A B : Type 0} (f : A → B) (b : Bool) (r s : Result A × Frame) (q p : Result B × FrameState)
    → Simulates f r q
    → Simulates f s p
    → Simulates f (if b then r else s) (if b then q else p)
if-Simulates f true r s q p h k = h
if-Simulates f false r s q p h k = k

locals_stored :
    (f : Frame) (xs : List (Option Value)) (ys : List VerifyType)
    → ys ≡ slot_types xs
    → record (frame_state f) { locals = ys } ≡ frame_state (record f { locals = xs })
locals_stored f xs ys e = rw e refl

pub store_local-Simulates :
    (i : ℕ) (v : Value) (pc : ℕ) (f : Frame)
    → Simulates
        (λ u. u)
        (Ops.store_local i v f)
        (State.store_local i (verify_type_from_value v) pc (frame_state f))
unfolding Ops.store_local State.store_local
store_local-Simulates i v pc f =
    let e = stored-slot_types i v f.locals in
    rw (length-slot_types f.locals, is_wide_type v)
      (if-Simulates (λ u. u) (leb (length f.locals) i) _ _ _ _ (both_err _ _, refl)
        (if-Simulates (λ u. u) (is_wide v) _ _ _ _
          (if-Simulates (λ u. u) (leb (length f.locals) (i + 1)) _ _ _ _
            (both_err _ _, locals_stored f _ _ e)
            (
              both_ok tt,
              locals_stored f _ _
                  (ap (λ t. set t (i + 1) top) e ∙ sym (slot_types-set _ (i + 1) none)),
            ))
          (both_ok tt, locals_stored f _ _ e)))

pub push-Simulates :
    (v : Value) (pc : ℕ) (f : Frame)
    → Simulates
        (λ u. u)
        (Ops.push v f)
        (State.push (verify_type_from_value v) pc f.max_stack (frame_state f))
unfolding Ops.push State.push
push-Simulates v pc f = rw (length-value_types f.stack) (
    if-Simulates (λ u. u) (leb f.max_stack (length f.stack)) _ _ _ _ (both_err _ _, refl)
      (both_ok tt, refl))

pub pop-Simulates :
    (pc : ℕ) (f : Frame)
    → Simulates verify_type_from_value (Ops.pop f) (State.pop pc (frame_state f))
unfolding Ops.pop State.pop
pop-Simulates pc f = go f f.stack refl
  where
    go :
        (f : Frame) (stack : List Value)
        → f.stack ≡ stack
        → Simulates verify_type_from_value (Ops.pop f) (State.pop pc (frame_state f))
    go f [] e = rw (Ops.pop, State.pop, e) (both_err _ _, refl)
    go f (v ∷ stack) e = rw (Ops.pop, State.pop, e) (both_ok v, refl)

looked_up : Option (Option Value) → Option VerifyType
looked_up none = none
looked_up (some slot) = some (slot_type slot)

get_elem?-slot_types :
    (xs : List (Option Value)) (i : ℕ) → get_elem? (slot_types xs) i ≡ looked_up (get_elem? xs i)
unfolding looked_up
get_elem?-slot_types [] i = refl
get_elem?-slot_types (x ∷ xs) zero = refl
get_elem?-slot_types (x ∷ xs) (suc i) = get_elem?-slot_types xs i

value-not_top : (v : Value) → eq_type (verify_type_from_value v) top ≡ false
unfolding eq_type verify_type_from_value
value-not_top (Value.int _) = refl
value-not_top (Value.long _) = refl
value-not_top (Value.float _) = refl
value-not_top (Value.double _) = refl
value-not_top (Value.return_address _) = refl
value-not_top (Value.reference _) = refl

pub load_local-Agrees :
    (i pc : ℕ) (f : Frame)
    → Agrees verify_type_from_value (Ops.load_local i f) (State.load_local i pc (frame_state f))
unfolding Ops.load_local State.load_local looked_up eq_type
load_local-Agrees i pc f = go (get_elem? f.locals i) refl
  where
    go :
        (o : Option (Option Value))
        → get_elem? f.locals i ≡ o
        → Agrees verify_type_from_value (Ops.load_local i f) (State.load_local i pc (frame_state f))
    go none e =
        rw (Ops.load_local, State.load_local, get_elem?-slot_types f.locals i, e) (both_err _ _)
    go (some none) e =
        rw (Ops.load_local, State.load_local, get_elem?-slot_types f.locals i, e) (both_err _ _)
    go (some (some v)) e =
        rw (Ops.load_local, State.load_local, get_elem?-slot_types f.locals i, e, value-not_top v)
          (both_ok v)

-- On the types of a frame's values the verifier's `load_local`, `store_local`, `push` and `pop` succeed
-- exactly when the frame's own do, with the type of the value, and leave the types of what the frame's
-- own leave, after errors too.
pub frame_state-Simulates :
    (i pc : ℕ) (v : Value) (f : Frame)
    → Agrees verify_type_from_value (Ops.load_local i f) (State.load_local i pc (frame_state f))
      × Simulates
          (λ u. u)
          (Ops.store_local i v f)
          (State.store_local i (verify_type_from_value v) pc (frame_state f))
      × Simulates
          (λ u. u)
          (Ops.push v f)
          (State.push (verify_type_from_value v) pc f.max_stack (frame_state f))
      × Simulates verify_type_from_value (Ops.pop f) (State.pop pc (frame_state f))
frame_state-Simulates i pc v f = (
  load_local-Agrees i pc f,
  store_local-Simulates i v pc f,
  push-Simulates v pc f,
  pop-Simulates pc f,
)
