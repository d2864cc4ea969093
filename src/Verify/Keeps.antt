-- ===== src/Verify/Keeps.antt =====
-- Actions on the frame state of src/vm/verify.rs that keep the number of its locals, and its operand
-- stack within a bound.
pub mod Arms
pub mod Members
pub mod Apply
use jvm_rs.Prelude.{
  ℕ, zero, suc, ap, ◌∙◌, ◌+◌, ◌≤◌, ◌≡◌, refl, Bool, true, false, ◌&&◌, List, [], ◌∷◌, length, set,
  get_elem?, ltb, leb, if◌then◌else◌, length-set, arith,
}
use jvm_rs.Types.Value.{Result, ok, err, panic, VmError}
use jvm_rs.Types.Action.{Action, pure, fail, gets, lift, modify, and_then, ◌>>=◌, ◌>>◌}
use jvm_rs.Verify.Types.{VerifyType, top, FrameState, is_wide_verify_type}
use jvm_rs.Verify.State.{
  push, pop, pop_expect_int, pop_expect_long, pop_expect_float, pop_expect_double,
  pop_expect_reference, is_wide_local, clear_below, clear_above, store_local, replace_type,
  initialize_uninitialized,
}

-- A state of `n` locals, with at most `cap` types on its stack.
abbrev pub Fits : ℕ → ℕ → FrameState → Type 0
Fits n cap state = (length state.locals ≡ n) × (length state.stack ≤ cap)

-- The call keeps that, however it ends.
pub record Keeps (n cap : ℕ) {A : Type 0} (m : Action FrameState A) : Type 0 where
  pub keeps : (state : FrameState) → Fits n cap state → Fits n cap (m state).1

length-clear_below : (i : ℕ) (xs : List VerifyType) → length (clear_below i xs) ≡ length xs
unfolding clear_below
length-clear_below zero xs = refl
length-clear_below (suc i) xs = go (is_wide_local (get_elem? xs i))
  where
    go : (b : Bool) → length (if b then set xs i top else xs) ≡ length xs
    go true = length-set xs i top
    go false = refl

length-clear_above : (i : ℕ) (xs : List VerifyType) → length (clear_above i xs) ≡ length xs
unfolding clear_above
length-clear_above i xs = go (is_wide_local (get_elem? xs i) && ltb (i + 1) (length xs))
  where
    go : (b : Bool) → length (if b then set xs (i + 1) top else xs) ≡ length xs
    go true = length-set xs (i + 1) top
    go false = refl

length-replace_type :
    (from to : VerifyType) (xs : List VerifyType) → length (replace_type from to xs) ≡ length xs
unfolding replace_type
length-replace_type from to [] = refl
length-replace_type from to (x ∷ xs) = ap suc (length-replace_type from to xs)

module _ {n cap : ℕ} where
  pub bind-Keeps :
      {A B : Type 0} (m : Action FrameState A) (k : A → Action FrameState B)
      → Keeps n cap m
      → ((a : A) → Keeps n cap (k a))
      → Keeps n cap (m >>= k)
  bind-Keeps {A} {B} m k hm hk = record { keeps = λ s h. go (m s) (hm.keeps s h) }
    where
      go : (r : Result A × FrameState) → Fits n cap r.1 → Fits n cap (and_then r.0 k r.1).1
      go (ok a, u) h = (hk a).keeps u h
      go (err e, u) h = h
      go (panic, u) h = h

  pub gets-Keeps : {A : Type 0} (f : FrameState → Result A) → Keeps n cap (gets f)
  gets-Keeps f = record { keeps = λ s h. h }

  pub lift-Keeps : {A : Type 0} (r : Result A) → Keeps n cap {A = A} (lift r)
  lift-Keeps r = record { keeps = λ s h. h }

  pub pure-Keeps : {A : Type 0} (a : A) → Keeps n cap (pure a)
  pure-Keeps a = record { keeps = λ s h. h }

  pub fail-Keeps : {A : Type 0} (e : VmError) → Keeps n cap {A = A} (fail e)
  fail-Keeps e = record { keeps = λ s h. h }

  pub if-Keeps :
      {A : Type 0} (b : Bool) (m k : Action FrameState A)
      → Keeps n cap m
      → Keeps n cap k
      → Keeps n cap (if b then m else k)
  if-Keeps true m k hm hk = hm
  if-Keeps false m k hm hk = hk

  pub push-Keeps :
      (ty : VerifyType) (pc max_stack : ℕ) → max_stack ≤ cap → Keeps n cap (push ty pc max_stack)
  unfolding push
  push-Keeps ty pc max_stack le = record { keeps = λ s h. ground arith }

  pub pop-Keeps : (pc : ℕ) → Keeps n cap (pop pc)
  unfolding pop
  pop-Keeps pc = record { keeps = λ s h. go s s.stack refl h }
    where
      go :
          (s : FrameState) (tys : List VerifyType)
          → s.stack ≡ tys
          → Fits n cap s
          → Fits n cap (pop pc s).1
      go s [] e h = rw (pop, e) h
      go s (ty ∷ tys) e (hn, hs) =
          let hs' : suc (length tys) ≤ cap = rw e at hs in rw (pop, e) (hn, omega (arith, hs'))

  pub pop_int-Keeps : (pc : ℕ) → Keeps n cap (pop_expect_int pc)
  unfolding pop_expect_int
  pop_int-Keeps pc = bind-Keeps _ _ (pop-Keeps pc) λ ty. lift-Keeps _

  pub pop_long-Keeps : (pc : ℕ) → Keeps n cap (pop_expect_long pc)
  unfolding pop_expect_long
  pop_long-Keeps pc = bind-Keeps _ _ (pop-Keeps pc) λ ty. lift-Keeps _

  pub pop_float-Keeps : (pc : ℕ) → Keeps n cap (pop_expect_float pc)
  unfolding pop_expect_float
  pop_float-Keeps pc = bind-Keeps _ _ (pop-Keeps pc) λ ty. lift-Keeps _

  pub pop_double-Keeps : (pc : ℕ) → Keeps n cap (pop_expect_double pc)
  unfolding pop_expect_double
  pop_double-Keeps pc = bind-Keeps _ _ (pop-Keeps pc) λ ty. lift-Keeps _

  pub pop_reference-Keeps : (pc : ℕ) → Keeps n cap (pop_expect_reference pc)
  unfolding pop_expect_reference
  pop_reference-Keeps pc = bind-Keeps _ _ (pop-Keeps pc) λ ty. lift-Keeps _

  pub store-Keeps : (i : ℕ) (ty : VerifyType) (pc : ℕ) → Keeps n cap (store_local i ty pc)
  unfolding store_local
  store-Keeps i ty pc = record {
    keeps = λ s h.
        let xs = clear_above i (clear_below i s.locals) in
        let e : length (set xs i ty) ≡ n =
          length-set xs i ty ∙ length-clear_above i _ ∙ length-clear_below i s.locals ∙ h.0 in
        let e' : length (set (set xs i ty) (i + 1) top) ≡ n =
          length-set (set xs i ty) (i + 1) top ∙ e in
        ground (arith, e, e', h);
  }

  pub initialize-Keeps :
      (ty : VerifyType) (name : List ℕ) → Keeps n cap (modify (initialize_uninitialized ty name))
  unfolding initialize_uninitialized
  initialize-Keeps ty name = record {
    keeps =
        λ s h. (length-replace_type _ _ s.locals ∙ h.0, rw (length-replace_type ty _ s.stack) h.1);
  }

pub ruleset keeps_rules = (
  bind-Keeps, gets-Keeps, lift-Keeps, pure-Keeps, fail-Keeps, if-Keeps, push-Keeps, pop-Keeps,
  pop_int-Keeps, pop_long-Keeps, pop_float-Keeps, pop_double-Keeps, pop_reference-Keeps,
  store-Keeps, initialize-Keeps,
)
