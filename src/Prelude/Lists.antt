-- ===== src/Prelude/Lists.antt =====
-- Lists measured and indexed by native numbers (`Vec` and slices), under the library's names.
use Prim.Native.Nat.{ℕ, zero, suc, ◌+◌, ◌≤◌, ◌<◌}
use mathlib.Core.Path.{◌≡◌, refl, ap}
use mathlib.Core.Logic.{◌≢◌}
use mathlib.Core.List.{List, [], ◌∷◌, ◌++◌}
use mathlib.Core.Option.{Option, none, some}
use mathlib.Core.Bool.{◌&&◌}
use jvm_rs.Prelude.Tests.{ltb, ◌==◌, if◌then◌else◌}
use native.Mathlib.Omega.{arith}

module _ {ℓ} {A : Type ℓ} where
  abbrev pub length : List A → ℕ
  length [] = 0
  length (x ∷ xs) = suc (length xs)

  -- `slice.get(i)`
  abbrev pub get_elem? : List A → ℕ → Option A
  get_elem? [] i = none
  get_elem? (x ∷ xs) zero = some x
  get_elem? (x ∷ xs) (suc i) = get_elem? xs i

  -- `v[i] = a` in bounds; out of bounds nothing is written.
  abbrev pub set : List A → ℕ → A → List A
  set [] i v = []
  set (x ∷ xs) zero v = v ∷ xs
  set (x ∷ xs) (suc i) v = x ∷ set xs i v

  -- `vec.resize(n, a)`
  abbrev pub resize : ℕ → A → List A → List A
  resize zero a xs = []
  resize (suc n) a [] = a ∷ resize n a []
  resize (suc n) a (x ∷ xs) = x ∷ resize n a xs

  abbrev pub take : ℕ → List A → List A
  take zero xs = []
  take (suc n) [] = []
  take (suc n) (x ∷ xs) = x ∷ take n xs

  abbrev pub replicate : ℕ → A → List A
  replicate zero a = []
  replicate (suc n) a = a ∷ replicate n a

  pub length-append : (xs ys : List A) → length (xs ++ ys) ≡ length xs + length ys
  length-append [] ys = omega arith
  length-append (x ∷ xs) ys = omega (arith, length-append xs ys)

module _ {ℓ} {A : Type ℓ} where
  pub length-set : (xs : List A) (i : ℕ) (v : A) → length (set xs i v) ≡ length xs
  length-set [] i v = refl
  length-set (x ∷ xs) zero v = refl
  length-set (x ∷ xs) (suc i) v = ap suc (length-set xs i v)

  pub length-replicate : (n : ℕ) (a : A) → length (replicate n a) ≡ n
  length-replicate zero a = refl
  length-replicate (suc n) a = ap suc (length-replicate n a)

  pub get_elem?-set_self :
      (xs : List A) (i : ℕ) (v : A) → i < length xs → get_elem? (set xs i v) i ≡ some v
  get_elem?-set_self [] i v h = elim h [ ]
  get_elem?-set_self (x ∷ xs) zero v h = refl
  get_elem?-set_self (x ∷ xs) (suc i) v h = get_elem?-set_self xs i v (omega arith)

  pub get_elem?-set_ne :
      (xs : List A) (i j : ℕ) (v : A) → i ≢ j → get_elem? (set xs i v) j ≡ get_elem? xs j
  get_elem?-set_ne [] i j v h = refl
  get_elem?-set_ne (x ∷ xs) zero zero v h = absurd (h refl)
  get_elem?-set_ne (x ∷ xs) zero (suc j) v h = refl
  get_elem?-set_ne (x ∷ xs) (suc i) zero v h = refl
  get_elem?-set_ne (x ∷ xs) (suc i) (suc j) v h = get_elem?-set_ne xs i j v (λ e. h (ap suc e))

  -- Both in one equation, with no side condition.
  pub get_elem?-set :
      (xs : List A) (i j : ℕ) (v : A)
      → get_elem? (set xs i v) j ≡ (if i == j && ltb i (length xs) then some v else get_elem? xs j)
  get_elem?-set [] zero zero v = refl
  get_elem?-set [] zero (suc j) v = ground arith
  get_elem?-set [] (suc i) zero v = ground arith
  get_elem?-set [] (suc i) (suc j) v = ground arith
  get_elem?-set (x ∷ xs) zero zero v = ground arith
  get_elem?-set (x ∷ xs) zero (suc j) v = ground arith
  get_elem?-set (x ∷ xs) (suc i) zero v = ground arith
  get_elem?-set (x ∷ xs) (suc i) (suc j) v = ground (arith, get_elem?-set xs i j v)

  -- An index in bounds has an element, and an element has an index in bounds.
  pub get_elem?-lt : (xs : List A) (i : ℕ) → i < length xs → (a : A) × (get_elem? xs i ≡ some a)
  get_elem?-lt [] i h = elim h [ ]
  get_elem?-lt (x ∷ xs) zero h = (x, refl)
  get_elem?-lt (x ∷ xs) (suc i) h = get_elem?-lt xs i (omega arith)

  pub lt-get_elem? : (xs : List A) (i : ℕ) {a : A} → get_elem? xs i ≡ some a → i < length xs
  lt-get_elem? [] i h = cc
  lt-get_elem? (x ∷ xs) zero h = omega arith
  lt-get_elem? (x ∷ xs) (suc i) h = omega (arith, lt-get_elem? xs i h)

  pub get_elem?-ge : (xs : List A) (i : ℕ) → length xs ≤ i → get_elem? xs i ≡ none
  get_elem?-ge [] i h = refl
  get_elem?-ge (x ∷ xs) zero h = absurd (omega arith)
  get_elem?-ge (x ∷ xs) (suc i) h = get_elem?-ge xs i (omega arith)

  pub get_elem?-none : (xs : List A) (i : ℕ) → get_elem? xs i ≡ none → length xs ≤ i
  get_elem?-none [] i h = omega arith
  get_elem?-none (x ∷ xs) zero h = cc
  get_elem?-none (x ∷ xs) (suc i) h = omega (arith, get_elem?-none xs i h)

  pub get_elem?-append_left :
      (xs ys : List A) (i : ℕ) → i < length xs → get_elem? (xs ++ ys) i ≡ get_elem? xs i
  get_elem?-append_left [] ys i h = elim h [ ]
  get_elem?-append_left (x ∷ xs) ys zero h = refl
  get_elem?-append_left (x ∷ xs) ys (suc i) h = get_elem?-append_left xs ys i (omega arith)

  pub get_elem?-append_right :
      (xs ys : List A) (i : ℕ) → get_elem? (xs ++ ys) (length xs + i) ≡ get_elem? ys i
  get_elem?-append_right [] ys i = ap (get_elem? ys) (omega arith)
  get_elem?-append_right (x ∷ xs) ys i =
      let e : length (x ∷ xs) + i ≡ suc (length xs + i) = omega arith in
      rw e (get_elem?-append_right xs ys i)

module _ {ℓ} {A : Type ℓ} where
  -- `values.get(i).and_then(|v| v.as_ref())`: what stands in a slot, if anything.
  abbrev pub get_some : List (Option A) → ℕ → Option A
  get_some [] i = none
  get_some (x ∷ xs) zero = x
  get_some (x ∷ xs) (suc i) = get_some xs i

  pub get_some-ge : (xs : List (Option A)) (i : ℕ) → length xs ≤ i → get_some xs i ≡ none
  get_some-ge [] i h = refl
  get_some-ge (x ∷ xs) zero h = absurd (omega arith)
  get_some-ge (x ∷ xs) (suc i) h = get_some-ge xs i (omega arith)

  pub get_some-set :
      (xs : List (Option A)) (i j : ℕ) (v : Option A)
      → get_some (set xs i v) j ≡ (if i == j && ltb i (length xs) then v else get_some xs j)
  get_some-set [] i j v = ground arith
  get_some-set (x ∷ xs) zero zero v = ground arith
  get_some-set (x ∷ xs) zero (suc j) v = ground arith
  get_some-set (x ∷ xs) (suc i) zero v = ground arith
  get_some-set (x ∷ xs) (suc i) (suc j) v = ground (arith, get_some-set xs i j v)

  pub get_some-resize :
      (n i : ℕ) (xs : List (Option A))
      → length xs ≤ n
      → get_some (resize n none xs) i ≡ get_some xs i
  get_some-resize zero i [] h = refl
  get_some-resize zero i (x ∷ xs) h = absurd (omega arith)
  get_some-resize (suc n) zero [] h = refl
  get_some-resize (suc n) (suc i) [] h = get_some-resize n i [] (omega arith)
  get_some-resize (suc n) zero (x ∷ xs) h = refl
  get_some-resize (suc n) (suc i) (x ∷ xs) h = get_some-resize n i xs (omega arith)

  pub length-resize : (n : ℕ) (a : A) (xs : List A) → length (resize n a xs) ≡ n
  length-resize zero a xs = refl
  length-resize (suc n) a [] = ap suc (length-resize n a [])
  length-resize (suc n) a (x ∷ xs) = ap suc (length-resize n a xs)
