-- ===== src/Heap/Reach.antt =====
-- Which slots of a heap can be reached from a list of slots, through the references that
-- src/vm/heap.rs traces.
use jvm_rs.Prelude.{
  ℕ, zero, suc, ◌<◌, ◌≡◌, inl, inr, ◌⊎◌, List, [], ◌∷◌, ◌++◌, length, arith, get_some,
}
use jvm_rs.Heap.Defs.{Slots}
use jvm_rs.Heap.Mark.{children_of}

abbrev pub In : ℕ → List ℕ → Type 0
In a [] = ⊥
In a (x ∷ xs) = (a ≡ x) ⊎ In a xs

abbrev pub children_at : Slots → ℕ → List ℕ
children_at values i = children_of (get_some values i)

pub data Reach (values : Slots) (roots : List ℕ) : ℕ → Type 0 where
  root : {i : ℕ} → In i roots → Reach values roots i
  step : {i j : ℕ} → Reach values roots i → In j (children_at values i) → Reach values roots j

-- Every reference that a reached value holds is a slot of the heap.
abbrev pub IsInRange : Slots → List ℕ → Type 0
IsInRange values roots =
    (i j : ℕ) → Reach values roots i → In j (children_at values i) → j < length values

pub In-append_left : (a : ℕ) (xs ys : List ℕ) → In a xs → In a (xs ++ ys)
In-append_left a [] ys h = elim h [ ]
In-append_left a (x ∷ xs) ys (inl e) = inl e
In-append_left a (x ∷ xs) ys (inr h) = inr (In-append_left a xs ys h)

pub In-append_right : (a : ℕ) (xs ys : List ℕ) → In a ys → In a (xs ++ ys)
In-append_right a [] ys h = h
In-append_right a (x ∷ xs) ys h = inr (In-append_right a xs ys h)

pub In-append : (a : ℕ) (xs ys : List ℕ) → In a (xs ++ ys) → In a xs ⊎ In a ys
In-append a [] ys h = inr h
In-append a (x ∷ xs) ys (inl e) = inl (inl e)
In-append a (x ∷ xs) ys (inr h) = elim (In-append a xs ys h) [
  | inl left ↦ inl (inr left)
  | inr right ↦ inr right
]

-- A slot that has a child is in the heap.
pub lt-children_at : (values : Slots) (i j : ℕ) → In j (children_at values i) → i < length values
lt-children_at [] i j h = elim h [ ]
lt-children_at (v ∷ vs) zero j h = omega arith
lt-children_at (v ∷ vs) (suc i) j h = omega (arith, lt-children_at vs i j h)
