-- ===== src/Heap/Pushing.antt =====
-- What the marking loop of src/vm/heap.rs pushes for one value, and how many pushes can follow.
use jvm_rs.Prelude.{
  ℕ, zero, suc, ◌+◌, ◌≤◌, ◌<◌, ◌≡◌, refl, inl, inr, ◌⊎◌, Bool, true, false, Option, none, some,
  List, [], ◌∷◌, length, get_elem?, set, arith, get_elem?-none,
}
use jvm_rs.Heap.Defs.{Slots}
use jvm_rs.Heap.Mark.{finished, push_unmarked, pending}
use jvm_rs.Heap.Reach.{In, children_at}

-- What the pushes leave: the old worklist, every child that was not marked, and nothing else.
pub record Pushed (marked : List Bool) (is wl wl' : List ℕ) : Type 0 where
  pub kept : (j : ℕ) → In j wl → In j wl'
  pub pushed : (j : ℕ) → In j is → (get_elem? marked j ≡ some true) ⊎ In j wl'
  pub only : (j : ℕ) → In j wl' → In j is ⊎ In j wl
  pub size : length wl' ≤ length is + length wl

pub push_unmarked_lem :
    (marked : List Bool) (is wl : List ℕ)
    → ((j : ℕ) → In j is → j < length marked)
    → (wl' : List ℕ) × (push_unmarked marked is wl ≡ finished wl') × Pushed marked is wl wl'
unfolding push_unmarked
push_unmarked_lem marked [] wl h = (
  wl,
  refl,
  record { kept = λ j p. p; pushed = λ j p. elim p [ ]; only = λ j p. inr p; size = omega arith },
)
push_unmarked_lem marked (i ∷ is) wl h =
    go (get_elem? marked i) refl (push_unmarked_lem marked is wl (λ j p. h j (inr p)))
      (push_unmarked_lem marked is (i ∷ wl) (λ j p. h j (inr p)))
  where
    go :
        (o : Option Bool)
        → get_elem? marked i ≡ o
        → (wl' : List ℕ) × (push_unmarked marked is wl ≡ finished wl') × Pushed marked is wl wl'
        → (wl' : List ℕ) × (push_unmarked marked is (i ∷ wl) ≡ finished wl')
          × Pushed marked is (i ∷ wl) wl'
        → (wl' : List ℕ) × (push_unmarked marked (i ∷ is) wl ≡ finished wl')
          × Pushed marked (i ∷ is) wl wl'
    go none e skip push = absurd (omega (arith, get_elem?-none marked i e, h i (inl refl)))
    go (some true) e (wl', run, p) push = (
      wl',
      rw (push_unmarked, e) run,
      record {
        kept = p.kept;
        pushed = λ j q. elim q [ inl same ↦ inl (rw same e) | inr rest ↦ p.pushed j rest ];
        only = λ j q. elim (p.only j q) [ inl a ↦ inl (inr a) | inr b ↦ inr b ];
        size = omega (arith, p.size);
      },
    )
    go (some false) e skip (wl', run, p) = (
      wl',
      rw (push_unmarked, e) run,
      record {
        kept = λ j q. p.kept j (inr q);
        pushed =
            λ j q. elim q [ inl same ↦ inr (p.kept j (inl same)) | inr rest ↦ p.pushed j rest ];
        only = λ j q. elim (p.only j q) [
          | inl a ↦ inl (inr a)
          | inr b ↦ elim b [ inl same ↦ inl (inl same) | inr old ↦ inr old ]
        ];
        size = omega (arith, p.size);
      },
    )

pub pending-set :
    (values : Slots) (marked : List Bool) (i : ℕ)
    → length marked ≡ length values
    → get_elem? marked i ≡ some false
    → pending values (set marked i true) + length (children_at values i) ≡ pending values marked
unfolding pending
pending-set [] [] i len e = cc
pending-set [] (m ∷ ms) i len e = absurd (omega arith)
pending-set (v ∷ vs) [] i len e = cc
pending-set (v ∷ vs) (true ∷ ms) zero len e = cc
pending-set (v ∷ vs) (false ∷ ms) zero len e = omega arith
pending-set (v ∷ vs) (true ∷ ms) (suc i) len e = pending-set vs ms i (omega arith) e
pending-set (v ∷ vs) (false ∷ ms) (suc i) len e = omega (arith, pending-set vs ms i (omega arith) e)
