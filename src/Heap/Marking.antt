-- ===== src/Heap/Marking.antt =====
-- The marking loop of src/vm/heap.rs, and the slots that can be reached from its worklist.
use jvm_rs.Prelude.{
  ℕ, zero, suc, ◌+◌, ◌<◌, ◌≡◌, ◌∙◌, refl, inl, inr, ◌⊎◌, ◌↔◌, Bool, true, false, Option, none, some,
  List, [], ◌∷◌, length, get_elem?, set, replicate, arith, get_elem?-set, length-set,
  get_elem?-set_self, lt-get_elem?, get_elem?-none, length-replicate,
}
use jvm_rs.Heap.Defs.{Slots}
use jvm_rs.Heap.Mark.{Loop, finished, mark, pending, mark_from}
use jvm_rs.Heap.Reach.{In, Reach, root, step, children_at, IsInRange, lt-children_at}
use jvm_rs.Heap.Pushing.{Pushed, push_unmarked_lem, pending-set}

-- The loop invariant: what is marked or waits can be reached, and the children of what is marked
-- and the roots are marked or wait.
record IsMarking (values : Slots) (roots : List ℕ) (marked : List Bool) (wl : List ℕ) : Type 0 where
  len : length marked ≡ length values
  marked_reach : (i : ℕ) → get_elem? marked i ≡ some true → Reach values roots i
  waiting_reach : (i : ℕ) → In i wl → Reach values roots i
  closed :
      (i j : ℕ)
      → get_elem? marked i ≡ some true
      → In j (children_at values i)
      → (get_elem? marked j ≡ some true) ⊎ In j wl
  rooted : (i : ℕ) → i < length values → In i roots → (get_elem? marked i ≡ some true) ⊎ In i wl

module _ (values : Slots) (roots : List ℕ) where
  -- A popped index that needs no visit.
  skip :
      {marked : List Bool} {i : ℕ} {wl : List ℕ}
      → ((i < length values) → get_elem? marked i ≡ some true)
      → IsInRange values roots
      → IsMarking values roots marked (i ∷ wl)
      → IsMarking values roots marked wl
  skip {marked} {i} done fits m = record {
    len = m.len;
    marked_reach = m.marked_reach;
    waiting_reach = λ j p. m.waiting_reach j (inr p);
    closed = λ a j p q. elim (m.closed a j p q) [
      | inl old ↦ inl old
      | inr waits ↦ elim waits [
        | inl same ↦ inl (rw same (done (rw (← same) (fits a j (m.marked_reach a p) q))))
        | inr rest ↦ inr rest
      ]
    ];
    rooted = λ j p q. elim (m.rooted j p q) [
      | inl old ↦ inl old
      | inr waits ↦ elim waits [
        | inl same ↦ inl (rw same (done (rw (← same) p)))
        | inr rest ↦ inr rest
      ]
    ];
  }

  marked-set :
      (marked : List Bool) (i j : ℕ)
      → get_elem? marked j ≡ some true
      → get_elem? (set marked i true) j ≡ some true
  marked-set marked i j h = ground (arith, get_elem?-set marked i j true)

  marked-unset :
      (marked : List Bool) (i j : ℕ)
      → get_elem? (set marked i true) j ≡ some true
      → (i ≡ j) ⊎ (get_elem? marked j ≡ some true)
  marked-unset marked i j h = ground (arith, get_elem?-set marked i j true)

  -- A visit marks the index and pushes its children.
  visit :
      {marked : List Bool} {i : ℕ} {wl wl' : List ℕ}
      → i < length marked
      → IsMarking values roots marked (i ∷ wl)
      → Pushed (set marked i true) (children_at values i) wl wl'
      → IsMarking values roots (set marked i true) wl'
  visit {marked} {i} bound m p =
      let here : get_elem? (set marked i true) i ≡ some true =
        get_elem?-set_self marked i true bound in
      let reached = m.waiting_reach i (inl refl) in
      record {
        len = length-set marked i true ∙ m.len;
        marked_reach = λ j q. elim (marked-unset marked i j q) [
          | inl same ↦ rw (← same) reached
          | inr old ↦ m.marked_reach j old
        ];
        waiting_reach = λ j q. elim (p.only j q) [
          | inl child ↦ step reached child
          | inr old ↦ m.waiting_reach j (inr old)
        ];
        closed = λ a j q c. elim (marked-unset marked i a q) [
          | inl same ↦ p.pushed j (rw same c)
          | inr old ↦ elim (m.closed a j old c) [
            | inl done ↦ inl (marked-set marked i j done)
            | inr waits ↦ elim waits [ inl e ↦ inl (rw e here) | inr rest ↦ inr (p.kept j rest) ]
          ]
        ];
        rooted = λ j q r. elim (m.rooted j q r) [
          | inl done ↦ inl (marked-set marked i j done)
          | inr waits ↦ elim waits [ inl e ↦ inl (rw e here) | inr rest ↦ inr (p.kept j rest) ]
        ];
      }

-- The loop ends within its fuel, with the invariant and an empty worklist.
mark_lem :
    (fuel : ℕ) (values : Slots) (roots : List ℕ) (marked : List Bool) (wl : List ℕ)
    → IsInRange values roots
    → IsMarking values roots marked wl
    → length wl + pending values marked < fuel
    → (marked' : List Bool) × (mark fuel values marked wl ≡ finished marked')
      × IsMarking values roots marked' []
unfolding mark
mark_lem zero values roots marked wl fits m h = absurd (omega arith)
mark_lem (suc fuel) values roots marked [] fits m h = (marked, refl, m)
mark_lem (suc fuel) values roots marked (i ∷ wl) fits m h =
    go (get_elem? marked i) refl
      (λ done.
        mark_lem fuel values roots marked wl fits (skip values roots done fits m) (omega arith))
      (λ wl'. mark_lem fuel values roots (set marked i true) wl' fits)
  where
    Ends : Loop (List Bool) → Type 0
    Ends run = (marked' : List Bool) × (run ≡ finished marked') × IsMarking values roots marked' []

    go :
        (o : Option Bool)
        → get_elem? marked i ≡ o
        → ((i < length values → get_elem? marked i ≡ some true) → Ends (mark fuel values marked wl))
        → ((wl' : List ℕ)
            → IsMarking values roots (set marked i true) wl'
            → length wl' + pending values (set marked i true) < fuel
            → Ends (mark fuel values (set marked i true) wl'))
        → Ends (mark (suc fuel) values marked (i ∷ wl))
    go none e skipped visited =
        let (m', run, ends) =
          skipped (λ p. absurd (omega (arith, m.len, get_elem?-none marked i e))) in
        (m', rw (mark, e) run, ends)
    go (some true) e skipped visited =
        let (m', run, ends) = skipped (λ p. e) in (m', rw (mark, e) run, ends)
    go (some false) e skipped visited =
        let reached = m.waiting_reach i (inl refl) in
        let (wl', pushes, p) =
          push_unmarked_lem (set marked i true) (children_at values i) wl
            (λ j c. omega (arith, fits i j reached c, m.len, length-set marked i true)) in
        let (m', run, ends) =
          visited wl' (visit values roots (lt-get_elem? marked i e) m p)
            (omega (arith, p.size, pending-set values marked i m.len e)) in
        (m', rw (mark, e, pushes) run, ends)

unmarked : (n i : ℕ) → get_elem? (replicate n false) i ≡ some true → ⊥
unmarked zero i h = cc
unmarked (suc n) zero h = cc
unmarked (suc n) (suc i) h = unmarked n i h

-- When nothing waits, a slot that can be reached is marked.
marked-Reach :
    (values : Slots) (roots : List ℕ) (marked : List Bool) (i : ℕ)
    → IsInRange values roots
    → IsMarking values roots marked []
    → Reach values roots i
    → i < length values
    → get_elem? marked i ≡ some true
marked-Reach values roots marked i fits m (root r) bound = elim (m.rooted i bound r) [
  | inl done ↦ done
  | inr waits ↦ elim waits [ ]
]
marked-Reach values roots marked i fits m (step {i = parent} r c) bound =
    let up = marked-Reach values roots marked parent fits m r (lt-children_at values parent i c) in
    elim (m.closed parent i up c) [ inl done ↦ done | inr waits ↦ elim waits [ ] ]

-- If every reference that a reached value holds is a slot of the heap, the marking from a worklist
-- ends within its fuel and with no index out of range, and it marks a slot exactly when that slot
-- can be reached from the worklist.
pub mark_from_iff :
    (values : Slots) (roots : List ℕ)
    → IsInRange values roots
    → (marked : List Bool) × (mark_from values roots ≡ finished marked)
      × (length marked ≡ length values)
      × ((i : ℕ) → i < length values → (get_elem? marked i ≡ some true) ↔ Reach values roots i)
unfolding mark_from
mark_from_iff values roots fits =
    let start = replicate (length values) false in
    let (marked, run, m) =
      mark_lem (suc (length roots + pending values start)) values roots start roots fits
        (record {
          len = length-replicate (length values) false;
          marked_reach = λ i p. absurd (unmarked (length values) i p);
          waiting_reach = λ i p. root p;
          closed = λ i j p c. absurd (unmarked (length values) i p);
          rooted = λ i p r. inr r;
        })
        (omega arith) in
    (
      marked,
      run,
      m.len,
      λ i bound. (m.marked_reach i, λ r. marked-Reach values roots marked i fits m r bound),
    )
