-- ===== src/Heap/Roots.antt =====
-- The slots that the roots of a collection of src/vm/heap.rs reach.
use jvm_rs.Prelude.{
  ℕ, ◌+◌, ◌≤◌, ◌<◌, ◌≡◌, inl, inr, ◌⊎◌, ◌↔◌, Option, none, some, List, ltb, length, arith, get_some,
  get_some-ge, length-resize, Bool-cases, ltb→lt, ltb→ge, reverse, min,
}
use jvm_rs.Types.Value.{Reference}
use jvm_rs.Heap.Defs.{HeapValue, Heap, Slots, Layout}
use jvm_rs.Heap.Mark.{heap_indices}
use jvm_rs.Heap.Gc.{minor_worklist, finish_gc}
use jvm_rs.Heap.Reach.{In, Reach, children_at, In-append_right}
use jvm_rs.Heap.Finish.{IsCollected, In-reverse, Reach-mono}

-- The slots that the roots reach.
abbrev pub RootReach : List Reference → Heap → ℕ → Type 0
RootReach roots h = Reach h.values (heap_indices roots)

-- Every slot that the roots reach holds a value.
abbrev pub IsLive : List Reference → Heap → Type 0
IsLive roots h = (i : ℕ) → RootReach roots h i → (v : HeapValue) × (get_some h.values i ≡ some v)

pub roots-worklist :
    (roots : List Reference) (h : Heap) {i : ℕ}
    → RootReach roots h i
    → Reach h.values (minor_worklist roots h) i
unfolding minor_worklist
roots-worklist roots h r =
    Reach-mono
      (λ a p.
        In-append_right a _ (reverse (heap_indices roots))
          ((In-reverse a (heap_indices roots)).1 p))
      r

pub reverse-Reach :
    (roots : List Reference) (h : Heap) {i : ℕ}
    → RootReach roots h i ↔ Reach h.values (reverse (heap_indices roots)) i
reverse-Reach roots h = (
  Reach-mono (λ a p. (In-reverse a (heap_indices roots)).1 p),
  Reach-mono (λ a p. (In-reverse a (heap_indices roots)).0 p),
)

-- A slot is as it was, or empty.
abbrev pub KeptOrFreed : Slots → Slots → Type 0
KeptOrFreed vs vs' = (i : ℕ) → (get_some vs' i ≡ get_some vs i) ⊎ (get_some vs' i ≡ none)

pub collected-KeptOrFreed :
    {n : ℕ} {vs vs' : Slots} {wl : List ℕ} → IsCollected n vs wl vs' → KeptOrFreed vs vs'
collected-KeptOrFreed {n} c i = elim (Bool-cases (ltb i n)) [
  | inl young ↦ elim (c.unreached i (ltb→lt i n young)) [
    | inl r ↦ inl (c.reached i r)
    | inr e ↦ inr e
  ]
  | inr old ↦ inl (c.past i (ltb→ge i n old))
]

pub finish_gc-grows :
    (layout : Layout) (pause_ns : ℕ) (h : Heap)
    → length h.values ≤ length (finish_gc layout pause_ns h).values
unfolding finish_gc
finish_gc-grows layout pause_ns h = ground (
  arith,
  length-resize {A = Option HeapValue} (min (length h.values + h.tlab_size) 0xffff_ffff_ffff_ffff)
      none h.values,
)

pub children_at-eq :
    (vs vs' : Slots) (i : ℕ) → get_some vs' i ≡ get_some vs i → children_at vs' i ≡ children_at vs i
children_at-eq vs vs' i e = rw e

pub lt-some : (vs : Slots) (i : ℕ) {v : HeapValue} → get_some vs i ≡ some v → i < length vs
lt-some vs i e = ground (arith, get_some-ge vs i)

pub no_children : (vs : Slots) (i j : ℕ) → get_some vs i ≡ none → In j (children_at vs i) → ⊥
no_children vs i j e c = rw e at c
