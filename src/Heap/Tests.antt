-- ===== src/Heap/Tests.antt =====
-- Runs of the heap of src/vm/heap.rs, and its theorems at a small heap.
use jvm_rs.Prelude.{
  ℕ, zero, suc, ◌+◌, ◌≤◌, ◌<◌, ◌≡◌, ◌≢◌, refl, inl, inr, ◌⊎◌, ◌↔◌, Bool, true, none, some, List, [],
  ◌∷◌, length, get_elem?, arith, get_some,
}
use jvm_rs.Prelude.Int.{pos, negsuc}
use jvm_rs.Types.Value.{Value, Reference, null, heap, ok, err, invalid_heap_reference}
use jvm_rs.Heap.Defs.{
  int_array, reference_array, string, long_array, Heap, Slots, Layout, default_stats, allocate,
  write_barrier, remembers, clear_remembered_set, get_remembered_set_references, heap_size, len,
  count_live,
}
use jvm_rs.Heap.Arrays.{
  get, store_reference_array_element, store_reference, store_element, write_back, put, barrier_for,
  is_reference_array, load_reference_array_element, store_int_array_element, store_int,
  load_int_array_element, store_typed_array_element, store_typed, store_checked, check_array_index,
  load_typed_array_element,
}
use jvm_rs.Heap.Mark.{Loop, finished, mark_from, heap_indices, children}
use jvm_rs.Heap.Gc.{
  gc, minor_gc_internal, major_gc_internal, finish_gc, finish_minor, finish_major, sweep, counted,
  trim, minor_worklist, in_range, count_minor, count_major,
}
use jvm_rs.Heap.Reach.{Reach, root, step, In, children_at}
use jvm_rs.Heap.Marking.{mark_from_iff}
use jvm_rs.Heap.Valid.{IsValid, allocate_fresh}
use jvm_rs.Heap.Accounts.{gc_accounts}
use jvm_rs.Heap.Roots.{RootReach, IsLive}
use jvm_rs.Heap.Safety.{gc_keeps_reachable, gc_major_frees, gc_minor_frees, gc-IsLive}
use jvm_rs.Heap.Finish.{IsClosed}
use jvm_rs.Heap.ArrayElements.{load_int_array_element-store, load_typed_array_element-store}
use jvm_rs.Heap.Stores.{load_reference_array_element-store, failed_stores}

abbrev layout : Layout
layout = record { vec_size = 24; string_size = 24; hash_map_size = 48; capacity = λ v. 0 }

-- Slot 0 refers to slot 2; nothing refers to slot 1; slot 3 is free.
abbrev cells : Slots
cells =
    some (reference_array "java/lang/Object" (heap 2 ∷ null ∷ []))
    ∷ some (string "lost")
    ∷ some (int_array (pos 7 ∷ []))
    ∷ none
    ∷ []

-- A heap with these slots, whose young generation is the first slots.
abbrev small : ℕ → Heap
small young = record {
  values = cells;
  live_count = 3;
  allocs_since_gc = 3;
  gc_threshold = 1024;
  stats = default_stats;
  tlab_top = 3;
  tlab_limit = 4;
  tlab_size = 2;
  ages = 0 ∷ 0 ∷ 0 ∷ 0 ∷ [];
  young_end = young;
  survivor_end = young;
  promotion_age = 4;
  minor_gc_count = 0;
  major_gc_count = 0;
  remembered_set = [];
}

empty_slot : (i : ℕ) → 3 ≤ i → get_some cells i ≡ none
empty_slot zero h = absurd (omega arith)
empty_slot (suc zero) h = absurd (omega arith)
empty_slot (suc (suc zero)) h = absurd (omega arith)
empty_slot (suc (suc (suc zero))) h = refl
empty_slot (suc (suc (suc (suc i)))) h = refl

small-IsValid : (young : ℕ) → young ≤ 4 → IsValid (small young)
small-IsValid young h = record {
  aged = refl;
  free = empty_slot;
  buffer = omega arith;
  top = omega arith;
  young = h;
  fits = omega arith;
}

small_children : (i j : ℕ) → In j (children_at cells i) → (i ≡ 0) × (j ≡ 2)
unfolding children heap_indices
small_children zero j (inl e) = (refl, e)
small_children zero j (inr h) = elim h [ ]
small_children (suc zero) j h = elim h [ ]
small_children (suc (suc zero)) j h = elim h [ ]
small_children (suc (suc (suc zero))) j h = elim h [ ]
small_children (suc (suc (suc (suc i)))) j h = elim h [ ]

small-IsClosed : IsClosed cells
small-IsClosed i j h = omega (arith, (small_children i j h).1)

abbrev roots : List Reference
roots = heap 0 ∷ []

-- From slot 0 the slots 0 and 2 are reached, and no other.
small-Reach : (i : ℕ) → Reach cells (heap_indices roots) i → (i ≡ 0) ⊎ (i ≡ 2)
unfolding heap_indices
small-Reach i (root (inl e)) = inl e
small-Reach i (root (inr h)) = elim h [ ]
small-Reach i (step {i = a} r c) = inr (small_children a i c).1

small-IsLive : (young : ℕ) → IsLive roots (small young)
small-IsLive young i r = elim (small-Reach i r) [
  | inl e ↦ rw e (reference_array "java/lang/Object" (heap 2 ∷ null ∷ []), refl)
  | inr e ↦ rw e (int_array (pos 7 ∷ []), refl)
]

collected : Loop Heap → Slots
collected (finished h) = h.values
collected _ = []

-- A major collection frees slot 1, drops slot 3 and sets up a new buffer of two slots.
major_run :
    collected (gc layout 0 roots (small 0))
    ≡ some (reference_array "java/lang/Object" (heap 2 ∷ null ∷ []))
      ∷ none
      ∷ some (int_array (pos 7 ∷ []))
      ∷ none
      ∷ none
      ∷ []
unfolding collected gc minor_gc_internal major_gc_internal finish_gc finish_major sweep counted trim
    mark_from heap_indices count_minor count_major heap_size
major_run = refl

-- A minor collection frees the unreached slot of the young generation and keeps the free slot.
minor_run : get_some (collected (gc layout 0 roots (small 3))) 1 ≡ none
unfolding collected gc minor_gc_internal major_gc_internal finish_gc finish_minor sweep counted trim
    mark_from heap_indices count_minor count_major heap_size minor_worklist in_range
    get_remembered_set_references clear_remembered_set
minor_run = refl

mark_from_iff_example :
    (marked : List Bool) × (mark_from cells (heap_indices roots) ≡ finished marked)
    × (length marked ≡ 4)
    × ((i : ℕ) → i < 4 → (get_elem? marked i ≡ some true) ↔ Reach cells (heap_indices roots) i)
mark_from_iff_example = mark_from_iff cells (heap_indices roots) (λ i j r c. small-IsClosed i j c)

gc_keeps_reachable_example :
    (h' : Heap) × (gc layout 5 roots (small 3) ≡ finished h')
    × IsValid h'
    × ((i : ℕ) → RootReach roots (small 3) i → get (heap i) h' ≡ get (heap i) (small 3))
    × ((i : ℕ)
        → (get (heap i) h' ≡ get (heap i) (small 3))
          ⊎ (get (heap i) h' ≡ err (invalid_heap_reference i)))
gc_keeps_reachable_example =
    gc_keeps_reachable layout 5 roots (small 3) (small-IsValid 3 (omega arith)) small-IsClosed

gc_major_frees_example :
    (h' : Heap) × (gc layout 5 roots (small 1) ≡ finished h')
    × ((i : ℕ) → ¬ RootReach roots (small 1) i → get (heap i) h' ≡ err (invalid_heap_reference i))
gc_major_frees_example =
    gc_major_frees layout 5 roots (small 1) (omega arith) (small-IsValid 1 (omega arith))
      small-IsClosed

gc_minor_frees_example :
    (h' : Heap) × (gc layout 5 roots (small 3) ≡ finished h')
    × ((i : ℕ) → 3 ≤ i → get (heap i) h' ≡ get (heap i) (small 3))
    × ((i : ℕ)
        → i < 3
        → ¬ Reach cells (minor_worklist roots (small 3)) i
        → get (heap i) h' ≡ err (invalid_heap_reference i))
gc_minor_frees_example =
    gc_minor_frees layout 5 roots (small 3) (omega arith) (small-IsValid 3 (omega arith))
      small-IsClosed

gc-IsLive_example :
    (h' : Heap) × (gc layout 5 roots (small 1) ≡ finished h') × IsClosed h'.values × IsLive roots h'
gc-IsLive_example =
    gc-IsLive layout 5 roots (small 1) (small-IsValid 1 (omega arith)) small-IsClosed
      (small-IsLive 1)

allocate_fresh_example :
    let (r, h') = allocate (string "new") (small 0) in
    (slot : ℕ) × (r ≡ heap slot)
    × (get_some cells slot ≡ none)
    × (get r h' ≡ ok (string "new"))
    × ((i : ℕ) → i ≢ slot → get (heap i) h' ≡ get (heap i) (small 0))
    × IsValid h'
allocate_fresh_example =
    allocate_fresh (string "new") (small 0) (small-IsValid 0 (omega arith)) (omega arith)

-- An old array in slot 1 and a young value in slot 0.
abbrev old_array : Heap
old_array = record (small 1) {
  values = some (string "young") ∷ some (reference_array "java/lang/Object" (null ∷ [])) ∷ [];
}

abbrev stored : Heap
stored = (store_reference_array_element (heap 1) (pos 0) (heap 0) old_array).1

load_reference_array_element-store_example :
    (load_reference_array_element (heap 1) (pos 0) stored ≡ ok (heap 0))
    × ((target : ℕ)
        → ◌≡◌ {A = Reference} (heap 0) (heap target)
        → 1 ≤ 1
        → target < 1
        → remembers stored.remembered_set 1 target ≡ true)
unfolding store_reference_array_element barrier_for write_barrier get store_reference write_back
    is_reference_array store_element put remembers
load_reference_array_element-store_example =
    load_reference_array_element-store 1 (pos 0) (heap 0) old_array refl

load_int_array_element-store_example :
    load_int_array_element
      (heap 2)
      (pos 0)
      (store_int_array_element (heap 2) (pos 0) (negsuc 4) (small 0)).1
    ≡ ok (negsuc 4)
unfolding store_int_array_element get store_int write_back store_element put
load_int_array_element-store_example =
    load_int_array_element-store (heap 2) (pos 0) (negsuc 4) (small 0) refl

abbrev longs : Heap
longs = record (small 0) { values = some (long_array (pos 1 ∷ pos 2 ∷ [])) ∷ [] }

load_typed_array_element-store_example :
    load_typed_array_element
      (heap 0)
      (pos 1)
      (store_typed_array_element (heap 0) (pos 1) (Value.long (pos 9)) longs).1
    ≡ ok (Value.long (pos 9))
unfolding store_typed_array_element get store_typed write_back store_checked check_array_index put
load_typed_array_element-store_example =
    load_typed_array_element-store (heap 0) (pos 1) (Value.long (pos 9)) longs refl

failed_stores_example :
    let (ra, ha) = store_int_array_element (heap 0) (pos 9) (pos 1) (small 0) in
    let (rb, hb) = store_typed_array_element (heap 0) (pos 9) (Value.int (pos 1)) (small 0) in
    let (rc, hc) = store_reference_array_element (heap 0) (pos 9) null (small 0) in
    ((ra ≡ ok tt) ⊎ (ha ≡ small 0))
    × ((rb ≡ ok tt) ⊎ (hb ≡ small 0))
    × ((rc ≡ ok tt) ⊎ (hc.values ≡ cells))
failed_stores_example = failed_stores (heap 0) (pos 9) (pos 1) (Value.int (pos 1)) null (small 0)

-- Of the three values of the heap, a major collection frees one.
gc_accounts_example :
    (h' : Heap) × (gc layout 0 roots (small 1) ≡ finished h')
    × (h'.live_count ≡ len h')
    × (len h' + h'.stats.last_collection_freed ≡ 3)
    × (h'.allocs_since_gc ≡ 0)
    × (h'.stats.live ≡ 0)
unfolding len count_live
gc_accounts_example =
    gc_accounts layout roots (small 1) (small-IsValid 1 (omega arith)) small-IsClosed 0
