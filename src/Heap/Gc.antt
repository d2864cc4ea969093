-- ===== src/Heap/Gc.antt =====
-- src/vm/heap.rs: the sweeps and the collector. The time that a collection takes and the layout of
-- heap values are given to it.
use jvm_rs.Prelude.{
  ℕ, zero, suc, ◌+◌, ◌*◌, Bool, true, false, Option, none, some, List, [], ◌∷◌, ◌++◌, ltb,
  if◌then◌else◌, length, resize, take, reverse, min,
}
use jvm_rs.Types.Value.{Reference}
use jvm_rs.Prelude.Words.{wrapping_inc, saturating_add}
use jvm_rs.Heap.Defs.{
  HeapValue, Heap, Slots, Layout, heap_size, count_live, clear_remembered_set,
  get_remembered_set_references,
}
use jvm_rs.Heap.Mark.{Loop, finished, out_of_range, out_of_fuel, heap_indices, mark_from}

-- What a sweep leaves: the slots, their ages, and the number and bytes freed.
pub record Swept : Type 0 where
  pub values : Slots
  pub ages : List ℕ
  pub freed_count : ℕ
  pub freed_bytes : ℕ

-- One slot in front of the sweep of those behind it.
abbrev pub keep_slot : Option HeapValue → ℕ → Swept → Swept
keep_slot v age s = record s { values = v ∷ s.values; ages = age ∷ s.ages }

abbrev pub free_slot : ℕ → Swept → Swept
free_slot bytes s = record {
  values = none ∷ s.values;
  ages = 0 ∷ s.ages;
  freed_count = wrapping_inc s.freed_count 1;
  freed_bytes = wrapping_inc s.freed_bytes bytes;
}

module _ (layout : Layout) where
  unfoldable pub sweep_slot : (ℕ → ℕ) → Option HeapValue → Bool → ℕ → Swept → Swept
  sweep_slot survive none marked age s = keep_slot none age s
  sweep_slot survive (some value) true age s = keep_slot (some value) (survive age) s
  sweep_slot survive (some value) false age s = free_slot (heap_size layout value) s

-- The first `n` slots are swept: one that holds a value is freed if it is not marked, and else its
-- age is changed by `survive`. The slots, marks and ages run in step; it panics past their end.
unfoldable pub sweep : Layout → (ℕ → ℕ) → ℕ → Slots → List Bool → List ℕ → Loop Swept
unfolding sweep_slot
sweep layout survive zero values marked ages =
    finished (record { values = values; ages = ages; freed_count = 0; freed_bytes = 0 })
sweep layout survive (suc n) (v ∷ vs) (m ∷ ms) (a ∷ as') = elim (sweep layout survive n vs ms as') [
  | finished s ↦ finished (sweep_slot layout survive v m a s)
  | out_of_range ↦ out_of_range
  | out_of_fuel ↦ out_of_fuel
]
sweep layout survive (suc n) values marked ages = out_of_range

-- `self.ages[i].saturating_add(1)` on a `u8`
abbrev pub older : ℕ → ℕ
older age = min (age + 1) 0xff

-- `while self.values.last().map_or(false, |v| v.is_none()) { pop }`
unfoldable pub trim : Slots → Slots
trim [] = []
trim (v ∷ vs) = elim (trim vs) [
  | [] ↦ elim v [ none ↦ [] | some value ↦ some value ∷ [] ]
  | w ∷ ws ↦ v ∷ w ∷ ws
]

unfoldable pub counted : Swept → Heap → Heap
counted s h = record h {
  stats = record (h.stats) {
    freed = saturating_add h.stats.freed s.freed_count;
    last_collection_freed = s.freed_count;
    freed_bytes = saturating_add h.stats.freed_bytes s.freed_bytes;
  };
}

-- The end of a minor collection, after its sweep.
unfoldable pub finish_minor : Swept → Heap → Heap
unfolding counted clear_remembered_set count_live
finish_minor s h =
    let limit = saturating_add (length s.values) h.tlab_size in
    counted s (record (clear_remembered_set h) {
      live_count = count_live s.values;
      allocs_since_gc = 0;
      tlab_top = length s.values;
      tlab_limit = limit;
      values = resize limit none s.values;
      ages = resize limit 0 s.ages;
    })

-- The end of a major collection, after its sweep.
unfoldable pub finish_major : Swept → Heap → Heap
unfolding counted trim count_live
finish_major s h =
    let kept = trim s.values in
    counted s (record h {
      live_count = count_live s.values;
      allocs_since_gc = 0;
      values = kept;
      ages = take (length kept) s.ages;
      survivor_end = length kept;
      young_end = length kept;
    })

-- A loop, and what follows it.
abbrev pub and_do {ℓ κ} : {A : Type ℓ} {B : Type κ} → Loop A → (A → Loop B) → Loop B
and_do (finished a) f = f a
and_do out_of_range f = out_of_range
and_do out_of_fuel f = out_of_fuel

-- `target < marked.len() && !marked[target]`, while nothing is marked yet
unfoldable pub in_range : ℕ → List ℕ → List ℕ
in_range n [] = []
in_range n (i ∷ is) = if ltb i n then i ∷ in_range n is else in_range n is

-- The roots come off the worklist last first, and what the remembered set adds before them.
unfoldable pub minor_worklist : List Reference → Heap → List ℕ
minor_worklist roots h =
    reverse (in_range (length h.values) (get_remembered_set_references h))
    ++ reverse (heap_indices roots)

unfoldable pub count_minor : Heap → Heap
count_minor h = record h { minor_gc_count = wrapping_inc h.minor_gc_count 1 }

unfoldable pub count_major : Heap → Heap
count_major h = record h { major_gc_count = wrapping_inc h.major_gc_count 1 }

unfoldable pub minor_gc_internal : Layout → List Reference → Heap → Loop Heap
minor_gc_internal layout roots h =
    let h' = count_minor h in
    and_do (mark_from h'.values (minor_worklist roots h')) λ marked.
      and_do (sweep layout older h'.survivor_end h'.values marked h'.ages)
        λ s. finished (finish_minor s h')

unfoldable pub major_gc_internal : Layout → List Reference → Heap → Loop Heap
major_gc_internal layout roots h =
    let h' = count_major h in
    and_do (mark_from h'.values (reverse (heap_indices roots))) λ marked.
      and_do (sweep layout (λ age. age) (length h'.values) h'.values marked h'.ages)
        λ s. finished (finish_major s h')

unfoldable pub live_bytes : Layout → Slots → ℕ
live_bytes layout [] = 0
live_bytes layout (none ∷ vs) = live_bytes layout vs
live_bytes layout (some v ∷ vs) = heap_size layout v + live_bytes layout vs

-- The end of every collection: the counters, and a new buffer at the end of the heap.
unfoldable pub finish_gc : Layout → ℕ → Heap → Heap
unfolding live_bytes
finish_gc layout pause_ns h =
    let limit = saturating_add (length h.values) h.tlab_size in
    record h {
      stats = record (h.stats) {
        collections = saturating_add h.stats.collections 1;
        pause_time_ns = saturating_add h.stats.pause_time_ns pause_ns;
        total_heap_bytes = live_bytes layout h.values;
      };
      tlab_top = length h.values;
      tlab_limit = limit;
      values = if ltb (length h.values) limit then resize limit none h.values else h.values;
      ages = if ltb (length h.values) limit then resize limit 0 h.ages else h.ages;
    }

unfoldable pub gc : Layout → ℕ → List Reference → Heap → Loop Heap
gc layout pause_ns roots h =
    let is_minor = ltb (length h.values) (h.survivor_end * 2) in
    let collected =
      if is_minor then minor_gc_internal layout roots h else major_gc_internal layout roots h in
    and_do collected λ h'. finished (finish_gc layout pause_ns h')
