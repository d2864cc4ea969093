-- ===== src/Heap/Defs.antt =====
-- src/vm/heap.rs: heap values, the heap and its counters, allocation and the write barrier.
-- A counter that the source adds to with `+=` wraps at 2 ^ 64, and one that it adds to with
-- `saturating_add` stops at 2 ^ 64 - 1. Slot indices are below the length of a vector.

use jvm_rs.Prelude.{
  ℕ, suc, ◌+◌, ◌-◌, ◌*◌, Bool, false, ◌&&◌, ◌||◌, Option, none, some, List, [], ◌∷◌, ◌++◌, String,
  ltb, leb, ◌==◌, if◌then◌else◌, length, set, replicate, resize, map, not,
}
use jvm_rs.Prelude.Int.{ℤ}
use jvm_rs.Prelude.Words.{usize_max, wrapping_inc, saturating_add}
use jvm_rs.Types.Value.{Value, Reference, heap}

pub data HeapValue : Type 0 where
  int_array : (values : List ℤ) → HeapValue
  reference_array : (component_type : String) → (values : List Reference) → HeapValue
  string : String → HeapValue
  long_array : (values : List ℤ) → HeapValue
  float_array : (values : List ℕ) → HeapValue
  double_array : (values : List ℕ) → HeapValue
  object : (class_name : String) → (fields : List Value) → HeapValue
  string_builder : String → HeapValue

unfoldable pub kind_name : HeapValue → String
kind_name (int_array _) = "int-array"
kind_name (long_array _) = "long-array"
kind_name (float_array _) = "float-array"
kind_name (double_array _) = "double-array"
kind_name (reference_array _ _) = "reference-array"
kind_name (string _) = "string"
kind_name (object _ _) = "object"
kind_name (string_builder _) = "string-builder"

-- What the standard library decides: the sizes of its headers, and the capacity that the vector or
-- text of a heap value has.
pub record Layout : Type 0 where
  pub vec_size : ℕ
  pub string_size : ℕ
  pub hash_map_size : ℕ
  pub capacity : HeapValue → ℕ

unfoldable pub heap_size : Layout → HeapValue → ℕ
heap_size l (int_array values) = l.vec_size + l.capacity (int_array values) * 4
heap_size l (long_array values) = l.vec_size + l.capacity (long_array values) * 8
heap_size l (float_array values) = l.vec_size + l.capacity (float_array values) * 4
heap_size l (double_array values) = l.vec_size + l.capacity (double_array values) * 8
heap_size l (reference_array c values) = l.vec_size + l.capacity (reference_array c values) * 8
heap_size l (string s) = l.string_size + l.capacity (string s)
heap_size l (object c fields) = l.hash_map_size + l.capacity (object c fields) * 32
heap_size l (string_builder s) = l.string_size + l.capacity (string_builder s)

pub record GcStats : Type 0 where
  pub collections : ℕ
  pub freed : ℕ
  pub live : ℕ
  pub total_allocations : ℕ
  pub pause_time_ns : ℕ
  pub freed_bytes : ℕ
  pub total_heap_bytes : ℕ
  pub last_collection_freed : ℕ
  pub tlab_allocations : ℕ
  pub tlab_refills : ℕ

abbrev pub Slots : Type 0
Slots = List (Option HeapValue)

pub record Heap : Type 0 where
  pub values : Slots
  pub live_count : ℕ
  pub allocs_since_gc : ℕ
  pub gc_threshold : ℕ
  pub stats : GcStats
  pub tlab_top : ℕ
  pub tlab_limit : ℕ
  pub tlab_size : ℕ
  pub ages : List ℕ
  pub young_end : ℕ
  pub survivor_end : ℕ
  pub promotion_age : ℕ
  pub minor_gc_count : ℕ
  pub major_gc_count : ℕ
  pub remembered_set : List (ℕ × ℕ)

abbrev pub default_stats : GcStats
default_stats = record {
  collections = 0;
  freed = 0;
  live = 0;
  total_allocations = 0;
  pause_time_ns = 0;
  freed_bytes = 0;
  total_heap_bytes = 0;
  last_collection_freed = 0;
  tlab_allocations = 0;
  tlab_refills = 0;
}

unfoldable pub default : Heap
default = record {
  values = [];
  live_count = 0;
  allocs_since_gc = 0;
  gc_threshold = 1024;
  stats = default_stats;
  tlab_top = 0;
  tlab_limit = 0;
  tlab_size = 256;
  ages = [];
  young_end = 0;
  survivor_end = 0;
  promotion_age = 4;
  minor_gc_count = 0;
  major_gc_count = 0;
  remembered_set = [];
}

unfoldable pub refill_tlab : Heap → Heap
refill_tlab h =
    let limit = saturating_add (length h.values) h.tlab_size in
    record h {
      stats = record (h.stats) { tlab_refills = wrapping_inc h.stats.tlab_refills 1 };
      tlab_top = length h.values;
      tlab_limit = limit;
      values = resize limit none h.values;
      ages = resize limit 0 h.ages;
    }

-- `while self.values.len() <= slot { push }`: the vector grows to hold the slot.
abbrev pub grow {ℓ} : {A : Type ℓ} → ℕ → A → List A → List A
grow n a xs = xs ++ replicate n a

-- The value is written into the next slot of the buffer.
unfoldable pub bump : HeapValue → Heap → Reference × Heap
bump value h =
    let slot = h.tlab_top in
    let missing = slot + 1 - length h.values in
    (
      heap slot,
      record h {
        tlab_top = slot + 1;
        stats = record (h.stats) { tlab_allocations = wrapping_inc h.stats.tlab_allocations 1 };
        values = set (grow missing none h.values) slot (some value);
        ages = grow missing 0 h.ages;
      },
    )

unfoldable pub count_allocation : Heap → Heap
count_allocation h = record h {
  allocs_since_gc = wrapping_inc h.allocs_since_gc 1;
  stats = record (h.stats) { total_allocations = saturating_add h.stats.total_allocations 1 };
}

unfoldable pub allocate : HeapValue → Heap → Reference × Heap
unfolding count_allocation
allocate value h =
    let h' = count_allocation h in
    if ltb h'.tlab_top h'.tlab_limit then bump value h' else bump value (refill_tlab h')

unfoldable pub allocate_int_array : List ℤ → Heap → Reference × Heap
unfolding allocate
allocate_int_array values = allocate (int_array values)

unfoldable pub allocate_string : String → Heap → Reference × Heap
unfolding allocate
allocate_string value = allocate (string value)

unfoldable pub allocate_reference_array : String → List Reference → Heap → Reference × Heap
unfolding allocate
allocate_reference_array component_type values = allocate (reference_array component_type values)

-- `remembered_set.contains(&pair)`
unfoldable pub remembers : List (ℕ × ℕ) → ℕ → ℕ → Bool
remembers [] source target = false
remembers ((s, t) ∷ rest) source target =
    (s == source && t == target) || remembers rest source target

unfoldable pub write_barrier : ℕ → ℕ → Heap → Heap
unfolding remembers
write_barrier source_slot target_slot h =
    if leb h.survivor_end source_slot && ltb target_slot h.survivor_end
    then (if remembers h.remembered_set source_slot target_slot
        then h
        else record h { remembered_set = h.remembered_set ++ (source_slot, target_slot) ∷ [] })
    else h

unfoldable pub clear_remembered_set : Heap → Heap
clear_remembered_set h = record h { remembered_set = [] }

unfoldable pub get_remembered_set_references : Heap → List ℕ
get_remembered_set_references h = map (λ p. p.1) h.remembered_set

-- `values.iter().filter(|v| v.is_some()).count()`
unfoldable pub count_live : Slots → ℕ
count_live [] = 0
count_live (none ∷ vs) = count_live vs
count_live (some v ∷ vs) = suc (count_live vs)

unfoldable pub len : Heap → ℕ
unfolding count_live
len h = count_live h.values

unfoldable pub should_collect : Heap → Bool
should_collect h = not (h.gc_threshold == usize_max) && leb h.gc_threshold h.allocs_since_gc
