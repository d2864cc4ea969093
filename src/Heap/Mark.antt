-- ===== src/Heap/Mark.antt =====
-- src/vm/heap.rs: the marking loop that `minor_gc_internal` and `major_gc_internal` share.
-- The worklist is a stack, its top first. The loop takes fuel, one unit a round.
use jvm_rs.Prelude.{
  ℕ, zero, suc, ◌+◌, Bool, true, false, Option, none, some, List, [], ◌∷◌, length, get_elem?, set,
  replicate, get_some,
}
use jvm_rs.Types.Value.{Value, Reference, null, heap}
use jvm_rs.Heap.Defs.{HeapValue, reference_array, object, Slots}

-- How a loop ends: with its result, by an index out of range, or not within its fuel.
pub data Loop {ℓ} (A : Type ℓ) : Type ℓ where
  finished : A → Loop A
  out_of_range : Loop A
  out_of_fuel : Loop A

-- The `Reference::Heap(i)` of a list of references, and of the fields of an object.
unfoldable pub heap_indices : List Reference → List ℕ
heap_indices [] = []
heap_indices (null ∷ rs) = heap_indices rs
heap_indices (heap i ∷ rs) = i ∷ heap_indices rs

unfoldable pub field_indices : List Value → List ℕ
field_indices [] = []
field_indices (Value.reference (heap i) ∷ vs) = i ∷ field_indices vs
field_indices (_ ∷ vs) = field_indices vs

-- The references that are traced from a heap value.
unfoldable pub children : HeapValue → List ℕ
unfolding heap_indices field_indices
children (reference_array _ values) = heap_indices values
children (object _ fields) = field_indices fields
children _ = []

abbrev pub children_of : Option HeapValue → List ℕ
children_of none = []
children_of (some value) = children value

-- `if !marked[*i] { worklist.push(*i) }` for each child.
unfoldable pub push_unmarked : List Bool → List ℕ → List ℕ → Loop (List ℕ)
push_unmarked marked [] worklist = finished worklist
push_unmarked marked (i ∷ is) worklist = elim (get_elem? marked i) [
  | none ↦ out_of_range
  | some true ↦ push_unmarked marked is worklist
  | some false ↦ push_unmarked marked is (i ∷ worklist)
]

-- `while let Some(index) = worklist.pop()`
unfoldable pub mark : ℕ → Slots → List Bool → List ℕ → Loop (List Bool)
mark zero values marked worklist = out_of_fuel
mark (suc fuel) values marked [] = finished marked
mark (suc fuel) values marked (index ∷ worklist) = elim (get_elem? marked index) [
  | none ↦ mark fuel values marked worklist
  | some true ↦ mark fuel values marked worklist
  | some false ↦
      elim (push_unmarked (set marked index true) (children_of (get_some values index)) worklist) [
        | finished worklist' ↦ mark fuel values (set marked index true) worklist'
        | out_of_range ↦ out_of_range
        | out_of_fuel ↦ out_of_fuel
      ]
]

-- The children that the marking can still push: those of the slots that are not marked.
unfoldable pub pending : Slots → List Bool → ℕ
pending [] marked = 0
pending (v ∷ vs) [] = 0
pending (v ∷ vs) (true ∷ ms) = pending vs ms
pending (v ∷ vs) (false ∷ ms) = length (children_of v) + pending vs ms

-- The marking from a worklist, with nothing marked at first.
unfoldable pub mark_from : Slots → List ℕ → Loop (List Bool)
unfolding mark pending push_unmarked children
mark_from values worklist =
    let marked = replicate (length values) false in
    mark (suc (length worklist + pending values marked)) values marked worklist
