-- ===== src/Heap/Arrays.antt =====
-- src/vm/heap.rs: reading a heap value, and the elements of an array.
use jvm_rs.Prelude.{
  ℕ, Bool, true, false, none, some, List, ltb, leb, if◌then◌else◌, length, get_elem?, set, get_some,
}
use jvm_rs.Prelude.Int.{ℤ, pos, negsuc}
use jvm_rs.Types.Value.{
  Value, Reference, null, heap, Result, ok, err, panic, null_reference, invalid_heap_reference,
  invalid_heap_value, array_index_out_of_bounds, type_mismatch,
}
use jvm_rs.Types.Action.{Action, ok_or}
use jvm_rs.Heap.Defs.{
  HeapValue, int_array, reference_array, long_array, float_array, double_array, kind_name, Heap,
  write_barrier,
}

unfoldable pub get : Reference → Heap → Result HeapValue
get null h = err null_reference
get (heap index) h = ok_or (get_some h.values index) (invalid_heap_reference index)

-- `?` on a result in a method that only reads.
abbrev pub on_value {ℓ κ} : {A : Type ℓ} {B : Type κ} → Result A → (A → Result B) → Result B
on_value (ok a) f = f a
on_value (err e) f = err e
on_value panic f = panic

unfoldable pub array_len : HeapValue → Result ℕ
array_len (int_array values) = ok (length values)
array_len (long_array values) = ok (length values)
array_len (float_array values) = ok (length values)
array_len (double_array values) = ok (length values)
array_len (reference_array _ values) = ok (length values)
array_len value = err (invalid_heap_value "array" (kind_name value))

unfoldable pub array_length : Reference → Heap → Result ℕ
array_length reference h = on_value (get reference h) array_len

-- `values.get(index).copied()` at an `i32` index.
unfoldable pub load_element {ℓ} : {A : Type ℓ} → ℤ → List A → Result A
load_element (negsuc n) values = err (array_index_out_of_bounds (negsuc n) (length values))
load_element (pos i) values =
    ok_or (get_elem? values i) (array_index_out_of_bounds (pos i) (length values))

unfoldable pub load_int : ℤ → HeapValue → Result ℤ
load_int index (int_array values) = load_element index values
load_int index value = err (invalid_heap_value "int-array" (kind_name value))

unfoldable pub load_int_array_element : Reference → ℤ → Heap → Result ℤ
load_int_array_element reference index h = on_value (get reference h) (load_int index)

unfoldable pub load_reference : ℤ → HeapValue → Result Reference
load_reference index (reference_array _ values) = load_element index values
load_reference index value = err (invalid_heap_value "reference-array" (kind_name value))

unfoldable pub load_reference_array_element : Reference → ℤ → Heap → Result Reference
load_reference_array_element reference index h = on_value (get reference h) (load_reference index)

unfoldable pub check_array_index : ℤ → ℕ → Result ℕ
check_array_index (negsuc n) len = err (array_index_out_of_bounds (negsuc n) len)
check_array_index (pos i) len =
    if leb len i then err (array_index_out_of_bounds (pos i) len) else ok i

-- `values[i]` after the check, which panics out of range.
abbrev pub index_or_panic {ℓ} : {A : Type ℓ} → List A → ℕ → Result A
index_or_panic values i = elim (get_elem? values i) [ none ↦ panic | some v ↦ ok v ]

unfoldable pub load_checked {ℓ} : {A : Type ℓ} → ℤ → List A → Result A
load_checked index values =
    on_value (check_array_index index (length values)) (index_or_panic values)

unfoldable pub load_typed : ℤ → HeapValue → Result Value
load_typed index (long_array values) = on_value (load_checked index values) (λ v. ok (Value.long v))
load_typed index (float_array values) =
    on_value (load_checked index values) (λ v. ok (Value.float v))
load_typed index (double_array values) =
    on_value (load_checked index values) (λ v. ok (Value.double v))
load_typed index value = err (invalid_heap_value "typed-array" (kind_name value))

unfoldable pub load_typed_array_element : Reference → ℤ → Heap → Result Value
load_typed_array_element reference index h = on_value (get reference h) (load_typed index)

-- A write through `get_mut(reference)`: the heap value of the slot is replaced.
unfoldable pub put : Reference → HeapValue → Heap → Heap
put null value h = h
put (heap index) value h = record h { values = set h.values index (some value) }

-- `*values.get_mut(index)? = value` at an `i32` index.
unfoldable pub store_element {ℓ} : {A : Type ℓ} → ℤ → A → List A → Result (List A)
store_element (negsuc n) value values = err (array_index_out_of_bounds (negsuc n) (length values))
store_element (pos i) value values =
    if ltb i (length values)
    then ok (set values i value)
    else err (array_index_out_of_bounds (pos i) (length values))

-- The end of a store: the changed heap value is written back, or nothing is written.
unfoldable pub write_back : Reference → Result HeapValue → Action Heap (Unit {0})
write_back reference (ok value) h = (ok tt, put reference value h)
write_back reference (err e) h = (err e, h)
write_back reference panic h = (panic, h)

unfoldable pub store_int : ℤ → ℤ → HeapValue → Result HeapValue
store_int index value (int_array values) =
    on_value (store_element index value values) (λ values'. ok (int_array values'))
store_int index value other = err (invalid_heap_value "int-array" (kind_name other))

unfoldable pub store_int_array_element : Reference → ℤ → ℤ → Action Heap (Unit {0})
store_int_array_element reference index value h =
    write_back reference (on_value (get reference h) (store_int index value)) h

-- The write barrier of a stored value, which applies to a reference that is not null.
unfoldable pub barrier_for : ℕ → Reference → Heap → Heap
barrier_for array_slot null h = h
barrier_for array_slot (heap target_slot) h = write_barrier array_slot target_slot h

unfoldable pub store_reference : ℤ → Reference → HeapValue → Result HeapValue
store_reference index value (reference_array c values) =
    on_value (store_element index value values) (λ values'. ok (reference_array c values'))
store_reference index value other = panic

unfoldable pub is_reference_array : Result HeapValue → Bool
is_reference_array (ok (reference_array _ _)) = true
is_reference_array _ = false

-- The barrier comes before the index is checked.
unfoldable pub store_reference_array_element : Reference → ℤ → Reference → Action Heap (Unit {0})
store_reference_array_element null index value h = (err null_reference, h)
store_reference_array_element (heap slot) index value h =
    let h' = barrier_for slot value h in
    if is_reference_array (get (heap slot) h)
    then write_back (heap slot) (on_value (get (heap slot) h') (store_reference index value)) h'
    else (err (invalid_heap_value "reference-array" "non-reference-array"), h)

-- `values[i] = v` after the check.
unfoldable pub store_checked {ℓ} : {A : Type ℓ} → ℤ → A → List A → Result (List A)
store_checked index value values =
    on_value (check_array_index index (length values)) (λ i. ok (set values i value))

unfoldable pub store_typed : ℤ → HeapValue → Value → Result HeapValue
store_typed index (long_array values) (Value.long v) =
    on_value (store_checked index v values) (λ values'. ok (long_array values'))
store_typed index (float_array values) (Value.float v) =
    on_value (store_checked index v values) (λ values'. ok (float_array values'))
store_typed index (double_array values) (Value.double v) =
    on_value (store_checked index v values) (λ values'. ok (double_array values'))
store_typed index heap_val value = err (type_mismatch "matching array/value type" "mismatched")

unfoldable pub store_typed_array_element : Reference → ℤ → Value → Action Heap (Unit {0})
store_typed_array_element reference index value h =
    write_back reference (on_value (get reference h) (λ v. store_typed index v value)) h
