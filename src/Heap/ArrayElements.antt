-- ===== src/Heap/ArrayElements.antt =====
-- src/vm/heap.rs: storing an element of an `int`, `long`, `float` or `double` array and loading it.
use jvm_rs.Prelude.{
  ◌≡◌, refl, some, List, arith, length-set, get_some-set, get_some-ge, get_elem?-set_self,
}
use mathlib.Core.Path.{subst}
use jvm_rs.Prelude.Int.{ℤ, pos, negsuc}
use jvm_rs.Types.Value.{Value, Reference, null, heap, Result, ok, err, panic}
use jvm_rs.Heap.Defs.{
  HeapValue, int_array, reference_array, long_array, float_array, double_array, Heap,
}
use jvm_rs.Heap.Arrays.{
  get, on_value, load_element, load_int, load_int_array_element, load_reference, put, store_element,
  write_back, store_int, store_int_array_element, store_reference, check_array_index, load_checked,
  load_typed, load_typed_array_element, store_checked, store_typed, store_typed_array_element,
}

load_element-store_element :
    {A : Type 0} (i : ℤ) (a : A) (xs : List A) {ys : List A}
    → store_element i a xs ≡ ok ys
    → load_element i ys ≡ ok a
unfolding store_element load_element
load_element-store_element (negsuc n) a xs h = cc
load_element-store_element (pos n) a xs h = ground (arith, get_elem?-set_self xs n a)

load_checked-store_checked :
    {A : Type 0} (i : ℤ) (a : A) (xs : List A) {ys : List A}
    → store_checked i a xs ≡ ok ys
    → load_checked i ys ≡ ok a
unfolding store_checked load_checked check_array_index
load_checked-store_checked (negsuc n) a xs h = cc
load_checked-store_checked (pos n) a xs h =
    ground (arith, get_elem?-set_self xs n a, length-set xs n a)

-- A value that is written back into a slot which holds one is read there.
get-put : (r : Reference) (v w : HeapValue) (h : Heap) → get r h ≡ ok w → get r (put r v h) ≡ ok v
unfolding get put
get-put null v w h e = cc
get-put (heap i) v w h e =
    ground (arith, get_some-set h.values i i (some v), get_some-ge h.values i)

-- A store that succeeds has read a heap value, changed it and written it back.
pub written_back :
    (r : Reference) (g : Result HeapValue) (f : HeapValue → Result HeapValue) (h : Heap) {h' : Heap}
    → write_back r (on_value g f) h ≡ (ok tt, h')
    → (w w' : HeapValue) × (g ≡ ok w) × (f w ≡ ok w') × (h' ≡ put r w' h)
unfolding write_back
written_back r (ok w) f h {h'} e = go (f w) refl e
  where
    go :
        (o : Result HeapValue)
        → f w ≡ o
        → write_back r o h ≡ (ok tt, h')
        → (v w' : HeapValue) × (ok w ≡ ok v) × (f v ≡ ok w') × (h' ≡ put r w' h)
    go (ok w') p q = (w, w', refl, p, cc)
    go (err x) p q = cc
    go panic p q = cc
written_back r (err x) f h e = cc
written_back r panic f h e = cc

on_value-ok :
    {A B : Type 0} (m : Result A) (k : A → Result B) {b : B}
    → on_value m k ≡ ok b
    → (a : A) × (m ≡ ok a) × (k a ≡ ok b)
on_value-ok (ok a) k e = (a, refl, e)
on_value-ok (err x) k e = cc
on_value-ok panic k e = cc

-- What `load` reads from a heap value that a store gave back.
abbrev Reads : {A : Type 0} → (HeapValue → Result A) → A → HeapValue → Type 0
Reads load v w = load w ≡ ok v

reads-array :
    {A B : Type 0} (m : Result (List A)) (array : List A → HeapValue) (load : HeapValue → Result B)
    (v : B) {w' : HeapValue}
    → ((ys : List A) → m ≡ ok ys → load (array ys) ≡ ok v)
    → on_value m (λ ys. ok (array ys)) ≡ ok w'
    → load w' ≡ ok v
reads-array m array load v h e =
    let (ys, stored, same) = on_value-ok m (λ ys. ok (array ys)) e in
    subst (λ o. on_value o load ≡ ok v) same (h ys stored)

load_int-store_int :
    (i v : ℤ) (w : HeapValue) {w' : HeapValue} → store_int i v w ≡ ok w' → load_int i w' ≡ ok v
unfolding store_int load_int
load_int-store_int i v (int_array values) e =
    reads-array (store_element i v values) int_array (load_int i) v
      (λ ys. load_element-store_element i v values) e
load_int-store_int i v _ e = cc

pub load_reference-store_reference :
    (i : ℤ) (v : Reference) (w : HeapValue) {w' : HeapValue}
    → store_reference i v w ≡ ok w'
    → load_reference i w' ≡ ok v
unfolding store_reference load_reference
load_reference-store_reference i v (reference_array c values) e =
    reads-array (store_element i v values) (reference_array c) (load_reference i) v
      (λ ys. load_element-store_element i v values) e
load_reference-store_reference i v _ e = cc

load_typed-store_typed :
    (i : ℤ) (w : HeapValue) (v : Value) {w' : HeapValue}
    → store_typed i w v ≡ ok w'
    → load_typed i w' ≡ ok v
unfolding store_typed load_typed
load_typed-store_typed i (long_array values) (Value.long v) e =
    reads-array (store_checked i v values) long_array (load_typed i) (Value.long v)
      (λ ys s. rw (load_checked-store_checked i v values s)) e
load_typed-store_typed i (float_array values) (Value.float v) e =
    reads-array (store_checked i v values) float_array (load_typed i) (Value.float v)
      (λ ys s. rw (load_checked-store_checked i v values s)) e
load_typed-store_typed i (double_array values) (Value.double v) e =
    reads-array (store_checked i v values) double_array (load_typed i) (Value.double v)
      (λ ys s. rw (load_checked-store_checked i v values s)) e
load_typed-store_typed i _ _ e = cc

-- A store through \`write_back\` is read back.
pub load-written_back :
    {A : Type 0} (r : Reference) (store : HeapValue → Result HeapValue)
    (load : HeapValue → Result A) (v : A) (h : Heap) {h' : Heap}
    → ((w w' : HeapValue) → store w ≡ ok w' → load w' ≡ ok v)
    → write_back r (on_value (get r h) store) h ≡ (ok tt, h')
    → on_value (get r h') load ≡ ok v
load-written_back r store load v h back e =
    let (w, w', found, stored, same) = written_back r (get r h) store h e in
    rw (same, get-put r w' w h found) (back w w' stored)

-- An `int` that is stored in an array is loaded back at its index.
pub load_int_array_element-store :
    (r : Reference) (i v : ℤ) (h : Heap) {h' : Heap}
    → store_int_array_element r i v h ≡ (ok tt, h')
    → load_int_array_element r i h' ≡ ok v
unfolding store_int_array_element load_int_array_element
load_int_array_element-store r i v h e =
    load-written_back r (store_int i v) (load_int i) v h (λ w w' s. load_int-store_int i v w s) e

-- A `long`, `float` or `double` that is stored in an array is loaded back at its index, with its
-- kind.
pub load_typed_array_element-store :
    (r : Reference) (i : ℤ) (v : Value) (h : Heap) {h' : Heap}
    → store_typed_array_element r i v h ≡ (ok tt, h')
    → load_typed_array_element r i h' ≡ ok v
unfolding store_typed_array_element load_typed_array_element
load_typed_array_element-store r i v h e =
    load-written_back r (λ w. store_typed i w v) (load_typed i) v h
      (λ w w' s. load_typed-store_typed i w v s) e
