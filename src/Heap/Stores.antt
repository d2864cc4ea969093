-- ===== src/Heap/Stores.antt =====
-- src/vm/heap.rs: storing references in an array with the write barrier, and stores that fail.
use jvm_rs.Prelude.{
  ℕ, ◌≤◌, ◌<◌, ◌≡◌, refl, inl, inr, ◌⊎◌, Bool, true, false, List, [], ◌∷◌, ◌++◌, if◌then◌else◌,
  arith,
}
use jvm_rs.Prelude.Int.{ℤ}
use jvm_rs.Types.Value.{Value, Reference, null, heap, Result, ok, err, panic, invalid_heap_value}
use jvm_rs.Heap.Defs.{HeapValue, Heap, write_barrier, remembers}
use jvm_rs.Heap.Arrays.{
  get, on_value, load_reference, load_reference_array_element, put, write_back, store_int,
  store_int_array_element, barrier_for, store_reference, is_reference_array,
  store_reference_array_element, store_typed, store_typed_array_element,
}
use jvm_rs.Heap.ArrayElements.{written_back, load_reference-store_reference, load-written_back}

remembers-append : (l : List (ℕ × ℕ)) (s t : ℕ) → remembers (l ++ (s, t) ∷ []) s t ≡ true
unfolding remembers
remembers-append [] s t = ground arith
remembers-append ((a, b) ∷ l) s t = ground (arith, remembers-append l s t)

write_barrier-remembers :
    (source target : ℕ) (h : Heap)
    → h.survivor_end ≤ source
    → target < h.survivor_end
    → remembers (write_barrier source target h).remembered_set source target ≡ true
unfolding write_barrier
write_barrier-remembers source target h old young =
    ground (arith, remembers-append h.remembered_set source target)

-- The barrier leaves the slots as they are.
barrier_for-values :
    (slot : ℕ) (v : Reference) (h : Heap) → (barrier_for slot v h).values ≡ h.values
unfolding barrier_for write_barrier
barrier_for-values slot null h = refl
barrier_for-values slot (heap target) h = ground arith

put-remembered_set :
    (r : Reference) (w : HeapValue) (h : Heap) → (put r w h).remembered_set ≡ h.remembered_set
unfolding put
put-remembered_set null w h = refl
put-remembered_set (heap i) w h = refl

if_true {ℓ} : {A : Type ℓ} (b : Bool) (x y z : A) → (x ≡ z → ⊥) → (if b then y else x) ≡ z → y ≡ z
if_true true x y z ne e = e
if_true false x y z ne e = absurd (ne e)

stored_reference :
    (slot : ℕ) (i : ℤ) (v : Reference) (h : Heap) {h' : Heap}
    → store_reference_array_element (heap slot) i v h ≡ (ok tt, h')
    → let h₁ = barrier_for slot v h in
      write_back (heap slot) (on_value (get (heap slot) h₁) (store_reference i v)) h₁ ≡ (ok tt, h')
unfolding store_reference_array_element
stored_reference slot i v h e = if_true (is_reference_array (get (heap slot) h)) _ _ _ (λ q. cc) e

-- A reference that is stored in an array is loaded back at its index, and if the array is old and
-- the reference leads to the young generation, then the remembered set holds that pair of slots.
pub load_reference_array_element-store :
    (slot : ℕ) (i : ℤ) (v : Reference) (h : Heap) {h' : Heap}
    → store_reference_array_element (heap slot) i v h ≡ (ok tt, h')
    → (load_reference_array_element (heap slot) i h' ≡ ok v)
      × ((target : ℕ)
          → v ≡ heap target
          → h.survivor_end ≤ slot
          → target < h.survivor_end
          → remembers h'.remembered_set slot target ≡ true)
unfolding load_reference_array_element barrier_for
load_reference_array_element-store slot i v h e =
    let h₁ = barrier_for slot v h in
    let back = stored_reference slot i v h e in
    let (w, w', found, changed, same) =
      written_back (heap slot) (get (heap slot) h₁) (store_reference i v) h₁ back in
    (
      load-written_back (heap slot) (store_reference i v) (load_reference i) v h₁
          (λ w w' s. load_reference-store_reference i v w s) back,
      λ target to old young.
          rw (same, put-remembered_set (heap slot) w' h₁, to, barrier_for)
            (write_barrier-remembers slot target h old young),
    )

write_back_fails :
    (r : Reference) (o : Result HeapValue) (h : Heap)
    → ((write_back r o h).0 ≡ ok tt) ⊎ ((write_back r o h).1 ≡ h)
unfolding write_back
write_back_fails r (ok w) h = inl refl
write_back_fails r (err e) h = inr refl
write_back_fails r panic h = inr refl

failed_reference :
    (r : Reference) (i : ℤ) (s : Reference) (h : Heap)
    → ((store_reference_array_element r i s h).0 ≡ ok tt)
      ⊎ ((store_reference_array_element r i s h).1.values ≡ h.values)
unfolding store_reference_array_element
failed_reference null i s h = inr refl
failed_reference (heap slot) i s h = go (is_reference_array (get (heap slot) h))
  where
    h₁ : Heap
    h₁ = barrier_for slot s h

    back : Result (Unit {0}) × Heap
    back = write_back (heap slot) (on_value (get (heap slot) h₁) (store_reference i s)) h₁

    go :
        (b : Bool)
        → let r =
            if b
            then back
            else (err (invalid_heap_value "reference-array" "non-reference-array"), h) in
          (r.0 ≡ ok tt) ⊎ (r.1.values ≡ h.values)
    go true =
        elim (write_back_fails (heap slot) (on_value (get (heap slot) h₁) (store_reference i s))
          h₁) [ inl done ↦ inl done | inr same ↦ inr (rw same (barrier_for-values slot s h)) ]
    go false = inr refl

-- A store that fails leaves every slot of the heap as it was.
pub failed_stores :
    (r : Reference) (i v : ℤ) (u : Value) (s : Reference) (h : Heap)
    → let (ra, ha) = store_int_array_element r i v h in
      let (rb, hb) = store_typed_array_element r i u h in
      let (rc, hc) = store_reference_array_element r i s h in
      ((ra ≡ ok tt) ⊎ (ha ≡ h))
      × ((rb ≡ ok tt) ⊎ (hb ≡ h))
      × ((rc ≡ ok tt) ⊎ (hc.values ≡ h.values))
unfolding store_int_array_element store_typed_array_element store_reference_array_element
failed_stores r i v u s h = (
  write_back_fails r (on_value (get r h) (store_int i v)) h,
  write_back_fails r (on_value (get r h) (λ w. store_typed i w u)) h,
  failed_reference r i s h,
)
