-- ===== src/Heap/Valid.antt =====
-- The invariant of the heap of src/vm/heap.rs, and what an allocation does.
use jvm_rs.Prelude.{
  ℕ, zero, suc, ◌+◌, ◌-◌, ◌≤◌, ◌<◌, ◌≡◌, ◌∙◌, ◌≢◌, refl, sym, Bool, true, false, Option, none, some,
  List, [], ◌∷◌, ltb, if◌then◌else◌, length, replicate, arith, length-append, length-set, get_some,
  get_some-set, get_some-ge, get_some-resize, length-resize, length-replicate, ltb→lt,
}
use jvm_rs.Types.Value.{Reference, heap, ok}
use jvm_rs.Prelude.Words.{usize_max, saturating_add}
use jvm_rs.Heap.Defs.{
  HeapValue, Heap, Slots, refill_tlab, bump, count_allocation, allocate, default, grow,
}
use jvm_rs.Heap.Arrays.{get}

-- There is an age for each slot; the slots from the top of the allocation buffer on are empty; the
-- buffer and the young generation end within the slots; and the slots fit a `usize`.
pub record IsValid (h : Heap) : Type 0 where
  pub aged : length h.ages ≡ length h.values
  pub free : (i : ℕ) → h.tlab_top ≤ i → get_some h.values i ≡ none
  pub buffer : h.tlab_limit ≤ length h.values
  pub top : h.tlab_top ≤ length h.values
  pub young : h.survivor_end ≤ length h.values
  pub fits : length h.values ≤ usize_max

default-IsValid : IsValid default
unfolding default
default-IsValid = record {
  aged = refl;
  free = λ i h. refl;
  buffer = omega arith;
  top = omega arith;
  young = omega arith;
  fits = omega arith;
}

refill_tlab-IsValid : (h : Heap) → IsValid h → IsValid (refill_tlab h)
unfolding refill_tlab
refill_tlab-IsValid h p =
    let limit = saturating_add (length h.values) h.tlab_size in
    let lv = length-resize {A = Option HeapValue} limit none h.values in
    record {
      aged = length-resize limit 0 h.ages ∙ sym lv;
      free = λ i q.
          get_some-resize limit i h.values (omega (arith, p.fits)) ∙ get_some-ge h.values i q;
      buffer = omega (arith, lv);
      top = omega (arith, lv, p.fits);
      young = omega (arith, lv, p.fits, p.young);
      fits = omega (arith, lv);
    }

length-grow {ℓ} : {A : Type ℓ} (n : ℕ) (a : A) (xs : List A) → length (grow n a xs) ≡ length xs + n
length-grow n a xs = omega (arith, length-append xs (replicate n a), length-replicate n a)

get_some-grow : (n i : ℕ) (xs : Slots) → get_some (grow n none xs) i ≡ get_some xs i
get_some-grow zero i [] = refl
get_some-grow (suc n) zero [] = refl
get_some-grow (suc n) (suc i) [] = get_some-grow n i []
get_some-grow n zero (x ∷ xs) = refl
get_some-grow n (suc i) (x ∷ xs) = get_some-grow n i xs

-- The value is placed in the slot at the top of the buffer, which was empty, and nowhere else.
record IsPlaced (value : HeapValue) (h : Heap) (r : Reference × Heap) : Type 0 where
  at : r.0 ≡ heap h.tlab_top
  here : get_some r.1.values h.tlab_top ≡ some value
  others : (i : ℕ) → i ≢ h.tlab_top → get_some r.1.values i ≡ get_some h.values i
  top : r.1.tlab_top ≡ h.tlab_top + 1

bump-IsPlaced : (value : HeapValue) (h : Heap) → IsPlaced value h (bump value h)
unfolding bump
bump-IsPlaced value h =
    let missing = h.tlab_top + 1 - length h.values in
    let grown = grow missing none h.values in
    let lg = length-grow {A = Option HeapValue} missing none h.values in
    record {
      at = refl;
      here = ground (arith, get_some-set grown h.tlab_top h.tlab_top (some value), lg);
      others = λ i ne.
          ground
            (arith, get_some-set grown h.tlab_top i (some value), get_some-grow missing i h.values);
      top = refl;
    }

bump-IsValid :
    (value : HeapValue) (h : Heap) → h.tlab_top < usize_max → IsValid h → IsValid (bump value h).1
unfolding bump
bump-IsValid value h room p =
    let missing = h.tlab_top + 1 - length h.values in
    let grown = grow missing none h.values in
    let lg = length-grow {A = Option HeapValue} missing none h.values in
    let lv = length-set grown h.tlab_top (some value) in
    let la = length-grow missing 0 h.ages in
    record {
      aged = omega (arith, lg, lv, la, p.aged);
      free = λ i q. ground (
        arith,
        get_some-set grown h.tlab_top i (some value),
        get_some-grow missing i h.values,
        p.free i,
      );
      buffer = omega (arith, lg, lv, p.buffer);
      top = omega (arith, lg, lv);
      young = omega (arith, lg, lv, p.young);
      fits = omega (arith, lg, lv, p.fits);
    }

count_allocation-IsValid : (h : Heap) → IsValid h → IsValid (count_allocation h)
unfolding count_allocation
count_allocation-IsValid h p = record {
  aged = p.aged;
  free = p.free;
  buffer = p.buffer;
  top = p.top;
  young = p.young;
  fits = p.fits;
}

-- What a reference reads is what its slot holds.
get-slot :
    (h h' : Heap) (i : ℕ)
    → get_some h'.values i ≡ get_some h.values i
    → get (heap i) h' ≡ get (heap i) h
unfolding get
get-slot h h' i e = rw e

-- The outcome of an allocation: a slot that was empty holds the value, and the others read as before.
record IsAllocated (value : HeapValue) (h : Heap) (r : Reference × Heap) : Type 0 where
  slot : ℕ
  returned : r.0 ≡ heap slot
  was_free : get_some h.values slot ≡ none
  reads : get r.0 r.1 ≡ ok value
  others : (i : ℕ) → i ≢ slot → get (heap i) r.1 ≡ get (heap i) h
  valid : IsValid r.1

bump-IsAllocated :
    (value : HeapValue) (h : Heap)
    → h.tlab_top < usize_max
    → IsValid h
    → IsAllocated value h (bump value h)
unfolding get
bump-IsAllocated value h room p =
    let b = bump-IsPlaced value h in
    record {
      slot = h.tlab_top;
      returned = b.at;
      was_free = p.free h.tlab_top (omega arith);
      reads = rw (b.at, b.here);
      others = λ i ne. rw (b.others i ne);
      valid = bump-IsValid value h room p;
    }

refill_tlab-slot :
    (h : Heap) (i : ℕ) → IsValid h → get_some (refill_tlab h).values i ≡ get_some h.values i
unfolding refill_tlab
refill_tlab-slot h i p =
    get_some-resize (saturating_add (length h.values) h.tlab_size) i h.values
      (omega (arith, p.fits))

refill_tlab-top : (h : Heap) → (refill_tlab h).tlab_top ≡ length h.values
unfolding refill_tlab
refill_tlab-top h = refl

-- In a valid heap with a slot to spare, an allocation returns a reference to a slot that was empty.
-- That reference then reads the value, every other slot reads as before, and the heap stays valid.
pub allocate_fresh :
    (value : HeapValue) (h : Heap)
    → IsValid h
    → length h.values < usize_max
    → let (r, h') = allocate value h in
      (slot : ℕ) × (r ≡ heap slot)
      × (get_some h.values slot ≡ none)
      × (get r h' ≡ ok value)
      × ((i : ℕ) → i ≢ slot → get (heap i) h' ≡ get (heap i) h)
      × IsValid h'
unfolding allocate count_allocation get
allocate_fresh value h p room = go (ltb h.tlab_top h.tlab_limit) refl
  where
    h₁ : Heap
    h₁ = count_allocation h

    Fresh : Reference × Heap → Type 0
    Fresh r =
        (slot : ℕ) × (r.0 ≡ heap slot)
        × (get_some h.values slot ≡ none)
        × (get r.0 r.1 ≡ ok value)
        × ((i : ℕ) → i ≢ slot → get (heap i) r.1 ≡ get (heap i) h)
        × IsValid r.1

    go :
        (b : Bool)
        → ltb h.tlab_top h.tlab_limit ≡ b
        → Fresh (if b then bump value h₁ else bump value (refill_tlab h₁))
    go true e =
        let a =
          bump-IsAllocated value h₁ (omega (arith, ltb→lt _ _ e, p.buffer))
            (count_allocation-IsValid h p) in
        (a.slot, a.returned, a.was_free, a.reads, a.others, a.valid)
    go false e =
        let p₁ = count_allocation-IsValid h p in
        let same = λ (i : ℕ). refill_tlab-slot h₁ i p₁ in
        let a =
          bump-IsAllocated value (refill_tlab h₁) (omega (arith, refill_tlab-top h₁))
            (refill_tlab-IsValid h₁ p₁) in
        (
          a.slot,
          a.returned,
          sym (same a.slot) ∙ a.was_free,
          a.reads,
          λ i ne. a.others i ne ∙ get-slot h₁ (refill_tlab h₁) i (same i),
          a.valid,
        )
