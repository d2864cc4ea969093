-- ===== src/Heap/Sweep.antt =====
-- What the sweeps of src/vm/heap.rs do to the slots, and the trimming after a major collection.
use jvm_rs.Prelude.{
  ℕ, zero, suc, ◌+◌, ◌≤◌, ◌<◌, ◌≡◌, refl, ap, inl, inr, ◌⊎◌, Bool, true, false, Option, none, some,
  List, [], ◌∷◌, length, get_elem?, arith, get_some, get_some-ge,
}
use jvm_rs.Prelude.Words.{usize_max}
use jvm_rs.Heap.Defs.{Slots, HeapValue, Layout, count_live}
use jvm_rs.Heap.Mark.{finished}
use jvm_rs.Heap.Gc.{Swept, sweep, sweep_slot, trim}

-- Of the first `n` slots those that are not marked are empty afterwards, and every other slot is as
-- before; the number freed makes up the difference in live slots.
pub record IsSwept (n : ℕ) (vs : Slots) (ms : List Bool) (s : Swept) : Type 0 where
  pub len : length s.values ≡ length vs
  pub len_ages : length s.ages ≡ length vs
  pub kept : (i : ℕ) → (n ≤ i) ⊎ (get_elem? ms i ≡ some true) → get_some s.values i ≡ get_some vs i
  pub freed : (i : ℕ) → i < n → get_elem? ms i ≡ some false → get_some s.values i ≡ none
  pub count : count_live s.values + s.freed_count ≡ count_live vs

pub count_live-le : (vs : Slots) → count_live vs ≤ length vs
unfolding count_live
count_live-le [] = omega arith
count_live-le (none ∷ vs) = omega (arith, count_live-le vs)
count_live-le (some v ∷ vs) = omega (arith, count_live-le vs)

module _ (layout : Layout) (survive : ℕ → ℕ) where
  sweep_slot-IsSwept :
      (v : Option HeapValue) (m : Bool) (a n : ℕ) (vs : Slots) (ms : List Bool) (s : Swept)
      → length vs < usize_max
      → IsSwept n vs ms s
      → IsSwept (suc n) (v ∷ vs) (m ∷ ms) (sweep_slot layout survive v m a s)
  unfolding sweep_slot count_live
  sweep_slot-IsSwept none m a n vs ms s bound p = record {
    len = ap suc p.len;
    len_ages = ap suc p.len_ages;
    kept = elim [
      | zero ↦ λ h. refl
      | suc i ↦ elim [ inl h ↦ p.kept i (inl (omega arith)) | inr h ↦ p.kept i (inr h) ]
    ];
    freed = elim [ zero ↦ λ h e. refl | suc i ↦ λ h e. p.freed i (omega arith) e ];
    count = p.count;
  }
  sweep_slot-IsSwept (some v) true a n vs ms s bound p = record {
    len = ap suc p.len;
    len_ages = ap suc p.len_ages;
    kept = elim [
      | zero ↦ λ h. refl
      | suc i ↦ elim [ inl h ↦ p.kept i (inl (omega arith)) | inr h ↦ p.kept i (inr h) ]
    ];
    freed = elim [ zero ↦ λ h e. cc | suc i ↦ λ h e. p.freed i (omega arith) e ];
    count = omega (arith, p.count);
  }
  sweep_slot-IsSwept (some v) false a n vs ms s bound p = record {
    len = ap suc p.len;
    len_ages = ap suc p.len_ages;
    kept = elim [
      | zero ↦ elim [ inl h ↦ absurd (omega arith) | inr h ↦ cc ]
      | suc i ↦ elim [ inl h ↦ p.kept i (inl (omega arith)) | inr h ↦ p.kept i (inr h) ]
    ];
    freed = elim [ zero ↦ λ h e. refl | suc i ↦ λ h e. p.freed i (omega arith) e ];
    count = omega (arith, p.count, count_live-le vs);
  }

  -- The sweep of slots, marks and ages of one length, not past their end, does not panic.
  pub sweep-IsSwept :
      (n : ℕ) (vs : Slots) (ms : List Bool) (ages : List ℕ)
      → length ms ≡ length vs
      → length ages ≡ length vs
      → n ≤ length vs
      → length vs ≤ usize_max
      → (s : Swept) × (sweep layout survive n vs ms ages ≡ finished s) × IsSwept n vs ms s
  unfolding sweep
  sweep-IsSwept zero vs ms ages lm la h bound = (
    _,
    refl,
    record {
      len = refl;
      len_ages = la;
      kept = λ i p. refl;
      freed = λ i p e. absurd (omega arith);
      count = omega arith;
    },
  )
  sweep-IsSwept (suc n) [] ms ages lm la h bound = absurd (omega arith)
  sweep-IsSwept (suc n) (v ∷ vs) [] ages lm la h bound = absurd (omega arith)
  sweep-IsSwept (suc n) (v ∷ vs) (m ∷ ms) [] lm la h bound = absurd (omega arith)
  sweep-IsSwept (suc n) (v ∷ vs) (m ∷ ms) (a ∷ ages) lm la h bound =
      let (s, run, p) =
        sweep-IsSwept n vs ms ages (omega arith) (omega arith) (omega arith) (omega arith) in
      (
        sweep_slot layout survive v m a s,
        rw (sweep, run),
        sweep_slot-IsSwept v m a n vs ms s (omega arith) p,
      )

-- Trimming drops empty slots at the end only.
pub get_some-trim : (vs : Slots) (i : ℕ) → get_some (trim vs) i ≡ get_some vs i
unfolding trim
get_some-trim [] i = refl
get_some-trim (v ∷ vs) i = go (trim vs) refl v i (get_some-trim vs)
  where
    go :
        (t : Slots)
        → trim vs ≡ t
        → (v : Option HeapValue) (i : ℕ) → ((j : ℕ) → get_some (trim vs) j ≡ get_some vs j)
        → get_some (trim (v ∷ vs)) i ≡ get_some (v ∷ vs) i
    go [] e none zero ih = rw (trim, e)
    go [] e none (suc j) ih = rw (trim, e) (rw e at (ih j))
    go [] e (some w) zero ih = rw (trim, e)
    go [] e (some w) (suc j) ih = rw (trim, e) (rw e at (ih j))
    go (w ∷ ws) e v zero ih = rw (trim, e)
    go (w ∷ ws) e v (suc j) ih = rw (trim, e) (rw e at (ih j))

pub length-trim : (vs : Slots) → length (trim vs) ≤ length vs
unfolding trim
length-trim [] = omega arith
length-trim (v ∷ vs) = go (trim vs) refl v (length-trim vs)
  where
    go :
        (t : Slots)
        → trim vs ≡ t
        → (v : Option HeapValue) → length (trim vs) ≤ length vs
        → length (trim (v ∷ vs)) ≤ length (v ∷ vs)
    go [] e none ih = rw (trim, e) (omega arith)
    go [] e (some w) ih = rw (trim, e) (omega arith)
    go (w ∷ ws) e v ih = let h = rw e at ih in rw (trim, e) (omega (arith, h))

-- The slot of every live value is below the trimmed length.
pub lt-trim : (vs : Slots) (i : ℕ) {v : HeapValue} → get_some vs i ≡ some v → i < length (trim vs)
lt-trim vs i h = ground (arith, get_some-trim vs i, get_some-ge (trim vs) i)
