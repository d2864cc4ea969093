-- ===== src/Heap/Accounts.antt =====
-- The counts that a collection of src/vm/heap.rs keeps.
use jvm_rs.Prelude.{
  ℕ, zero, suc, ◌+◌, ◌*◌, ◌≤◌, ◌≡◌, refl, ap, sym, inl, inr, Bool-cases, none, some, Option, List,
  [], ◌∷◌, reverse, length, length-resize, resize, arith, ltb,
}
use jvm_rs.Types.Value.{Reference}
use jvm_rs.Prelude.Words.{saturating_add, usize_max}
use jvm_rs.Heap.Defs.{HeapValue, Heap, Slots, Layout, count_live, len, clear_remembered_set}
use jvm_rs.Heap.Mark.{finished, heap_indices}
use jvm_rs.Heap.Gc.{
  Swept, older, trim, counted, finish_minor, finish_major, finish_gc, minor_gc_internal,
  major_gc_internal, gc, minor_worklist, count_minor, count_major,
}
use jvm_rs.Heap.Marking.{mark_from_iff}
use jvm_rs.Heap.Sweep.{length-trim, sweep-IsSwept}
use jvm_rs.Heap.Valid.{IsValid}
use jvm_rs.Heap.Finish.{IsClosed}

count_live-resize :
    (n : ℕ) (vs : Slots) → length vs ≤ n → count_live (resize n none vs) ≡ count_live vs
unfolding count_live
count_live-resize zero [] h = refl
count_live-resize zero (v ∷ vs) h = absurd (omega arith)
count_live-resize (suc n) [] h = count_live-resize n [] (omega arith)
count_live-resize (suc n) (none ∷ vs) h = count_live-resize n vs (omega arith)
count_live-resize (suc n) (some v ∷ vs) h = ap suc (count_live-resize n vs (omega arith))

count_live-cons :
    (v : Option HeapValue) (vs : Slots) → count_live (v ∷ vs) ≡ count_live (v ∷ []) + count_live vs
unfolding count_live
count_live-cons none vs = omega arith
count_live-cons (some v) vs = omega arith

-- An empty slot in front of no slots is dropped.
trimmed_cons :
    (v : Option HeapValue) (t : Slots)
    → count_live (elim t as (λ x. Slots) [
      | [] ↦ elim v as (λ x. Slots) [ none ↦ [] | some value ↦ some value ∷ [] ]
      | w ∷ ws ↦ v ∷ w ∷ ws
    ])
      ≡ count_live (v ∷ t)
unfolding count_live
trimmed_cons none [] = refl
trimmed_cons (some v) [] = refl
trimmed_cons v (w ∷ ws) = refl

count_live-trim : (vs : Slots) → count_live (trim vs) ≡ count_live vs
unfolding trim
count_live-trim [] = refl
count_live-trim (v ∷ vs) = omega (
  arith,
  trimmed_cons v (trim vs),
  count_live-cons v (trim vs),
  count_live-cons v vs,
  count_live-trim vs,
)

-- What a collection of `h` records in `h'`.
record Accounts (h h' : Heap) : Type 0 where
  live : h'.live_count ≡ count_live h'.values
  freed : count_live h'.values + h'.stats.last_collection_freed ≡ count_live h.values
  reset : h'.allocs_since_gc ≡ 0
  stat : h'.stats.live ≡ h.stats.live

finish_gc-Accounts :
    (layout : Layout) (pause_ns : ℕ) (h m : Heap)
    → length m.values ≤ usize_max
    → Accounts h m
    → Accounts h (finish_gc layout pause_ns m)
unfolding finish_gc
finish_gc-Accounts layout pause_ns h m fits a =
    let limit = saturating_add (length m.values) m.tlab_size in
    let same = count_live-resize limit m.values (omega arith) in
    elim (Bool-cases (ltb (length m.values) limit)) [
      | inl grows ↦ record {
        live = rw grows (omega (arith, same, a.live));
        freed = rw grows (omega (arith, same, a.freed));
        reset = a.reset;
        stat = a.stat;
      }
      | inr full ↦ record {
        live = rw full a.live;
        freed = rw full a.freed;
        reset = a.reset;
        stat = a.stat;
      }
    ]

finish_minor-Accounts :
    (s : Swept) (h : Heap)
    → length s.values ≤ usize_max
    → count_live s.values + s.freed_count ≡ count_live h.values
    → Accounts h (finish_minor s h)
unfolding finish_minor counted clear_remembered_set
finish_minor-Accounts s h fits count =
    let same =
      count_live-resize (saturating_add (length s.values) h.tlab_size) s.values (omega arith) in
    record { live = sym same; freed = omega (arith, same, count); reset = refl; stat = refl }

finish_major-Accounts :
    (s : Swept) (h : Heap)
    → count_live s.values + s.freed_count ≡ count_live h.values
    → Accounts h (finish_major s h)
unfolding finish_major counted
finish_major-Accounts s h count = record {
  live = sym (count_live-trim s.values);
  freed = omega (arith, count_live-trim s.values, count);
  reset = refl;
  stat = refl;
}

module _ (layout : Layout) (roots : List Reference) (h : Heap) (p : IsValid h)
    (closed : IsClosed h.values) where
  minor-Accounts :
      (m : Heap) × (minor_gc_internal layout roots h ≡ finished m)
      × (length m.values ≤ usize_max)
      × Accounts h m
  unfolding minor_gc_internal count_minor finish_minor counted clear_remembered_set
  minor-Accounts =
      let wl = minor_worklist roots (count_minor h) in
      let (ms, marks, lm, iff) = mark_from_iff h.values wl (λ i j r c. closed i j c) in
      let (s, sweeps, w) =
        sweep-IsSwept layout older h.survivor_end h.values ms h.ages lm p.aged p.young p.fits in
      let a = finish_minor-Accounts s (count_minor h) (omega (arith, w.len, p.fits)) w.count in
      (
        finish_minor s (count_minor h),
        rw (marks, sweeps),
        omega (
          arith,
          length-resize {A = Option HeapValue} (saturating_add (length s.values) h.tlab_size) none
              s.values,
        ),
        record { live = a.live; freed = a.freed; reset = a.reset; stat = a.stat },
      )

  major-Accounts :
      (m : Heap) × (major_gc_internal layout roots h ≡ finished m)
      × (length m.values ≤ usize_max)
      × Accounts h m
  unfolding major_gc_internal count_major finish_major counted
  major-Accounts =
      let wl = reverse (heap_indices roots) in
      let (ms, marks, lm, iff) = mark_from_iff h.values wl (λ i j r c. closed i j c) in
      let (s, sweeps, w) =
        sweep-IsSwept layout (λ age. age) (length h.values) h.values ms h.ages lm p.aged
          (omega arith) p.fits in
      let a = finish_major-Accounts s (count_major h) w.count in
      (
        finish_major s (count_major h),
        rw (marks, sweeps),
        omega (arith, length-trim s.values, w.len, p.fits),
        record { live = a.live; freed = a.freed; reset = a.reset; stat = a.stat },
      )

  -- A collection of a valid heap whose references are all slots of the heap ends, and then
  -- `live_count` is the number of slots in use, `last_collection_freed` makes up the difference to
  -- their number before, no allocation counts as made since, and `stats.live` is as it was.
  pub gc_accounts :
      (pause_ns : ℕ)
      → (h' : Heap) × (gc layout pause_ns roots h ≡ finished h')
        × (h'.live_count ≡ len h')
        × (len h' + h'.stats.last_collection_freed ≡ len h)
        × (h'.allocs_since_gc ≡ 0)
        × (h'.stats.live ≡ h.stats.live)
  unfolding gc len
  gc_accounts pause_ns = elim (Bool-cases (ltb (length h.values) (h.survivor_end * 2))) [
    | inl is_minor ↦
        let (m, ran, fits, acc) = minor-Accounts in
        let a = finish_gc-Accounts layout pause_ns h m fits acc in
        (finish_gc layout pause_ns m, rw (is_minor, ran), a.live, a.freed, a.reset, a.stat)
    | inr is_major ↦
        let (m, ran, fits, acc) = major-Accounts in
        let a = finish_gc-Accounts layout pause_ns h m fits acc in
        (finish_gc layout pause_ns m, rw (is_major, ran), a.live, a.freed, a.reset, a.stat)
  ]
