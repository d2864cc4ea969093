-- ===== src/Heap/Collect.antt =====
-- What the collections of src/vm/heap.rs keep and free.
use jvm_rs.Prelude.{ℕ, ◌≤◌, ◌≡◌, ◌∙◌, refl, inl, inr, List, length, arith, reverse}
use jvm_rs.Types.Value.{Reference}
use jvm_rs.Heap.Defs.{Heap, Layout, get_remembered_set_references}
use jvm_rs.Heap.Mark.{finished, heap_indices}
use jvm_rs.Heap.Gc.{
  older, finish_minor, finish_major, minor_worklist, count_minor, count_major, minor_gc_internal,
  major_gc_internal,
}
use jvm_rs.Heap.Marking.{mark_from_iff}
use jvm_rs.Heap.Sweep.{sweep-IsSwept}
use jvm_rs.Heap.Valid.{IsValid}
use jvm_rs.Heap.Finish.{
  IsClosed, IsCollected, swept-IsCollected, IsReady, finish_minor-slot, finish_minor-IsReady,
  finish_major-slot, finish_major-IsReady,
}

counts-IsValid : (h : Heap) → IsValid h → IsValid (count_minor h) × IsValid (count_major h)
unfolding count_minor count_major
counts-IsValid h p = (
  record {
    aged = p.aged;
    free = p.free;
    buffer = p.buffer;
    top = p.top;
    young = p.young;
    fits = p.fits;
  },
  record {
    aged = p.aged;
    free = p.free;
    buffer = p.buffer;
    top = p.top;
    young = p.young;
    fits = p.fits;
  },
)

minor_worklist-count_minor :
    (roots : List Reference) (h : Heap)
    → minor_worklist roots (count_minor h) ≡ minor_worklist roots h
unfolding count_minor minor_worklist get_remembered_set_references
minor_worklist-count_minor roots h = refl

module _ (layout : Layout) (roots : List Reference) (h : Heap) (p : IsValid h) where
  -- A minor collection of a valid heap ends, if every reference that a heap value holds is a slot.
  -- It keeps every old slot and every slot that can be reached from the roots or the remembered set,
  -- and empties every other young slot.
  pub minor_gc_internal-IsCollected :
      IsClosed h.values
      → (h' : Heap) × (minor_gc_internal layout roots h ≡ finished h')
        × IsReady h'
        × (length h.values ≤ length h'.values)
        × IsCollected h.survivor_end h.values (minor_worklist roots h) h'.values
  unfolding minor_gc_internal count_minor
  minor_gc_internal-IsCollected closed =
      let wl = minor_worklist roots h in
      let (ms, marks, lm, iff) = mark_from_iff h.values wl (λ i j r c. closed i j c) in
      let (s, sweeps, w) =
        sweep-IsSwept layout older h.survivor_end h.values ms h.ages lm p.aged p.young p.fits in
      let c = swept-IsCollected h.survivor_end h.values wl ms s p.young lm iff w in
      let at = λ (i : ℕ). finish_minor-slot s (count_minor h) i (omega (arith, w.len, p.fits)) in
      let (ready, grown) = finish_minor-IsReady s (count_minor h) w.len (counts-IsValid h p).0 in
      (
        finish_minor s (count_minor h),
        rw (minor_worklist-count_minor roots h, marks, sweeps),
        ready,
        grown,
        record {
          reached = λ i r. at i ∙ c.reached i r;
          past = λ i q. at i ∙ c.past i q;
          unreached = λ i q. elim (c.unreached i q) [ inl r ↦ inl r | inr e ↦ inr (at i ∙ e) ];
        },
      )

  -- A major collection of a valid heap ends, if every reference that a heap value holds is a slot.
  -- It keeps every slot that can be reached from the roots, and empties every other slot.
  pub major_gc_internal-IsCollected :
      IsClosed h.values
      → (h' : Heap) × (major_gc_internal layout roots h ≡ finished h')
        × IsReady h'
        × IsCollected (length h.values) h.values (reverse (heap_indices roots)) h'.values
  unfolding major_gc_internal count_major
  major_gc_internal-IsCollected closed =
      let wl = reverse (heap_indices roots) in
      let (ms, marks, lm, iff) = mark_from_iff h.values wl (λ i j r c. closed i j c) in
      let (s, sweeps, w) =
        sweep-IsSwept layout (λ age. age) (length h.values) h.values ms h.ages lm p.aged
          (omega arith) p.fits in
      let c = swept-IsCollected (length h.values) h.values wl ms s (omega arith) lm iff w in
      let at = λ (i : ℕ). finish_major-slot s (count_major h) i in
      (
        finish_major s (count_major h),
        rw (marks, sweeps),
        finish_major-IsReady s (count_major h) w.len w.len_ages (counts-IsValid h p).1,
        record {
          reached = λ i r. at i ∙ c.reached i r;
          past = λ i q. at i ∙ c.past i q;
          unreached = λ i q. elim (c.unreached i q) [ inl r ↦ inl r | inr e ↦ inr (at i ∙ e) ];
        },
      )
