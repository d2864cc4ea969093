-- ===== src/Heap/Safety.antt =====
-- The collector of src/vm/heap.rs as its callers see it.
use jvm_rs.Prelude.{
  ℕ, ◌*◌, ◌≤◌, ◌<◌, ◌≡◌, ◌∙◌, inl, inr, ◌⊎◌, true, false, List, ltb, length, arith, get_some,
  get_some-ge, Bool-cases, lt→ltb, ge→ltb, ltb→lt, ltb→ge, reverse,
}
use jvm_rs.Types.Value.{Reference, heap, err, invalid_heap_reference}
use jvm_rs.Heap.Defs.{Heap, Layout}
use jvm_rs.Heap.Arrays.{get}
use jvm_rs.Heap.Mark.{finished, heap_indices}
use jvm_rs.Heap.Gc.{minor_worklist, finish_gc, gc}
use jvm_rs.Heap.Reach.{Reach, root, step, lt-children_at}
use jvm_rs.Heap.Valid.{IsValid}
use jvm_rs.Heap.Finish.{IsClosed, IsCollected, finish_gc-IsValid, finish_gc-slot}
use jvm_rs.Heap.Collect.{minor_gc_internal-IsCollected, major_gc_internal-IsCollected}
use jvm_rs.Heap.Roots.{
  RootReach, IsLive, roots-worklist, reverse-Reach, KeptOrFreed, collected-KeptOrFreed,
  finish_gc-grows, children_at-eq, lt-some, no_children,
}

module _ (layout : Layout) (pause_ns : ℕ) (roots : List Reference) (h : Heap) where
  -- What holds of the heap that a collection leaves.
  record Keeps (h' : Heap) : Type 0 where
    ran : gc layout pause_ns roots h ≡ finished h'
    valid : IsValid h'
    reached : (i : ℕ) → RootReach roots h i → get_some h'.values i ≡ get_some h.values i
    kept : KeptOrFreed h.values h'.values

  gc-minor :
      ltb (length h.values) (h.survivor_end * 2) ≡ true
      → IsValid h
      → IsClosed h.values
      → (h' : Heap) × Keeps h'
        × (length h.values ≤ length h'.values)
        × IsCollected h.survivor_end h.values (minor_worklist roots h) h'.values
  unfolding gc
  gc-minor is_minor p closed =
      let (m, ran, ready, grown, c) = minor_gc_internal-IsCollected layout roots h p closed in
      let at = finish_gc-slot layout pause_ns m in
      let c' : IsCollected h.survivor_end h.values (minor_worklist roots h)
          (finish_gc layout pause_ns m).values =
        record {
          reached = λ i r. at i ∙ c.reached i r;
          past = λ i q. at i ∙ c.past i q;
          unreached = λ i q. elim (c.unreached i q) [ inl r ↦ inl r | inr e ↦ inr (at i ∙ e) ];
        } in
      (
        finish_gc layout pause_ns m,
        record {
          ran = rw (is_minor, ran);
          valid = finish_gc-IsValid layout pause_ns m ready;
          reached = λ i r. c'.reached i (roots-worklist roots h r);
          kept = collected-KeptOrFreed c';
        },
        omega (arith, grown, finish_gc-grows layout pause_ns m),
        c',
      )

  gc-major :
      ltb (length h.values) (h.survivor_end * 2) ≡ false
      → IsValid h
      → IsClosed h.values
      → (h' : Heap) × Keeps h'
        × IsCollected (length h.values) h.values (reverse (heap_indices roots)) h'.values
  unfolding gc
  gc-major is_major p closed =
      let (m, ran, ready, c) = major_gc_internal-IsCollected layout roots h p closed in
      let at = finish_gc-slot layout pause_ns m in
      let c' : IsCollected (length h.values) h.values (reverse (heap_indices roots))
          (finish_gc layout pause_ns m).values =
        record {
          reached = λ i r. at i ∙ c.reached i r;
          past = λ i q. at i ∙ c.past i q;
          unreached = λ i q. elim (c.unreached i q) [ inl r ↦ inl r | inr e ↦ inr (at i ∙ e) ];
        } in
      (
        finish_gc layout pause_ns m,
        record {
          ran = rw (is_major, ran);
          valid = finish_gc-IsValid layout pause_ns m ready;
          reached = λ i r. c'.reached i ((reverse-Reach roots h).0 r);
          kept = collected-KeptOrFreed c';
        },
        c',
      )

  gc-Keeps : IsValid h → IsClosed h.values → (h' : Heap) × Keeps h'
  gc-Keeps p closed = elim (Bool-cases (ltb (length h.values) (h.survivor_end * 2))) [
    | inl minor ↦ let (h', k, _, _) = gc-minor minor p closed in (h', k)
    | inr major ↦ let (h', k, _) = gc-major major p closed in (h', k)
  ]

  -- A collection of a valid heap whose references are all slots of the heap ends without a panic in
  -- a valid heap. Every slot that the roots reach then reads as it did, and every other slot reads
  -- as it did or holds nothing.
  pub gc_keeps_reachable :
      IsValid h
      → IsClosed h.values
      → (h' : Heap) × (gc layout pause_ns roots h ≡ finished h')
        × IsValid h'
        × ((i : ℕ) → RootReach roots h i → get (heap i) h' ≡ get (heap i) h)
        × ((i : ℕ)
            → (get (heap i) h' ≡ get (heap i) h)
              ⊎ (get (heap i) h' ≡ err (invalid_heap_reference i)))
  unfolding get
  gc_keeps_reachable p closed =
      let (h', k) = gc-Keeps p closed in
      (
        h',
        k.ran,
        k.valid,
        λ i r. rw (k.reached i r),
        λ i. elim (k.kept i) [ inl e ↦ inl (rw e) | inr e ↦ inr (rw e) ],
      )

  -- A collection is a major one when the heap has at least twice as many slots as its young
  -- generation. In a valid heap whose references are all slots of the heap it then ends, and a slot
  -- that the roots do not reach holds nothing afterwards.
  pub gc_major_frees :
      h.survivor_end * 2 ≤ length h.values
      → IsValid h
      → IsClosed h.values
      → (h' : Heap) × (gc layout pause_ns roots h ≡ finished h')
        × ((i : ℕ) → ¬ RootReach roots h i → get (heap i) h' ≡ err (invalid_heap_reference i))
  unfolding get
  gc_major_frees big p closed =
      let (h', k, c) = gc-major (ge→ltb _ _ big) p closed in
      (
        h',
        k.ran,
        λ i no_path. elim (Bool-cases (ltb i (length h.values))) [
          | inl inside ↦ elim (c.unreached i (ltb→lt i _ inside)) [
            | inl r ↦ absurd (no_path ((reverse-Reach roots h).1 r))
            | inr e ↦ rw e
          ]
          | inr outside ↦
              let past = ltb→ge i _ outside in rw (c.past i past ∙ get_some-ge h.values i past)
        ],
      )

  -- A collection is a minor one when the heap has fewer than twice as many slots as its young
  -- generation. In a valid heap whose references are all slots of the heap it then ends, every slot
  -- past the young generation reads as it did, and a young slot that neither the roots nor the
  -- remembered set reach holds nothing afterwards.
  pub gc_minor_frees :
      length h.values < h.survivor_end * 2
      → IsValid h
      → IsClosed h.values
      → (h' : Heap) × (gc layout pause_ns roots h ≡ finished h')
        × ((i : ℕ) → h.survivor_end ≤ i → get (heap i) h' ≡ get (heap i) h)
        × ((i : ℕ)
            → i < h.survivor_end
            → ¬ Reach h.values (minor_worklist roots h) i
            → get (heap i) h' ≡ err (invalid_heap_reference i))
  unfolding get
  gc_minor_frees small p closed =
      let (h', k, _, c) = gc-minor (lt→ltb _ _ small) p closed in
      (
        h',
        k.ran,
        λ i q. rw (c.past i q),
        λ i q no_path. elim (c.unreached i q) [ inl r ↦ absurd (no_path r) | inr e ↦ rw e ],
      )

  kept-Reach : {h' : Heap} {i : ℕ} → Keeps h' → RootReach roots h' i → RootReach roots h i
  kept-Reach k (root r) = root r
  kept-Reach {h'} k (step {i = a} {j = b} r c) =
      let up = kept-Reach k r in
      step up (rw (children_at-eq h.values h'.values a (k.reached a up)) at c)

  minor-IsClosed :
      ltb (length h.values) (h.survivor_end * 2) ≡ true
      → IsValid h
      → IsClosed h.values
      → (h' : Heap) × Keeps h' × IsClosed h'.values
  minor-IsClosed minor p closed =
      let (h', k, grown, _) = gc-minor minor p closed in
      (
        h',
        k,
        λ i j c. elim (k.kept i) [
          | inl same ↦
              let before = closed i j (rw (children_at-eq h.values h'.values i same) at c) in
              omega arith
          | inr empty ↦ absurd (no_children h'.values i j empty c)
        ],
      )

  major-IsClosed :
      ltb (length h.values) (h.survivor_end * 2) ≡ false
      → IsValid h
      → IsClosed h.values
      → IsLive roots h
      → (h' : Heap) × Keeps h' × IsClosed h'.values
  major-IsClosed major p closed live =
      let (h', k, c) = gc-major major p closed in
      let reached_lt : (j : ℕ) → RootReach roots h j → j < length h'.values =
        λ j r. let (v, e) = live j r in lt-some h'.values j (k.reached j r ∙ e) in
      (
        h',
        k,
        λ i j child. elim (k.kept i) [
          | inl same ↦
              let before = rw (children_at-eq h.values h'.values i same) at child in
              elim (c.unreached i (lt-children_at h.values i j before)) [
                | inl r ↦ reached_lt j (step ((reverse-Reach roots h).1 r) before)
                | inr empty ↦ absurd (no_children h'.values i j empty child)
              ]
          | inr empty ↦ absurd (no_children h'.values i j empty child)
        ],
      )

  -- If, in a valid heap whose references are all slots of the heap, every slot that the roots reach
  -- holds a value, then that still holds after a collection, and every reference that a heap value
  -- holds is a slot of the heap again, also where the collection has dropped slots at the end.
  pub gc-IsLive :
      IsValid h
      → IsClosed h.values
      → IsLive roots h
      → (h' : Heap) × (gc layout pause_ns roots h ≡ finished h')
        × IsClosed h'.values
        × IsLive roots h'
  gc-IsLive p closed live =
      let (h', k, closed') : (h' : Heap) × Keeps h' × IsClosed h'.values =
        elim (Bool-cases (ltb (length h.values) (h.survivor_end * 2))) [
          | inl minor ↦ minor-IsClosed minor p closed
          | inr major ↦ major-IsClosed major p closed live
        ] in
      (
        h',
        k.ran,
        closed',
        λ i r. let r' = kept-Reach k r in let (v, e) = live i r' in (v, k.reached i r' ∙ e),
      )
