-- ===== src/Heap/Finish.antt =====
-- What the ends of the collections of src/vm/heap.rs make of the swept slots.
use jvm_rs.Prelude.{
  ℕ, zero, suc, ◌≤◌, ◌<◌, ◌≡◌, ◌∙◌, refl, sym, ap, inl, inr, ◌⊎◌, ◌↔◌, Bool, true, false, Option,
  none, some, List, [], ◌∷◌, ltb, length, get_elem?, arith, get_some, get_some-ge, get_some-resize,
  length-resize, take, get_elem?-lt, Bool-cases, ltb→lt, ltb→ge, reverse,
}
use mathlib.Core.List.{reverse-append}
use jvm_rs.Prelude.Words.{usize_max, saturating_add}
use jvm_rs.Heap.Defs.{HeapValue, Heap, Slots, Layout, clear_remembered_set}
use jvm_rs.Heap.Gc.{Swept, trim, counted, finish_minor, finish_major, finish_gc}
use jvm_rs.Heap.Reach.{
  In, Reach, root, step, children_at, In-append, In-append_left, In-append_right,
}
use jvm_rs.Heap.Sweep.{IsSwept, get_some-trim, length-trim}
use jvm_rs.Heap.Valid.{IsValid}

-- Every reference that a heap value holds is a slot of the heap.
abbrev pub IsClosed : Slots → Type 0
IsClosed values = (i j : ℕ) → In j (children_at values i) → j < length values

pub Reach-mono :
    {values : Slots} {xs ys : List ℕ} {i : ℕ}
    → ((a : ℕ) → In a xs → In a ys)
    → Reach values xs i
    → Reach values ys i
Reach-mono sub (root r) = root (sub _ r)
Reach-mono sub (step r c) = step (Reach-mono sub r) c

pub In-reverse :
    (a : ℕ) (xs : List ℕ) → (In a (reverse xs) → In a xs) × (In a xs → In a (reverse xs))
In-reverse a [] = ((λ h. h), λ h. h)
In-reverse a (x ∷ xs) =
    let (back, forth) = In-reverse a xs in
    (
      λ h. elim (In-append a (reverse xs) (x ∷ []) (rw (reverse-append (x ∷ []) xs) at h)) [
        | inl l ↦ inr (back l)
        | inr r ↦ elim r [ inl e ↦ inl e | inr z ↦ elim z [ ] ]
      ],
      λ h. rw (reverse-append (x ∷ []) xs) (elim h [
        | inl e ↦ In-append_right a (reverse xs) (x ∷ []) (inl e)
        | inr r ↦ In-append_left a (reverse xs) (x ∷ []) (forth r)
      ]),
    )

-- After the marking and the sweep of the first `n` slots: a slot that can be reached and a slot past
-- the first `n` is as before, and of the first `n` one that cannot be reached is empty.
pub record IsCollected (n : ℕ) (vs : Slots) (wl : List ℕ) (vs' : Slots) : Type 0 where
  pub reached : (i : ℕ) → Reach vs wl i → get_some vs' i ≡ get_some vs i
  pub past : (i : ℕ) → n ≤ i → get_some vs' i ≡ get_some vs i
  pub unreached : (i : ℕ) → i < n → Reach vs wl i ⊎ (get_some vs' i ≡ none)

pub swept-IsCollected :
    (n : ℕ) (vs : Slots) (wl : List ℕ) (ms : List Bool) (s : Swept)
    → n ≤ length vs
    → length ms ≡ length vs
    → ((i : ℕ) → i < length vs → (get_elem? ms i ≡ some true) ↔ Reach vs wl i)
    → IsSwept n vs ms s
    → IsCollected n vs wl s.values
swept-IsCollected n vs wl ms s h lm iff p = record {
  reached = λ i r. elim (Bool-cases (ltb i (length vs))) [
    | inl inside ↦ p.kept i (inr ((iff i (ltb→lt i (length vs) inside)).1 r))
    | inr outside ↦ p.kept i (inl (omega (arith, ltb→ge i (length vs) outside)))
  ];
  past = λ i q. p.kept i (inl q);
  unreached = λ i q. go i q (get_elem?-lt ms i (omega arith));
}
  where
    go :
        (i : ℕ)
        → i < n
        → (b : Bool) × (get_elem? ms i ≡ some b)
        → Reach vs wl i ⊎ (get_some s.values i ≡ none)
    go i q (true, e) = inl ((iff i (omega arith)).0 e)
    go i q (false, e) = inr (p.freed i q e)

-- What a collection must leave for its end to make the heap valid again.
pub record IsReady (h : Heap) : Type 0 where
  pub aged : length h.ages ≡ length h.values
  pub young : h.survivor_end ≤ length h.values
  pub fits : length h.values ≤ usize_max

pub finish_minor-slot :
    (s : Swept) (h : Heap) (i : ℕ)
    → length s.values ≤ usize_max
    → get_some (finish_minor s h).values i ≡ get_some s.values i
unfolding finish_minor counted clear_remembered_set
finish_minor-slot s h i fits =
    get_some-resize (saturating_add (length s.values) h.tlab_size) i s.values (omega arith)

pub finish_minor-IsReady :
    (s : Swept) (h : Heap)
    → length s.values ≡ length h.values
    → IsValid h
    → IsReady (finish_minor s h) × (length h.values ≤ length (finish_minor s h).values)
unfolding finish_minor counted clear_remembered_set
finish_minor-IsReady s h len p =
    let limit = saturating_add (length s.values) h.tlab_size in
    let lv = length-resize {A = Option HeapValue} limit none s.values in
    (
      record {
        aged = length-resize limit 0 s.ages ∙ sym lv;
        young = omega (arith, lv, len, p.young, p.fits);
        fits = omega (arith, lv);
      },
      omega (arith, lv, len, p.fits),
    )

pub finish_major-slot :
    (s : Swept) (h : Heap) (i : ℕ) → get_some (finish_major s h).values i ≡ get_some s.values i
unfolding finish_major counted
finish_major-slot s h i = get_some-trim s.values i

length-take : (n : ℕ) (xs : List ℕ) → n ≤ length xs → length (take n xs) ≡ n
length-take zero xs h = refl
length-take (suc n) [] h = absurd (omega arith)
length-take (suc n) (x ∷ xs) h = ap suc (length-take n xs (omega arith))

pub finish_major-IsReady :
    (s : Swept) (h : Heap)
    → length s.values ≡ length h.values
    → length s.ages ≡ length h.values
    → IsValid h
    → IsReady (finish_major s h)
unfolding finish_major counted
finish_major-IsReady s h len len_ages p =
    let lt = length-trim s.values in
    record {
      aged = length-take (length (trim s.values)) s.ages (omega (arith, lt));
      young = omega arith;
      fits = omega (arith, lt, p.fits);
    }

pub finish_gc-IsValid :
    (layout : Layout) (pause_ns : ℕ) (h : Heap) → IsReady h → IsValid (finish_gc layout pause_ns h)
unfolding finish_gc
finish_gc-IsValid layout pause_ns h p =
    let limit = saturating_add (length h.values) h.tlab_size in
    let lv = length-resize {A = Option HeapValue} limit none h.values in
    let la = length-resize limit 0 h.ages in
    record {
      aged = ground (arith, lv, la, p.aged);
      free = λ i q. ground (arith, get_some-resize limit i h.values, get_some-ge h.values i);
      buffer = ground (arith, lv);
      top = ground (arith, lv);
      young = ground (arith, lv, p.young);
      fits = ground (arith, lv, p.fits);
    }

pub finish_gc-slot :
    (layout : Layout) (pause_ns : ℕ) (h : Heap) (i : ℕ)
    → get_some (finish_gc layout pause_ns h).values i ≡ get_some h.values i
unfolding finish_gc
finish_gc-slot layout pause_ns h i =
    let limit = saturating_add (length h.values) h.tlab_size in
    ground (arith, get_some-resize limit i h.values)
