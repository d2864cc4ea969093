-- ===== src/Strings/Sharing.antt =====
-- src/vm/intern.rs and src/vm/arena.rs: interning a string after others.
use text.Mathlib.Text.{◌==◌ as str_eq}
use text.Mathlib.TextEquality.{eq_iff}
use mathlib.Core.Path.{subst}
use text.Mathlib.TextPositions.{eq_refl}
use jvm_rs.Prelude.{
  ℕ, zero, suc, ◌+◌, ◌<◌, ◌≡◌, ◌≢◌, ◌⊎◌, ◌↔◌, refl, sym, ap, ◌∙◌, inl, inr, none, some, List, [],
  ◌∷◌, ◌++◌, String, length, get_elem?, arith, Option-cases, Bool-cases,
}
use jvm_rs.Strings.{Interner, new, lookup, intern, ClassMetaArena, position, arena_intern}

-- Every pointer of the map was allocated, and no two strings have the same one.
record IsInjective (i : Interner) : Type 0 where
  below : (s : String) (arc : ℕ) → lookup s i.inner ≡ some arc → arc < i.allocated
  once :
      (s t : String) (arc : ℕ) → lookup s i.inner ≡ some arc → lookup t i.inner ≡ some arc → s ≡ t

new-IsInjective : IsInjective new
unfolding lookup
new-IsInjective = record { below = λ s arc h. cc; once = λ s t arc h k. cc }

-- A lookup after a new pair was put in front.
abbrev added : String → Interner → Interner
added s i = record { inner = (s, i.allocated) ∷ i.inner; allocated = i.allocated + 1 }

lookup-added :
    (s t : String) (i : Interner)
    → ((s ≡ t) × (lookup t (added s i).inner ≡ some i.allocated))
      ⊎ ((s ≢ t) × (lookup t (added s i).inner ≡ lookup t i.inner))
unfolding lookup
lookup-added s t i = elim (Bool-cases (str_eq s t)) [
  | inl e ↦ inl ((eq_iff s t).0 e, rw e)
  | inr e ↦ inr ((λ same. ground (arith, e, (eq_iff s t).1 same)), rw e)
]

added-IsInjective : (s : String) (i : Interner) → IsInjective i → IsInjective (added s i)
added-IsInjective s i p = record {
  below = λ t arc h. elim (lookup-added s t i) [
    | inl (e, l) ↦ ground (arith, h, l)
    | inr (e, l) ↦ ground (arith, p.below t arc (cc (h, l)))
  ];
  once = λ t u arc h k. elim (lookup-added s t i) [
    | inl (e, l) ↦ elim (lookup-added s u i) [
      | inl (e', l') ↦ cc (e, e')
      | inr (e', l') ↦ absurd (ground (arith, h, l, p.below u arc (cc (k, l'))))
    ]
    | inr (e, l) ↦ elim (lookup-added s u i) [
      | inl (e', l') ↦ absurd (ground (arith, k, l', p.below t arc (cc (h, l))))
      | inr (e', l') ↦ p.once t u arc (cc (h, l)) (cc (k, l'))
    ]
  ];
}

intern-IsInjective : (s : String) (i : Interner) → IsInjective i → IsInjective (intern s i).1
unfolding intern
intern-IsInjective s i p = elim (Option-cases (lookup s i.inner)) [
  | inl e ↦ rw (intern, e) (added-IsInjective s i p)
  | inr (arc, e) ↦ rw (intern, e) p
]

lookup-intern : (s : String) (i : Interner) → lookup s (intern s i).1.inner ≡ some (intern s i).0
unfolding intern
lookup-intern s i = elim (Option-cases (lookup s i.inner)) [
  | inl e ↦ elim (lookup-added s s i) [
    | inl (same, l) ↦ rw (intern, e) l
    | inr (ne, l) ↦ absurd (ne refl)
  ]
  | inr (arc, e) ↦ rw (intern, e) e
]

-- An interner after some strings.
abbrev pub interned : List String → Interner
interned [] = new
interned (s ∷ ss) = (intern s (interned ss)).1

interned-IsInjective : (ss : List String) → IsInjective (interned ss)
interned-IsInjective [] = new-IsInjective
interned-IsInjective (s ∷ ss) = intern-IsInjective s (interned ss) (interned-IsInjective ss)

intern-found :
    (t : String) (i : Interner) {arc : ℕ} → lookup t i.inner ≡ some arc → (intern t i).0 ≡ arc
unfolding intern
intern-found t i e = rw (intern, e) refl

intern-missing :
    (t : String) (i : Interner) → lookup t i.inner ≡ none → (intern t i).0 ≡ i.allocated
unfolding intern
intern-missing t i e = rw (intern, e) refl

-- Whatever was interned before, two strings that are interned one after the other are one pointer
-- exactly when they are equal.
pub intern_iff :
    (ss : List String) (s t : String)
    → ((intern s (interned ss)).0 ≡ (intern t (intern s (interned ss)).1).0) ↔ (s ≡ t)
intern_iff ss s t =
    let i = (intern s (interned ss)).1 in
    let p = interned-IsInjective (s ∷ ss) in
    let found = lookup-intern s (interned ss) in
    (
      λ h. elim (Option-cases (lookup t i.inner)) [
        | inl e ↦ absurd (omega (arith, h, intern-missing t i e, p.below s _ found))
        | inr (arc, e) ↦ p.once s t arc (found ∙ ap some (h ∙ intern-found t i e)) e
      ],
      λ same. sym (
          intern-found t i (
            subst (λ (u : String). lookup u i.inner ≡ some (intern s (interned ss)).0) same found)),
    )

-- The arena.
position-get_elem? :
    (s : String) (strings : ClassMetaArena) (i : ℕ)
    → position s strings ≡ some i
    → get_elem? strings i ≡ some s
unfolding position
position-get_elem? s [] i h = cc
position-get_elem? s (e ∷ strings) i h =
    let here = λ (j : ℕ) (z : j ≡ i) (g : get_elem? (e ∷ strings) j ≡ some s).
      subst (λ (k : ℕ). get_elem? (e ∷ strings) k ≡ some s) z g in
    elim (Bool-cases (str_eq e s)) [
      | inl b ↦ let k = rw b at h in here 0 (cc k) (ap some ((eq_iff e s).0 b))
      | inr b ↦ elim (Option-cases (position s strings)) [
        | inl q ↦ let k = rw (b, q) at h in absurd (cc k)
        | inr (j, q) ↦
            let k = rw (b, q) at h in here (suc j) (cc k) (position-get_elem? s strings j q)
      ]
    ]

position-append :
    (s : String) (strings : ClassMetaArena)
    → position s strings ≡ none
    → position s (strings ++ s ∷ []) ≡ some (length strings)
unfolding position
position-append s [] h = rw (eq_refl s) refl
position-append s (e ∷ strings) h = elim (Bool-cases (str_eq e s)) [
  | inl b ↦ let k = rw b at h in absurd (cc k)
  | inr b ↦ elim (Option-cases (position s strings)) [
    | inl q ↦ rw (b, position-append s strings q) refl
    | inr (j, q) ↦ let k = rw (b, q) at h in absurd (cc k)
  ]
]

get_elem?-append :
    (xs ys : List String) (j : ℕ) → j < length xs → get_elem? (xs ++ ys) j ≡ get_elem? xs j
get_elem?-append [] ys j h = absurd (omega arith)
get_elem?-append (x ∷ xs) ys zero h = refl
get_elem?-append (x ∷ xs) ys (suc j) h = get_elem?-append xs ys j (omega arith)

arena-found :
    (s : String) (strings : ClassMetaArena) {i : ℕ}
    → position s strings ≡ some i
    → arena_intern s strings ≡ (i, strings)
unfolding arena_intern
arena-found s strings e = rw (arena_intern, e) refl

arena-missing :
    (s : String) (strings : ClassMetaArena)
    → position s strings ≡ none
    → arena_intern s strings ≡ (length strings, strings ++ s ∷ [])
unfolding arena_intern
arena-missing s strings e = rw (arena_intern, e) refl

-- The arena gives back a position that holds the string. Every earlier position holds what it held,
-- and the string that is asked for again is given back at the same position, with nothing added.
pub arena_intern_lem :
    (s : String) (strings : ClassMetaArena)
    → let (i, strings') = arena_intern s strings in
      (get_elem? strings' i ≡ some s)
      × ((j : ℕ) → j < length strings → get_elem? strings' j ≡ get_elem? strings j)
      × (arena_intern s strings' ≡ (i, strings'))
arena_intern_lem s strings = elim (Option-cases (position s strings)) [
  | inl e ↦
      let at = position-append s strings e in
      rw (arena-missing s strings e) (
        position-get_elem? s (strings ++ s ∷ []) (length strings) at,
        get_elem?-append strings (s ∷ []),
        arena-found s (strings ++ s ∷ []) at,
      )
  | inr (i, e) ↦
      rw (arena-found s strings e)
        (position-get_elem? s strings i e, λ j h. refl, arena-found s strings e)
]
