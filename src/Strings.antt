-- ===== src/Strings.antt =====
-- src/vm/intern.rs and src/vm/arena.rs: the two tables of shared strings. An `Arc<str>` is the number
-- of its allocation, so two of them are one pointer exactly when the numbers are equal.
pub mod Sharing
pub mod Tests
use text.Mathlib.Text.{◌==◌ as str_eq}
use jvm_rs.Prelude.{
  ℕ, suc, ◌+◌, Bool, Option, none, some, List, [], ◌∷◌, ◌++◌, String, if◌then◌else◌, length,
}

-- `Interner`: its map, and how many strings `Arc::from` has allocated.
pub record Interner : Type 0 where
  pub inner : List (String × ℕ)
  pub allocated : ℕ

abbrev pub new : Interner
new = record { inner = []; allocated = 0 }

-- `map.get(s)`
unfoldable pub lookup : String → List (String × ℕ) → Option ℕ
lookup s [] = none
lookup s ((t, arc) ∷ inner) = let rest = lookup s inner in if str_eq t s then some arc else rest

unfoldable pub intern : String → Interner → ℕ × Interner
unfolding lookup
intern s i = elim (lookup s i.inner) [
  | some existing ↦ (existing, i)
  | none ↦ (i.allocated, record { inner = (s, i.allocated) ∷ i.inner; allocated = i.allocated + 1 })
]

-- `ClassMetaArena`: its strings. A reference into it is a position.
abbrev pub ClassMetaArena : Type 0
ClassMetaArena = List String

-- `strings.iter().position(|e| e == s)`
unfoldable pub position : String → ClassMetaArena → Option ℕ
position s [] = none
position s (e ∷ strings) =
    let rest = position s strings in
    if str_eq e s then some 0 else elim rest [ none ↦ none | some i ↦ some (suc i) ]

unfoldable pub arena_intern : String → ClassMetaArena → ℕ × ClassMetaArena
unfolding position
arena_intern s strings = elim (position s strings) [
  | some i ↦ (i, strings)
  | none ↦ (length strings, strings ++ s ∷ [])
]
