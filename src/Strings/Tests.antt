-- ===== src/Strings/Tests.antt =====
-- Concrete strings.
use jvm_rs.Prelude.{ℕ, ◌<◌, ◌≡◌, ◌↔◌, refl, some, List, [], ◌∷◌, String, get_elem?}
use jvm_rs.Strings.{lookup, intern, position, arena_intern}
use jvm_rs.Strings.Sharing.{interned, intern_iff, arena_intern_lem}

abbrev names : List String
names = "java/lang/Object" ∷ "()V" ∷ []

-- `()V` is found at the pointer that it got first, and `run` gets a new one.
pointers : ((intern "()V" (interned names)).0 ≡ 0) × ((intern "run" (interned names)).0 ≡ 2)
unfolding intern lookup
pointers = (refl, refl)

intern_iff_example :
    ((intern "()V" (interned names)).0 ≡ (intern "run" (intern "()V" (interned names)).1).0)
    ↔ (◌≡◌ {A = String} "()V" "run")
intern_iff_example = intern_iff names "()V" "run"

arena_intern_lem_example :
    (get_elem? names 1 ≡ some "()V")
    × ((j : ℕ) → j < 2 → get_elem? names j ≡ get_elem? names j)
    × (arena_intern "()V" names ≡ (1, names))
unfolding arena_intern position
arena_intern_lem_example = arena_intern_lem "()V" names
