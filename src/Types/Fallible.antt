-- ===== src/Types/Fallible.antt =====
-- Chains of calls under `?`, where nothing but the result is kept; and the texts of errors.
use Prim.Native.Char.{code}
use Prim.Native.String.{String, ◌++◌ as ◌^^◌}
use jvm_rs.Prelude.{
  ℕ, zero, suc, ◌+◌, ◌/◌, ◌%◌, true, false, Option, none, some, List, [], ◌∷◌, ◌++◌, ltb, ◌==◌,
  if◌then◌else◌,
}
use jvm_rs.Types.Value.{Result, ok, err, panic}

infixl 5 ◌>>=◌ ◌>>◌
abbrev pub ◌>>=◌ : {A B : Type 0} → Result A → (A → Result B) → Result B
ok a >>= f = f a
err e >>= f = err e
panic >>= f = panic

abbrev pub ◌>>◌ : {B : Type 0} → Result (Unit {0}) → Result B → Result B
r >> k = r >>= λ _. k

-- `unwrap`, and an index into a vector that holds the element
abbrev pub unwrap : {A : Type 0} → Option A → Result A
unwrap none = panic
unwrap (some a) = ok a

digit : ℕ → String
digit d =
    if d == 0
    then "0"
    else if d == 1
    then "1"
    else if d == 2
    then "2"
    else if d == 3
    then "3"
    else if d == 4
    then "4"
    else if d == 5
    then "5"
    else if d == 6
    then "6"
    else if d == 7
    then "7"
    else if d == 8
    then "8"
    else "9"

digits : ℕ → ℕ → String
unfolding digit
digits zero n = ""
digits (suc fuel) n = elim (ltb n 10) [
  | true ↦ digit n
  | false ↦ digits fuel (n / 10) ^^ digit (n % 10)
]

-- A `usize` in a text: it has at most 20 digits.
unfoldable pub decimal : ℕ → String
unfolding digits
decimal n = digits 20 n

-- The UTF-8 bytes of a character.
utf8 : ℕ → List ℕ
utf8 c =
    if ltb c 0x80
    then c ∷ []
    else if ltb c 0x800
    then (0xc0 + c / 0x40) ∷ (0x80 + c % 0x40) ∷ []
    else if ltb c 0x1_0000
    then (0xe0 + c / 0x1000) ∷ (0x80 + c / 0x40 % 0x40) ∷ (0x80 + c % 0x40) ∷ []
    else (0xf0 + c / 0x4_0000)
      ∷ (0x80 + c / 0x1000 % 0x40)
      ∷ (0x80 + c / 0x40 % 0x40)
      ∷ (0x80 + c % 0x40)
      ∷ []

-- `s.as_bytes()`
unfoldable pub as_bytes : String → List ℕ
unfolding utf8
as_bytes String.[] = []
as_bytes (String.◌∷◌ c s) = utf8 (code c) ++ as_bytes s
