-- ===== src/Types/Descriptor/Counting.antt =====
-- src/vm/types.rs: `parse_arg_count` against `parse_arg_types`, which scan the arguments by loops of
-- their own.
use jvm_rs.Prelude.{
  ℕ, zero, suc, ◌+◌, Bool, true, false, Option, none, some, List, [], ◌∷◌, ◌==◌, if◌then◌else◌,
  length, ◌≡◌, refl, ap, arith, Option-cases, Bool-cases, inl, inr,
}
use jvm_rs.Types.Value.{Result, ok, err, invalid_descriptor}
use jvm_rs.Types.Descriptor.{
  types_past_semicolon, types_past_array, types_primitive, types_item, arg_types_loop,
  parse_arg_types, count_past_semicolon, count_past_array, count_primitive, count_item,
  arg_count_loop, parse_arg_count,
}

-- The result of the argument count, from that of the argument types.
abbrev counted_from : List ℕ → ℕ → Option (List ℕ) → Result ℕ
counted_from d count none = err (invalid_descriptor d)
counted_from d count (some types) = ok (count + length types)

plus_zero : (n : ℕ) → n + 0 ≡ n
plus_zero n = omega arith

count_past_semicolon-types : (bs : List ℕ) → count_past_semicolon bs ≡ types_past_semicolon bs
unfolding count_past_semicolon types_past_semicolon
count_past_semicolon-types [] = refl
count_past_semicolon-types (b ∷ bs) = rw (count_past_semicolon-types bs)

count_past_array-types : (bs : List ℕ) → count_past_array bs ≡ types_past_array bs
unfolding count_past_array types_past_array
count_past_array-types [] = refl
count_past_array-types (b ∷ bs) = rw (count_past_array-types bs, count_past_semicolon-types bs)

-- The new count, from what the argument types read.
abbrev one_more : ℕ → Option (ℕ × ℕ) → Option (ℕ × ℕ)
one_more count none = none
one_more count (some (c, n)) = some (count + 1, n)

one_more_if :
    (count : ℕ) (test : Bool) (x y : Option (ℕ × ℕ))
    → one_more count (if test then x else y) ≡ (if test then one_more count x else one_more count y)
one_more_if count true x y = refl
one_more_if count false x y = refl

-- The two `match`es take the same steps.
count_item-types_item :
    (count b : ℕ) (bs : List ℕ) → count_item count b bs ≡ one_more count (types_item b bs)
unfolding count_item types_item count_primitive types_primitive
count_item-types_item count b bs =
    rw (count_past_array-types bs, count_past_semicolon-types bs) (simp one_more_if)

add_type :
    (d : List ℕ) (c count : ℕ) (r : Option (List ℕ))
    → counted_from d (count + 1) r
      ≡ counted_from d count (elim r [ none ↦ none | some out ↦ some (c ∷ out) ])
add_type d c count none = refl
add_type d c count (some out) = ap ok (omega arith)

arg_count_loop_lem :
    (d : List ℕ) (count skip : ℕ) (bs : List ℕ)
    → arg_count_loop d count skip bs ≡ counted_from d count (arg_types_loop skip bs)
unfolding arg_count_loop arg_types_loop
arg_count_loop_lem d count skip [] = ap ok (omega arith)
arg_count_loop_lem d count (suc skip) (b ∷ bs) = arg_count_loop_lem d count skip bs
arg_count_loop_lem d count zero (b ∷ bs) = elim (Bool-cases (b == b')')) [
  | inl closed ↦ rw (closed, plus_zero count)
  | inr opened ↦ elim (Option-cases (types_item b bs)) [
    | inl bad ↦ rw (opened, count_item-types_item count b bs, bad)
    | inr ((c, n), good) ↦ rw (
      opened,
      count_item-types_item count b bs,
      good,
      arg_count_loop_lem d (count + 1) n bs,
      add_type d c count (arg_types_loop n bs),
    )
  ]
]

counted_all :
    (d : List ℕ) (r : Option (List ℕ))
    → counted_from d 0 r
      ≡ (elim r [ none ↦ err (invalid_descriptor d) | some types ↦ ok (length types) ])
counted_all d none = refl
counted_all d (some types) = ap ok (omega arith)

-- The argument count of any text is the number of argument types, and it fails exactly where these
-- cannot be read.
pub parse_arg_count-parse_arg_types :
    (d : List ℕ)
    → parse_arg_count d ≡ (elim (parse_arg_types d) [
      | none ↦ err (invalid_descriptor d)
      | some types ↦ ok (length types)
    ])
unfolding parse_arg_count parse_arg_types
parse_arg_count-parse_arg_types [] = refl
parse_arg_count-parse_arg_types (b ∷ bs) = elim (Bool-cases (b == b'(')) [
  | inl opens ↦
      rw (opens, arg_count_loop_lem (b ∷ bs) 0 0 bs, counted_all (b ∷ bs) (arg_types_loop 0 bs))
  | inr other ↦ rw other
]
