-- ===== src/Types/Descriptor.antt =====
-- src/vm/types.rs: reading a field or method descriptor. A descriptor is the list of its bytes.
-- A loop walks that list; a count says how far the index has moved past the byte that it stands at.
pub mod Parsing
pub mod Counting
pub mod Stub
pub mod Tests
use jvm_rs.Prelude.{
  ℕ, zero, suc, ◌+◌, Bool, ◌||◌, Option, none, some, List, [], ◌∷◌, ◌==◌, if◌then◌else◌,
}
use jvm_rs.Prelude.Int.{pos}
use jvm_rs.Types.Value.{
  Value, int, long, float, double, reference, null, Result, ok, err, invalid_descriptor,
}

-- `bytes.first()`
abbrev pub first : List ℕ → Option ℕ
first [] = none
first (b ∷ bs) = some b

unfoldable pub default_value : ℕ → Value
default_value b =
    if b == b'J'
    then Value.long (pos 0)
    else if b == b'F'
    then Value.float 0
    else if b == b'D'
    then Value.double 0
    else if b == b'L' || b == b'['
    then Value.reference null
    else Value.int (pos 0)

unfoldable pub default_value_for_descriptor : List ℕ → Value
unfolding default_value
default_value_for_descriptor [] = Value.int (pos 0)
default_value_for_descriptor (b ∷ bs) = default_value b

-- What follows the first `)`.
unfoldable pub after_close : List ℕ → Option (List ℕ)
after_close [] = none
after_close (b ∷ bs) = let rest = after_close bs in if b == b')' then some bs else rest

unfoldable pub stub_value : List ℕ → Option Value
unfolding default_value
stub_value [] = none
stub_value (b ∷ bs) = if b == b'V' then none else some (default_value b)

unfoldable pub stub_return_value : List ℕ → Option Value
unfolding after_close stub_value
stub_return_value descriptor = elim (after_close descriptor) [
  | none ↦ none
  | some ret ↦ stub_value ret
]

-- The source writes the scan of the arguments out in each of the three parsers, and so does the
-- model: each has its own letters, its own scans to a `;` and over an array, and its own arms.
-- `while i < len && bytes[i] != b';' { i += 1 }`, and one more `i += 1`
unfoldable pub types_past_semicolon : List ℕ → ℕ
types_past_semicolon [] = 1
types_past_semicolon (b ∷ bs) =
    let rest = types_past_semicolon bs in if b == b';' then 1 else suc rest

-- `while i < len && bytes[i] == b'[' { i += 1 }`, and what comes after the brackets
unfoldable pub types_past_array : List ℕ → ℕ
unfolding types_past_semicolon
types_past_array [] = 0
types_past_array (b ∷ bs) =
    let rest = types_past_array bs in
    if b == b'[' then suc rest else if b == b'L' then suc (types_past_semicolon bs) else 1

unfoldable pub types_primitive : ℕ → Bool
types_primitive b =
    b == b'B'
    || b == b'C'
    || b == b'D'
    || b == b'F'
    || b == b'I'
    || b == b'J'
    || b == b'S'
    || b == b'Z'

-- The `match` of `parse_arg_types`: the byte to push, and how far the index moves beyond the next one.
unfoldable pub types_item : ℕ → List ℕ → Option (ℕ × ℕ)
unfolding types_primitive types_past_semicolon types_past_array
types_item b bs =
    if types_primitive b
    then some (b, 0)
    else if b == b'L'
    then some (b'L', types_past_semicolon bs)
    else if b == b'['
    then some (b'[', types_past_array bs)
    else none

unfoldable pub arg_types_loop : ℕ → List ℕ → Option (List ℕ)
unfolding types_item
arg_types_loop skip [] = some []
arg_types_loop (suc skip) (b ∷ bs) = arg_types_loop skip bs
arg_types_loop zero (b ∷ bs) = if b == b')' then some [] else elim (types_item b bs) [
  | none ↦ none
  | some (c, n) ↦ elim (arg_types_loop n bs) [ none ↦ none | some out ↦ some (c ∷ out) ]
]

unfoldable pub parse_arg_types : List ℕ → Option (List ℕ)
unfolding arg_types_loop
parse_arg_types [] = none
parse_arg_types (b ∷ bs) = if b == b'(' then arg_types_loop 0 bs else none

unfoldable pub count_past_semicolon : List ℕ → ℕ
count_past_semicolon [] = 1
count_past_semicolon (b ∷ bs) =
    let rest = count_past_semicolon bs in if b == b';' then 1 else suc rest

-- `while i < len && bytes[i] == b'[' { i += 1 }`, and what comes after the brackets
unfoldable pub count_past_array : List ℕ → ℕ
unfolding count_past_semicolon
count_past_array [] = 0
count_past_array (b ∷ bs) =
    let rest = count_past_array bs in
    if b == b'[' then suc rest else if b == b'L' then suc (count_past_semicolon bs) else 1

unfoldable pub count_primitive : ℕ → Bool
count_primitive b =
    b == b'B'
    || b == b'C'
    || b == b'D'
    || b == b'F'
    || b == b'I'
    || b == b'J'
    || b == b'S'
    || b == b'Z'

-- The `match` of `parse_arg_count`: the new count, and how far the index moves beyond the next one.
unfoldable pub count_item : ℕ → ℕ → List ℕ → Option (ℕ × ℕ)
unfolding count_primitive count_past_semicolon count_past_array
count_item count b bs =
    if count_primitive b
    then some (count + 1, 0)
    else if b == b'L'
    then some (count + 1, count_past_semicolon bs)
    else if b == b'['
    then some (count + 1, count_past_array bs)
    else none

unfoldable pub arg_count_loop : List ℕ → ℕ → ℕ → List ℕ → Result ℕ
unfolding count_item
arg_count_loop descriptor count skip [] = ok count
arg_count_loop descriptor count (suc skip) (b ∷ bs) = arg_count_loop descriptor count skip bs
arg_count_loop descriptor count zero (b ∷ bs) =
    if b == b')' then ok count else elim (count_item count b bs) [
      | none ↦ err (invalid_descriptor descriptor)
      | some (count', n) ↦ arg_count_loop descriptor count' n bs
    ]

unfoldable pub parse_arg_count : List ℕ → Result ℕ
unfolding arg_count_loop
parse_arg_count [] = err (invalid_descriptor [])
parse_arg_count (b ∷ bs) =
    if b == b'(' then arg_count_loop (b ∷ bs) 0 0 bs else err (invalid_descriptor (b ∷ bs))

unfoldable pub return_past_semicolon : List ℕ → ℕ
return_past_semicolon [] = 1
return_past_semicolon (b ∷ bs) =
    let rest = return_past_semicolon bs in if b == b';' then 1 else suc rest

-- `while i < len && bytes[i] == b'[' { i += 1 }`, and what comes after the brackets
unfoldable pub return_past_array : List ℕ → ℕ
unfolding return_past_semicolon
return_past_array [] = 0
return_past_array (b ∷ bs) =
    let rest = return_past_array bs in
    if b == b'[' then suc rest else if b == b'L' then suc (return_past_semicolon bs) else 1

unfoldable pub return_primitive : ℕ → Bool
return_primitive b =
    b == b'B'
    || b == b'C'
    || b == b'D'
    || b == b'F'
    || b == b'I'
    || b == b'J'
    || b == b'S'
    || b == b'Z'

-- The `match` of `parse_return_type`: how far the index moves beyond the next byte.
unfoldable pub return_item : ℕ → List ℕ → Option ℕ
unfolding return_primitive return_past_semicolon return_past_array
return_item b bs =
    if return_primitive b
    then some 0
    else if b == b'L'
    then some (return_past_semicolon bs)
    else if b == b'['
    then some (return_past_array bs)
    else none

unfoldable pub return_type_loop : List ℕ → ℕ → List ℕ → Result (Option ℕ)
unfolding return_item
return_type_loop descriptor skip [] = err (invalid_descriptor descriptor)
return_type_loop descriptor (suc skip) (b ∷ bs) = return_type_loop descriptor skip bs
return_type_loop descriptor zero (b ∷ bs) =
    if b == b')' then ok (first bs) else elim (return_item b bs) [
      | none ↦ err (invalid_descriptor descriptor)
      | some n ↦ return_type_loop descriptor n bs
    ]

unfoldable pub parse_return_type : List ℕ → Result (Option ℕ)
unfolding return_type_loop
parse_return_type [] = err (invalid_descriptor [])
parse_return_type (b ∷ bs) =
    if b == b'(' then return_type_loop (b ∷ bs) 0 bs else err (invalid_descriptor (b ∷ bs))
