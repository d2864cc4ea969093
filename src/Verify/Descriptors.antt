-- ===== src/Verify/Descriptors.antt =====
-- src/vm/verify.rs: the descriptor parsers of the verifier. A descriptor is the list of its bytes; a
-- parser is given the bytes from an index on, and says how many of them it read.
use jvm_rs.Prelude.{
  ℕ, zero, suc, ◌+◌, ◌-◌, ◌||◌, Option, none, some, List, [], ◌∷◌, ◌==◌, if◌then◌else◌, length,
  take,
}
use jvm_rs.Types.Value.{Result, ok, err, invalid_descriptor}
use jvm_rs.Types.Fallible.{◌>>=◌}
use jvm_rs.Verify.Types.{VerifyType, int, long, float, double, reference}

-- `find(';')`
unfoldable pub find_semicolon : List ℕ → Option ℕ
find_semicolon [] = none
find_semicolon (b ∷ bs) =
    let rest = find_semicolon bs in
    if b == b';' then some 0 else elim rest [ none ↦ none | some n ↦ some (suc n) ]

-- A type that is no array.
unfoldable pub parse_scalar : List ℕ → List ℕ → Result (VerifyType × ℕ)
unfolding find_semicolon
parse_scalar descriptor [] = err (invalid_descriptor descriptor)
parse_scalar descriptor (b ∷ bs) =
    if b == b'B' || b == b'C' || b == b'I' || b == b'S' || b == b'Z'
    then ok (int, 1)
    else if b == b'J'
    then ok (long, 1)
    else if b == b'F'
    then ok (float, 1)
    else if b == b'D'
    then ok (double, 1)
    else if b == b'L'
    then elim (find_semicolon bs) [
      | none ↦ err (invalid_descriptor descriptor)
      | some n ↦ ok (reference (some (take n bs)), n + 2)
    ]
    else err (invalid_descriptor descriptor)

-- `while bytes.get(end) == Some(&b'[') { end += 1 }`, and the type after the brackets
unfoldable pub parse_element : List ℕ → List ℕ → Result ℕ
unfolding parse_scalar
parse_element descriptor [] = err (invalid_descriptor descriptor)
parse_element descriptor (b ∷ bs) =
    let rest = parse_element descriptor bs in
    if b == b'['
    then (rest >>= λ n. ok (suc n))
    else parse_scalar descriptor (b ∷ bs) >>= λ p. ok p.1

unfoldable pub parse_field_descriptor_at : List ℕ → List ℕ → Result (VerifyType × ℕ)
unfolding parse_scalar parse_element
parse_field_descriptor_at descriptor [] = err (invalid_descriptor descriptor)
parse_field_descriptor_at descriptor (b ∷ bs) =
    if b == b'['
    then (parse_element descriptor bs >>= λ n. ok (reference (some (take (suc n) (b ∷ bs))), suc n))
    else parse_scalar descriptor (b ∷ bs)

unfoldable pub parse_field_descriptor : List ℕ → Result VerifyType
unfolding parse_field_descriptor_at
parse_field_descriptor descriptor = parse_field_descriptor_at descriptor descriptor >>= λ p.
    if p.1 == length descriptor then ok p.0 else err (invalid_descriptor descriptor)

unfoldable pub parse_return : List ℕ → List ℕ → Result (Option VerifyType)
unfolding parse_field_descriptor_at
parse_return descriptor [] = err (invalid_descriptor descriptor)
parse_return descriptor (b ∷ bs) =
    if b == b'V'
    then ok none
    else (parse_field_descriptor_at descriptor (b ∷ bs) >>= λ p.
        if p.1 == suc (length bs) then ok (some p.0) else err (invalid_descriptor descriptor))

-- The arguments from an index on, which lies `skip` bytes ahead, and the return type.
unfoldable pub parse_args : List ℕ → ℕ → List ℕ → Result (List VerifyType × Option VerifyType)
unfolding parse_field_descriptor_at parse_return
parse_args descriptor skip [] = err (invalid_descriptor descriptor)
parse_args descriptor (suc skip) (b ∷ bs) = parse_args descriptor skip bs
parse_args descriptor zero (b ∷ bs) =
    if b == b')'
    then (parse_return descriptor bs >>= λ ret. ok ([], ret))
    else (parse_field_descriptor_at descriptor (b ∷ bs) >>= λ p.
        parse_args descriptor (p.1 - 1) bs >>= λ rest. ok (p.0 ∷ rest.0, rest.1))

unfoldable pub parse_method_descriptor : List ℕ → Result (List VerifyType × Option VerifyType)
unfolding parse_args
parse_method_descriptor [] = err (invalid_descriptor [])
parse_method_descriptor (b ∷ bs) =
    if b == b'(' then parse_args (b ∷ bs) 0 bs else err (invalid_descriptor (b ∷ bs))
