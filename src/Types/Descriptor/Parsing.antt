-- ===== src/Types/Descriptor/Parsing.antt =====
-- src/vm/types.rs: what the descriptor parsers make of descriptors.
use jvm_rs.Prelude.{
  ℕ, suc, Bool, true, false, ◌&&◌, not, some, List, [], ◌∷◌, ◌++◌, ◌==◌, map, length, ◌≡◌, refl, ap,
  arith,
}
use jvm_rs.Types.Value.{ok}
use jvm_rs.Types.Descriptor.{
  first, types_past_semicolon, types_past_array, types_primitive, types_item, arg_types_loop,
  parse_arg_types, return_past_semicolon, return_past_array, return_primitive, return_item,
  return_type_loop, parse_return_type,
}

-- The grammar of field types: a primitive letter, a class name, an array.
pub data FieldType : Type 0 where
  primitive : ℕ → FieldType
  class : List ℕ → FieldType
  array : FieldType → FieldType

-- The first byte of a field type in a descriptor, and the bytes after it.
abbrev pub kind : FieldType → ℕ
kind (primitive b) = b
kind (class name) = b'L'
kind (array t) = b'['

abbrev pub rest_of : FieldType → List ℕ
rest_of (primitive b) = []
rest_of (class name) = name ++ b';' ∷ []
rest_of (array t) = kind t ∷ rest_of t

abbrev pub encode_all : List FieldType → List ℕ → List ℕ
encode_all [] tail = tail
encode_all (t ∷ ts) tail = kind t ∷ rest_of t ++ encode_all ts tail

-- `(`, the arguments, `)`, and the return type.
abbrev pub method_descriptor : List FieldType → List ℕ → List ℕ
method_descriptor args ret = b'(' ∷ encode_all args (b')' ∷ ret)

abbrev pub lacks : ℕ → List ℕ → Bool
lacks c [] = true
lacks c (b ∷ bs) = not (b == c) && lacks c bs

-- The letters of the primitive types.
abbrev pub letters : List ℕ
letters = b'B' ∷ b'C' ∷ b'D' ∷ b'F' ∷ b'I' ∷ b'J' ∷ b'S' ∷ b'Z' ∷ []

-- The letter is that of a primitive type, and a class name has no `;`.
abbrev pub well_formed : FieldType → Bool
well_formed (primitive b) = not (lacks b letters)
well_formed (class name) = lacks b';' name
well_formed (array t) = well_formed t

abbrev pub all_well_formed : List FieldType → Bool
all_well_formed [] = true
all_well_formed (t ∷ ts) = well_formed t && all_well_formed ts

types_past_semicolon_lem :
    (name tail : List ℕ)
    → lacks b';' name ≡ true
    → types_past_semicolon ((name ++ b';' ∷ []) ++ tail) ≡ length (name ++ b';' ∷ [])
unfolding types_past_semicolon
types_past_semicolon_lem [] tail h = refl
types_past_semicolon_lem (b ∷ name) tail h = ground (arith, types_past_semicolon_lem name tail)

types_past_array_lem :
    (t : FieldType) (tail : List ℕ)
    → well_formed t ≡ true
    → types_past_array (kind t ∷ rest_of t ++ tail) ≡ suc (length (rest_of t))
unfolding types_past_array
types_past_array_lem (primitive b) tail h = ground arith
types_past_array_lem (class name) tail h = ap suc (types_past_semicolon_lem name tail h)
types_past_array_lem (array t) tail h = ap suc (types_past_array_lem t tail h)

types_item_lem :
    (t : FieldType) (tail : List ℕ)
    → well_formed t ≡ true
    → types_item (kind t) (rest_of t ++ tail) ≡ some (kind t, length (rest_of t))
unfolding types_item types_primitive
types_item_lem (primitive b) tail h = ground arith
types_item_lem (class name) tail h =
    ap (λ (n : ℕ). some (b'L', n)) (types_past_semicolon_lem name tail h)
types_item_lem (array t) tail h = ap (λ (n : ℕ). some (b'[', n)) (types_past_array_lem t tail h)

return_past_semicolon_lem :
    (name tail : List ℕ)
    → lacks b';' name ≡ true
    → return_past_semicolon ((name ++ b';' ∷ []) ++ tail) ≡ length (name ++ b';' ∷ [])
unfolding return_past_semicolon
return_past_semicolon_lem [] tail h = refl
return_past_semicolon_lem (b ∷ name) tail h = ground (arith, return_past_semicolon_lem name tail)

return_past_array_lem :
    (t : FieldType) (tail : List ℕ)
    → well_formed t ≡ true
    → return_past_array (kind t ∷ rest_of t ++ tail) ≡ suc (length (rest_of t))
unfolding return_past_array
return_past_array_lem (primitive b) tail h = ground arith
return_past_array_lem (class name) tail h = ap suc (return_past_semicolon_lem name tail h)
return_past_array_lem (array t) tail h = ap suc (return_past_array_lem t tail h)

return_item_lem :
    (t : FieldType) (tail : List ℕ)
    → well_formed t ≡ true
    → return_item (kind t) (rest_of t ++ tail) ≡ some (length (rest_of t))
unfolding return_item return_primitive
return_item_lem (primitive b) tail h = ground arith
return_item_lem (class name) tail h = ap some (return_past_semicolon_lem name tail h)
return_item_lem (array t) tail h = ap some (return_past_array_lem t tail h)

pub kind_open : (t : FieldType) → well_formed t ≡ true → (kind t == b')') ≡ false
kind_open (primitive b) h = ground arith
kind_open (class name) h = refl
kind_open (array t) h = refl

skip_types : (xs tail : List ℕ) → arg_types_loop (length xs) (xs ++ tail) ≡ arg_types_loop 0 tail
unfolding arg_types_loop
skip_types [] tail = refl
skip_types (x ∷ xs) tail = skip_types xs tail

skip_return :
    (d xs tail : List ℕ) → return_type_loop d (length xs) (xs ++ tail) ≡ return_type_loop d 0 tail
unfolding return_type_loop
skip_return d [] tail = refl
skip_return d (x ∷ xs) tail = skip_return d xs tail

pub and-true : (a b : Bool) → (a && b) ≡ true → (a ≡ true) × (b ≡ true)
and-true a b h = (ground arith, ground arith)

arg_types_loop_lem :
    (args : List FieldType) (ret : List ℕ)
    → all_well_formed args ≡ true
    → arg_types_loop 0 (encode_all args (b')' ∷ ret)) ≡ some (map kind args)
unfolding arg_types_loop
arg_types_loop_lem [] ret h = refl
arg_types_loop_lem (t ∷ ts) ret h =
    let (ht, hts) = and-true _ _ h in
    let tail = encode_all ts (b')' ∷ ret) in
    rw (
      kind_open t ht,
      types_item_lem t tail ht,
      skip_types (rest_of t) tail,
      arg_types_loop_lem ts ret hts,
    )

return_type_loop_lem :
    (d : List ℕ) (args : List FieldType) (ret : List ℕ)
    → all_well_formed args ≡ true
    → return_type_loop d 0 (encode_all args (b')' ∷ ret)) ≡ ok (first ret)
unfolding return_type_loop
return_type_loop_lem d [] ret h = refl
return_type_loop_lem d (t ∷ ts) ret h =
    let (ht, hts) = and-true _ _ h in
    let tail = encode_all ts (b')' ∷ ret) in
    rw (
      kind_open t ht,
      return_item_lem t tail ht,
      skip_return d (rest_of t) tail,
      return_type_loop_lem d ts ret hts,
    )

-- From a descriptor of well-formed argument types, the parsers read the first byte of each argument
-- and the first byte of the return type.
pub parse-method_descriptor :
    (args : List FieldType) (ret : List ℕ)
    → all_well_formed args ≡ true
    → (parse_arg_types (method_descriptor args ret) ≡ some (map kind args))
      × (parse_return_type (method_descriptor args ret) ≡ ok (first ret))
unfolding parse_arg_types parse_return_type
parse-method_descriptor args ret h =
    (arg_types_loop_lem args ret h, return_type_loop_lem _ args ret h)
