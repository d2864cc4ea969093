-- ===== src/Types/Descriptor/Tests.antt =====
-- Descriptors of concrete methods.
use jvm_rs.Prelude.{some, List, [], ◌∷◌, ◌≡◌, refl}
use jvm_rs.Prelude.Int.{pos}
use jvm_rs.Types.Value.{Value, ok, err, invalid_descriptor}
use jvm_rs.Types.Descriptor.{
  types_primitive, types_item, count_primitive, count_item, arg_types_loop, arg_count_loop,
  parse_arg_types, parse_arg_count, parse_return_type, default_value, default_value_for_descriptor,
  stub_return_value,
}
use jvm_rs.Types.Descriptor.Parsing.{
  FieldType, primitive, class, array, method_descriptor, parse-method_descriptor,
}
use jvm_rs.Types.Descriptor.Counting.{parse_arg_count-parse_arg_types}
use jvm_rs.Types.Descriptor.Stub.{stub_return_value-method_descriptor, stub_return_value-paren}

-- `int`, `Obj` and `long[][]`
abbrev args : List FieldType
args = primitive b'I' ∷ class (b'O' ∷ b'b' ∷ b'j' ∷ []) ∷ array (array (primitive b'J')) ∷ []

-- `(IJ`, which has no end
open_text : parse_arg_count (b'(' ∷ b'I' ∷ b'J' ∷ []) ≡ ok 2
unfolding parse_arg_count arg_count_loop count_item count_primitive
open_text = refl

parse-method_descriptor_example :
    (parse_arg_types (method_descriptor args (b'D' ∷ [])) ≡ some (b'I' ∷ b'L' ∷ b'[' ∷ []))
    × (parse_return_type (method_descriptor args (b'D' ∷ [])) ≡ ok (some b'D'))
parse-method_descriptor_example = parse-method_descriptor args (b'D' ∷ []) refl

parse_arg_count-parse_arg_types_example :
    parse_arg_count (b'(' ∷ b'I' ∷ b'Q' ∷ []) ≡ err (invalid_descriptor (b'(' ∷ b'I' ∷ b'Q' ∷ []))
unfolding parse_arg_types arg_types_loop types_item types_primitive
parse_arg_count-parse_arg_types_example = parse_arg_count-parse_arg_types (b'(' ∷ b'I' ∷ b'Q' ∷ [])

stub_return_value-method_descriptor_example :
    stub_return_value (method_descriptor args (b'J' ∷ [])) ≡ some (Value.long (pos 0))
unfolding default_value_for_descriptor default_value
stub_return_value-method_descriptor_example =
    stub_return_value-method_descriptor args (b'J' ∷ []) refl refl

-- `(LA)J;)V`
stub_return_value-paren_example :
    (parse_return_type (method_descriptor (class (b'A' ∷ b')' ∷ b'J' ∷ []) ∷ []) (b'V' ∷ []))
      ≡ ok (some b'V'))
    × (stub_return_value (method_descriptor (class (b'A' ∷ b')' ∷ b'J' ∷ []) ∷ []) (b'V' ∷ []))
        ≡ some (Value.long (pos 0)))
unfolding default_value_for_descriptor default_value
stub_return_value-paren_example = stub_return_value-paren (b'A' ∷ []) [] (b'V' ∷ []) b'J' refl refl
