-- ===== src/Types/Value.antt =====
-- src/vm/types.rs: `Value`, `Reference`, `VmError`, and the conversions from a value.
-- An `f32` or `f64` is its bit pattern, a number: the modelled code moves floats and never computes
-- with one. A `String` or `&str` is a text.
use jvm_rs.Prelude.{ℕ, String, List}
use jvm_rs.Prelude.Int.{ℤ}

pub data Reference : Type 0 where
  null : Reference
  heap : ℕ → Reference

pub data Value : Type 0 where
  int : ℤ → Value
  long : ℤ → Value
  float : ℕ → Value
  double : ℕ → Value
  reference : Reference → Value
  return_address : ℕ → Value

pub data VmError : Type 0 where
  stack_underflow : VmError
  stack_overflow : (max_stack : ℕ) → VmError
  invalid_local_index : (index max_locals : ℕ) → VmError
  uninitialized_local : (index : ℕ) → VmError
  invalid_opcode : (opcode pc : ℕ) → VmError
  unexpected_eof : (pc : ℕ) → VmError
  invalid_constant_index : (index constant_count : ℕ) → VmError
  invalid_class_constant_index : (index constant_count : ℕ) → VmError
  invalid_field_ref_index : (index constant_count : ℕ) → VmError
  invalid_method_ref_index : (index constant_count : ℕ) → VmError
  unsupported_new_array_type : (atype : ℕ) → VmError
  class_not_found : (class_name : String) → VmError
  field_not_found : (class_name field_name : String) → VmError
  method_not_found : (class_name method_name descriptor : String) → VmError
  unsupported_native_method : (class_name method_name descriptor : String) → VmError
  invalid_descriptor : (descriptor : List ℕ) → VmError
  class_cast_error : (from to : String) → VmError
  unhandled_exception : (class_name : String) → VmError
  type_mismatch : (expected actual : String) → VmError
  negative_array_size : (size : ℤ) → VmError
  null_reference : VmError
  invalid_heap_reference : (reference : ℕ) → VmError
  array_index_out_of_bounds : (index : ℤ) → (len : ℕ) → VmError
  invalid_heap_value : (expected actual : String) → VmError
  division_by_zero : VmError
  invalid_branch_target : (target : ℤ) → (code_len : ℕ) → VmError
  missing_return : VmError
  verification_error : (pc : ℕ) → (reason : String) → VmError

-- What a call does: it returns, it fails with an error, or it panics (an index out of range, an
-- `expect` on nothing).
pub data Result {ℓ} (A : Type ℓ) : Type ℓ where
  ok : A → Result A
  err : VmError → Result A
  panic : Result A

unfoldable pub type_name : Value → String
type_name (int _) = "int"
type_name (long _) = "long"
type_name (float _) = "float"
type_name (double _) = "double"
type_name (reference _) = "reference"
type_name (return_address _) = "returnAddress"

unfoldable pub as_int : Value → Result ℤ
as_int (int value) = ok value
as_int other = err (type_mismatch "int" (type_name other))

unfoldable pub as_long : Value → Result ℤ
as_long (long value) = ok value
as_long other = err (type_mismatch "long" (type_name other))

unfoldable pub as_float : Value → Result ℕ
as_float (float value) = ok value
as_float other = err (type_mismatch "float" (type_name other))

unfoldable pub as_double : Value → Result ℕ
as_double (double value) = ok value
as_double other = err (type_mismatch "double" (type_name other))

unfoldable pub as_reference : Value → Result Reference
as_reference (reference r) = ok r
as_reference other = err (type_mismatch "reference" (type_name other))

unfoldable pub as_return_address : Value → Result ℕ
as_return_address (return_address address) = ok address
as_return_address other = err (type_mismatch "returnAddress" (type_name other))
