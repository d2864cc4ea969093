-- ===== src/Verify/Types.antt =====
-- src/vm/verify.rs: the types of the verifier, their merge, and the state of a frame. The name of a
-- class is the list of its bytes. The operand stack lists its top first.
use Prim.Native.String.{◌++◌ as ◌^^◌}
use jvm_rs.Prelude.{
  ℕ, Bool, true, false, ◌&&◌, ◌||◌, Option, none, some, List, [], ◌∷◌, String, ◌==◌, if◌then◌else◌,
}

pub data VerifyType : Type 0 where
  top int float long double null : VerifyType
  return_address : ℕ → VerifyType
  reference : Option (List ℕ) → VerifyType
  uninitialized_this : VerifyType
  uninitialized : ℕ → VerifyType

pub record FrameState : Type 0 where
  pub locals : List VerifyType
  pub stack : List VerifyType

-- `==` on the bytes of two names, on two optional names, and on two types
unfoldable pub eq_bytes : List ℕ → List ℕ → Bool
eq_bytes [] [] = true
eq_bytes [] (b ∷ bs) = false
eq_bytes (a ∷ as') [] = false
eq_bytes (a ∷ as') (b ∷ bs) = a == b && eq_bytes as' bs

unfoldable pub eq_name : Option (List ℕ) → Option (List ℕ) → Bool
unfolding eq_bytes
eq_name none none = true
eq_name none (some b) = false
eq_name (some a) none = false
eq_name (some a) (some b) = eq_bytes a b

unfoldable pub eq_type : VerifyType → VerifyType → Bool
unfolding eq_name
eq_type top top = true
eq_type int int = true
eq_type float float = true
eq_type long long = true
eq_type double double = true
eq_type null null = true
eq_type (return_address a) (return_address b) = a == b
eq_type (reference a) (reference b) = eq_name a b
eq_type uninitialized_this uninitialized_this = true
eq_type (uninitialized a) (uninitialized b) = a == b
eq_type _ _ = false

unfoldable pub type_name : VerifyType → String
type_name top = "top"
type_name int = "int"
type_name float = "float"
type_name long = "long"
type_name double = "double"
type_name null = "null"
type_name (return_address _) = "returnAddress"
type_name (reference _) = "reference"
type_name uninitialized_this = "uninitializedThis"
type_name (uninitialized _) = "uninitialized"

-- A merge gives a type, or a text that says why there is none.
pub data Merged : Type 0 where
  merged : VerifyType → Merged
  failed : String → Merged

unfoldable pub is_top : VerifyType → Bool
is_top top = true
is_top _ = false

-- The arms of the match below the one for `top`.
unfoldable pub merge_references : VerifyType → VerifyType → Merged
unfolding type_name
merge_references null (reference name) = merged (reference name)
merge_references (reference name) null = merged (reference name)
merge_references (reference a) (reference b) = merged (reference none)
merge_references a b = failed ("incompatible types " ^^ type_name a ^^ " and " ^^ type_name b)

unfoldable pub merge_type : VerifyType → VerifyType → Merged
unfolding eq_type is_top merge_references
merge_type left right =
    if eq_type left right
    then merged left
    else if is_top left || is_top right
    then merged top
    else merge_references left right

unfoldable pub is_wide_verify_type : VerifyType → Bool
is_wide_verify_type long = true
is_wide_verify_type double = true
is_wide_verify_type _ = false

-- The pairs of types that are not equal and compatible.
unfoldable pub compatible_unequal : VerifyType → VerifyType → Bool
compatible_unequal null (reference _) = true
compatible_unequal (reference _) (reference _) = true
compatible_unequal uninitialized_this (reference _) = true
compatible_unequal (uninitialized _) (reference _) = true
compatible_unequal _ _ = false

unfoldable pub type_compatible : VerifyType → VerifyType → Bool
unfolding eq_type compatible_unequal
type_compatible actual expected =
    if eq_type actual expected then true else compatible_unequal actual expected
