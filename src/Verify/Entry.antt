-- ===== src/Verify/Entry.antt =====
-- src/vm/verify.rs: `initial_frame`, the state at the first instruction.
use Prim.Native.String.{◌++◌ as ◌^^◌}
use text.Mathlib.Text.{◌==◌ as str_eq}
use jvm_rs.Prelude.{
  ℕ, ◌+◌, ◌/◌, ◌%◌, Bool, Option, none, some, List, [], ◌∷◌, leb, ◌==◌, if◌then◌else◌, length, set,
  replicate,
}
use jvm_rs.Types.Value.{Result, ok, err, verification_error, Value}
use jvm_rs.Types.Method.{Method}
use jvm_rs.Types.Fallible.{◌>>=◌, as_bytes, decimal}
use jvm_rs.Verify.Types.{
  VerifyType, top, reference, uninitialized_this, FrameState, is_wide_verify_type,
}
use jvm_rs.Verify.Descriptors.{parse_method_descriptor}
use jvm_rs.Verify.Arms.{verify_type_from_value}

-- `access_flags & 0x0008 == 0`
abbrev pub is_instance : Method → Bool
is_instance method = method.access_flags / 8 % 2 == 0

unfoldable pub this_type : Method → VerifyType
this_type method =
    if str_eq method.name "<init>"
    then uninitialized_this
    else reference (if str_eq method.class_name "" then none else some (as_bytes method.class_name))

abbrev pub too_few_locals : {A : Type 0} → Result A
too_few_locals = err (verification_error 0 "descriptor requires more locals than max_locals")

-- The loop over the parameters.
unfoldable pub place_params : List VerifyType → ℕ → List VerifyType → Result (List VerifyType)
place_params [] index locals = ok locals
place_params (ty ∷ params) index locals =
    let wide = place_params params (index + 2) (set (set locals index ty) (index + 1) top) in
    let narrow = place_params params (index + 1) (set locals index ty) in
    if leb (length locals) index
    then too_few_locals
    else if is_wide_verify_type ty
    then (if leb (length locals) (index + 1) then too_few_locals else wide)
    else narrow

abbrev pub place_value : ℕ → Option Value → List VerifyType → List VerifyType
place_value index none locals = locals
place_value index (some value) locals = set locals index (verify_type_from_value value)

-- The loop over the initial values of the locals.
unfoldable pub place_values : List (Option Value) → ℕ → List VerifyType → Result (List VerifyType)
place_values [] index locals = ok locals
place_values (value ∷ values) index locals =
    let rest = place_values values (index + 1) (place_value index value locals) in
    if leb (length locals) index
    then err (
        verification_error 0
          ("initial local " ^^ decimal index ^^ " exceeds max_locals " ^^ decimal (length locals)))
    else rest

unfoldable pub initial_frame : Method → Result FrameState
unfolding this_type place_params place_values
initial_frame method =
    let locals = replicate method.max_locals top in
    do
      descriptor ← parse_method_descriptor (as_bytes method.descriptor)
      placed ←
          (if is_instance method
            then place_params descriptor.0 1 (set locals 0 (this_type method))
            else place_params descriptor.0 0 locals)
      valued ← place_values method.initial_locals 0 placed
      ok (record { locals = valued; stack = [] })
