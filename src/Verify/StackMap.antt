-- ===== src/Verify/StackMap.antt =====
-- src/vm/verify.rs: `validate_stack_map_frames`, the comparison with the `StackMapTable`.
use Prim.Native.String.{◌++◌ as ◌^^◌}
use jvm_rs.Prelude.{
  ℕ, zero, suc, ◌+◌, ◌-◌, Bool, true, false, ◌&&◌, Option, none, some, List, [], ◌∷◌, ◌++◌, String,
  leb, ◌==◌, if◌then◌else◌, length, get_elem?, reverse,
}
use jvm_rs.Types.Value.{Result, ok, err, verification_error}
use jvm_rs.Types.Method.{
  Method, StackMapFrame, StackMapFrameKind, VerificationTypeInfo, same, same_locals1_stack_item,
  same_extended, full, chop, append,
}
use jvm_rs.Types.Action.{ok_or}
use jvm_rs.Types.Fallible.{◌>>=◌, ◌>>◌, as_bytes, decimal}
use jvm_rs.Verify.Types.{
  VerifyType, top, int, float, long, double, null, reference, uninitialized_this, uninitialized,
  FrameState, eq_type, type_name, type_compatible, is_wide_verify_type,
}
use jvm_rs.Verify.Descriptors.{parse_method_descriptor}
use jvm_rs.Verify.Entry.{is_instance, this_type}

-- `v.get(i).and_then(|x| x.clone())`
abbrev pub class_of : Option (Option String) → Option String
class_of (some name) = name
class_of none = none

unfoldable pub stack_map_type : Method → VerificationTypeInfo → Result VerifyType
stack_map_type method VerificationTypeInfo.top = ok top
stack_map_type method VerificationTypeInfo.integer = ok int
stack_map_type method VerificationTypeInfo.float = ok float
stack_map_type method VerificationTypeInfo.double = ok double
stack_map_type method VerificationTypeInfo.long = ok long
stack_map_type method VerificationTypeInfo.null = ok null
stack_map_type method VerificationTypeInfo.uninitialized_this = ok uninitialized_this
stack_map_type method (VerificationTypeInfo.object index) =
    ok_or (class_of (get_elem? method.reference_classes index))
      (verification_error 0 ("invalid StackMapTable class index " ^^ decimal index))
    >>= λ class. ok (reference (some (as_bytes class)))
stack_map_type method (VerificationTypeInfo.uninitialized offset) = ok (uninitialized offset)

unfoldable pub stack_map_types : Method → List VerificationTypeInfo → Result (List VerifyType)
unfolding stack_map_type
stack_map_types method [] = ok []
stack_map_types method (info ∷ infos) = do
  ty ← stack_map_type method info
  tys ← stack_map_types method infos
  ok (ty ∷ tys)

unfoldable pub expand_stack_map_locals : List VerifyType → List VerifyType
expand_stack_map_locals [] = []
expand_stack_map_locals (ty ∷ locals) =
    let rest = expand_stack_map_locals locals in
    if is_wide_verify_type ty then ty ∷ top ∷ rest else ty ∷ rest

unfoldable pub initial_stack_map_locals : Method → Result (List VerifyType)
initial_stack_map_locals method =
    parse_method_descriptor (as_bytes method.descriptor) >>= λ descriptor.
    ok (if is_instance method then this_type method ∷ descriptor.0 else descriptor.0)

abbrev pub follows_wide : List VerifyType → Bool
follows_wide [] = false
follows_wide (ty ∷ tys) = is_wide_verify_type ty

-- The loop of `truncate_stack_map_locals`, from the last local on.
unfoldable pub truncate_from : ℕ → List VerifyType → List VerifyType
truncate_from remaining [] = []
truncate_from remaining (ty ∷ before) = elim (eq_type ty top && follows_wide before) [
  | true ↦ truncate_from remaining before
  | false ↦ elim remaining [ zero ↦ ty ∷ truncate_from 0 before | suc n ↦ truncate_from n before ]
]

unfoldable pub truncate_stack_map_locals : List VerifyType → ℕ → List VerifyType
unfolding truncate_from
truncate_stack_map_locals locals count = reverse (truncate_from count (reverse locals))

-- `&parsed[split_at..]`
unfoldable pub drop : ℕ → List VerifyType → List VerifyType
drop zero tys = tys
drop (suc n) [] = []
drop (suc n) (ty ∷ tys) = drop n tys

unfoldable pub normalize_stack_map_locals :
    StackMapFrameKind → List VerifyType → List VerifyType → List VerifyType
unfolding truncate_stack_map_locals drop
normalize_stack_map_locals same previous parsed = previous
normalize_stack_map_locals same_locals1_stack_item previous parsed = previous
normalize_stack_map_locals same_extended previous parsed = previous
normalize_stack_map_locals (append n) previous parsed = previous ++ drop (length parsed - n) parsed
normalize_stack_map_locals (chop n) previous parsed = truncate_stack_map_locals previous n
normalize_stack_map_locals full previous parsed = parsed

-- The types up to the last that is not `Top`.
unfoldable pub trimmed : List VerifyType → List VerifyType
trimmed [] = []
trimmed (ty ∷ tys) = elim (trimmed tys) [
  | [] ↦ if eq_type ty top then [] else ty ∷ []
  | u ∷ us ↦ ty ∷ u ∷ us
]

-- The loop over the pairs of types from the index on.
unfoldable pub compare_types :
    ℕ → String → ℕ → List VerifyType → List VerifyType → Result (Unit {0})
compare_types pc what i [] expected = ok tt
compare_types pc what i (a ∷ actual) [] = ok tt
compare_types pc what i (a ∷ actual) (e ∷ expected) =
    let rest = compare_types pc what (i + 1) actual expected in
    if type_compatible a e
    then rest
    else err (
        verification_error pc (
          "StackMapTable "
          ^^ what
          ^^ "["
          ^^ decimal i
          ^^ "] mismatch: expected "
          ^^ type_name e
          ^^ ", got "
          ^^ type_name a))

-- Of locals there may be more than expected.
unfoldable pub compare_stack_map :
    ℕ → Bool → String → List VerifyType → List VerifyType → Result (Unit {0})
unfolding trimmed compare_types
compare_stack_map pc is_locals what actual expected =
    let a = trimmed actual in
    let e = trimmed expected in
    if is_locals && leb (length e) (length a)
    then compare_types pc what 0 a e
    else if length a == length e
    then compare_types pc what 0 a e
    else err (
        verification_error pc (
          "StackMapTable "
          ^^ what
          ^^ " length mismatch: expected "
          ^^ decimal (length e)
          ^^ ", got "
          ^^ decimal (length a)))

-- `states.get(pc).and_then(|s| s.as_ref())`
abbrev pub state_of : Option (Option FrameState) → Option FrameState
state_of (some state) = state
state_of none = none

abbrev pub frame_pc : Option ℕ → ℕ → ℕ
frame_pc none offset_delta = offset_delta
frame_pc (some previous) offset_delta = previous + offset_delta + 1

-- The loop over the frames, with the address and the locals of the frame before.
unfoldable pub validate_frames :
    Method
    → List (Option FrameState)
    → Option ℕ
    → List VerifyType
    → List StackMapFrame
    → Result (Unit {0})
unfolding stack_map_types normalize_stack_map_locals expand_stack_map_locals compare_stack_map
validate_frames method states previous locals [] = ok tt
validate_frames method states previous locals (frame ∷ frames) =
    let pc = frame_pc previous frame.offset_delta in
    do
      state ←
          ok_or (state_of (get_elem? states pc))
            (verification_error pc "StackMapTable frame points to unreachable or invalid code")
      parsed_locals ← stack_map_types method frame.locals
      expected_stack ← stack_map_types method frame.stack
      compare_stack_map pc true "locals" state.locals
          (expand_stack_map_locals (normalize_stack_map_locals frame.kind locals parsed_locals))
      compare_stack_map pc false "stack" (reverse state.stack) expected_stack
      validate_frames method states (some pc)
          (normalize_stack_map_locals frame.kind locals parsed_locals) frames

unfoldable pub validate_stack_map_frames : Method → List (Option FrameState) → Result (Unit {0})
unfolding initial_stack_map_locals validate_frames
validate_stack_map_frames method states = elim method.stack_map_frames [
  | [] ↦ ok tt
  | frame ∷ frames ↦ initial_stack_map_locals method >>= λ locals.
      validate_frames method states none locals (frame ∷ frames)
]
