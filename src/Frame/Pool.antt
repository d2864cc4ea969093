-- ===== src/Frame/Pool.antt =====
-- src/vm/frame.rs: the constant-pool projections and the inline cache of a frame.
use text.Mathlib.Text.{◌==◌ as str_eq}
use jvm_rs.Prelude.{ℕ, ◌-◌, Option, none, some, String, if◌then◌else◌, length, get_some, set}
use jvm_rs.Types.Value.{
  Value, Result, invalid_constant_index, invalid_class_constant_index, invalid_field_ref_index,
  invalid_method_ref_index,
}
use jvm_rs.Types.Method.{FieldRef, MethodRef, ClassMethod}
use jvm_rs.Frame.Defs.{Frame}
use jvm_rs.Types.Action.{ok_or}

unfoldable pub load_constant : ℕ → Frame → Result Value
load_constant index f =
    ok_or (get_some f.constants index) (invalid_constant_index index (length f.constants - 1))

unfoldable pub load_reference_class : ℕ → Frame → Result String
load_reference_class index f =
    ok_or (get_some f.reference_classes index)
      (invalid_class_constant_index index (length f.reference_classes - 1))

unfoldable pub load_field_ref : ℕ → Frame → Result FieldRef
load_field_ref index f =
    ok_or (get_some f.field_refs index) (invalid_field_ref_index index (length f.field_refs - 1))

unfoldable pub load_method_ref : ℕ → Frame → Result MethodRef
load_method_ref index f =
    ok_or (get_some f.method_refs index) (invalid_method_ref_index index (length f.method_refs - 1))

unfoldable pub get_cached_invoke : ℕ → String → Frame → Option ClassMethod
get_cached_invoke index receiver_class f = elim (get_some f.invoke_cache index) [
  | none ↦ none
  | some cached ↦
      if str_eq cached.resolved_class receiver_class then some cached.class_method else none
]

unfoldable pub cache_invoke : ℕ → String → ClassMethod → Frame → Frame
cache_invoke index resolved class_method f = record f {
  invoke_cache =
      set f.invoke_cache index
        (some (record { resolved_class = resolved; class_method = class_method }));
}
