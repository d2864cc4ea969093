-- ===== src/Types/Method.antt =====
-- src/vm/types.rs (and the stack map frames of src/classfile.rs): methods, constant-pool projections and class methods.
use jvm_rs.Prelude.{ℕ, String, Bool, Option, List}
use jvm_rs.Prelude.Int.{ℤ}
use jvm_rs.Types.Value.{Value}

-- src/classfile.rs: the verifier's view of a stack map frame.
pub data VerificationTypeInfo : Type 0 where
  top integer float double long null uninitialized_this : VerificationTypeInfo
  object uninitialized : ℕ → VerificationTypeInfo

pub data StackMapFrameKind : Type 0 where
  same same_locals1_stack_item same_extended full : StackMapFrameKind
  chop append : ℕ → StackMapFrameKind

pub record StackMapFrame : Type 0 where
  pub kind : StackMapFrameKind
  pub offset_delta : ℕ
  pub locals : List VerificationTypeInfo
  pub stack : List VerificationTypeInfo

mutual
  pub data BootstrapArgument : Type 0 where
    int_arg : ℤ → BootstrapArgument
    long_arg : ℤ → BootstrapArgument
    float_arg : ℕ → BootstrapArgument
    double_arg : ℕ → BootstrapArgument
    string_arg : String → BootstrapArgument
    class_arg : String → BootstrapArgument
    method_type : String → BootstrapArgument
    method_handle :
        (reference_kind : ℕ)
        → (target_class target_method target_descriptor : String) → BootstrapArgument
    dynamic :
        (name descriptor bootstrap_class bootstrap_name bootstrap_descriptor : String)
        → (arguments : BootstrapArguments) → BootstrapArgument

  -- `Vec<BootstrapArgument>`
  pub data BootstrapArguments : Type 0 where
    nil : BootstrapArguments
    cons : BootstrapArgument → BootstrapArguments → BootstrapArguments

pub record CondySite : Type 0 where
  pub owner_class : String
  pub constant_pool_index : ℕ
  pub name : String
  pub descriptor : String
  pub bootstrap_method_index : ℕ
  pub bootstrap_class : String
  pub bootstrap_name : String
  pub bootstrap_descriptor : String
  pub arguments : BootstrapArguments

pub data InvokeDynamicKind : Type 0 where
  unknown : InvokeDynamicKind
  lambda_proxy : (target_class target_method target_descriptor : String) → InvokeDynamicKind
  string_concat : (recipe : Option String) → (constants : List String) → InvokeDynamicKind
  bootstrap_method_handle :
      (bootstrap_class bootstrap_name bootstrap_descriptor : String)
      → (arguments : BootstrapArguments) → InvokeDynamicKind

pub record InvokeDynamicSite : Type 0 where
  pub owner_class : String
  pub constant_pool_index : ℕ
  pub name : String
  pub descriptor : String
  pub bootstrap_method_index : ℕ
  pub kind : InvokeDynamicKind

-- An entry of a method's exception table; no class catches everything.
pub record ExceptionHandler : Type 0 where
  pub start_pc : ℕ
  pub end_pc : ℕ
  pub handler_pc : ℕ
  pub catch_class : Option String

pub record FieldRef : Type 0 where
  pub class_name : String
  pub field_name : String
  pub descriptor : String

pub record MethodRef : Type 0 where
  pub class_name : String
  pub method_name : String
  pub descriptor : String

pub record Method : Type 0 where
  pub class_name : String
  pub name : String
  pub descriptor : String
  pub access_flags : ℕ
  pub code : List ℕ
  pub max_locals : ℕ
  pub max_stack : ℕ
  pub constants : List (Option Value)
  pub reference_classes : List (Option String)
  pub field_refs : List (Option FieldRef)
  pub method_refs : List (Option MethodRef)
  pub exception_handlers : List ExceptionHandler
  pub line_numbers : List (ℕ × ℕ)
  pub stack_map_frames : List StackMapFrame
  pub invoke_dynamic_sites : List (Option InvokeDynamicSite)
  pub condy_sites : List (Option CondySite)
  pub initial_locals : List (Option Value)
  pub code_parsed : Bool

pub data ClassMethod : Type 0 where
  bytecode : Method → ClassMethod
  native : ClassMethod

pub record ResolvedMethod : Type 0 where
  pub resolved_class : String
  pub class_method : ClassMethod
