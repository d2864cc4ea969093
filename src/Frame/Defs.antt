-- ===== src/Frame/Defs.antt =====
-- src/vm/frame.rs: `Frame` and its operations. A `&mut self` method returns the new frame beside its
-- result. The operand stack lists its top first; `pc` and the indices are `usize` within a vector.

use jvm_rs.Prelude.{
  ℕ, ◌+◌, ◌%◌, true, Option, none, List, [], ◌∷◌, String, leb, ◌==◌, if◌then◌else◌, length, set,
  replicate,
}
use jvm_rs.Prelude.Int.{u32_mod}
use jvm_rs.Types.Value.{Value}
use jvm_rs.Types.Method.{
  Method, FieldRef, MethodRef, ExceptionHandler, InvokeDynamicSite, CondySite, ResolvedMethod,
}

-- `HashMap<usize, u32>` of counters
abbrev pub Counts : Type 0
Counts = List (ℕ × ℕ)

pub record Frame : Type 0 where
  pub class_name : String
  pub method_name : String
  pub descriptor : String
  pub code : List ℕ
  pub pc : ℕ
  pub locals : List (Option Value)
  pub stack : List Value
  pub max_stack : ℕ
  pub constants : List (Option Value)
  pub reference_classes : List (Option String)
  pub field_refs : List (Option FieldRef)
  pub method_refs : List (Option MethodRef)
  pub exception_handlers : List ExceptionHandler
  pub line_numbers : List (ℕ × ℕ)
  pub invoke_dynamic_sites : List (Option InvokeDynamicSite)
  pub condy_sites : List (Option CondySite)
  pub invoke_cache : List (Option ResolvedMethod)
  pub call_counts : Counts
  pub backedge_counts : Counts
  pub invocation_count : ℕ
  pub backedge_hit_count : ℕ

-- The loop of `new` that seeds the locals: it stops at the first index past them.
unfoldable pub seed_locals : List (Option Value) → ℕ → List (Option Value) → List (Option Value)
seed_locals [] index locals = locals
seed_locals (value ∷ values) index locals =
    let rest = seed_locals values (index + 1) (set locals index value) in
    if leb (length locals) index then locals else rest

unfoldable pub new : Method → Frame
new m = record {
  class_name = m.class_name;
  method_name = m.name;
  descriptor = m.descriptor;
  code = m.code;
  pc = 0;
  locals = seed_locals m.initial_locals 0 (replicate m.max_locals none);
  stack = [];
  max_stack = m.max_stack;
  constants = m.constants;
  reference_classes = m.reference_classes;
  field_refs = m.field_refs;
  method_refs = m.method_refs;
  exception_handlers = m.exception_handlers;
  line_numbers = m.line_numbers;
  invoke_dynamic_sites = m.invoke_dynamic_sites;
  condy_sites = m.condy_sites;
  invoke_cache = replicate (length m.method_refs) none;
  call_counts = [];
  backedge_counts = [];
  invocation_count = 0;
  backedge_hit_count = 0;
}

unfoldable pub to_method : Frame → Method
to_method f = record {
  class_name = f.class_name;
  name = f.method_name;
  descriptor = f.descriptor;
  access_flags = 0;
  code = f.code;
  max_locals = length f.locals;
  max_stack = f.max_stack;
  constants = f.constants;
  reference_classes = f.reference_classes;
  field_refs = f.field_refs;
  method_refs = f.method_refs;
  exception_handlers = f.exception_handlers;
  line_numbers = f.line_numbers;
  stack_map_frames = [];
  invoke_dynamic_sites = f.invoke_dynamic_sites;
  condy_sites = f.condy_sites;
  initial_locals = [];
  code_parsed = true;
}

-- `n += 1` on a `u32`
abbrev inc_u32 : ℕ → ℕ
inc_u32 n = (n + 1) % u32_mod

-- `map.get(&k).unwrap_or(0)`
unfoldable pub count_of : ℕ → Counts → ℕ
count_of k [] = 0
count_of k ((j, n) ∷ counts) = if j == k then n else count_of k counts

-- `*map.entry(k).or_insert(0) += 1`
unfoldable pub increment_entry : ℕ → Counts → Counts
increment_entry k [] = (k, 1) ∷ []
increment_entry k ((j, n) ∷ counts) =
    if j == k then (j, inc_u32 n) ∷ counts else (j, n) ∷ increment_entry k counts

unfoldable pub increment_invocation_count : Frame → Frame
increment_invocation_count f = record f { invocation_count = inc_u32 f.invocation_count }

unfoldable pub increment_backedge_count : ℕ → Frame → Frame
increment_backedge_count pc f = record f {
  backedge_hit_count = inc_u32 f.backedge_hit_count;
  backedge_counts = increment_entry pc f.backedge_counts;
}

unfoldable pub increment_call_count : ℕ → Frame → Frame
increment_call_count cp_index f = record f { call_counts = increment_entry cp_index f.call_counts }
