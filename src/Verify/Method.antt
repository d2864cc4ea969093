-- ===== src/Verify/Method.antt =====
-- src/vm/verify.rs: `verify_method`, the data flow over the instructions. Its queue is first in, first
-- out. The loop takes fuel, one unit for an instruction that comes off the queue.
use jvm_rs.Prelude.{
  ℕ, zero, suc, ◌+◌, ◌*◌, Bool, true, false, ◌&&◌, Option, none, some, List, [], ◌∷◌, ◌++◌, String,
  ltb, leb, if◌then◌else◌, length, get_elem?, set, replicate,
}
use jvm_rs.Types.Value.{Result, ok, err, panic, verification_error}
use jvm_rs.Types.Method.{Method, ExceptionHandler}
use jvm_rs.Types.Action.{ok_or}
use jvm_rs.Types.Fallible.{◌>>=◌, ◌>>◌, as_bytes}
use jvm_rs.Opcode.{Opcode}
use jvm_rs.Verify.Types.{VerifyType, reference, FrameState}
use jvm_rs.Verify.Merge.{merge_state, max}
use jvm_rs.Verify.Instruction.{DecodedInstruction}
use jvm_rs.Verify.Arms.{ret_target}
use jvm_rs.Verify.Apply.{apply_instruction}
use jvm_rs.Verify.Scan.{scan_method, instruction_at, validate_exception_handlers}
use jvm_rs.Verify.Entry.{initial_frame}
use jvm_rs.Verify.StackMap.{validate_stack_map_frames}

abbrev pub States : Type 0
States = List (Option FrameState)

pub record Search : Type 0 where
  pub states : States
  pub queue : List ℕ

unfoldable pub has_fallthrough : Opcode → Bool
has_fallthrough Opcode.goto = false
has_fallthrough Opcode.jsr = false
has_fallthrough Opcode.goto_w = false
has_fallthrough Opcode.jsr_w = false
has_fallthrough Opcode.tableswitch = false
has_fallthrough Opcode.lookupswitch = false
has_fallthrough Opcode.ret = false
has_fallthrough Opcode.ireturn = false
has_fallthrough Opcode.lreturn = false
has_fallthrough Opcode.freturn = false
has_fallthrough Opcode.dreturn = false
has_fallthrough Opcode.areturn = false
has_fallthrough Opcode.return = false
has_fallthrough Opcode.athrow = false
has_fallthrough _ = true

-- The merge into `states[target]`, which panics past the end; a target that has changed is queued.
unfoldable pub merge_into : ℕ → FrameState → Search → Result Search
merge_into target incoming s = elim (get_elem? s.states target) [
  | none ↦ panic
  | some slot ↦ merge_state slot incoming target >>= λ m. ok (record {
    states = set s.states target (some m.0);
    queue = if m.1 then s.queue ++ target ∷ [] else s.queue;
  })
]

-- What flows from an instruction, in order: a target, and the state there.
abbrev pub Flow : Type 0
Flow = ℕ × FrameState

unfoldable pub merge_all : List Flow → Search → Result Search
unfolding merge_into
merge_all [] s = ok s
merge_all (flow ∷ flows) s = merge_into flow.0 flow.1 s >>= merge_all flows

unfoldable pub catch_type : Option String → VerifyType
catch_type (some name) = reference (some (as_bytes name))
catch_type none = reference (some (as_bytes "java/lang/Throwable"))

-- The handlers that cover the instruction get its locals and the exception.
unfoldable pub handler_flows : ℕ → FrameState → List ExceptionHandler → List Flow
unfolding catch_type
handler_flows pc state [] = []
handler_flows pc state (h ∷ handlers) =
    let rest = handler_flows pc state handlers in
    if leb h.start_pc pc && ltb pc h.end_pc
    then (h.handler_pc, record { locals = state.locals; stack = catch_type h.catch_class ∷ [] })
      ∷ rest
    else rest

unfoldable pub target_flows : FrameState → List ℕ → List Flow
target_flows after [] = []
target_flows after (target ∷ targets) = (target, after) ∷ target_flows after targets

unfoldable pub is_ret : Opcode → Bool
is_ret Opcode.ret = true
is_ret _ = false

unfoldable pub fallthrough_flows : DecodedInstruction → FrameState → List Flow
unfolding has_fallthrough
fallthrough_flows insn after =
    if has_fallthrough insn.opcode then (insn.next_pc, after) ∷ [] else []

unfoldable pub ret_flows : DecodedInstruction → FrameState → Result (List Flow)
unfolding is_ret
ret_flows insn after =
    if is_ret insn.opcode
    then (ret_target after insn >>= λ target. ok ((target, after) ∷ []))
    else ok []

-- The state after the instruction, out of a run of `apply_instruction`.
abbrev pub after_of : Result (Unit {0}) × FrameState → Result FrameState
after_of (ok _, after) = ok after
after_of (err e, after) = err e
after_of (panic, after) = panic

-- One round, with the state at the instruction.
unfoldable pub visit : Method → List DecodedInstruction → ℕ → FrameState → Search → Result Search
unfolding merge_all handler_flows fallthrough_flows ret_flows target_flows
visit method decoded pc state s = do
  insn ← ok_or (instruction_at pc decoded) (verification_error pc "missing decoded instruction")
  after ← after_of (apply_instruction method insn state)
  s1 ← merge_all (handler_flows pc state method.exception_handlers) s
  s2 ← merge_all (fallthrough_flows insn after) s1
  rets ← ret_flows insn after
  s3 ← merge_all rets s2
  merge_all (target_flows after insn.branch_targets) s3

-- The instruction at the head of the queue, which is taken off it.
unfoldable pub round : Method → List DecodedInstruction → ℕ → Search → Result Search
unfolding visit
round method decoded pc s = elim (get_elem? s.states pc) [
  | none ↦ panic
  | some none ↦ ok s
  | some (some state) ↦ visit method decoded pc state s
]

unfoldable pub flow_loop : ℕ → Method → List DecodedInstruction → Search → Option (Result States)
unfolding round
flow_loop zero method decoded s = none
flow_loop (suc fuel) method decoded s = elim s.queue [
  | [] ↦ some (ok s.states)
  | pc ∷ queue ↦ elim (round method decoded pc (record s { queue = queue })) [
    | ok s' ↦ flow_loop fuel method decoded s'
    | err e ↦ some (err e)
    | panic ↦ some panic
  ]
]

-- A state has changed at most so often when it is reached: a type falls at most three times.
abbrev pub flow_fuel : Method → ℕ
flow_fuel method =
    suc (suc (length method.code * suc (3 * (method.max_locals + max method.max_stack 1))))

-- The search before its first round.
unfoldable pub start : Method → FrameState → Search
start method entry = record {
  states = set (replicate (length method.code) none) 0 (some entry);
  queue = 0 ∷ [];
}

unfoldable pub finish : Method → Option (Result States) → Option (Result (Unit {0}))
finish method none = none
finish method (some states) = some (states >>= validate_stack_map_frames method)

unfoldable pub verify_decoded :
    Method → Result (List DecodedInstruction) → Option (Result (Unit {0}))
unfolding flow_loop start finish
verify_decoded method (err e) = some (err e)
verify_decoded method panic = some panic
verify_decoded method (ok decoded) =
    elim (validate_exception_handlers (length method.code) decoded method.exception_handlers
      >> initial_frame method) [
        | err e ↦ some (err e)
        | panic ↦ some panic
        | ok entry ↦
            finish method (flow_loop (flow_fuel method) method decoded (start method entry))
      ]

unfoldable pub verify_code : Method → Option (Result (Unit {0}))
unfolding verify_decoded
verify_code method = elim (scan_method method) [
  | none ↦ none
  | some scanned ↦ verify_decoded method scanned
]

-- `none` if a loop does not end within its fuel.
unfoldable pub verify_method : Method → Option (Result (Unit {0}))
unfolding verify_code
verify_method method = elim method.code [ [] ↦ some (ok tt) | byte ∷ code ↦ verify_code method ]
