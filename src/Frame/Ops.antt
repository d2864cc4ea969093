-- ===== src/Frame/Ops.antt =====
-- src/vm/frame.rs: reading the code, the operand stack, the locals and branches. A `&mut self` method returns the new frame beside its
-- result. The operand stack lists its top first; `pc` and the indices are `usize` within a vector.

use jvm_rs.Prelude.{
  ℕ, zero, suc, ◌+◌, ◌*◌, Bool, true, false, ◌&&◌, Option, none, some, List, [], ◌∷◌, ltb, leb,
  if◌then◌else◌, length, get_elem?, set,
}
use jvm_rs.Prelude.Int.{ℤ, pos, negsuc, ◌+ℤ◌, from_u16, from_u32}
use jvm_rs.Types.Value.{
  Value, Result, ok, err, unexpected_eof, stack_overflow, stack_underflow, invalid_local_index,
  uninitialized_local, invalid_branch_target,
}
use jvm_rs.Frame.Defs.{Frame}
use jvm_rs.Types.Action.{Action, pure, ok_or, ◌>>=◌}

-- The two ways that `read_u8` goes on, by what stands at the program counter.
abbrev pub fetched : Option ℕ → Action Frame ℕ
fetched none f = (err (unexpected_eof f.pc), f)
fetched (some byte) f = (ok byte, record f { pc = f.pc + 1 })

unfoldable pub read_u8 : Action Frame ℕ
read_u8 f = fetched (get_elem? f.code f.pc) f

-- `i16::from_be_bytes`, `i32::from_be_bytes`, `u16::from_be_bytes`
unfoldable pub u16_from_be : ℕ → ℕ → ℕ
u16_from_be high low = high * 0x100 + low

unfoldable pub u32_from_be : ℕ → ℕ → ℕ → ℕ → ℕ
u32_from_be b0 b1 b2 b3 = b0 * 0x100_0000 + b1 * 0x1_0000 + b2 * 0x100 + b3

unfoldable pub read_i16 : Action Frame ℤ
unfolding read_u8 u16_from_be
read_i16 = do high ← read_u8; low ← read_u8; pure (from_u16 (u16_from_be high low))

unfoldable pub read_i32 : Action Frame ℤ
unfolding read_u8 u32_from_be
read_i32 = do
  b0 ← read_u8
  b1 ← read_u8
  b2 ← read_u8
  b3 ← read_u8
  pure (from_u32 (u32_from_be b0 b1 b2 b3))

unfoldable pub read_u16 : Action Frame ℕ
unfolding read_u8 u16_from_be
read_u16 = do high ← read_u8; low ← read_u8; pure (u16_from_be high low)

unfoldable pub push : Value → Action Frame (Unit {0})
push value f =
    if leb f.max_stack (length f.stack)
    then (err (stack_overflow f.max_stack), f)
    else (ok tt, record f { stack = value ∷ f.stack })

unfoldable pub pop : Action Frame Value
pop f = elim f.stack [
  | [] ↦ (err stack_underflow, f)
  | value ∷ rest ↦ (ok value, record f { stack = rest })
]

unfoldable pub load_local : ℕ → Frame → Result Value
load_local index f = elim (get_elem? f.locals index) [
  | none ↦ err (invalid_local_index index (length f.locals))
  | some slot ↦ ok_or slot (uninitialized_local index)
]

-- `matches!(value, Value::Long(_) | Value::Double(_))`
unfoldable pub is_wide : Value → Bool
is_wide (Value.long _) = true
is_wide (Value.double _) = true
is_wide _ = false

unfoldable pub is_wide_slot : Option (Option Value) → Bool
unfolding is_wide
is_wide_slot (some (some v)) = is_wide v
is_wide_slot _ = false

-- The wide value whose second half is about to be overwritten.
unfoldable pub clear_wide_below : ℕ → List (Option Value) → List (Option Value)
unfolding is_wide_slot
clear_wide_below zero locals = locals
clear_wide_below (suc i) locals =
    if is_wide_slot (get_elem? locals i) then set locals i none else locals

-- The second half of the wide value that is about to be overwritten.
unfoldable pub clear_wide_above : ℕ → List (Option Value) → List (Option Value)
unfolding is_wide_slot
clear_wide_above index locals =
    if is_wide_slot (get_elem? locals index) && ltb (index + 1) (length locals)
    then set locals (index + 1) none
    else locals

-- The slots once the value is written over the slot at the index.
unfoldable pub stored : ℕ → Value → List (Option Value) → List (Option Value)
unfolding clear_wide_below clear_wide_above
stored index value locals =
    set (clear_wide_above index (clear_wide_below index locals)) index (some value)

unfoldable pub store_local : ℕ → Value → Action Frame (Unit {0})
unfolding is_wide
store_local index value f =
    let max_locals = length f.locals in
    let locals' = stored index value f.locals in
    if leb max_locals index
    then (err (invalid_local_index index max_locals), f)
    else if is_wide value
    then (if leb max_locals (index + 1)
        then (err (invalid_local_index (index + 1) max_locals), record f { locals = locals' })
        else (ok tt, record f { locals = set locals' (index + 1) none }))
    else (ok tt, record f { locals = locals' })

-- `self.pc = target`, if the target is one of `0..=code.len()`
unfoldable pub branched : ℤ → Action Frame (Unit {0})
branched (negsuc n) f = (err (invalid_branch_target (negsuc n) (length f.code)), f)
branched (pos target) f =
    if leb target (length f.code)
    then (ok tt, record f { pc = target })
    else (err (invalid_branch_target (pos target) (length f.code)), f)

unfoldable pub branch : ℕ → ℤ → Action Frame (Unit {0})
unfolding branched
branch opcode_pc offset f = branched (pos opcode_pc +ℤ offset) f
