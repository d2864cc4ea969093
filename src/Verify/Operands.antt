-- ===== src/Verify/Operands.antt =====
-- src/vm/verify.rs: the arms of `decode_instruction`.
use jvm_rs.Prelude.{ℕ, zero, suc, ◌+◌, ◌-◌, ◌%◌, some, List, [], ◌∷◌, length}
use jvm_rs.Prelude.Int.{ℤ, pos, negsuc, ◌-ℤ◌}
use jvm_rs.Types.Value.{Result, ok, invalid_opcode}
use jvm_rs.Types.Action.{ok_or}
use jvm_rs.Types.Fallible.{◌>>=◌}
use jvm_rs.Opcode.{Opcode}
use jvm_rs.Opcode.FromByte.{from_byte}
use jvm_rs.Verify.Instruction.{
  DecodedInstruction, read_u8, read_i8, read_u16, read_i16, read_i32, branch_target,
}

abbrev pub Decode : Type 0
Decode = List ℕ → ℕ → DecodedInstruction → Result DecodedInstruction

unfoldable pub decode_byte : Decode
decode_byte code pc insn = do
  byte ← read_u8 code (pc + 1)
  ok (record insn { next_pc = pc + 2; atype = some byte })

unfoldable pub decode_short_index : Decode
decode_short_index code pc insn = do
  operand ← read_u8 code (pc + 1)
  ok (record insn { next_pc = pc + 2; cp_index = some operand })

unfoldable pub decode_local : Decode
decode_local code pc insn = do
  operand ← read_u8 code (pc + 1)
  ok (record insn { next_pc = pc + 2; local_index = some operand })

unfoldable pub fixed_local : ℕ → DecodedInstruction → Result DecodedInstruction
fixed_local index insn = ok (record insn { local_index = some index })

unfoldable pub decode_sipush : Decode
decode_sipush code pc insn = do
  index ← read_u16 code (pc + 1)
  ok (record insn { next_pc = pc + 3 })

-- A constant pool index, and the length of the instruction.
unfoldable pub decode_index : List ℕ → ℕ → ℕ → DecodedInstruction → Result DecodedInstruction
decode_index code pc size insn = do
  index ← read_u16 code (pc + 1)
  ok (record insn { next_pc = pc + size; cp_index = some index })

unfoldable pub decode_iinc : Decode
decode_iinc code pc insn = do
  index ← read_u8 code (pc + 1)
  delta ← read_i8 code (pc + 2)
  ok (record insn { next_pc = pc + 3; local_index = some index; iinc_delta = some delta })

unfoldable pub decode_branch : Decode
decode_branch code pc insn = do
  offset ← read_i16 code (pc + 1)
  target ← branch_target pc offset (length code)
  ok (record insn { next_pc = pc + 3; branch_targets = target ∷ [] })

unfoldable pub decode_wide_branch : Decode
decode_wide_branch code pc insn = do
  offset ← read_i32 code (pc + 1)
  target ← branch_target pc offset (length code)
  ok (record insn { next_pc = pc + 5; branch_targets = target ∷ [] })

unfoldable pub decode_ret : Decode
decode_ret code pc insn = do
  index ← read_u8 code (pc + 1)
  ok (record insn { next_pc = pc + 2; local_index = some index })

unfoldable pub decode_multianewarray : Decode
decode_multianewarray code pc insn = do
  index ← read_u16 code (pc + 1)
  count ← read_u8 code (pc + 3)
  ok (record insn { next_pc = pc + 4; cp_index = some index; dimensions = some count })

-- `pc + 1`, and on to the next multiple of four
abbrev pub aligned : ℕ → ℕ
aligned pc = pc + 1 + (4 - (pc + 1) % 4) % 4

-- `n` offsets one after the other, and the position after them
unfoldable pub read_offsets : List ℕ → ℕ → ℕ → ℕ → Result (List ℕ × ℕ)
read_offsets code pc zero at = ok ([], at)
read_offsets code pc (suc n) at = do
  offset ← read_i32 code at
  target ← branch_target pc offset (length code)
  rest ← read_offsets code pc n (at + 4)
  ok (target ∷ rest.0, rest.1)

-- `n` pairs of a key and an offset
unfoldable pub read_pairs : List ℕ → ℕ → ℕ → ℕ → Result (List ℕ × ℕ)
read_pairs code pc zero at = ok ([], at)
read_pairs code pc (suc n) at = do
  key ← read_i32 code at
  offset ← read_i32 code (at + 4)
  target ← branch_target pc offset (length code)
  rest ← read_pairs code pc n (at + 8)
  ok (target ∷ rest.0, rest.1)

-- The number of rounds of `for _ in low..=high`, by the difference of the two.
unfoldable pub rounds : ℤ → ℕ
rounds (pos n) = suc n
rounds (negsuc n) = 0

unfoldable pub decode_tableswitch : Decode
unfolding read_offsets rounds
decode_tableswitch code pc insn = do
  offset ← read_i32 code (aligned pc)
  low ← read_i32 code (aligned pc + 4)
  high ← read_i32 code (aligned pc + 8)
  default ← branch_target pc offset (length code)
  rest ← read_offsets code pc (rounds (high -ℤ low)) (aligned pc + 12)
  ok (record insn { next_pc = rest.1; branch_targets = default ∷ rest.0 })

-- `z as usize`
unfoldable pub to_usize : ℤ → ℕ
to_usize (pos n) = n
to_usize (negsuc n) = 0xffff_ffff_ffff_ffff - n

unfoldable pub decode_lookupswitch : Decode
unfolding read_pairs to_usize
decode_lookupswitch code pc insn = do
  offset ← read_i32 code (aligned pc)
  npairs ← read_i32 code (aligned pc + 4)
  default ← branch_target pc offset (length code)
  rest ← read_pairs code pc (to_usize npairs) (aligned pc + 8)
  ok (record insn { next_pc = rest.1; branch_targets = default ∷ rest.0 })

unfoldable pub widen : Opcode → Decode
widen Opcode.iinc code pc insn = do
  delta ← read_i16 code (pc + 4)
  ok (record insn { next_pc = pc + 6; iinc_delta = some delta })
widen inner code pc insn = ok insn

unfoldable pub decode_wide : Decode
unfolding widen
decode_wide code pc insn = do
  inner_byte ← read_u8 code (pc + 1)
  inner ← ok_or (from_byte inner_byte) (invalid_opcode inner_byte (pc + 1))
  index ← read_u16 code (pc + 2)
  widen inner code pc (record insn { opcode = inner; local_index = some index; next_pc = pc + 4 })
