-- ===== src/Verify/Instruction.antt =====
-- src/vm/verify.rs: `DecodedInstruction`, and the reading of operands from the code.
use jvm_rs.Prelude.{ℕ, ◌+◌, Option, List, leb, if◌then◌else◌, get_elem?}
use jvm_rs.Prelude.Int.{ℤ, pos, negsuc, ◌+ℤ◌, from_u8, from_u16, from_u32}
use jvm_rs.Types.Value.{Result, ok, err, unexpected_eof, invalid_branch_target}
use jvm_rs.Types.Action.{ok_or}
use jvm_rs.Types.Fallible.{◌>>=◌}
use jvm_rs.Frame.Ops.{u16_from_be, u32_from_be}
use jvm_rs.Opcode.{Opcode}

pub record DecodedInstruction : Type 0 where
  pub pc : ℕ
  pub next_pc : ℕ
  pub opcode : Opcode
  pub local_index : Option ℕ
  pub cp_index : Option ℕ
  pub branch_targets : List ℕ
  pub iinc_delta : Option ℤ
  pub atype : Option ℕ
  pub dimensions : Option ℕ

unfoldable pub read_u8 : List ℕ → ℕ → Result ℕ
read_u8 code at = ok_or (get_elem? code at) (unexpected_eof at)

unfoldable pub read_i8 : List ℕ → ℕ → Result ℤ
unfolding read_u8
read_i8 code at = read_u8 code at >>= λ b. ok (from_u8 b)

unfoldable pub read_u16 : List ℕ → ℕ → Result ℕ
unfolding read_u8
read_u16 code at = do b0 ← read_u8 code at; b1 ← read_u8 code (at + 1); ok (u16_from_be b0 b1)

unfoldable pub read_i16 : List ℕ → ℕ → Result ℤ
unfolding read_u16
read_i16 code at = read_u16 code at >>= λ r. ok (from_u16 r)

unfoldable pub read_i32 : List ℕ → ℕ → Result ℤ
unfolding read_u8
read_i32 code at = do
  b0 ← read_u8 code at
  b1 ← read_u8 code (at + 1)
  b2 ← read_u8 code (at + 2)
  b3 ← read_u8 code (at + 3)
  ok (from_u32 (u32_from_be b0 b1 b2 b3))

-- A target that is a number of bytes from the start of the code.
unfoldable pub checked_target : ℤ → ℕ → Result ℕ
checked_target (negsuc n) code_len = err (invalid_branch_target (negsuc n) code_len)
checked_target (pos target) code_len =
    if leb code_len target then err (invalid_branch_target (pos target) code_len) else ok target

unfoldable pub branch_target : ℕ → ℤ → ℕ → Result ℕ
unfolding checked_target
branch_target pc offset code_len = checked_target (pos pc +ℤ offset) code_len
