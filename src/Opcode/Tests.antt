-- ===== src/Opcode/Tests.antt =====
-- Tests of the opcodes of src/bytecode.rs.
use jvm_rs.Prelude.{none, some, ◌≡◌, refl, ◌↔◌, arith}
use jvm_rs.Opcode.{Opcode, to_byte}
use jvm_rs.Opcode.FromByte.{from_byte}
use jvm_rs.Opcode.Bytes.{from_byte_iff}

from_byte_iff_example : (from_byte 0x60 ≡ some Opcode.iadd) ↔ (to_byte Opcode.iadd ≡ 0x60)
from_byte_iff_example = from_byte_iff 0x60 Opcode.iadd (omega arith)

-- Neither `nop` nor a byte above the last opcode is read.
from_byte_nop : from_byte 0x00 ≡ none
unfolding from_byte
from_byte_nop = refl

from_byte_reserved : from_byte 0xca ≡ none
unfolding from_byte
from_byte_reserved = refl
