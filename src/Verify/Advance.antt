-- ===== src/Verify/Advance.antt =====
-- src/vm/verify.rs: what `decode_instruction` says of the addresses of an instruction.
pub mod Decode
use jvm_rs.Prelude.{
  ℕ, zero, suc, ◌+◌, ◌-◌, ◌%◌, ◌≤◌, ◌<◌, ◌≡◌, refl, true, false, List, [], ◌∷◌, length, leb, none,
  get_elem?, arith,
}
use jvm_rs.Prelude.Int.{ℤ, pos, negsuc, ◌+ℤ◌, ◌-ℤ◌}
use jvm_rs.Types.Value.{
  Result, ok, err, panic, unexpected_eof, invalid_opcode, invalid_branch_target,
}
use jvm_rs.Types.Action.{ok_or}
use jvm_rs.Opcode.{Opcode}
use jvm_rs.Opcode.FromByte.{from_byte}
use jvm_rs.Verify.Instruction.{
  DecodedInstruction, branch_target, checked_target, read_u8, read_i8, read_u16, read_i16, read_i32,
}
use jvm_rs.Verify.Operands.{
  decode_byte, decode_short_index, decode_local, fixed_local, decode_sipush, decode_index,
  decode_iinc, decode_branch, decode_wide_branch, decode_ret, decode_multianewarray, aligned,
  read_offsets, read_pairs, rounds, to_usize, decode_tableswitch, decode_lookupswitch, widen,
  decode_wide,
}
use jvm_rs.Verify.Ensures.{Ensures, returns, fails, bind-Ensures, then-Ensures, if-Ensures}

abbrev pub AllBelow : ℕ → List ℕ → Type 0
AllBelow len [] = Unit
AllBelow len (target ∷ targets) = (target < len) × AllBelow len targets

-- The instruction stands at the address, the next one after it, and its targets in the code.
abbrev pub Advances : List ℕ → ℕ → DecodedInstruction → Type 0
Advances code pc insn =
    (insn.pc ≡ pc) × (pc < insn.next_pc) × AllBelow (length code) insn.branch_targets

checked_target-Ensures : (z : ℤ) (len : ℕ) → Ensures (λ t. t < len) (checked_target z len)
unfolding checked_target
checked_target-Ensures (negsuc n) len = fails _
checked_target-Ensures (pos target) len =
    if-Ensures (λ t. t < len) (leb len target) _ _ (λ e. fails _)
      (λ e. returns target (ground arith))

module _ (code : List ℕ) (pc : ℕ) where
  branch_target-Ensures :
      (z : ℤ) → Ensures (λ t. t < length code) (branch_target pc z (length code))
  unfolding branch_target
  branch_target-Ensures z = checked_target-Ensures _ _

  -- Targets in the code, and a position that is not before the first one.
  abbrev Switch : ℕ → List ℕ × ℕ → Type 0
  Switch at r = AllBelow (length code) r.0 × (at ≤ r.1)

  read_offsets-Ensures : (n at : ℕ) → Ensures (Switch at) (read_offsets code pc n at)
  unfolding read_offsets
  read_offsets-Ensures zero at = returns _ (tt, omega arith)
  read_offsets-Ensures (suc n) at = then-Ensures (Switch at) (read_i32 code at) _ λ offset.
      bind-Ensures (λ t. t < length code) (Switch at) _ _ (branch_target-Ensures offset)
        λ target h.
          bind-Ensures (Switch (at + 4)) (Switch at) _ _ (read_offsets-Ensures n (at + 4))
            λ rest k. returns _ ((h, k.0), omega arith)

  read_pairs-Ensures : (n at : ℕ) → Ensures (Switch at) (read_pairs code pc n at)
  unfolding read_pairs
  read_pairs-Ensures zero at = returns _ (tt, omega arith)
  read_pairs-Ensures (suc n) at = then-Ensures (Switch at) (read_i32 code at) _ λ key.
      then-Ensures (Switch at) (read_i32 code (at + 4)) _ λ offset.
        bind-Ensures (λ t. t < length code) (Switch at) _ _ (branch_target-Ensures offset)
          λ target h.
            bind-Ensures (Switch (at + 8)) (Switch at) _ _ (read_pairs-Ensures n (at + 8))
              λ rest k. returns _ ((h, k.0), omega arith)

  module _ (insn : DecodedInstruction) (h : Advances code pc insn) where
    pub decode_byte-Advances : Ensures (Advances code pc) (decode_byte code pc insn)
    unfolding decode_byte
    decode_byte-Advances =
        then-Ensures (Advances code pc) (read_u8 code (pc + 1)) _
          λ byte. returns _ (h.0, omega arith, h.2)

    pub decode_short_index-Advances : Ensures (Advances code pc) (decode_short_index code pc insn)
    unfolding decode_short_index
    decode_short_index-Advances =
        then-Ensures (Advances code pc) (read_u8 code (pc + 1)) _
          λ operand. returns _ (h.0, omega arith, h.2)

    pub decode_local-Advances : Ensures (Advances code pc) (decode_local code pc insn)
    unfolding decode_local
    decode_local-Advances =
        then-Ensures (Advances code pc) (read_u8 code (pc + 1)) _
          λ operand. returns _ (h.0, omega arith, h.2)

    pub fixed_local-Advances : (i : ℕ) → Ensures (Advances code pc) (fixed_local i insn)
    unfolding fixed_local
    fixed_local-Advances i = returns _ h

    pub decode_sipush-Advances : Ensures (Advances code pc) (decode_sipush code pc insn)
    unfolding decode_sipush
    decode_sipush-Advances =
        then-Ensures (Advances code pc) (read_u16 code (pc + 1)) _
          λ index. returns _ (h.0, omega arith, h.2)

    pub decode_index-Advances :
        (size : ℕ) → 0 < size → Ensures (Advances code pc) (decode_index code pc size insn)
    unfolding decode_index
    decode_index-Advances size lt =
        then-Ensures (Advances code pc) (read_u16 code (pc + 1)) _
          λ index. returns _ (h.0, omega arith, h.2)

    pub decode_iinc-Advances : Ensures (Advances code pc) (decode_iinc code pc insn)
    unfolding decode_iinc
    decode_iinc-Advances = then-Ensures (Advances code pc) (read_u8 code (pc + 1)) _ λ index.
        then-Ensures (Advances code pc) (read_i8 code (pc + 2)) _
          λ delta. returns _ (h.0, omega arith, h.2)

    pub decode_branch-Advances : Ensures (Advances code pc) (decode_branch code pc insn)
    unfolding decode_branch
    decode_branch-Advances = then-Ensures (Advances code pc) (read_i16 code (pc + 1)) _ λ offset.
        bind-Ensures (λ t. t < length code) (Advances code pc) _ _ (branch_target-Ensures offset)
          λ target k. returns _ (h.0, omega arith, (k, tt))

    pub decode_wide_branch-Advances : Ensures (Advances code pc) (decode_wide_branch code pc insn)
    unfolding decode_wide_branch
    decode_wide_branch-Advances =
        then-Ensures (Advances code pc) (read_i32 code (pc + 1)) _ λ offset.
          bind-Ensures (λ t. t < length code) (Advances code pc) _ _ (branch_target-Ensures offset)
            λ target k. returns _ (h.0, omega arith, (k, tt))

    pub decode_ret-Advances : Ensures (Advances code pc) (decode_ret code pc insn)
    unfolding decode_ret
    decode_ret-Advances =
        then-Ensures (Advances code pc) (read_u8 code (pc + 1)) _
          λ index. returns _ (h.0, omega arith, h.2)

    pub decode_multianewarray-Advances :
        Ensures (Advances code pc) (decode_multianewarray code pc insn)
    unfolding decode_multianewarray
    decode_multianewarray-Advances =
        then-Ensures (Advances code pc) (read_u16 code (pc + 1)) _ λ index.
          then-Ensures (Advances code pc) (read_u8 code (pc + 3)) _
            λ count. returns _ (h.0, omega arith, h.2)

    pub decode_tableswitch-Advances : Ensures (Advances code pc) (decode_tableswitch code pc insn)
    unfolding decode_tableswitch
    decode_tableswitch-Advances =
        let A = Advances code pc in
        then-Ensures A (read_i32 code (aligned pc)) _ λ offset.
          then-Ensures A (read_i32 code (aligned pc + 4)) _ λ low.
            then-Ensures A (read_i32 code (aligned pc + 8)) _ λ high.
              bind-Ensures (λ t. t < length code) A _ _ (branch_target-Ensures offset)
                λ default k.
                  bind-Ensures (Switch (aligned pc + 12)) A _ _
                    (read_offsets-Ensures (rounds (high -ℤ low)) _)
                    λ rest f.
                      let lt : pc < rest.1 = omega (arith, f.1) in
                      returns (record insn { next_pc = rest.1; branch_targets = default ∷ rest.0 })
                        (h.0, lt, (k, f.0))

    pub decode_lookupswitch-Advances : Ensures (Advances code pc) (decode_lookupswitch code pc insn)
    unfolding decode_lookupswitch
    decode_lookupswitch-Advances =
        let A = Advances code pc in
        then-Ensures A (read_i32 code (aligned pc)) _ λ offset.
          then-Ensures A (read_i32 code (aligned pc + 4)) _ λ npairs.
            bind-Ensures (λ t. t < length code) A _ _ (branch_target-Ensures offset)
              λ default k.
                bind-Ensures (Switch (aligned pc + 8)) A _ _
                  (read_pairs-Ensures (to_usize npairs) _)
                  λ rest f.
                    let lt : pc < rest.1 = omega (arith, f.1) in
                    returns (record insn { next_pc = rest.1; branch_targets = default ∷ rest.0 })
                      (h.0, lt, (k, f.0))
