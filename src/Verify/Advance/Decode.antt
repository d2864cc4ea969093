-- ===== src/Verify/Advance/Decode.antt =====
-- src/vm/verify.rs: `decode_instruction` and the addresses of an instruction.
use jvm_rs.Prelude.{ℕ, ◌+◌, refl, List, get_elem?, arith}
use jvm_rs.Types.Value.{unexpected_eof, invalid_opcode}
use jvm_rs.Types.Action.{ok_or}
use jvm_rs.Opcode.{Opcode}
use jvm_rs.Opcode.FromByte.{from_byte}
use jvm_rs.Verify.Instruction.{DecodedInstruction, read_u8, read_u16, read_i16}
use jvm_rs.Verify.Operands.{widen, decode_wide}
use jvm_rs.Verify.Decode.{decode_operands, decode_instruction}
use jvm_rs.Verify.Ensures.{Ensures, returns, then-Ensures}
use jvm_rs.Verify.Advance.{
  Advances, decode_branch-Advances, decode_byte-Advances, decode_iinc-Advances,
  decode_index-Advances, decode_local-Advances, decode_lookupswitch-Advances,
  decode_multianewarray-Advances, decode_ret-Advances, decode_short_index-Advances,
  decode_sipush-Advances, decode_tableswitch-Advances, decode_wide_branch-Advances,
  fixed_local-Advances,
}

widen-Advances :
    (op : Opcode) (code : List ℕ) (pc : ℕ) (insn : DecodedInstruction)
    → Advances code pc insn
    → Ensures (Advances code pc) (widen op code pc insn)
unfolding widen
widen-Advances Opcode.iinc code pc insn h =
    then-Ensures (Advances code pc) (read_i16 code (pc + 4)) _
      λ delta. returns _ (h.0, omega arith, h.2)
widen-Advances op code pc insn h = returns insn h

decode_wide-Advances :
    (code : List ℕ) (pc : ℕ) (insn : DecodedInstruction)
    → Advances code pc insn
    → Ensures (Advances code pc) (decode_wide code pc insn)
unfolding decode_wide
decode_wide-Advances code pc insn h =
    let A = Advances code pc in
    then-Ensures A (read_u8 code (pc + 1)) _ λ byte.
      then-Ensures A (ok_or (from_byte byte) (invalid_opcode byte (pc + 1))) _ λ inner.
        then-Ensures A (read_u16 code (pc + 2)) _
          λ index. widen-Advances inner code pc _ (h.0, omega arith, h.2)

decode_operands-Advances :
    (op : Opcode) (code : List ℕ) (pc : ℕ) (insn : DecodedInstruction)
    → Advances code pc insn
    → Ensures (Advances code pc) (decode_operands op code pc insn)
unfolding decode_operands
decode_operands-Advances Opcode.aconst_null code pc insn h = returns insn h
decode_operands-Advances Opcode.iconst_m1 code pc insn h = returns insn h
decode_operands-Advances Opcode.iconst0 code pc insn h = returns insn h
decode_operands-Advances Opcode.iconst1 code pc insn h = returns insn h
decode_operands-Advances Opcode.iconst2 code pc insn h = returns insn h
decode_operands-Advances Opcode.iconst3 code pc insn h = returns insn h
decode_operands-Advances Opcode.iconst4 code pc insn h = returns insn h
decode_operands-Advances Opcode.iconst5 code pc insn h = returns insn h
decode_operands-Advances Opcode.lconst0 code pc insn h = returns insn h
decode_operands-Advances Opcode.lconst1 code pc insn h = returns insn h
decode_operands-Advances Opcode.fconst0 code pc insn h = returns insn h
decode_operands-Advances Opcode.fconst1 code pc insn h = returns insn h
decode_operands-Advances Opcode.fconst2 code pc insn h = returns insn h
decode_operands-Advances Opcode.dconst0 code pc insn h = returns insn h
decode_operands-Advances Opcode.dconst1 code pc insn h = returns insn h
decode_operands-Advances Opcode.bipush code pc insn h = decode_byte-Advances code pc insn h
decode_operands-Advances Opcode.sipush code pc insn h = decode_sipush-Advances code pc insn h
decode_operands-Advances Opcode.ldc code pc insn h = decode_short_index-Advances code pc insn h
decode_operands-Advances Opcode.ldc_w code pc insn h =
    decode_index-Advances code pc insn h _ (omega arith)
decode_operands-Advances Opcode.ldc2_w code pc insn h =
    decode_index-Advances code pc insn h _ (omega arith)
decode_operands-Advances Opcode.iload code pc insn h = decode_local-Advances code pc insn h
decode_operands-Advances Opcode.lload code pc insn h = decode_local-Advances code pc insn h
decode_operands-Advances Opcode.fload code pc insn h = decode_local-Advances code pc insn h
decode_operands-Advances Opcode.dload code pc insn h = decode_local-Advances code pc insn h
decode_operands-Advances Opcode.aload code pc insn h = decode_local-Advances code pc insn h
decode_operands-Advances Opcode.iload0 code pc insn h = fixed_local-Advances code pc insn h _
decode_operands-Advances Opcode.iload1 code pc insn h = fixed_local-Advances code pc insn h _
decode_operands-Advances Opcode.iload2 code pc insn h = fixed_local-Advances code pc insn h _
decode_operands-Advances Opcode.iload3 code pc insn h = fixed_local-Advances code pc insn h _
decode_operands-Advances Opcode.lload0 code pc insn h = fixed_local-Advances code pc insn h _
decode_operands-Advances Opcode.lload1 code pc insn h = fixed_local-Advances code pc insn h _
decode_operands-Advances Opcode.lload2 code pc insn h = fixed_local-Advances code pc insn h _
decode_operands-Advances Opcode.lload3 code pc insn h = fixed_local-Advances code pc insn h _
decode_operands-Advances Opcode.fload0 code pc insn h = fixed_local-Advances code pc insn h _
decode_operands-Advances Opcode.fload1 code pc insn h = fixed_local-Advances code pc insn h _
decode_operands-Advances Opcode.fload2 code pc insn h = fixed_local-Advances code pc insn h _
decode_operands-Advances Opcode.fload3 code pc insn h = fixed_local-Advances code pc insn h _
decode_operands-Advances Opcode.dload0 code pc insn h = fixed_local-Advances code pc insn h _
decode_operands-Advances Opcode.dload1 code pc insn h = fixed_local-Advances code pc insn h _
decode_operands-Advances Opcode.dload2 code pc insn h = fixed_local-Advances code pc insn h _
decode_operands-Advances Opcode.dload3 code pc insn h = fixed_local-Advances code pc insn h _
decode_operands-Advances Opcode.aload0 code pc insn h = fixed_local-Advances code pc insn h _
decode_operands-Advances Opcode.aload1 code pc insn h = fixed_local-Advances code pc insn h _
decode_operands-Advances Opcode.aload2 code pc insn h = fixed_local-Advances code pc insn h _
decode_operands-Advances Opcode.aload3 code pc insn h = fixed_local-Advances code pc insn h _
decode_operands-Advances Opcode.iaload code pc insn h = returns insn h
decode_operands-Advances Opcode.laload code pc insn h = returns insn h
decode_operands-Advances Opcode.faload code pc insn h = returns insn h
decode_operands-Advances Opcode.daload code pc insn h = returns insn h
decode_operands-Advances Opcode.aaload code pc insn h = returns insn h
decode_operands-Advances Opcode.baload code pc insn h = returns insn h
decode_operands-Advances Opcode.caload code pc insn h = returns insn h
decode_operands-Advances Opcode.saload code pc insn h = returns insn h
decode_operands-Advances Opcode.istore code pc insn h = decode_local-Advances code pc insn h
decode_operands-Advances Opcode.lstore code pc insn h = decode_local-Advances code pc insn h
decode_operands-Advances Opcode.fstore code pc insn h = decode_local-Advances code pc insn h
decode_operands-Advances Opcode.dstore code pc insn h = decode_local-Advances code pc insn h
decode_operands-Advances Opcode.astore code pc insn h = decode_local-Advances code pc insn h
decode_operands-Advances Opcode.istore0 code pc insn h = fixed_local-Advances code pc insn h _
decode_operands-Advances Opcode.istore1 code pc insn h = fixed_local-Advances code pc insn h _
decode_operands-Advances Opcode.istore2 code pc insn h = fixed_local-Advances code pc insn h _
decode_operands-Advances Opcode.istore3 code pc insn h = fixed_local-Advances code pc insn h _
decode_operands-Advances Opcode.lstore0 code pc insn h = fixed_local-Advances code pc insn h _
decode_operands-Advances Opcode.lstore1 code pc insn h = fixed_local-Advances code pc insn h _
decode_operands-Advances Opcode.lstore2 code pc insn h = fixed_local-Advances code pc insn h _
decode_operands-Advances Opcode.lstore3 code pc insn h = fixed_local-Advances code pc insn h _
decode_operands-Advances Opcode.fstore0 code pc insn h = fixed_local-Advances code pc insn h _
decode_operands-Advances Opcode.fstore1 code pc insn h = fixed_local-Advances code pc insn h _
decode_operands-Advances Opcode.fstore2 code pc insn h = fixed_local-Advances code pc insn h _
decode_operands-Advances Opcode.fstore3 code pc insn h = fixed_local-Advances code pc insn h _
decode_operands-Advances Opcode.dstore0 code pc insn h = fixed_local-Advances code pc insn h _
decode_operands-Advances Opcode.dstore1 code pc insn h = fixed_local-Advances code pc insn h _
decode_operands-Advances Opcode.dstore2 code pc insn h = fixed_local-Advances code pc insn h _
decode_operands-Advances Opcode.dstore3 code pc insn h = fixed_local-Advances code pc insn h _
decode_operands-Advances Opcode.astore0 code pc insn h = fixed_local-Advances code pc insn h _
decode_operands-Advances Opcode.astore1 code pc insn h = fixed_local-Advances code pc insn h _
decode_operands-Advances Opcode.astore2 code pc insn h = fixed_local-Advances code pc insn h _
decode_operands-Advances Opcode.astore3 code pc insn h = fixed_local-Advances code pc insn h _
decode_operands-Advances Opcode.iastore code pc insn h = returns insn h
decode_operands-Advances Opcode.lastore code pc insn h = returns insn h
decode_operands-Advances Opcode.fastore code pc insn h = returns insn h
decode_operands-Advances Opcode.dastore code pc insn h = returns insn h
decode_operands-Advances Opcode.aastore code pc insn h = returns insn h
decode_operands-Advances Opcode.bastore code pc insn h = returns insn h
decode_operands-Advances Opcode.castore code pc insn h = returns insn h
decode_operands-Advances Opcode.sastore code pc insn h = returns insn h
decode_operands-Advances Opcode.pop code pc insn h = returns insn h
decode_operands-Advances Opcode.pop2 code pc insn h = returns insn h
decode_operands-Advances Opcode.dup code pc insn h = returns insn h
decode_operands-Advances Opcode.dup_x1 code pc insn h = returns insn h
decode_operands-Advances Opcode.dup_x2 code pc insn h = returns insn h
decode_operands-Advances Opcode.dup2 code pc insn h = returns insn h
decode_operands-Advances Opcode.dup2_x1 code pc insn h = returns insn h
decode_operands-Advances Opcode.dup2_x2 code pc insn h = returns insn h
decode_operands-Advances Opcode.swap code pc insn h = returns insn h
decode_operands-Advances Opcode.iadd code pc insn h = returns insn h
decode_operands-Advances Opcode.ladd code pc insn h = returns insn h
decode_operands-Advances Opcode.fadd code pc insn h = returns insn h
decode_operands-Advances Opcode.dadd code pc insn h = returns insn h
decode_operands-Advances Opcode.isub code pc insn h = returns insn h
decode_operands-Advances Opcode.lsub code pc insn h = returns insn h
decode_operands-Advances Opcode.fsub code pc insn h = returns insn h
decode_operands-Advances Opcode.dsub code pc insn h = returns insn h
decode_operands-Advances Opcode.imul code pc insn h = returns insn h
decode_operands-Advances Opcode.lmul code pc insn h = returns insn h
decode_operands-Advances Opcode.fmul code pc insn h = returns insn h
decode_operands-Advances Opcode.dmul code pc insn h = returns insn h
decode_operands-Advances Opcode.idiv code pc insn h = returns insn h
decode_operands-Advances Opcode.ldiv code pc insn h = returns insn h
decode_operands-Advances Opcode.fdiv code pc insn h = returns insn h
decode_operands-Advances Opcode.ddiv code pc insn h = returns insn h
decode_operands-Advances Opcode.irem code pc insn h = returns insn h
decode_operands-Advances Opcode.lrem code pc insn h = returns insn h
decode_operands-Advances Opcode.frem code pc insn h = returns insn h
decode_operands-Advances Opcode.drem code pc insn h = returns insn h
decode_operands-Advances Opcode.ineg code pc insn h = returns insn h
decode_operands-Advances Opcode.lneg code pc insn h = returns insn h
decode_operands-Advances Opcode.fneg code pc insn h = returns insn h
decode_operands-Advances Opcode.dneg code pc insn h = returns insn h
decode_operands-Advances Opcode.ishl code pc insn h = returns insn h
decode_operands-Advances Opcode.lshl code pc insn h = returns insn h
decode_operands-Advances Opcode.ishr code pc insn h = returns insn h
decode_operands-Advances Opcode.lshr code pc insn h = returns insn h
decode_operands-Advances Opcode.iushr code pc insn h = returns insn h
decode_operands-Advances Opcode.lushr code pc insn h = returns insn h
decode_operands-Advances Opcode.iand code pc insn h = returns insn h
decode_operands-Advances Opcode.land code pc insn h = returns insn h
decode_operands-Advances Opcode.ior code pc insn h = returns insn h
decode_operands-Advances Opcode.lor code pc insn h = returns insn h
decode_operands-Advances Opcode.ixor code pc insn h = returns insn h
decode_operands-Advances Opcode.lxor code pc insn h = returns insn h
decode_operands-Advances Opcode.iinc code pc insn h = decode_iinc-Advances code pc insn h
decode_operands-Advances Opcode.i2l code pc insn h = returns insn h
decode_operands-Advances Opcode.i2f code pc insn h = returns insn h
decode_operands-Advances Opcode.i2d code pc insn h = returns insn h
decode_operands-Advances Opcode.l2i code pc insn h = returns insn h
decode_operands-Advances Opcode.l2f code pc insn h = returns insn h
decode_operands-Advances Opcode.l2d code pc insn h = returns insn h
decode_operands-Advances Opcode.f2i code pc insn h = returns insn h
decode_operands-Advances Opcode.f2l code pc insn h = returns insn h
decode_operands-Advances Opcode.f2d code pc insn h = returns insn h
decode_operands-Advances Opcode.d2i code pc insn h = returns insn h
decode_operands-Advances Opcode.d2l code pc insn h = returns insn h
decode_operands-Advances Opcode.d2f code pc insn h = returns insn h
decode_operands-Advances Opcode.i2b code pc insn h = returns insn h
decode_operands-Advances Opcode.i2c code pc insn h = returns insn h
decode_operands-Advances Opcode.i2s code pc insn h = returns insn h
decode_operands-Advances Opcode.lcmp code pc insn h = returns insn h
decode_operands-Advances Opcode.fcmpl code pc insn h = returns insn h
decode_operands-Advances Opcode.fcmpg code pc insn h = returns insn h
decode_operands-Advances Opcode.dcmpl code pc insn h = returns insn h
decode_operands-Advances Opcode.dcmpg code pc insn h = returns insn h
decode_operands-Advances Opcode.ifeq code pc insn h = decode_branch-Advances code pc insn h
decode_operands-Advances Opcode.ifne code pc insn h = decode_branch-Advances code pc insn h
decode_operands-Advances Opcode.iflt code pc insn h = decode_branch-Advances code pc insn h
decode_operands-Advances Opcode.ifge code pc insn h = decode_branch-Advances code pc insn h
decode_operands-Advances Opcode.ifgt code pc insn h = decode_branch-Advances code pc insn h
decode_operands-Advances Opcode.ifle code pc insn h = decode_branch-Advances code pc insn h
decode_operands-Advances Opcode.if_icmpeq code pc insn h = decode_branch-Advances code pc insn h
decode_operands-Advances Opcode.if_icmpne code pc insn h = decode_branch-Advances code pc insn h
decode_operands-Advances Opcode.if_icmplt code pc insn h = decode_branch-Advances code pc insn h
decode_operands-Advances Opcode.if_icmpge code pc insn h = decode_branch-Advances code pc insn h
decode_operands-Advances Opcode.if_icmpgt code pc insn h = decode_branch-Advances code pc insn h
decode_operands-Advances Opcode.if_icmple code pc insn h = decode_branch-Advances code pc insn h
decode_operands-Advances Opcode.if_acmpeq code pc insn h = decode_branch-Advances code pc insn h
decode_operands-Advances Opcode.if_acmpne code pc insn h = decode_branch-Advances code pc insn h
decode_operands-Advances Opcode.goto code pc insn h = decode_branch-Advances code pc insn h
decode_operands-Advances Opcode.tableswitch code pc insn h =
    decode_tableswitch-Advances code pc insn h
decode_operands-Advances Opcode.lookupswitch code pc insn h =
    decode_lookupswitch-Advances code pc insn h
decode_operands-Advances Opcode.ireturn code pc insn h = returns insn h
decode_operands-Advances Opcode.lreturn code pc insn h = returns insn h
decode_operands-Advances Opcode.freturn code pc insn h = returns insn h
decode_operands-Advances Opcode.dreturn code pc insn h = returns insn h
decode_operands-Advances Opcode.areturn code pc insn h = returns insn h
decode_operands-Advances Opcode.return code pc insn h = returns insn h
decode_operands-Advances Opcode.getstatic code pc insn h =
    decode_index-Advances code pc insn h _ (omega arith)
decode_operands-Advances Opcode.putstatic code pc insn h =
    decode_index-Advances code pc insn h _ (omega arith)
decode_operands-Advances Opcode.getfield code pc insn h =
    decode_index-Advances code pc insn h _ (omega arith)
decode_operands-Advances Opcode.putfield code pc insn h =
    decode_index-Advances code pc insn h _ (omega arith)
decode_operands-Advances Opcode.invokevirtual code pc insn h =
    decode_index-Advances code pc insn h _ (omega arith)
decode_operands-Advances Opcode.invokespecial code pc insn h =
    decode_index-Advances code pc insn h _ (omega arith)
decode_operands-Advances Opcode.invokestatic code pc insn h =
    decode_index-Advances code pc insn h _ (omega arith)
decode_operands-Advances Opcode.jsr code pc insn h = decode_branch-Advances code pc insn h
decode_operands-Advances Opcode.ret code pc insn h = decode_ret-Advances code pc insn h
decode_operands-Advances Opcode.invokeinterface code pc insn h =
    decode_index-Advances code pc insn h _ (omega arith)
decode_operands-Advances Opcode.invokedynamic code pc insn h =
    decode_index-Advances code pc insn h _ (omega arith)
decode_operands-Advances Opcode.new code pc insn h =
    decode_index-Advances code pc insn h _ (omega arith)
decode_operands-Advances Opcode.newarray code pc insn h = decode_byte-Advances code pc insn h
decode_operands-Advances Opcode.anewarray code pc insn h =
    decode_index-Advances code pc insn h _ (omega arith)
decode_operands-Advances Opcode.arraylength code pc insn h = returns insn h
decode_operands-Advances Opcode.athrow code pc insn h = returns insn h
decode_operands-Advances Opcode.checkcast code pc insn h =
    decode_index-Advances code pc insn h _ (omega arith)
decode_operands-Advances Opcode.instanceof code pc insn h =
    decode_index-Advances code pc insn h _ (omega arith)
decode_operands-Advances Opcode.monitorenter code pc insn h = returns insn h
decode_operands-Advances Opcode.monitorexit code pc insn h = returns insn h
decode_operands-Advances Opcode.wide code pc insn h = decode_wide-Advances code pc insn h
decode_operands-Advances Opcode.multianewarray code pc insn h =
    decode_multianewarray-Advances code pc insn h
decode_operands-Advances Opcode.ifnull code pc insn h = decode_branch-Advances code pc insn h
decode_operands-Advances Opcode.ifnonnull code pc insn h = decode_branch-Advances code pc insn h
decode_operands-Advances Opcode.goto_w code pc insn h = decode_wide_branch-Advances code pc insn h
decode_operands-Advances Opcode.jsr_w code pc insn h = decode_wide_branch-Advances code pc insn h

-- What `decode_instruction` returns stands at the address that it was asked for, ends after it, and
-- branches to addresses in the code only.
pub decode_instruction-Advances :
    (code : List ℕ) (pc : ℕ) → Ensures (Advances code pc) (decode_instruction code pc)
unfolding decode_instruction
decode_instruction-Advances code pc =
    let A = Advances code pc in
    then-Ensures A (ok_or (get_elem? code pc) (unexpected_eof pc)) _ λ byte.
      then-Ensures A (ok_or (from_byte byte) (invalid_opcode byte pc)) _
        λ op. decode_operands-Advances op code pc _ (refl, omega arith, tt)
