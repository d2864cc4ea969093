-- ===== src/Verify/Decode.antt =====
-- src/vm/verify.rs: `decode_instruction`.
use jvm_rs.Prelude.{ℕ, ◌+◌, none, List, [], get_elem?}
use jvm_rs.Types.Value.{Result, ok, unexpected_eof, invalid_opcode}
use jvm_rs.Types.Action.{ok_or}
use jvm_rs.Types.Fallible.{◌>>=◌}
use jvm_rs.Opcode.{Opcode}
use jvm_rs.Opcode.FromByte.{from_byte}
use jvm_rs.Verify.Instruction.{DecodedInstruction}
use jvm_rs.Verify.Operands.{
  decode_branch, decode_byte, decode_iinc, decode_index, decode_local, decode_lookupswitch,
  decode_multianewarray, decode_ret, decode_short_index, decode_sipush, decode_tableswitch,
  decode_wide, decode_wide_branch, fixed_local,
}

-- The `match` on the opcode. `_` stands for those without operands.
unfoldable pub decode_operands :
    Opcode → List ℕ → ℕ → DecodedInstruction → Result DecodedInstruction
decode_operands Opcode.aconst_null code pc insn = ok insn
decode_operands Opcode.iconst_m1 code pc insn = ok insn
decode_operands Opcode.iconst0 code pc insn = ok insn
decode_operands Opcode.iconst1 code pc insn = ok insn
decode_operands Opcode.iconst2 code pc insn = ok insn
decode_operands Opcode.iconst3 code pc insn = ok insn
decode_operands Opcode.iconst4 code pc insn = ok insn
decode_operands Opcode.iconst5 code pc insn = ok insn
decode_operands Opcode.lconst0 code pc insn = ok insn
decode_operands Opcode.lconst1 code pc insn = ok insn
decode_operands Opcode.fconst0 code pc insn = ok insn
decode_operands Opcode.fconst1 code pc insn = ok insn
decode_operands Opcode.fconst2 code pc insn = ok insn
decode_operands Opcode.dconst0 code pc insn = ok insn
decode_operands Opcode.dconst1 code pc insn = ok insn
decode_operands Opcode.bipush code pc insn = decode_byte code pc insn
decode_operands Opcode.sipush code pc insn = decode_sipush code pc insn
decode_operands Opcode.ldc code pc insn = decode_short_index code pc insn
decode_operands Opcode.ldc_w code pc insn = decode_index code pc 3 insn
decode_operands Opcode.ldc2_w code pc insn = decode_index code pc 3 insn
decode_operands Opcode.iload code pc insn = decode_local code pc insn
decode_operands Opcode.lload code pc insn = decode_local code pc insn
decode_operands Opcode.fload code pc insn = decode_local code pc insn
decode_operands Opcode.dload code pc insn = decode_local code pc insn
decode_operands Opcode.aload code pc insn = decode_local code pc insn
decode_operands Opcode.iload0 code pc insn = fixed_local 0 insn
decode_operands Opcode.iload1 code pc insn = fixed_local 1 insn
decode_operands Opcode.iload2 code pc insn = fixed_local 2 insn
decode_operands Opcode.iload3 code pc insn = fixed_local 3 insn
decode_operands Opcode.lload0 code pc insn = fixed_local 0 insn
decode_operands Opcode.lload1 code pc insn = fixed_local 1 insn
decode_operands Opcode.lload2 code pc insn = fixed_local 2 insn
decode_operands Opcode.lload3 code pc insn = fixed_local 3 insn
decode_operands Opcode.fload0 code pc insn = fixed_local 0 insn
decode_operands Opcode.fload1 code pc insn = fixed_local 1 insn
decode_operands Opcode.fload2 code pc insn = fixed_local 2 insn
decode_operands Opcode.fload3 code pc insn = fixed_local 3 insn
decode_operands Opcode.dload0 code pc insn = fixed_local 0 insn
decode_operands Opcode.dload1 code pc insn = fixed_local 1 insn
decode_operands Opcode.dload2 code pc insn = fixed_local 2 insn
decode_operands Opcode.dload3 code pc insn = fixed_local 3 insn
decode_operands Opcode.aload0 code pc insn = fixed_local 0 insn
decode_operands Opcode.aload1 code pc insn = fixed_local 1 insn
decode_operands Opcode.aload2 code pc insn = fixed_local 2 insn
decode_operands Opcode.aload3 code pc insn = fixed_local 3 insn
decode_operands Opcode.iaload code pc insn = ok insn
decode_operands Opcode.laload code pc insn = ok insn
decode_operands Opcode.faload code pc insn = ok insn
decode_operands Opcode.daload code pc insn = ok insn
decode_operands Opcode.aaload code pc insn = ok insn
decode_operands Opcode.baload code pc insn = ok insn
decode_operands Opcode.caload code pc insn = ok insn
decode_operands Opcode.saload code pc insn = ok insn
decode_operands Opcode.istore code pc insn = decode_local code pc insn
decode_operands Opcode.lstore code pc insn = decode_local code pc insn
decode_operands Opcode.fstore code pc insn = decode_local code pc insn
decode_operands Opcode.dstore code pc insn = decode_local code pc insn
decode_operands Opcode.astore code pc insn = decode_local code pc insn
decode_operands Opcode.istore0 code pc insn = fixed_local 0 insn
decode_operands Opcode.istore1 code pc insn = fixed_local 1 insn
decode_operands Opcode.istore2 code pc insn = fixed_local 2 insn
decode_operands Opcode.istore3 code pc insn = fixed_local 3 insn
decode_operands Opcode.lstore0 code pc insn = fixed_local 0 insn
decode_operands Opcode.lstore1 code pc insn = fixed_local 1 insn
decode_operands Opcode.lstore2 code pc insn = fixed_local 2 insn
decode_operands Opcode.lstore3 code pc insn = fixed_local 3 insn
decode_operands Opcode.fstore0 code pc insn = fixed_local 0 insn
decode_operands Opcode.fstore1 code pc insn = fixed_local 1 insn
decode_operands Opcode.fstore2 code pc insn = fixed_local 2 insn
decode_operands Opcode.fstore3 code pc insn = fixed_local 3 insn
decode_operands Opcode.dstore0 code pc insn = fixed_local 0 insn
decode_operands Opcode.dstore1 code pc insn = fixed_local 1 insn
decode_operands Opcode.dstore2 code pc insn = fixed_local 2 insn
decode_operands Opcode.dstore3 code pc insn = fixed_local 3 insn
decode_operands Opcode.astore0 code pc insn = fixed_local 0 insn
decode_operands Opcode.astore1 code pc insn = fixed_local 1 insn
decode_operands Opcode.astore2 code pc insn = fixed_local 2 insn
decode_operands Opcode.astore3 code pc insn = fixed_local 3 insn
decode_operands Opcode.iastore code pc insn = ok insn
decode_operands Opcode.lastore code pc insn = ok insn
decode_operands Opcode.fastore code pc insn = ok insn
decode_operands Opcode.dastore code pc insn = ok insn
decode_operands Opcode.aastore code pc insn = ok insn
decode_operands Opcode.bastore code pc insn = ok insn
decode_operands Opcode.castore code pc insn = ok insn
decode_operands Opcode.sastore code pc insn = ok insn
decode_operands Opcode.pop code pc insn = ok insn
decode_operands Opcode.pop2 code pc insn = ok insn
decode_operands Opcode.dup code pc insn = ok insn
decode_operands Opcode.dup_x1 code pc insn = ok insn
decode_operands Opcode.dup_x2 code pc insn = ok insn
decode_operands Opcode.dup2 code pc insn = ok insn
decode_operands Opcode.dup2_x1 code pc insn = ok insn
decode_operands Opcode.dup2_x2 code pc insn = ok insn
decode_operands Opcode.swap code pc insn = ok insn
decode_operands Opcode.iadd code pc insn = ok insn
decode_operands Opcode.ladd code pc insn = ok insn
decode_operands Opcode.fadd code pc insn = ok insn
decode_operands Opcode.dadd code pc insn = ok insn
decode_operands Opcode.isub code pc insn = ok insn
decode_operands Opcode.lsub code pc insn = ok insn
decode_operands Opcode.fsub code pc insn = ok insn
decode_operands Opcode.dsub code pc insn = ok insn
decode_operands Opcode.imul code pc insn = ok insn
decode_operands Opcode.lmul code pc insn = ok insn
decode_operands Opcode.fmul code pc insn = ok insn
decode_operands Opcode.dmul code pc insn = ok insn
decode_operands Opcode.idiv code pc insn = ok insn
decode_operands Opcode.ldiv code pc insn = ok insn
decode_operands Opcode.fdiv code pc insn = ok insn
decode_operands Opcode.ddiv code pc insn = ok insn
decode_operands Opcode.irem code pc insn = ok insn
decode_operands Opcode.lrem code pc insn = ok insn
decode_operands Opcode.frem code pc insn = ok insn
decode_operands Opcode.drem code pc insn = ok insn
decode_operands Opcode.ineg code pc insn = ok insn
decode_operands Opcode.lneg code pc insn = ok insn
decode_operands Opcode.fneg code pc insn = ok insn
decode_operands Opcode.dneg code pc insn = ok insn
decode_operands Opcode.ishl code pc insn = ok insn
decode_operands Opcode.lshl code pc insn = ok insn
decode_operands Opcode.ishr code pc insn = ok insn
decode_operands Opcode.lshr code pc insn = ok insn
decode_operands Opcode.iushr code pc insn = ok insn
decode_operands Opcode.lushr code pc insn = ok insn
decode_operands Opcode.iand code pc insn = ok insn
decode_operands Opcode.land code pc insn = ok insn
decode_operands Opcode.ior code pc insn = ok insn
decode_operands Opcode.lor code pc insn = ok insn
decode_operands Opcode.ixor code pc insn = ok insn
decode_operands Opcode.lxor code pc insn = ok insn
decode_operands Opcode.iinc code pc insn = decode_iinc code pc insn
decode_operands Opcode.i2l code pc insn = ok insn
decode_operands Opcode.i2f code pc insn = ok insn
decode_operands Opcode.i2d code pc insn = ok insn
decode_operands Opcode.l2i code pc insn = ok insn
decode_operands Opcode.l2f code pc insn = ok insn
decode_operands Opcode.l2d code pc insn = ok insn
decode_operands Opcode.f2i code pc insn = ok insn
decode_operands Opcode.f2l code pc insn = ok insn
decode_operands Opcode.f2d code pc insn = ok insn
decode_operands Opcode.d2i code pc insn = ok insn
decode_operands Opcode.d2l code pc insn = ok insn
decode_operands Opcode.d2f code pc insn = ok insn
decode_operands Opcode.i2b code pc insn = ok insn
decode_operands Opcode.i2c code pc insn = ok insn
decode_operands Opcode.i2s code pc insn = ok insn
decode_operands Opcode.lcmp code pc insn = ok insn
decode_operands Opcode.fcmpl code pc insn = ok insn
decode_operands Opcode.fcmpg code pc insn = ok insn
decode_operands Opcode.dcmpl code pc insn = ok insn
decode_operands Opcode.dcmpg code pc insn = ok insn
decode_operands Opcode.ifeq code pc insn = decode_branch code pc insn
decode_operands Opcode.ifne code pc insn = decode_branch code pc insn
decode_operands Opcode.iflt code pc insn = decode_branch code pc insn
decode_operands Opcode.ifge code pc insn = decode_branch code pc insn
decode_operands Opcode.ifgt code pc insn = decode_branch code pc insn
decode_operands Opcode.ifle code pc insn = decode_branch code pc insn
decode_operands Opcode.if_icmpeq code pc insn = decode_branch code pc insn
decode_operands Opcode.if_icmpne code pc insn = decode_branch code pc insn
decode_operands Opcode.if_icmplt code pc insn = decode_branch code pc insn
decode_operands Opcode.if_icmpge code pc insn = decode_branch code pc insn
decode_operands Opcode.if_icmpgt code pc insn = decode_branch code pc insn
decode_operands Opcode.if_icmple code pc insn = decode_branch code pc insn
decode_operands Opcode.if_acmpeq code pc insn = decode_branch code pc insn
decode_operands Opcode.if_acmpne code pc insn = decode_branch code pc insn
decode_operands Opcode.goto code pc insn = decode_branch code pc insn
decode_operands Opcode.tableswitch code pc insn = decode_tableswitch code pc insn
decode_operands Opcode.lookupswitch code pc insn = decode_lookupswitch code pc insn
decode_operands Opcode.ireturn code pc insn = ok insn
decode_operands Opcode.lreturn code pc insn = ok insn
decode_operands Opcode.freturn code pc insn = ok insn
decode_operands Opcode.dreturn code pc insn = ok insn
decode_operands Opcode.areturn code pc insn = ok insn
decode_operands Opcode.return code pc insn = ok insn
decode_operands Opcode.getstatic code pc insn = decode_index code pc 3 insn
decode_operands Opcode.putstatic code pc insn = decode_index code pc 3 insn
decode_operands Opcode.getfield code pc insn = decode_index code pc 3 insn
decode_operands Opcode.putfield code pc insn = decode_index code pc 3 insn
decode_operands Opcode.invokevirtual code pc insn = decode_index code pc 3 insn
decode_operands Opcode.invokespecial code pc insn = decode_index code pc 3 insn
decode_operands Opcode.invokestatic code pc insn = decode_index code pc 3 insn
decode_operands Opcode.jsr code pc insn = decode_branch code pc insn
decode_operands Opcode.ret code pc insn = decode_ret code pc insn
decode_operands Opcode.invokeinterface code pc insn = decode_index code pc 5 insn
decode_operands Opcode.invokedynamic code pc insn = decode_index code pc 5 insn
decode_operands Opcode.new code pc insn = decode_index code pc 3 insn
decode_operands Opcode.newarray code pc insn = decode_byte code pc insn
decode_operands Opcode.anewarray code pc insn = decode_index code pc 3 insn
decode_operands Opcode.arraylength code pc insn = ok insn
decode_operands Opcode.athrow code pc insn = ok insn
decode_operands Opcode.checkcast code pc insn = decode_index code pc 3 insn
decode_operands Opcode.instanceof code pc insn = decode_index code pc 3 insn
decode_operands Opcode.monitorenter code pc insn = ok insn
decode_operands Opcode.monitorexit code pc insn = ok insn
decode_operands Opcode.wide code pc insn = decode_wide code pc insn
decode_operands Opcode.multianewarray code pc insn = decode_multianewarray code pc insn
decode_operands Opcode.ifnull code pc insn = decode_branch code pc insn
decode_operands Opcode.ifnonnull code pc insn = decode_branch code pc insn
decode_operands Opcode.goto_w code pc insn = decode_wide_branch code pc insn
decode_operands Opcode.jsr_w code pc insn = decode_wide_branch code pc insn

unfoldable pub decode_instruction : List ℕ → ℕ → Result DecodedInstruction
unfolding decode_operands
decode_instruction code pc = do
  opcode_byte ← ok_or (get_elem? code pc) (unexpected_eof pc)
  opcode ← ok_or (from_byte opcode_byte) (invalid_opcode opcode_byte pc)
  decode_operands opcode code pc (record {
    pc = pc;
    next_pc = pc + 1;
    opcode = opcode;
    local_index = none;
    cp_index = none;
    branch_targets = [];
    iinc_delta = none;
    atype = none;
    dimensions = none;
  })
