-- ===== src/Verify/Apply.antt =====
-- src/vm/verify.rs: `apply_instruction`.
use jvm_rs.Prelude.{true, false, Option, none, [], ◌∷◌}
use jvm_rs.Types.Value.{panic}
use jvm_rs.Types.Method.{Method}
use jvm_rs.Types.Action.{pure, lift, ◌>>=◌}
use jvm_rs.Types.Fallible.{as_bytes}
use jvm_rs.Opcode.{Opcode}
use jvm_rs.Verify.Types.{VerifyType, int, float, long, double, null, reference}
use jvm_rs.Verify.State.{
  pop_expect_int, pop_expect_long, pop_expect_float, pop_expect_double, pop_expect_reference,
}
use jvm_rs.Verify.Instruction.{DecodedInstruction}
use jvm_rs.Verify.Descriptors.{parse_method_descriptor}
use jvm_rs.Verify.Arms.{
  Step, push_type, push_constant, load_type, load_reference, store_type, store_reference,
  load_element, store_element, unary, binary, increment, convert, compare, jump_subroutine,
  return_from_subroutine, return_type, return_reference, return_void,
}
use jvm_rs.Verify.Shuffle
use jvm_rs.Verify.Shuffle.{pop_one, pop_two}
use jvm_rs.Verify.Members.{
  get_static, put_static, get_field, put_field, invoke, invoke_dynamic, new_object, new_array,
  throw, check_cast,
}

-- The `match` on the opcode. `wide` is unreachable there.
unfoldable pub apply_opcode : Method → DecodedInstruction → Option VerifyType → Opcode → Step
apply_opcode m i ret_ty Opcode.aconst_null = push_type m i null
apply_opcode m i ret_ty Opcode.iconst_m1 = push_type m i int
apply_opcode m i ret_ty Opcode.iconst0 = push_type m i int
apply_opcode m i ret_ty Opcode.iconst1 = push_type m i int
apply_opcode m i ret_ty Opcode.iconst2 = push_type m i int
apply_opcode m i ret_ty Opcode.iconst3 = push_type m i int
apply_opcode m i ret_ty Opcode.iconst4 = push_type m i int
apply_opcode m i ret_ty Opcode.iconst5 = push_type m i int
apply_opcode m i ret_ty Opcode.lconst0 = push_type m i long
apply_opcode m i ret_ty Opcode.lconst1 = push_type m i long
apply_opcode m i ret_ty Opcode.fconst0 = push_type m i float
apply_opcode m i ret_ty Opcode.fconst1 = push_type m i float
apply_opcode m i ret_ty Opcode.fconst2 = push_type m i float
apply_opcode m i ret_ty Opcode.dconst0 = push_type m i double
apply_opcode m i ret_ty Opcode.dconst1 = push_type m i double
apply_opcode m i ret_ty Opcode.bipush = push_type m i int
apply_opcode m i ret_ty Opcode.sipush = push_type m i int
apply_opcode m i ret_ty Opcode.ldc = push_constant m i
apply_opcode m i ret_ty Opcode.ldc_w = push_constant m i
apply_opcode m i ret_ty Opcode.ldc2_w = push_constant m i
apply_opcode m i ret_ty Opcode.iload = load_type m i int
apply_opcode m i ret_ty Opcode.lload = load_type m i long
apply_opcode m i ret_ty Opcode.fload = load_type m i float
apply_opcode m i ret_ty Opcode.dload = load_type m i double
apply_opcode m i ret_ty Opcode.aload = load_reference m i
apply_opcode m i ret_ty Opcode.iload0 = load_type m i int
apply_opcode m i ret_ty Opcode.iload1 = load_type m i int
apply_opcode m i ret_ty Opcode.iload2 = load_type m i int
apply_opcode m i ret_ty Opcode.iload3 = load_type m i int
apply_opcode m i ret_ty Opcode.lload0 = load_type m i long
apply_opcode m i ret_ty Opcode.lload1 = load_type m i long
apply_opcode m i ret_ty Opcode.lload2 = load_type m i long
apply_opcode m i ret_ty Opcode.lload3 = load_type m i long
apply_opcode m i ret_ty Opcode.fload0 = load_type m i float
apply_opcode m i ret_ty Opcode.fload1 = load_type m i float
apply_opcode m i ret_ty Opcode.fload2 = load_type m i float
apply_opcode m i ret_ty Opcode.fload3 = load_type m i float
apply_opcode m i ret_ty Opcode.dload0 = load_type m i double
apply_opcode m i ret_ty Opcode.dload1 = load_type m i double
apply_opcode m i ret_ty Opcode.dload2 = load_type m i double
apply_opcode m i ret_ty Opcode.dload3 = load_type m i double
apply_opcode m i ret_ty Opcode.aload0 = load_reference m i
apply_opcode m i ret_ty Opcode.aload1 = load_reference m i
apply_opcode m i ret_ty Opcode.aload2 = load_reference m i
apply_opcode m i ret_ty Opcode.aload3 = load_reference m i
apply_opcode m i ret_ty Opcode.iaload = load_element m i int
apply_opcode m i ret_ty Opcode.laload = load_element m i long
apply_opcode m i ret_ty Opcode.faload = load_element m i float
apply_opcode m i ret_ty Opcode.daload = load_element m i double
apply_opcode m i ret_ty Opcode.aaload = load_element m i (reference none)
apply_opcode m i ret_ty Opcode.baload = load_element m i int
apply_opcode m i ret_ty Opcode.caload = load_element m i int
apply_opcode m i ret_ty Opcode.saload = load_element m i int
apply_opcode m i ret_ty Opcode.istore = store_type m i int
apply_opcode m i ret_ty Opcode.lstore = store_type m i long
apply_opcode m i ret_ty Opcode.fstore = store_type m i float
apply_opcode m i ret_ty Opcode.dstore = store_type m i double
apply_opcode m i ret_ty Opcode.astore = store_reference m i
apply_opcode m i ret_ty Opcode.istore0 = store_type m i int
apply_opcode m i ret_ty Opcode.istore1 = store_type m i int
apply_opcode m i ret_ty Opcode.istore2 = store_type m i int
apply_opcode m i ret_ty Opcode.istore3 = store_type m i int
apply_opcode m i ret_ty Opcode.lstore0 = store_type m i long
apply_opcode m i ret_ty Opcode.lstore1 = store_type m i long
apply_opcode m i ret_ty Opcode.lstore2 = store_type m i long
apply_opcode m i ret_ty Opcode.lstore3 = store_type m i long
apply_opcode m i ret_ty Opcode.fstore0 = store_type m i float
apply_opcode m i ret_ty Opcode.fstore1 = store_type m i float
apply_opcode m i ret_ty Opcode.fstore2 = store_type m i float
apply_opcode m i ret_ty Opcode.fstore3 = store_type m i float
apply_opcode m i ret_ty Opcode.dstore0 = store_type m i double
apply_opcode m i ret_ty Opcode.dstore1 = store_type m i double
apply_opcode m i ret_ty Opcode.dstore2 = store_type m i double
apply_opcode m i ret_ty Opcode.dstore3 = store_type m i double
apply_opcode m i ret_ty Opcode.astore0 = store_reference m i
apply_opcode m i ret_ty Opcode.astore1 = store_reference m i
apply_opcode m i ret_ty Opcode.astore2 = store_reference m i
apply_opcode m i ret_ty Opcode.astore3 = store_reference m i
apply_opcode m i ret_ty Opcode.iastore = store_element m i pop_expect_int
apply_opcode m i ret_ty Opcode.lastore = store_element m i pop_expect_long
apply_opcode m i ret_ty Opcode.fastore = store_element m i pop_expect_float
apply_opcode m i ret_ty Opcode.dastore = store_element m i pop_expect_double
apply_opcode m i ret_ty Opcode.aastore = store_element m i pop_expect_reference
apply_opcode m i ret_ty Opcode.bastore = store_element m i pop_expect_int
apply_opcode m i ret_ty Opcode.castore = store_element m i pop_expect_int
apply_opcode m i ret_ty Opcode.sastore = store_element m i pop_expect_int
apply_opcode m i ret_ty Opcode.pop = pop_one m i
apply_opcode m i ret_ty Opcode.pop2 = pop_two m i
apply_opcode m i ret_ty Opcode.dup = Shuffle.dup m i
apply_opcode m i ret_ty Opcode.dup_x1 = Shuffle.dup_x1 m i
apply_opcode m i ret_ty Opcode.dup_x2 = Shuffle.dup_x2 m i
apply_opcode m i ret_ty Opcode.dup2 = Shuffle.dup2 m i
apply_opcode m i ret_ty Opcode.dup2_x1 = Shuffle.dup2_x1 m i
apply_opcode m i ret_ty Opcode.dup2_x2 = Shuffle.dup2_x2 m i
apply_opcode m i ret_ty Opcode.swap = Shuffle.swap m i
apply_opcode m i ret_ty Opcode.iadd = binary m i pop_expect_int pop_expect_int int
apply_opcode m i ret_ty Opcode.ladd = binary m i pop_expect_long pop_expect_long long
apply_opcode m i ret_ty Opcode.fadd = binary m i pop_expect_float pop_expect_float float
apply_opcode m i ret_ty Opcode.dadd = binary m i pop_expect_double pop_expect_double double
apply_opcode m i ret_ty Opcode.isub = binary m i pop_expect_int pop_expect_int int
apply_opcode m i ret_ty Opcode.lsub = binary m i pop_expect_long pop_expect_long long
apply_opcode m i ret_ty Opcode.fsub = binary m i pop_expect_float pop_expect_float float
apply_opcode m i ret_ty Opcode.dsub = binary m i pop_expect_double pop_expect_double double
apply_opcode m i ret_ty Opcode.imul = binary m i pop_expect_int pop_expect_int int
apply_opcode m i ret_ty Opcode.lmul = binary m i pop_expect_long pop_expect_long long
apply_opcode m i ret_ty Opcode.fmul = binary m i pop_expect_float pop_expect_float float
apply_opcode m i ret_ty Opcode.dmul = binary m i pop_expect_double pop_expect_double double
apply_opcode m i ret_ty Opcode.idiv = binary m i pop_expect_int pop_expect_int int
apply_opcode m i ret_ty Opcode.ldiv = binary m i pop_expect_long pop_expect_long long
apply_opcode m i ret_ty Opcode.fdiv = binary m i pop_expect_float pop_expect_float float
apply_opcode m i ret_ty Opcode.ddiv = binary m i pop_expect_double pop_expect_double double
apply_opcode m i ret_ty Opcode.irem = binary m i pop_expect_int pop_expect_int int
apply_opcode m i ret_ty Opcode.lrem = binary m i pop_expect_long pop_expect_long long
apply_opcode m i ret_ty Opcode.frem = binary m i pop_expect_float pop_expect_float float
apply_opcode m i ret_ty Opcode.drem = binary m i pop_expect_double pop_expect_double double
apply_opcode m i ret_ty Opcode.ineg = unary m i pop_expect_int int
apply_opcode m i ret_ty Opcode.lneg = unary m i pop_expect_long long
apply_opcode m i ret_ty Opcode.fneg = unary m i pop_expect_float float
apply_opcode m i ret_ty Opcode.dneg = unary m i pop_expect_double double
apply_opcode m i ret_ty Opcode.ishl = binary m i pop_expect_int pop_expect_int int
apply_opcode m i ret_ty Opcode.lshl = binary m i pop_expect_int pop_expect_long long
apply_opcode m i ret_ty Opcode.ishr = binary m i pop_expect_int pop_expect_int int
apply_opcode m i ret_ty Opcode.lshr = binary m i pop_expect_int pop_expect_long long
apply_opcode m i ret_ty Opcode.iushr = binary m i pop_expect_int pop_expect_int int
apply_opcode m i ret_ty Opcode.lushr = binary m i pop_expect_int pop_expect_long long
apply_opcode m i ret_ty Opcode.iand = binary m i pop_expect_int pop_expect_int int
apply_opcode m i ret_ty Opcode.land = binary m i pop_expect_long pop_expect_long long
apply_opcode m i ret_ty Opcode.ior = binary m i pop_expect_int pop_expect_int int
apply_opcode m i ret_ty Opcode.lor = binary m i pop_expect_long pop_expect_long long
apply_opcode m i ret_ty Opcode.ixor = binary m i pop_expect_int pop_expect_int int
apply_opcode m i ret_ty Opcode.lxor = binary m i pop_expect_long pop_expect_long long
apply_opcode m i ret_ty Opcode.iinc = increment m i
apply_opcode m i ret_ty Opcode.i2l = convert m i (int ∷ float ∷ double ∷ []) long
apply_opcode m i ret_ty Opcode.i2f = convert m i (int ∷ long ∷ double ∷ []) float
apply_opcode m i ret_ty Opcode.i2d = convert m i (int ∷ long ∷ float ∷ []) double
apply_opcode m i ret_ty Opcode.l2i = convert m i (long ∷ float ∷ double ∷ int ∷ []) int
apply_opcode m i ret_ty Opcode.l2f = convert m i (int ∷ long ∷ double ∷ []) float
apply_opcode m i ret_ty Opcode.l2d = convert m i (int ∷ long ∷ float ∷ []) double
apply_opcode m i ret_ty Opcode.f2i = convert m i (long ∷ float ∷ double ∷ int ∷ []) int
apply_opcode m i ret_ty Opcode.f2l = convert m i (int ∷ float ∷ double ∷ []) long
apply_opcode m i ret_ty Opcode.f2d = convert m i (int ∷ long ∷ float ∷ []) double
apply_opcode m i ret_ty Opcode.d2i = convert m i (long ∷ float ∷ double ∷ int ∷ []) int
apply_opcode m i ret_ty Opcode.d2l = convert m i (int ∷ float ∷ double ∷ []) long
apply_opcode m i ret_ty Opcode.d2f = convert m i (int ∷ long ∷ double ∷ []) float
apply_opcode m i ret_ty Opcode.i2b = convert m i (long ∷ float ∷ double ∷ int ∷ []) int
apply_opcode m i ret_ty Opcode.i2c = convert m i (long ∷ float ∷ double ∷ int ∷ []) int
apply_opcode m i ret_ty Opcode.i2s = convert m i (long ∷ float ∷ double ∷ int ∷ []) int
apply_opcode m i ret_ty Opcode.lcmp = binary m i pop_expect_long pop_expect_long int
apply_opcode m i ret_ty Opcode.fcmpl = binary m i pop_expect_float pop_expect_float int
apply_opcode m i ret_ty Opcode.fcmpg = binary m i pop_expect_float pop_expect_float int
apply_opcode m i ret_ty Opcode.dcmpl = binary m i pop_expect_double pop_expect_double int
apply_opcode m i ret_ty Opcode.dcmpg = binary m i pop_expect_double pop_expect_double int
apply_opcode m i ret_ty Opcode.ifeq = pop_expect_int i.pc
apply_opcode m i ret_ty Opcode.ifne = pop_expect_int i.pc
apply_opcode m i ret_ty Opcode.iflt = pop_expect_int i.pc
apply_opcode m i ret_ty Opcode.ifge = pop_expect_int i.pc
apply_opcode m i ret_ty Opcode.ifgt = pop_expect_int i.pc
apply_opcode m i ret_ty Opcode.ifle = pop_expect_int i.pc
apply_opcode m i ret_ty Opcode.if_icmpeq = compare m i pop_expect_int
apply_opcode m i ret_ty Opcode.if_icmpne = compare m i pop_expect_int
apply_opcode m i ret_ty Opcode.if_icmplt = compare m i pop_expect_int
apply_opcode m i ret_ty Opcode.if_icmpge = compare m i pop_expect_int
apply_opcode m i ret_ty Opcode.if_icmpgt = compare m i pop_expect_int
apply_opcode m i ret_ty Opcode.if_icmple = compare m i pop_expect_int
apply_opcode m i ret_ty Opcode.if_acmpeq = compare m i pop_expect_reference
apply_opcode m i ret_ty Opcode.if_acmpne = compare m i pop_expect_reference
apply_opcode m i ret_ty Opcode.goto = pure tt
apply_opcode m i ret_ty Opcode.tableswitch = pop_expect_int i.pc
apply_opcode m i ret_ty Opcode.lookupswitch = pop_expect_int i.pc
apply_opcode m i ret_ty Opcode.ireturn = return_type m i ret_ty pop_expect_int int
apply_opcode m i ret_ty Opcode.lreturn = return_type m i ret_ty pop_expect_long long
apply_opcode m i ret_ty Opcode.freturn = return_type m i ret_ty pop_expect_float float
apply_opcode m i ret_ty Opcode.dreturn = return_type m i ret_ty pop_expect_double double
apply_opcode m i ret_ty Opcode.areturn = return_reference m i ret_ty
apply_opcode m i ret_ty Opcode.return = return_void m i ret_ty
apply_opcode m i ret_ty Opcode.getstatic = get_static m i
apply_opcode m i ret_ty Opcode.putstatic = put_static m i
apply_opcode m i ret_ty Opcode.getfield = get_field m i
apply_opcode m i ret_ty Opcode.putfield = put_field m i
apply_opcode m i ret_ty Opcode.invokevirtual = invoke m i false false
apply_opcode m i ret_ty Opcode.invokespecial = invoke m i false true
apply_opcode m i ret_ty Opcode.invokestatic = invoke m i true false
apply_opcode m i ret_ty Opcode.jsr = jump_subroutine m i
apply_opcode m i ret_ty Opcode.ret = return_from_subroutine m i
apply_opcode m i ret_ty Opcode.invokeinterface = invoke m i false false
apply_opcode m i ret_ty Opcode.invokedynamic = invoke_dynamic m i
apply_opcode m i ret_ty Opcode.new = new_object m i
apply_opcode m i ret_ty Opcode.newarray = new_array m i
apply_opcode m i ret_ty Opcode.anewarray = new_array m i
apply_opcode m i ret_ty Opcode.arraylength = unary m i pop_expect_reference int
apply_opcode m i ret_ty Opcode.athrow = throw m i
apply_opcode m i ret_ty Opcode.checkcast = check_cast m i
apply_opcode m i ret_ty Opcode.instanceof = unary m i pop_expect_reference int
apply_opcode m i ret_ty Opcode.monitorenter = pop_expect_reference i.pc
apply_opcode m i ret_ty Opcode.monitorexit = pop_expect_reference i.pc
apply_opcode m i ret_ty Opcode.wide = lift panic
apply_opcode m i ret_ty Opcode.multianewarray = new_array m i
apply_opcode m i ret_ty Opcode.ifnull = pop_expect_reference i.pc
apply_opcode m i ret_ty Opcode.ifnonnull = pop_expect_reference i.pc
apply_opcode m i ret_ty Opcode.goto_w = pure tt
apply_opcode m i ret_ty Opcode.jsr_w = jump_subroutine m i

unfoldable pub apply_instruction : Method → DecodedInstruction → Step
unfolding apply_opcode
apply_instruction method insn =
    lift (parse_method_descriptor (as_bytes method.descriptor)) >>= λ descriptor.
    apply_opcode method insn descriptor.1 insn.opcode
