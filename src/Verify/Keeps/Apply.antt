-- ===== src/Verify/Keeps/Apply.antt =====
-- `apply_instruction` of src/vm/verify.rs: the shape of the frame state.
use jvm_rs.Prelude.{ℕ, ◌≤◌, true, false, Option}
use jvm_rs.Types.Value.{panic}
use jvm_rs.Types.Method.{Method}
use jvm_rs.Opcode.{Opcode}
use jvm_rs.Verify.Types.{VerifyType, FrameState}
use jvm_rs.Verify.Instruction.{DecodedInstruction}
use jvm_rs.Verify.Apply.{apply_opcode, apply_instruction}
use jvm_rs.Verify.Keeps.{
  Fits, Keeps, bind-Keeps, lift-Keeps, pop_double-Keeps, pop_float-Keeps, pop_int-Keeps,
  pop_long-Keeps, pop_reference-Keeps, pure-Keeps,
}
use jvm_rs.Verify.Keeps.Arms.{
  binary-Keeps, compare-Keeps, convert-Keeps, increment-Keeps, jump_subroutine-Keeps,
  load_element-Keeps, load_reference-Keeps, load_type-Keeps, push_constant-Keeps, push_type-Keeps,
  return_from_subroutine-Keeps, return_reference-Keeps, return_type-Keeps, return_void-Keeps,
  store_element-Keeps, store_reference-Keeps, store_type-Keeps, unary-Keeps,
}
use jvm_rs.Verify.Keeps.Members.{
  check_cast-Keeps, dup-Keeps, dup2-Keeps, dup2_x1-Keeps, dup2_x2-Keeps, dup_x1-Keeps, dup_x2-Keeps,
  get_field-Keeps, get_static-Keeps, invoke-Keeps, invoke_dynamic-Keeps, new_array-Keeps,
  new_object-Keeps, pop_one-Keeps, pop_two-Keeps, put_field-Keeps, put_static-Keeps, swap-Keeps,
  throw-Keeps,
}

apply_opcode-Keeps :
    (m : Method) (i : DecodedInstruction) {n cap : ℕ} (le : m.max_stack ≤ cap)
    (ret_ty : Option VerifyType) (op : Opcode)
    → Keeps n cap (apply_opcode m i ret_ty op)
unfolding apply_opcode
apply_opcode-Keeps m i le ret_ty Opcode.aconst_null = push_type-Keeps m i le _
apply_opcode-Keeps m i le ret_ty Opcode.iconst_m1 = push_type-Keeps m i le _
apply_opcode-Keeps m i le ret_ty Opcode.iconst0 = push_type-Keeps m i le _
apply_opcode-Keeps m i le ret_ty Opcode.iconst1 = push_type-Keeps m i le _
apply_opcode-Keeps m i le ret_ty Opcode.iconst2 = push_type-Keeps m i le _
apply_opcode-Keeps m i le ret_ty Opcode.iconst3 = push_type-Keeps m i le _
apply_opcode-Keeps m i le ret_ty Opcode.iconst4 = push_type-Keeps m i le _
apply_opcode-Keeps m i le ret_ty Opcode.iconst5 = push_type-Keeps m i le _
apply_opcode-Keeps m i le ret_ty Opcode.lconst0 = push_type-Keeps m i le _
apply_opcode-Keeps m i le ret_ty Opcode.lconst1 = push_type-Keeps m i le _
apply_opcode-Keeps m i le ret_ty Opcode.fconst0 = push_type-Keeps m i le _
apply_opcode-Keeps m i le ret_ty Opcode.fconst1 = push_type-Keeps m i le _
apply_opcode-Keeps m i le ret_ty Opcode.fconst2 = push_type-Keeps m i le _
apply_opcode-Keeps m i le ret_ty Opcode.dconst0 = push_type-Keeps m i le _
apply_opcode-Keeps m i le ret_ty Opcode.dconst1 = push_type-Keeps m i le _
apply_opcode-Keeps m i le ret_ty Opcode.bipush = push_type-Keeps m i le _
apply_opcode-Keeps m i le ret_ty Opcode.sipush = push_type-Keeps m i le _
apply_opcode-Keeps m i le ret_ty Opcode.ldc = push_constant-Keeps m i le
apply_opcode-Keeps m i le ret_ty Opcode.ldc_w = push_constant-Keeps m i le
apply_opcode-Keeps m i le ret_ty Opcode.ldc2_w = push_constant-Keeps m i le
apply_opcode-Keeps m i le ret_ty Opcode.iload = load_type-Keeps m i le _
apply_opcode-Keeps m i le ret_ty Opcode.lload = load_type-Keeps m i le _
apply_opcode-Keeps m i le ret_ty Opcode.fload = load_type-Keeps m i le _
apply_opcode-Keeps m i le ret_ty Opcode.dload = load_type-Keeps m i le _
apply_opcode-Keeps m i le ret_ty Opcode.aload = load_reference-Keeps m i le
apply_opcode-Keeps m i le ret_ty Opcode.iload0 = load_type-Keeps m i le _
apply_opcode-Keeps m i le ret_ty Opcode.iload1 = load_type-Keeps m i le _
apply_opcode-Keeps m i le ret_ty Opcode.iload2 = load_type-Keeps m i le _
apply_opcode-Keeps m i le ret_ty Opcode.iload3 = load_type-Keeps m i le _
apply_opcode-Keeps m i le ret_ty Opcode.lload0 = load_type-Keeps m i le _
apply_opcode-Keeps m i le ret_ty Opcode.lload1 = load_type-Keeps m i le _
apply_opcode-Keeps m i le ret_ty Opcode.lload2 = load_type-Keeps m i le _
apply_opcode-Keeps m i le ret_ty Opcode.lload3 = load_type-Keeps m i le _
apply_opcode-Keeps m i le ret_ty Opcode.fload0 = load_type-Keeps m i le _
apply_opcode-Keeps m i le ret_ty Opcode.fload1 = load_type-Keeps m i le _
apply_opcode-Keeps m i le ret_ty Opcode.fload2 = load_type-Keeps m i le _
apply_opcode-Keeps m i le ret_ty Opcode.fload3 = load_type-Keeps m i le _
apply_opcode-Keeps m i le ret_ty Opcode.dload0 = load_type-Keeps m i le _
apply_opcode-Keeps m i le ret_ty Opcode.dload1 = load_type-Keeps m i le _
apply_opcode-Keeps m i le ret_ty Opcode.dload2 = load_type-Keeps m i le _
apply_opcode-Keeps m i le ret_ty Opcode.dload3 = load_type-Keeps m i le _
apply_opcode-Keeps m i le ret_ty Opcode.aload0 = load_reference-Keeps m i le
apply_opcode-Keeps m i le ret_ty Opcode.aload1 = load_reference-Keeps m i le
apply_opcode-Keeps m i le ret_ty Opcode.aload2 = load_reference-Keeps m i le
apply_opcode-Keeps m i le ret_ty Opcode.aload3 = load_reference-Keeps m i le
apply_opcode-Keeps m i le ret_ty Opcode.iaload = load_element-Keeps m i le _
apply_opcode-Keeps m i le ret_ty Opcode.laload = load_element-Keeps m i le _
apply_opcode-Keeps m i le ret_ty Opcode.faload = load_element-Keeps m i le _
apply_opcode-Keeps m i le ret_ty Opcode.daload = load_element-Keeps m i le _
apply_opcode-Keeps m i le ret_ty Opcode.aaload = load_element-Keeps m i le _
apply_opcode-Keeps m i le ret_ty Opcode.baload = load_element-Keeps m i le _
apply_opcode-Keeps m i le ret_ty Opcode.caload = load_element-Keeps m i le _
apply_opcode-Keeps m i le ret_ty Opcode.saload = load_element-Keeps m i le _
apply_opcode-Keeps m i le ret_ty Opcode.istore = store_type-Keeps m i le _
apply_opcode-Keeps m i le ret_ty Opcode.lstore = store_type-Keeps m i le _
apply_opcode-Keeps m i le ret_ty Opcode.fstore = store_type-Keeps m i le _
apply_opcode-Keeps m i le ret_ty Opcode.dstore = store_type-Keeps m i le _
apply_opcode-Keeps m i le ret_ty Opcode.astore = store_reference-Keeps m i le
apply_opcode-Keeps m i le ret_ty Opcode.istore0 = store_type-Keeps m i le _
apply_opcode-Keeps m i le ret_ty Opcode.istore1 = store_type-Keeps m i le _
apply_opcode-Keeps m i le ret_ty Opcode.istore2 = store_type-Keeps m i le _
apply_opcode-Keeps m i le ret_ty Opcode.istore3 = store_type-Keeps m i le _
apply_opcode-Keeps m i le ret_ty Opcode.lstore0 = store_type-Keeps m i le _
apply_opcode-Keeps m i le ret_ty Opcode.lstore1 = store_type-Keeps m i le _
apply_opcode-Keeps m i le ret_ty Opcode.lstore2 = store_type-Keeps m i le _
apply_opcode-Keeps m i le ret_ty Opcode.lstore3 = store_type-Keeps m i le _
apply_opcode-Keeps m i le ret_ty Opcode.fstore0 = store_type-Keeps m i le _
apply_opcode-Keeps m i le ret_ty Opcode.fstore1 = store_type-Keeps m i le _
apply_opcode-Keeps m i le ret_ty Opcode.fstore2 = store_type-Keeps m i le _
apply_opcode-Keeps m i le ret_ty Opcode.fstore3 = store_type-Keeps m i le _
apply_opcode-Keeps m i le ret_ty Opcode.dstore0 = store_type-Keeps m i le _
apply_opcode-Keeps m i le ret_ty Opcode.dstore1 = store_type-Keeps m i le _
apply_opcode-Keeps m i le ret_ty Opcode.dstore2 = store_type-Keeps m i le _
apply_opcode-Keeps m i le ret_ty Opcode.dstore3 = store_type-Keeps m i le _
apply_opcode-Keeps m i le ret_ty Opcode.astore0 = store_reference-Keeps m i le
apply_opcode-Keeps m i le ret_ty Opcode.astore1 = store_reference-Keeps m i le
apply_opcode-Keeps m i le ret_ty Opcode.astore2 = store_reference-Keeps m i le
apply_opcode-Keeps m i le ret_ty Opcode.astore3 = store_reference-Keeps m i le
apply_opcode-Keeps m i le ret_ty Opcode.iastore = store_element-Keeps m i le _ (pop_int-Keeps i.pc)
apply_opcode-Keeps m i le ret_ty Opcode.lastore = store_element-Keeps m i le _ (pop_long-Keeps i.pc)
apply_opcode-Keeps m i le ret_ty Opcode.fastore =
    store_element-Keeps m i le _ (pop_float-Keeps i.pc)
apply_opcode-Keeps m i le ret_ty Opcode.dastore =
    store_element-Keeps m i le _ (pop_double-Keeps i.pc)
apply_opcode-Keeps m i le ret_ty Opcode.aastore =
    store_element-Keeps m i le _ (pop_reference-Keeps i.pc)
apply_opcode-Keeps m i le ret_ty Opcode.bastore = store_element-Keeps m i le _ (pop_int-Keeps i.pc)
apply_opcode-Keeps m i le ret_ty Opcode.castore = store_element-Keeps m i le _ (pop_int-Keeps i.pc)
apply_opcode-Keeps m i le ret_ty Opcode.sastore = store_element-Keeps m i le _ (pop_int-Keeps i.pc)
apply_opcode-Keeps m i le ret_ty Opcode.pop = pop_one-Keeps m i le
apply_opcode-Keeps m i le ret_ty Opcode.pop2 = pop_two-Keeps m i le
apply_opcode-Keeps m i le ret_ty Opcode.dup = dup-Keeps m i le
apply_opcode-Keeps m i le ret_ty Opcode.dup_x1 = dup_x1-Keeps m i le
apply_opcode-Keeps m i le ret_ty Opcode.dup_x2 = dup_x2-Keeps m i le
apply_opcode-Keeps m i le ret_ty Opcode.dup2 = dup2-Keeps m i le
apply_opcode-Keeps m i le ret_ty Opcode.dup2_x1 = dup2_x1-Keeps m i le
apply_opcode-Keeps m i le ret_ty Opcode.dup2_x2 = dup2_x2-Keeps m i le
apply_opcode-Keeps m i le ret_ty Opcode.swap = swap-Keeps m i le
apply_opcode-Keeps m i le ret_ty Opcode.iadd =
    binary-Keeps m i le _ _ _ (pop_int-Keeps i.pc) (pop_int-Keeps i.pc)
apply_opcode-Keeps m i le ret_ty Opcode.ladd =
    binary-Keeps m i le _ _ _ (pop_long-Keeps i.pc) (pop_long-Keeps i.pc)
apply_opcode-Keeps m i le ret_ty Opcode.fadd =
    binary-Keeps m i le _ _ _ (pop_float-Keeps i.pc) (pop_float-Keeps i.pc)
apply_opcode-Keeps m i le ret_ty Opcode.dadd =
    binary-Keeps m i le _ _ _ (pop_double-Keeps i.pc) (pop_double-Keeps i.pc)
apply_opcode-Keeps m i le ret_ty Opcode.isub =
    binary-Keeps m i le _ _ _ (pop_int-Keeps i.pc) (pop_int-Keeps i.pc)
apply_opcode-Keeps m i le ret_ty Opcode.lsub =
    binary-Keeps m i le _ _ _ (pop_long-Keeps i.pc) (pop_long-Keeps i.pc)
apply_opcode-Keeps m i le ret_ty Opcode.fsub =
    binary-Keeps m i le _ _ _ (pop_float-Keeps i.pc) (pop_float-Keeps i.pc)
apply_opcode-Keeps m i le ret_ty Opcode.dsub =
    binary-Keeps m i le _ _ _ (pop_double-Keeps i.pc) (pop_double-Keeps i.pc)
apply_opcode-Keeps m i le ret_ty Opcode.imul =
    binary-Keeps m i le _ _ _ (pop_int-Keeps i.pc) (pop_int-Keeps i.pc)
apply_opcode-Keeps m i le ret_ty Opcode.lmul =
    binary-Keeps m i le _ _ _ (pop_long-Keeps i.pc) (pop_long-Keeps i.pc)
apply_opcode-Keeps m i le ret_ty Opcode.fmul =
    binary-Keeps m i le _ _ _ (pop_float-Keeps i.pc) (pop_float-Keeps i.pc)
apply_opcode-Keeps m i le ret_ty Opcode.dmul =
    binary-Keeps m i le _ _ _ (pop_double-Keeps i.pc) (pop_double-Keeps i.pc)
apply_opcode-Keeps m i le ret_ty Opcode.idiv =
    binary-Keeps m i le _ _ _ (pop_int-Keeps i.pc) (pop_int-Keeps i.pc)
apply_opcode-Keeps m i le ret_ty Opcode.ldiv =
    binary-Keeps m i le _ _ _ (pop_long-Keeps i.pc) (pop_long-Keeps i.pc)
apply_opcode-Keeps m i le ret_ty Opcode.fdiv =
    binary-Keeps m i le _ _ _ (pop_float-Keeps i.pc) (pop_float-Keeps i.pc)
apply_opcode-Keeps m i le ret_ty Opcode.ddiv =
    binary-Keeps m i le _ _ _ (pop_double-Keeps i.pc) (pop_double-Keeps i.pc)
apply_opcode-Keeps m i le ret_ty Opcode.irem =
    binary-Keeps m i le _ _ _ (pop_int-Keeps i.pc) (pop_int-Keeps i.pc)
apply_opcode-Keeps m i le ret_ty Opcode.lrem =
    binary-Keeps m i le _ _ _ (pop_long-Keeps i.pc) (pop_long-Keeps i.pc)
apply_opcode-Keeps m i le ret_ty Opcode.frem =
    binary-Keeps m i le _ _ _ (pop_float-Keeps i.pc) (pop_float-Keeps i.pc)
apply_opcode-Keeps m i le ret_ty Opcode.drem =
    binary-Keeps m i le _ _ _ (pop_double-Keeps i.pc) (pop_double-Keeps i.pc)
apply_opcode-Keeps m i le ret_ty Opcode.ineg = unary-Keeps m i le _ _ (pop_int-Keeps i.pc)
apply_opcode-Keeps m i le ret_ty Opcode.lneg = unary-Keeps m i le _ _ (pop_long-Keeps i.pc)
apply_opcode-Keeps m i le ret_ty Opcode.fneg = unary-Keeps m i le _ _ (pop_float-Keeps i.pc)
apply_opcode-Keeps m i le ret_ty Opcode.dneg = unary-Keeps m i le _ _ (pop_double-Keeps i.pc)
apply_opcode-Keeps m i le ret_ty Opcode.ishl =
    binary-Keeps m i le _ _ _ (pop_int-Keeps i.pc) (pop_int-Keeps i.pc)
apply_opcode-Keeps m i le ret_ty Opcode.lshl =
    binary-Keeps m i le _ _ _ (pop_int-Keeps i.pc) (pop_long-Keeps i.pc)
apply_opcode-Keeps m i le ret_ty Opcode.ishr =
    binary-Keeps m i le _ _ _ (pop_int-Keeps i.pc) (pop_int-Keeps i.pc)
apply_opcode-Keeps m i le ret_ty Opcode.lshr =
    binary-Keeps m i le _ _ _ (pop_int-Keeps i.pc) (pop_long-Keeps i.pc)
apply_opcode-Keeps m i le ret_ty Opcode.iushr =
    binary-Keeps m i le _ _ _ (pop_int-Keeps i.pc) (pop_int-Keeps i.pc)
apply_opcode-Keeps m i le ret_ty Opcode.lushr =
    binary-Keeps m i le _ _ _ (pop_int-Keeps i.pc) (pop_long-Keeps i.pc)
apply_opcode-Keeps m i le ret_ty Opcode.iand =
    binary-Keeps m i le _ _ _ (pop_int-Keeps i.pc) (pop_int-Keeps i.pc)
apply_opcode-Keeps m i le ret_ty Opcode.land =
    binary-Keeps m i le _ _ _ (pop_long-Keeps i.pc) (pop_long-Keeps i.pc)
apply_opcode-Keeps m i le ret_ty Opcode.ior =
    binary-Keeps m i le _ _ _ (pop_int-Keeps i.pc) (pop_int-Keeps i.pc)
apply_opcode-Keeps m i le ret_ty Opcode.lor =
    binary-Keeps m i le _ _ _ (pop_long-Keeps i.pc) (pop_long-Keeps i.pc)
apply_opcode-Keeps m i le ret_ty Opcode.ixor =
    binary-Keeps m i le _ _ _ (pop_int-Keeps i.pc) (pop_int-Keeps i.pc)
apply_opcode-Keeps m i le ret_ty Opcode.lxor =
    binary-Keeps m i le _ _ _ (pop_long-Keeps i.pc) (pop_long-Keeps i.pc)
apply_opcode-Keeps m i le ret_ty Opcode.iinc = increment-Keeps m i le
apply_opcode-Keeps m i le ret_ty Opcode.i2l = convert-Keeps m i le _ _
apply_opcode-Keeps m i le ret_ty Opcode.i2f = convert-Keeps m i le _ _
apply_opcode-Keeps m i le ret_ty Opcode.i2d = convert-Keeps m i le _ _
apply_opcode-Keeps m i le ret_ty Opcode.l2i = convert-Keeps m i le _ _
apply_opcode-Keeps m i le ret_ty Opcode.l2f = convert-Keeps m i le _ _
apply_opcode-Keeps m i le ret_ty Opcode.l2d = convert-Keeps m i le _ _
apply_opcode-Keeps m i le ret_ty Opcode.f2i = convert-Keeps m i le _ _
apply_opcode-Keeps m i le ret_ty Opcode.f2l = convert-Keeps m i le _ _
apply_opcode-Keeps m i le ret_ty Opcode.f2d = convert-Keeps m i le _ _
apply_opcode-Keeps m i le ret_ty Opcode.d2i = convert-Keeps m i le _ _
apply_opcode-Keeps m i le ret_ty Opcode.d2l = convert-Keeps m i le _ _
apply_opcode-Keeps m i le ret_ty Opcode.d2f = convert-Keeps m i le _ _
apply_opcode-Keeps m i le ret_ty Opcode.i2b = convert-Keeps m i le _ _
apply_opcode-Keeps m i le ret_ty Opcode.i2c = convert-Keeps m i le _ _
apply_opcode-Keeps m i le ret_ty Opcode.i2s = convert-Keeps m i le _ _
apply_opcode-Keeps m i le ret_ty Opcode.lcmp =
    binary-Keeps m i le _ _ _ (pop_long-Keeps i.pc) (pop_long-Keeps i.pc)
apply_opcode-Keeps m i le ret_ty Opcode.fcmpl =
    binary-Keeps m i le _ _ _ (pop_float-Keeps i.pc) (pop_float-Keeps i.pc)
apply_opcode-Keeps m i le ret_ty Opcode.fcmpg =
    binary-Keeps m i le _ _ _ (pop_float-Keeps i.pc) (pop_float-Keeps i.pc)
apply_opcode-Keeps m i le ret_ty Opcode.dcmpl =
    binary-Keeps m i le _ _ _ (pop_double-Keeps i.pc) (pop_double-Keeps i.pc)
apply_opcode-Keeps m i le ret_ty Opcode.dcmpg =
    binary-Keeps m i le _ _ _ (pop_double-Keeps i.pc) (pop_double-Keeps i.pc)
apply_opcode-Keeps m i le ret_ty Opcode.ifeq = pop_int-Keeps i.pc
apply_opcode-Keeps m i le ret_ty Opcode.ifne = pop_int-Keeps i.pc
apply_opcode-Keeps m i le ret_ty Opcode.iflt = pop_int-Keeps i.pc
apply_opcode-Keeps m i le ret_ty Opcode.ifge = pop_int-Keeps i.pc
apply_opcode-Keeps m i le ret_ty Opcode.ifgt = pop_int-Keeps i.pc
apply_opcode-Keeps m i le ret_ty Opcode.ifle = pop_int-Keeps i.pc
apply_opcode-Keeps m i le ret_ty Opcode.if_icmpeq = compare-Keeps m i le _ (pop_int-Keeps i.pc)
apply_opcode-Keeps m i le ret_ty Opcode.if_icmpne = compare-Keeps m i le _ (pop_int-Keeps i.pc)
apply_opcode-Keeps m i le ret_ty Opcode.if_icmplt = compare-Keeps m i le _ (pop_int-Keeps i.pc)
apply_opcode-Keeps m i le ret_ty Opcode.if_icmpge = compare-Keeps m i le _ (pop_int-Keeps i.pc)
apply_opcode-Keeps m i le ret_ty Opcode.if_icmpgt = compare-Keeps m i le _ (pop_int-Keeps i.pc)
apply_opcode-Keeps m i le ret_ty Opcode.if_icmple = compare-Keeps m i le _ (pop_int-Keeps i.pc)
apply_opcode-Keeps m i le ret_ty Opcode.if_acmpeq =
    compare-Keeps m i le _ (pop_reference-Keeps i.pc)
apply_opcode-Keeps m i le ret_ty Opcode.if_acmpne =
    compare-Keeps m i le _ (pop_reference-Keeps i.pc)
apply_opcode-Keeps m i le ret_ty Opcode.goto = pure-Keeps tt
apply_opcode-Keeps m i le ret_ty Opcode.tableswitch = pop_int-Keeps i.pc
apply_opcode-Keeps m i le ret_ty Opcode.lookupswitch = pop_int-Keeps i.pc
apply_opcode-Keeps m i le ret_ty Opcode.ireturn =
    return_type-Keeps m i le ret_ty _ _ (pop_int-Keeps i.pc)
apply_opcode-Keeps m i le ret_ty Opcode.lreturn =
    return_type-Keeps m i le ret_ty _ _ (pop_long-Keeps i.pc)
apply_opcode-Keeps m i le ret_ty Opcode.freturn =
    return_type-Keeps m i le ret_ty _ _ (pop_float-Keeps i.pc)
apply_opcode-Keeps m i le ret_ty Opcode.dreturn =
    return_type-Keeps m i le ret_ty _ _ (pop_double-Keeps i.pc)
apply_opcode-Keeps m i le ret_ty Opcode.areturn = return_reference-Keeps m i le ret_ty
apply_opcode-Keeps m i le ret_ty Opcode.return = return_void-Keeps m i le ret_ty
apply_opcode-Keeps m i le ret_ty Opcode.getstatic = get_static-Keeps m i le
apply_opcode-Keeps m i le ret_ty Opcode.putstatic = put_static-Keeps m i le
apply_opcode-Keeps m i le ret_ty Opcode.getfield = get_field-Keeps m i le
apply_opcode-Keeps m i le ret_ty Opcode.putfield = put_field-Keeps m i le
apply_opcode-Keeps m i le ret_ty Opcode.invokevirtual = invoke-Keeps m i le false false
apply_opcode-Keeps m i le ret_ty Opcode.invokespecial = invoke-Keeps m i le false true
apply_opcode-Keeps m i le ret_ty Opcode.invokestatic = invoke-Keeps m i le true false
apply_opcode-Keeps m i le ret_ty Opcode.jsr = jump_subroutine-Keeps m i le
apply_opcode-Keeps m i le ret_ty Opcode.ret = return_from_subroutine-Keeps m i le
apply_opcode-Keeps m i le ret_ty Opcode.invokeinterface = invoke-Keeps m i le false false
apply_opcode-Keeps m i le ret_ty Opcode.invokedynamic = invoke_dynamic-Keeps m i le
apply_opcode-Keeps m i le ret_ty Opcode.new = new_object-Keeps m i le
apply_opcode-Keeps m i le ret_ty Opcode.newarray = new_array-Keeps m i le
apply_opcode-Keeps m i le ret_ty Opcode.anewarray = new_array-Keeps m i le
apply_opcode-Keeps m i le ret_ty Opcode.arraylength =
    unary-Keeps m i le _ _ (pop_reference-Keeps i.pc)
apply_opcode-Keeps m i le ret_ty Opcode.athrow = throw-Keeps m i le
apply_opcode-Keeps m i le ret_ty Opcode.checkcast = check_cast-Keeps m i le
apply_opcode-Keeps m i le ret_ty Opcode.instanceof =
    unary-Keeps m i le _ _ (pop_reference-Keeps i.pc)
apply_opcode-Keeps m i le ret_ty Opcode.monitorenter = pop_reference-Keeps i.pc
apply_opcode-Keeps m i le ret_ty Opcode.monitorexit = pop_reference-Keeps i.pc
apply_opcode-Keeps m i le ret_ty Opcode.wide = lift-Keeps panic
apply_opcode-Keeps m i le ret_ty Opcode.multianewarray = new_array-Keeps m i le
apply_opcode-Keeps m i le ret_ty Opcode.ifnull = pop_reference-Keeps i.pc
apply_opcode-Keeps m i le ret_ty Opcode.ifnonnull = pop_reference-Keeps i.pc
apply_opcode-Keeps m i le ret_ty Opcode.goto_w = pure-Keeps tt
apply_opcode-Keeps m i le ret_ty Opcode.jsr_w = jump_subroutine-Keeps m i le

-- Whatever the instruction and however it ends: the number of locals stays, and the operand stack stays
-- within every bound that is no less than the method's `max_stack`.
pub apply_instruction-Fits :
    (m : Method) (i : DecodedInstruction) {n cap : ℕ} (le : m.max_stack ≤ cap) (state : FrameState)
    → Fits n cap state
    → Fits n cap (apply_instruction m i state).1
unfolding apply_instruction
apply_instruction-Fits m i le =
    (bind-Keeps _ _ (lift-Keeps _) λ d. apply_opcode-Keeps m i le d.1 i.opcode).keeps
