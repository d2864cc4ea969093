-- ===== src/Opcode/Bytes.antt =====
-- src/bytecode.rs: reading an opcode back from its byte.
use jvm_rs.Prelude.{
  ℕ, ◌≡◌, ◌<◌, ◌↔◌, refl, Bool, true, Option, none, some, ◌==◌, all_below, all_below-true, ==_iff,
}
use jvm_rs.Opcode.FromByte.{from_byte}
use jvm_rs.Opcode.{
  Opcode, to_byte, aconst_null, iconst_m1, iconst0, iconst1, iconst2, iconst3, iconst4, iconst5,
  lconst0, lconst1, fconst0, fconst1, fconst2, dconst0, dconst1, bipush, sipush, ldc, ldc_w, ldc2_w,
  iload, lload, fload, dload, aload, iload0, iload1, iload2, iload3, lload0, lload1, lload2, lload3,
  fload0, fload1, fload2, fload3, dload0, dload1, dload2, dload3, aload0, aload1, aload2, aload3,
  iaload, laload, faload, daload, aaload, baload, caload, saload, istore, lstore, fstore, dstore,
  astore, istore0, istore1, istore2, istore3, lstore0, lstore1, lstore2, lstore3, fstore0, fstore1,
  fstore2, fstore3, dstore0, dstore1, dstore2, dstore3, astore0, astore1, astore2, astore3, iastore,
  lastore, fastore, dastore, aastore, bastore, castore, sastore, pop, pop2, dup, dup_x1, dup_x2,
  dup2, dup2_x1, dup2_x2, swap, iadd, ladd, fadd, dadd, isub, lsub, fsub, dsub, imul, lmul, fmul,
  dmul, idiv, ldiv, fdiv, ddiv, irem, lrem, frem, drem, ineg, lneg, fneg, dneg, ishl, lshl, ishr,
  lshr, iushr, lushr, iand, land, ior, lor, ixor, lxor, iinc, i2l, i2f, i2d, l2i, l2f, l2d, f2i,
  f2l, f2d, d2i, d2l, d2f, i2b, i2c, i2s, lcmp, fcmpl, fcmpg, dcmpl, dcmpg, ifeq, ifne, iflt, ifge,
  ifgt, ifle, if_icmpeq, if_icmpne, if_icmplt, if_icmpge, if_icmpgt, if_icmple, if_acmpeq,
  if_acmpne, goto, tableswitch, lookupswitch, ireturn, lreturn, freturn, dreturn, areturn, return,
  getstatic, putstatic, getfield, putfield, invokevirtual, invokespecial, invokestatic, jsr, ret,
  invokeinterface, invokedynamic, new, newarray, anewarray, arraylength, athrow, checkcast,
  instanceof, monitorenter, monitorexit, wide, multianewarray, ifnull, ifnonnull, goto_w, jsr_w,
}

pub from_byte-to_byte : (op : Opcode) → from_byte (to_byte op) ≡ some op
unfolding from_byte to_byte
from_byte-to_byte aconst_null = refl
from_byte-to_byte iconst_m1 = refl
from_byte-to_byte iconst0 = refl
from_byte-to_byte iconst1 = refl
from_byte-to_byte iconst2 = refl
from_byte-to_byte iconst3 = refl
from_byte-to_byte iconst4 = refl
from_byte-to_byte iconst5 = refl
from_byte-to_byte lconst0 = refl
from_byte-to_byte lconst1 = refl
from_byte-to_byte fconst0 = refl
from_byte-to_byte fconst1 = refl
from_byte-to_byte fconst2 = refl
from_byte-to_byte dconst0 = refl
from_byte-to_byte dconst1 = refl
from_byte-to_byte bipush = refl
from_byte-to_byte sipush = refl
from_byte-to_byte ldc = refl
from_byte-to_byte ldc_w = refl
from_byte-to_byte ldc2_w = refl
from_byte-to_byte iload = refl
from_byte-to_byte lload = refl
from_byte-to_byte fload = refl
from_byte-to_byte dload = refl
from_byte-to_byte aload = refl
from_byte-to_byte iload0 = refl
from_byte-to_byte iload1 = refl
from_byte-to_byte iload2 = refl
from_byte-to_byte iload3 = refl
from_byte-to_byte lload0 = refl
from_byte-to_byte lload1 = refl
from_byte-to_byte lload2 = refl
from_byte-to_byte lload3 = refl
from_byte-to_byte fload0 = refl
from_byte-to_byte fload1 = refl
from_byte-to_byte fload2 = refl
from_byte-to_byte fload3 = refl
from_byte-to_byte dload0 = refl
from_byte-to_byte dload1 = refl
from_byte-to_byte dload2 = refl
from_byte-to_byte dload3 = refl
from_byte-to_byte aload0 = refl
from_byte-to_byte aload1 = refl
from_byte-to_byte aload2 = refl
from_byte-to_byte aload3 = refl
from_byte-to_byte iaload = refl
from_byte-to_byte laload = refl
from_byte-to_byte faload = refl
from_byte-to_byte daload = refl
from_byte-to_byte aaload = refl
from_byte-to_byte baload = refl
from_byte-to_byte caload = refl
from_byte-to_byte saload = refl
from_byte-to_byte istore = refl
from_byte-to_byte lstore = refl
from_byte-to_byte fstore = refl
from_byte-to_byte dstore = refl
from_byte-to_byte astore = refl
from_byte-to_byte istore0 = refl
from_byte-to_byte istore1 = refl
from_byte-to_byte istore2 = refl
from_byte-to_byte istore3 = refl
from_byte-to_byte lstore0 = refl
from_byte-to_byte lstore1 = refl
from_byte-to_byte lstore2 = refl
from_byte-to_byte lstore3 = refl
from_byte-to_byte fstore0 = refl
from_byte-to_byte fstore1 = refl
from_byte-to_byte fstore2 = refl
from_byte-to_byte fstore3 = refl
from_byte-to_byte dstore0 = refl
from_byte-to_byte dstore1 = refl
from_byte-to_byte dstore2 = refl
from_byte-to_byte dstore3 = refl
from_byte-to_byte astore0 = refl
from_byte-to_byte astore1 = refl
from_byte-to_byte astore2 = refl
from_byte-to_byte astore3 = refl
from_byte-to_byte iastore = refl
from_byte-to_byte lastore = refl
from_byte-to_byte fastore = refl
from_byte-to_byte dastore = refl
from_byte-to_byte aastore = refl
from_byte-to_byte bastore = refl
from_byte-to_byte castore = refl
from_byte-to_byte sastore = refl
from_byte-to_byte pop = refl
from_byte-to_byte pop2 = refl
from_byte-to_byte dup = refl
from_byte-to_byte dup_x1 = refl
from_byte-to_byte dup_x2 = refl
from_byte-to_byte dup2 = refl
from_byte-to_byte dup2_x1 = refl
from_byte-to_byte dup2_x2 = refl
from_byte-to_byte swap = refl
from_byte-to_byte iadd = refl
from_byte-to_byte ladd = refl
from_byte-to_byte fadd = refl
from_byte-to_byte dadd = refl
from_byte-to_byte isub = refl
from_byte-to_byte lsub = refl
from_byte-to_byte fsub = refl
from_byte-to_byte dsub = refl
from_byte-to_byte imul = refl
from_byte-to_byte lmul = refl
from_byte-to_byte fmul = refl
from_byte-to_byte dmul = refl
from_byte-to_byte idiv = refl
from_byte-to_byte ldiv = refl
from_byte-to_byte fdiv = refl
from_byte-to_byte ddiv = refl
from_byte-to_byte irem = refl
from_byte-to_byte lrem = refl
from_byte-to_byte frem = refl
from_byte-to_byte drem = refl
from_byte-to_byte ineg = refl
from_byte-to_byte lneg = refl
from_byte-to_byte fneg = refl
from_byte-to_byte dneg = refl
from_byte-to_byte ishl = refl
from_byte-to_byte lshl = refl
from_byte-to_byte ishr = refl
from_byte-to_byte lshr = refl
from_byte-to_byte iushr = refl
from_byte-to_byte lushr = refl
from_byte-to_byte iand = refl
from_byte-to_byte land = refl
from_byte-to_byte ior = refl
from_byte-to_byte lor = refl
from_byte-to_byte ixor = refl
from_byte-to_byte lxor = refl
from_byte-to_byte iinc = refl
from_byte-to_byte i2l = refl
from_byte-to_byte i2f = refl
from_byte-to_byte i2d = refl
from_byte-to_byte l2i = refl
from_byte-to_byte l2f = refl
from_byte-to_byte l2d = refl
from_byte-to_byte f2i = refl
from_byte-to_byte f2l = refl
from_byte-to_byte f2d = refl
from_byte-to_byte d2i = refl
from_byte-to_byte d2l = refl
from_byte-to_byte d2f = refl
from_byte-to_byte i2b = refl
from_byte-to_byte i2c = refl
from_byte-to_byte i2s = refl
from_byte-to_byte lcmp = refl
from_byte-to_byte fcmpl = refl
from_byte-to_byte fcmpg = refl
from_byte-to_byte dcmpl = refl
from_byte-to_byte dcmpg = refl
from_byte-to_byte ifeq = refl
from_byte-to_byte ifne = refl
from_byte-to_byte iflt = refl
from_byte-to_byte ifge = refl
from_byte-to_byte ifgt = refl
from_byte-to_byte ifle = refl
from_byte-to_byte if_icmpeq = refl
from_byte-to_byte if_icmpne = refl
from_byte-to_byte if_icmplt = refl
from_byte-to_byte if_icmpge = refl
from_byte-to_byte if_icmpgt = refl
from_byte-to_byte if_icmple = refl
from_byte-to_byte if_acmpeq = refl
from_byte-to_byte if_acmpne = refl
from_byte-to_byte goto = refl
from_byte-to_byte tableswitch = refl
from_byte-to_byte lookupswitch = refl
from_byte-to_byte ireturn = refl
from_byte-to_byte lreturn = refl
from_byte-to_byte freturn = refl
from_byte-to_byte dreturn = refl
from_byte-to_byte areturn = refl
from_byte-to_byte return = refl
from_byte-to_byte getstatic = refl
from_byte-to_byte putstatic = refl
from_byte-to_byte getfield = refl
from_byte-to_byte putfield = refl
from_byte-to_byte invokevirtual = refl
from_byte-to_byte invokespecial = refl
from_byte-to_byte invokestatic = refl
from_byte-to_byte jsr = refl
from_byte-to_byte ret = refl
from_byte-to_byte invokeinterface = refl
from_byte-to_byte invokedynamic = refl
from_byte-to_byte new = refl
from_byte-to_byte newarray = refl
from_byte-to_byte anewarray = refl
from_byte-to_byte arraylength = refl
from_byte-to_byte athrow = refl
from_byte-to_byte checkcast = refl
from_byte-to_byte instanceof = refl
from_byte-to_byte monitorenter = refl
from_byte-to_byte monitorexit = refl
from_byte-to_byte wide = refl
from_byte-to_byte multianewarray = refl
from_byte-to_byte ifnull = refl
from_byte-to_byte ifnonnull = refl
from_byte-to_byte goto_w = refl
from_byte-to_byte jsr_w = refl

-- The byte of an opcode that was read, against the byte that it was read from.
abbrev same_byte : Option Opcode → ℕ → Bool
same_byte none byte = true
same_byte (some op) byte = to_byte op == byte

bytes_table : all_below 256 (λ b. same_byte (from_byte b) b) ≡ true
unfolding all_below from_byte to_byte
bytes_table = refl

-- A byte is read as an opcode exactly when it is the byte of that opcode.
pub from_byte_iff :
    (byte : ℕ) (op : Opcode) → byte < 256 → (from_byte byte ≡ some op) ↔ (to_byte op ≡ byte)
from_byte_iff byte op h = (
  λ read.
      let row = all_below-true 256 (λ b. same_byte (from_byte b) b) bytes_table byte h in
      (==_iff (to_byte op) byte).0 (rw read at row),
  λ e. rw (← e) (from_byte-to_byte op),
)
