-- ===== src/Opcode/FromByte.antt =====
-- src/bytecode.rs: `Opcode::from_byte`.
use jvm_rs.Prelude.{ℕ, Option, none, some, ◌==◌, if◌then◌else◌}
use jvm_rs.Opcode.{
  Opcode, aconst_null, iconst_m1, iconst0, iconst1, iconst2, iconst3, iconst4, iconst5, lconst0,
  lconst1, fconst0, fconst1, fconst2, dconst0, dconst1, bipush, sipush, ldc, ldc_w, ldc2_w, iload,
  lload, fload, dload, aload, iload0, iload1, iload2, iload3, lload0, lload1, lload2, lload3,
  fload0, fload1, fload2, fload3, dload0, dload1, dload2, dload3, aload0, aload1, aload2, aload3,
  iaload, laload, faload, daload, aaload, baload, caload, saload, istore, lstore, fstore, dstore,
  astore, istore0, istore1, istore2, istore3, lstore0, lstore1, lstore2, lstore3, fstore0, fstore1,
  fstore2, fstore3, dstore0, dstore1, dstore2, dstore3, astore0, astore1, astore2, astore3, iastore,
  lastore, fastore, dastore, aastore, bastore, castore, sastore, pop, pop2, dup, dup_x1, dup_x2,
  dup2, dup2_x1, dup2_x2, swap, iadd, ladd, fadd, dadd, isub, lsub, fsub, dsub, imul, lmul, fmul,
  dmul, idiv, ldiv, fdiv, ddiv, irem, lrem, frem, drem, ineg, lneg, fneg, dneg, ishl, lshl, ishr,
  lshr, iushr, lushr, iand, land, ior, lor, ixor, lxor, iinc, i2l, i2f, i2d, l2i, l2f, l2d, f2i,
  f2l, f2d, d2i, d2l, d2f, i2b, i2c, i2s, lcmp, fcmpl, fcmpg, dcmpl, dcmpg, ifeq, ifne, iflt, ifge,
  ifgt, ifle, if_icmpeq, if_icmpne, if_icmplt, if_icmpge, if_icmpgt, if_icmple, if_acmpeq,
  if_acmpne, goto, tableswitch, lookupswitch, ireturn, lreturn, freturn, dreturn, areturn, return,
  getstatic, putstatic, getfield, putfield, invokevirtual, invokespecial, invokestatic, jsr, ret,
  invokeinterface, invokedynamic, new, newarray, anewarray, arraylength, athrow, checkcast,
  instanceof, monitorenter, monitorexit, wide, multianewarray, ifnull, ifnonnull, goto_w, jsr_w,
}

unfoldable pub from_byte : ℕ → Option Opcode
from_byte byte =
    if byte == 0x01
    then some aconst_null
    else if byte == 0x02
    then some iconst_m1
    else if byte == 0x03
    then some iconst0
    else if byte == 0x04
    then some iconst1
    else if byte == 0x05
    then some iconst2
    else if byte == 0x06
    then some iconst3
    else if byte == 0x07
    then some iconst4
    else if byte == 0x08
    then some iconst5
    else if byte == 0x09
    then some lconst0
    else if byte == 0x0a
    then some lconst1
    else if byte == 0x0b
    then some fconst0
    else if byte == 0x0c
    then some fconst1
    else if byte == 0x0d
    then some fconst2
    else if byte == 0x0e
    then some dconst0
    else if byte == 0x0f
    then some dconst1
    else if byte == 0x10
    then some bipush
    else if byte == 0x11
    then some sipush
    else if byte == 0x12
    then some ldc
    else if byte == 0x13
    then some ldc_w
    else if byte == 0x14
    then some ldc2_w
    else if byte == 0x15
    then some iload
    else if byte == 0x16
    then some lload
    else if byte == 0x17
    then some fload
    else if byte == 0x18
    then some dload
    else if byte == 0x19
    then some aload
    else if byte == 0x1a
    then some iload0
    else if byte == 0x1b
    then some iload1
    else if byte == 0x1c
    then some iload2
    else if byte == 0x1d
    then some iload3
    else if byte == 0x1e
    then some lload0
    else if byte == 0x1f
    then some lload1
    else if byte == 0x20
    then some lload2
    else if byte == 0x21
    then some lload3
    else if byte == 0x22
    then some fload0
    else if byte == 0x23
    then some fload1
    else if byte == 0x24
    then some fload2
    else if byte == 0x25
    then some fload3
    else if byte == 0x26
    then some dload0
    else if byte == 0x27
    then some dload1
    else if byte == 0x28
    then some dload2
    else if byte == 0x29
    then some dload3
    else if byte == 0x2a
    then some aload0
    else if byte == 0x2b
    then some aload1
    else if byte == 0x2c
    then some aload2
    else if byte == 0x2d
    then some aload3
    else if byte == 0x2e
    then some iaload
    else if byte == 0x2f
    then some laload
    else if byte == 0x30
    then some faload
    else if byte == 0x31
    then some daload
    else if byte == 0x32
    then some aaload
    else if byte == 0x33
    then some baload
    else if byte == 0x34
    then some caload
    else if byte == 0x35
    then some saload
    else if byte == 0x36
    then some istore
    else if byte == 0x37
    then some lstore
    else if byte == 0x38
    then some fstore
    else if byte == 0x39
    then some dstore
    else if byte == 0x3a
    then some astore
    else if byte == 0x3b
    then some istore0
    else if byte == 0x3c
    then some istore1
    else if byte == 0x3d
    then some istore2
    else if byte == 0x3e
    then some istore3
    else if byte == 0x3f
    then some lstore0
    else if byte == 0x40
    then some lstore1
    else if byte == 0x41
    then some lstore2
    else if byte == 0x42
    then some lstore3
    else if byte == 0x43
    then some fstore0
    else if byte == 0x44
    then some fstore1
    else if byte == 0x45
    then some fstore2
    else if byte == 0x46
    then some fstore3
    else if byte == 0x47
    then some dstore0
    else if byte == 0x48
    then some dstore1
    else if byte == 0x49
    then some dstore2
    else if byte == 0x4a
    then some dstore3
    else if byte == 0x4b
    then some astore0
    else if byte == 0x4c
    then some astore1
    else if byte == 0x4d
    then some astore2
    else if byte == 0x4e
    then some astore3
    else if byte == 0x4f
    then some iastore
    else if byte == 0x50
    then some lastore
    else if byte == 0x51
    then some fastore
    else if byte == 0x52
    then some dastore
    else if byte == 0x53
    then some aastore
    else if byte == 0x54
    then some bastore
    else if byte == 0x55
    then some castore
    else if byte == 0x56
    then some sastore
    else if byte == 0x57
    then some pop
    else if byte == 0x58
    then some pop2
    else if byte == 0x59
    then some dup
    else if byte == 0x5a
    then some dup_x1
    else if byte == 0x5b
    then some dup_x2
    else if byte == 0x5c
    then some dup2
    else if byte == 0x5d
    then some dup2_x1
    else if byte == 0x5e
    then some dup2_x2
    else if byte == 0x5f
    then some swap
    else if byte == 0x60
    then some iadd
    else if byte == 0x61
    then some ladd
    else if byte == 0x62
    then some fadd
    else if byte == 0x63
    then some dadd
    else if byte == 0x64
    then some isub
    else if byte == 0x65
    then some lsub
    else if byte == 0x66
    then some fsub
    else if byte == 0x67
    then some dsub
    else if byte == 0x68
    then some imul
    else if byte == 0x69
    then some lmul
    else if byte == 0x6a
    then some fmul
    else if byte == 0x6b
    then some dmul
    else if byte == 0x6c
    then some idiv
    else if byte == 0x6d
    then some ldiv
    else if byte == 0x6e
    then some fdiv
    else if byte == 0x6f
    then some ddiv
    else if byte == 0x70
    then some irem
    else if byte == 0x71
    then some lrem
    else if byte == 0x72
    then some frem
    else if byte == 0x73
    then some drem
    else if byte == 0x74
    then some ineg
    else if byte == 0x75
    then some lneg
    else if byte == 0x76
    then some fneg
    else if byte == 0x77
    then some dneg
    else if byte == 0x78
    then some ishl
    else if byte == 0x79
    then some lshl
    else if byte == 0x7a
    then some ishr
    else if byte == 0x7b
    then some lshr
    else if byte == 0x7c
    then some iushr
    else if byte == 0x7d
    then some lushr
    else if byte == 0x7e
    then some iand
    else if byte == 0x7f
    then some land
    else if byte == 0x80
    then some ior
    else if byte == 0x81
    then some lor
    else if byte == 0x82
    then some ixor
    else if byte == 0x83
    then some lxor
    else if byte == 0x84
    then some iinc
    else if byte == 0x85
    then some i2l
    else if byte == 0x86
    then some i2f
    else if byte == 0x87
    then some i2d
    else if byte == 0x88
    then some l2i
    else if byte == 0x89
    then some l2f
    else if byte == 0x8a
    then some l2d
    else if byte == 0x8b
    then some f2i
    else if byte == 0x8c
    then some f2l
    else if byte == 0x8d
    then some f2d
    else if byte == 0x8e
    then some d2i
    else if byte == 0x8f
    then some d2l
    else if byte == 0x90
    then some d2f
    else if byte == 0x91
    then some i2b
    else if byte == 0x92
    then some i2c
    else if byte == 0x93
    then some i2s
    else if byte == 0x94
    then some lcmp
    else if byte == 0x95
    then some fcmpl
    else if byte == 0x96
    then some fcmpg
    else if byte == 0x97
    then some dcmpl
    else if byte == 0x98
    then some dcmpg
    else if byte == 0x99
    then some ifeq
    else if byte == 0x9a
    then some ifne
    else if byte == 0x9b
    then some iflt
    else if byte == 0x9c
    then some ifge
    else if byte == 0x9d
    then some ifgt
    else if byte == 0x9e
    then some ifle
    else if byte == 0x9f
    then some if_icmpeq
    else if byte == 0xa0
    then some if_icmpne
    else if byte == 0xa1
    then some if_icmplt
    else if byte == 0xa2
    then some if_icmpge
    else if byte == 0xa3
    then some if_icmpgt
    else if byte == 0xa4
    then some if_icmple
    else if byte == 0xa5
    then some if_acmpeq
    else if byte == 0xa6
    then some if_acmpne
    else if byte == 0xa7
    then some goto
    else if byte == 0xaa
    then some tableswitch
    else if byte == 0xab
    then some lookupswitch
    else if byte == 0xac
    then some ireturn
    else if byte == 0xad
    then some lreturn
    else if byte == 0xae
    then some freturn
    else if byte == 0xaf
    then some dreturn
    else if byte == 0xb0
    then some areturn
    else if byte == 0xb1
    then some return
    else if byte == 0xb2
    then some getstatic
    else if byte == 0xb3
    then some putstatic
    else if byte == 0xb4
    then some getfield
    else if byte == 0xb5
    then some putfield
    else if byte == 0xb6
    then some invokevirtual
    else if byte == 0xb7
    then some invokespecial
    else if byte == 0xb8
    then some invokestatic
    else if byte == 0xa8
    then some jsr
    else if byte == 0xa9
    then some ret
    else if byte == 0xb9
    then some invokeinterface
    else if byte == 0xba
    then some invokedynamic
    else if byte == 0xbb
    then some new
    else if byte == 0xbc
    then some newarray
    else if byte == 0xbd
    then some anewarray
    else if byte == 0xbe
    then some arraylength
    else if byte == 0xbf
    then some athrow
    else if byte == 0xc0
    then some checkcast
    else if byte == 0xc1
    then some instanceof
    else if byte == 0xc2
    then some monitorenter
    else if byte == 0xc3
    then some monitorexit
    else if byte == 0xc4
    then some wide
    else if byte == 0xc5
    then some multianewarray
    else if byte == 0xc6
    then some ifnull
    else if byte == 0xc7
    then some ifnonnull
    else if byte == 0xc8
    then some goto_w
    else if byte == 0xc9
    then some jsr_w
    else none
