-- ===== src/Opcode.antt =====
-- src/bytecode.rs: the opcodes, and the byte of each.
pub mod FromByte
pub mod Bytes
mod Tests
use jvm_rs.Prelude.{ℕ}

pub data Opcode : Type 0 where
  aconst_null iconst_m1 iconst0 iconst1 iconst2 iconst3 iconst4 iconst5 lconst0 lconst1 fconst0 :
      Opcode
  fconst1 fconst2 dconst0 dconst1 bipush sipush ldc ldc_w ldc2_w iload lload fload dload aload :
      Opcode
  iload0 iload1 iload2 iload3 lload0 lload1 lload2 lload3 fload0 fload1 fload2 fload3 dload0 :
      Opcode
  dload1 dload2 dload3 aload0 aload1 aload2 aload3 iaload laload faload daload aaload baload :
      Opcode
  caload saload istore lstore fstore dstore astore istore0 istore1 istore2 istore3 lstore0 : Opcode
  lstore1 lstore2 lstore3 fstore0 fstore1 fstore2 fstore3 dstore0 dstore1 dstore2 dstore3 : Opcode
  astore0 astore1 astore2 astore3 iastore lastore fastore dastore aastore bastore castore : Opcode
  sastore pop pop2 dup dup_x1 dup_x2 dup2 dup2_x1 dup2_x2 swap iadd ladd fadd dadd isub lsub :
      Opcode
  fsub dsub imul lmul fmul dmul idiv ldiv fdiv ddiv irem lrem frem drem ineg lneg fneg dneg : Opcode
  ishl lshl ishr lshr iushr lushr iand land ior lor ixor lxor iinc i2l i2f i2d l2i l2f l2d f2i :
      Opcode
  f2l f2d d2i d2l d2f i2b i2c i2s lcmp fcmpl fcmpg dcmpl dcmpg ifeq ifne iflt ifge ifgt ifle :
      Opcode
  if_icmpeq if_icmpne if_icmplt if_icmpge if_icmpgt if_icmple if_acmpeq if_acmpne goto : Opcode
  tableswitch lookupswitch ireturn lreturn freturn dreturn areturn return getstatic putstatic :
      Opcode
  getfield putfield invokevirtual invokespecial invokestatic jsr ret invokeinterface : Opcode
  invokedynamic new newarray anewarray arraylength athrow checkcast instanceof monitorenter : Opcode
  monitorexit wide multianewarray ifnull ifnonnull goto_w jsr_w : Opcode

-- `op as u8`
unfoldable pub to_byte : Opcode → ℕ
to_byte aconst_null = 0x01
to_byte iconst_m1 = 0x02
to_byte iconst0 = 0x03
to_byte iconst1 = 0x04
to_byte iconst2 = 0x05
to_byte iconst3 = 0x06
to_byte iconst4 = 0x07
to_byte iconst5 = 0x08
to_byte lconst0 = 0x09
to_byte lconst1 = 0x0a
to_byte fconst0 = 0x0b
to_byte fconst1 = 0x0c
to_byte fconst2 = 0x0d
to_byte dconst0 = 0x0e
to_byte dconst1 = 0x0f
to_byte bipush = 0x10
to_byte sipush = 0x11
to_byte ldc = 0x12
to_byte ldc_w = 0x13
to_byte ldc2_w = 0x14
to_byte iload = 0x15
to_byte lload = 0x16
to_byte fload = 0x17
to_byte dload = 0x18
to_byte aload = 0x19
to_byte iload0 = 0x1a
to_byte iload1 = 0x1b
to_byte iload2 = 0x1c
to_byte iload3 = 0x1d
to_byte lload0 = 0x1e
to_byte lload1 = 0x1f
to_byte lload2 = 0x20
to_byte lload3 = 0x21
to_byte fload0 = 0x22
to_byte fload1 = 0x23
to_byte fload2 = 0x24
to_byte fload3 = 0x25
to_byte dload0 = 0x26
to_byte dload1 = 0x27
to_byte dload2 = 0x28
to_byte dload3 = 0x29
to_byte aload0 = 0x2a
to_byte aload1 = 0x2b
to_byte aload2 = 0x2c
to_byte aload3 = 0x2d
to_byte iaload = 0x2e
to_byte laload = 0x2f
to_byte faload = 0x30
to_byte daload = 0x31
to_byte aaload = 0x32
to_byte baload = 0x33
to_byte caload = 0x34
to_byte saload = 0x35
to_byte istore = 0x36
to_byte lstore = 0x37
to_byte fstore = 0x38
to_byte dstore = 0x39
to_byte astore = 0x3a
to_byte istore0 = 0x3b
to_byte istore1 = 0x3c
to_byte istore2 = 0x3d
to_byte istore3 = 0x3e
to_byte lstore0 = 0x3f
to_byte lstore1 = 0x40
to_byte lstore2 = 0x41
to_byte lstore3 = 0x42
to_byte fstore0 = 0x43
to_byte fstore1 = 0x44
to_byte fstore2 = 0x45
to_byte fstore3 = 0x46
to_byte dstore0 = 0x47
to_byte dstore1 = 0x48
to_byte dstore2 = 0x49
to_byte dstore3 = 0x4a
to_byte astore0 = 0x4b
to_byte astore1 = 0x4c
to_byte astore2 = 0x4d
to_byte astore3 = 0x4e
to_byte iastore = 0x4f
to_byte lastore = 0x50
to_byte fastore = 0x51
to_byte dastore = 0x52
to_byte aastore = 0x53
to_byte bastore = 0x54
to_byte castore = 0x55
to_byte sastore = 0x56
to_byte pop = 0x57
to_byte pop2 = 0x58
to_byte dup = 0x59
to_byte dup_x1 = 0x5a
to_byte dup_x2 = 0x5b
to_byte dup2 = 0x5c
to_byte dup2_x1 = 0x5d
to_byte dup2_x2 = 0x5e
to_byte swap = 0x5f
to_byte iadd = 0x60
to_byte ladd = 0x61
to_byte fadd = 0x62
to_byte dadd = 0x63
to_byte isub = 0x64
to_byte lsub = 0x65
to_byte fsub = 0x66
to_byte dsub = 0x67
to_byte imul = 0x68
to_byte lmul = 0x69
to_byte fmul = 0x6a
to_byte dmul = 0x6b
to_byte idiv = 0x6c
to_byte ldiv = 0x6d
to_byte fdiv = 0x6e
to_byte ddiv = 0x6f
to_byte irem = 0x70
to_byte lrem = 0x71
to_byte frem = 0x72
to_byte drem = 0x73
to_byte ineg = 0x74
to_byte lneg = 0x75
to_byte fneg = 0x76
to_byte dneg = 0x77
to_byte ishl = 0x78
to_byte lshl = 0x79
to_byte ishr = 0x7a
to_byte lshr = 0x7b
to_byte iushr = 0x7c
to_byte lushr = 0x7d
to_byte iand = 0x7e
to_byte land = 0x7f
to_byte ior = 0x80
to_byte lor = 0x81
to_byte ixor = 0x82
to_byte lxor = 0x83
to_byte iinc = 0x84
to_byte i2l = 0x85
to_byte i2f = 0x86
to_byte i2d = 0x87
to_byte l2i = 0x88
to_byte l2f = 0x89
to_byte l2d = 0x8a
to_byte f2i = 0x8b
to_byte f2l = 0x8c
to_byte f2d = 0x8d
to_byte d2i = 0x8e
to_byte d2l = 0x8f
to_byte d2f = 0x90
to_byte i2b = 0x91
to_byte i2c = 0x92
to_byte i2s = 0x93
to_byte lcmp = 0x94
to_byte fcmpl = 0x95
to_byte fcmpg = 0x96
to_byte dcmpl = 0x97
to_byte dcmpg = 0x98
to_byte ifeq = 0x99
to_byte ifne = 0x9a
to_byte iflt = 0x9b
to_byte ifge = 0x9c
to_byte ifgt = 0x9d
to_byte ifle = 0x9e
to_byte if_icmpeq = 0x9f
to_byte if_icmpne = 0xa0
to_byte if_icmplt = 0xa1
to_byte if_icmpge = 0xa2
to_byte if_icmpgt = 0xa3
to_byte if_icmple = 0xa4
to_byte if_acmpeq = 0xa5
to_byte if_acmpne = 0xa6
to_byte goto = 0xa7
to_byte tableswitch = 0xaa
to_byte lookupswitch = 0xab
to_byte ireturn = 0xac
to_byte lreturn = 0xad
to_byte freturn = 0xae
to_byte dreturn = 0xaf
to_byte areturn = 0xb0
to_byte return = 0xb1
to_byte getstatic = 0xb2
to_byte putstatic = 0xb3
to_byte getfield = 0xb4
to_byte putfield = 0xb5
to_byte invokevirtual = 0xb6
to_byte invokespecial = 0xb7
to_byte invokestatic = 0xb8
to_byte jsr = 0xa8
to_byte ret = 0xa9
to_byte invokeinterface = 0xb9
to_byte invokedynamic = 0xba
to_byte new = 0xbb
to_byte newarray = 0xbc
to_byte anewarray = 0xbd
to_byte arraylength = 0xbe
to_byte athrow = 0xbf
to_byte checkcast = 0xc0
to_byte instanceof = 0xc1
to_byte monitorenter = 0xc2
to_byte monitorexit = 0xc3
to_byte wide = 0xc4
to_byte multianewarray = 0xc5
to_byte ifnull = 0xc6
to_byte ifnonnull = 0xc7
to_byte goto_w = 0xc8
to_byte jsr_w = 0xc9
