-- ===== src/Isa.antt =====
-- The instruction set: `Opcode` of include/cpu.h with the bytes of the opcodes, and the table of
-- src/dis.c, which gives each opcode its name and operand format and so its length. The emulator
-- takes its instruction lengths from this table. Child Decode finds the opcode of a byte.
pub mod Names
pub mod Format
pub mod Decode
pub mod Codes
use tortoise.Base.{ℕ}

pub data Opcode : Type 0 where
  op_nop op_load op_add op_store op_jmp op_jz op_and op_or op_xor op_not op_call op_ret op_in :
      Opcode
  op_out op_sub op_cmp op_jc op_jn op_jo op_jnz op_shl op_shr op_mul op_div op_int op_iret : Opcode
  op_cli op_sti op_load32 op_store32 op_add32 op_sub32 op_mul32 op_div32 op_shl32 op_shr32 : Opcode
  op_and32 op_or32 op_xor32 op_cmp32 op_mov op_add_reg op_sub_reg op_cmp_reg op_and_reg : Opcode
  op_or_reg op_xor_reg op_mul_reg op_div_reg op_push op_pop op_load_indir op_store_indir : Opcode
  op_load32_indir op_store32_indir op_syscall op_sysret op_jmpr op_callr op_jmprel op_callrel :
      Opcode
  op_beq op_bne op_blt op_bge op_ble op_bgt op_blo op_bhs op_bls op_bhi op_bmi op_bpl op_bvs :
      Opcode
  op_bvc op_jmp32 op_call32 op_adc op_sbb op_sarv op_shlv op_shrv op_rolv op_rorv op_imul : Opcode
  op_idiv op_umod op_imod op_neg op_test op_mulhu op_mulhs op_sar op_rol op_ror op_adci op_sbbi :
      Opcode
  op_imuli op_idivi op_umodi op_imodi op_testi op_ldb op_ldbs op_ldh op_ldhs op_ldw op_stb : Opcode
  op_sth op_stw op_lea op_leapc op_movsp op_setsp op_addsp op_brk op_mfcr op_mtcr op_tlbflush :
      Opcode
  op_invlpg op_wfi op_cpuid op_pushf op_popf op_rdcyc op_ret32 op_push32 op_pop32 op_add32r : Opcode
  op_sub32r op_cmp32r op_mul32r op_div32r op_halt : Opcode

unfoldable pub opcode_byte : Opcode → ℕ
opcode_byte op_nop = 0x00
opcode_byte op_load = 0x01
opcode_byte op_add = 0x02
opcode_byte op_store = 0x03
opcode_byte op_jmp = 0x04
opcode_byte op_jz = 0x05
opcode_byte op_and = 0x06
opcode_byte op_or = 0x07
opcode_byte op_xor = 0x08
opcode_byte op_not = 0x09
opcode_byte op_call = 0x0A
opcode_byte op_ret = 0x0B
opcode_byte op_in = 0x0C
opcode_byte op_out = 0x0D
opcode_byte op_sub = 0x0E
opcode_byte op_cmp = 0x0F
opcode_byte op_jc = 0x10
opcode_byte op_jn = 0x11
opcode_byte op_jo = 0x12
opcode_byte op_jnz = 0x13
opcode_byte op_shl = 0x14
opcode_byte op_shr = 0x15
opcode_byte op_mul = 0x16
opcode_byte op_div = 0x17
opcode_byte op_int = 0x18
opcode_byte op_iret = 0x19
opcode_byte op_cli = 0x1A
opcode_byte op_sti = 0x1B
opcode_byte op_load32 = 0x20
opcode_byte op_store32 = 0x21
opcode_byte op_add32 = 0x22
opcode_byte op_sub32 = 0x23
opcode_byte op_mul32 = 0x24
opcode_byte op_div32 = 0x25
opcode_byte op_shl32 = 0x26
opcode_byte op_shr32 = 0x27
opcode_byte op_and32 = 0x28
opcode_byte op_or32 = 0x29
opcode_byte op_xor32 = 0x2A
opcode_byte op_cmp32 = 0x2B
opcode_byte op_mov = 0x30
opcode_byte op_add_reg = 0x31
opcode_byte op_sub_reg = 0x32
opcode_byte op_cmp_reg = 0x33
opcode_byte op_and_reg = 0x34
opcode_byte op_or_reg = 0x35
opcode_byte op_xor_reg = 0x36
opcode_byte op_mul_reg = 0x37
opcode_byte op_div_reg = 0x38
opcode_byte op_push = 0x39
opcode_byte op_pop = 0x3A
opcode_byte op_load_indir = 0x3B
opcode_byte op_store_indir = 0x3C
opcode_byte op_load32_indir = 0x3D
opcode_byte op_store32_indir = 0x3E
opcode_byte op_syscall = 0x3F
opcode_byte op_sysret = 0x40
opcode_byte op_jmpr = 0x41
opcode_byte op_callr = 0x42
opcode_byte op_jmprel = 0x43
opcode_byte op_callrel = 0x44
opcode_byte op_beq = 0x45
opcode_byte op_bne = 0x46
opcode_byte op_blt = 0x47
opcode_byte op_bge = 0x48
opcode_byte op_ble = 0x49
opcode_byte op_bgt = 0x4A
opcode_byte op_blo = 0x4B
opcode_byte op_bhs = 0x4C
opcode_byte op_bls = 0x4D
opcode_byte op_bhi = 0x4E
opcode_byte op_bmi = 0x4F
opcode_byte op_bpl = 0x50
opcode_byte op_bvs = 0x51
opcode_byte op_bvc = 0x52
opcode_byte op_jmp32 = 0x53
opcode_byte op_call32 = 0x54
opcode_byte op_adc = 0x55
opcode_byte op_sbb = 0x56
opcode_byte op_sarv = 0x57
opcode_byte op_shlv = 0x58
opcode_byte op_shrv = 0x59
opcode_byte op_rolv = 0x5A
opcode_byte op_rorv = 0x5B
opcode_byte op_imul = 0x5C
opcode_byte op_idiv = 0x5D
opcode_byte op_umod = 0x5E
opcode_byte op_imod = 0x5F
opcode_byte op_neg = 0x60
opcode_byte op_test = 0x61
opcode_byte op_mulhu = 0x62
opcode_byte op_mulhs = 0x63
opcode_byte op_sar = 0x64
opcode_byte op_rol = 0x65
opcode_byte op_ror = 0x66
opcode_byte op_adci = 0x67
opcode_byte op_sbbi = 0x68
opcode_byte op_imuli = 0x69
opcode_byte op_idivi = 0x6A
opcode_byte op_umodi = 0x6B
opcode_byte op_imodi = 0x6C
opcode_byte op_testi = 0x6D
opcode_byte op_ldb = 0x6E
opcode_byte op_ldbs = 0x6F
opcode_byte op_ldh = 0x70
opcode_byte op_ldhs = 0x71
opcode_byte op_ldw = 0x72
opcode_byte op_stb = 0x73
opcode_byte op_sth = 0x74
opcode_byte op_stw = 0x75
opcode_byte op_lea = 0x76
opcode_byte op_leapc = 0x77
opcode_byte op_movsp = 0x78
opcode_byte op_setsp = 0x79
opcode_byte op_addsp = 0x7A
opcode_byte op_brk = 0x7C
opcode_byte op_mfcr = 0x7D
opcode_byte op_mtcr = 0x7E
opcode_byte op_tlbflush = 0x7F
opcode_byte op_invlpg = 0x80
opcode_byte op_wfi = 0x81
opcode_byte op_cpuid = 0x82
opcode_byte op_pushf = 0x83
opcode_byte op_popf = 0x84
opcode_byte op_rdcyc = 0x85
opcode_byte op_ret32 = 0x86
opcode_byte op_push32 = 0x87
opcode_byte op_pop32 = 0x88
opcode_byte op_add32r = 0x89
opcode_byte op_sub32r = 0x8A
opcode_byte op_cmp32r = 0x8B
opcode_byte op_mul32r = 0x8C
opcode_byte op_div32r = 0x8D
opcode_byte op_halt = 0xFF
