-- ===== src/Isa/Names.antt =====
-- The mnemonics of `dis_ops` in src/dis.c, which are those of the assembler.
use Prim.Native.String.{String}
use tortoise.Isa.{Opcode}
use tortoise.Isa.{
  op_nop, op_load, op_add, op_store, op_jmp, op_jz, op_and, op_or, op_xor, op_not, op_call, op_ret,
  op_in, op_out, op_sub, op_cmp, op_jc, op_jn, op_jo, op_jnz, op_shl, op_shr, op_mul, op_div,
  op_int, op_iret, op_cli, op_sti, op_load32, op_store32, op_add32, op_sub32, op_mul32, op_div32,
  op_shl32, op_shr32, op_and32, op_or32, op_xor32, op_cmp32, op_mov, op_add_reg, op_sub_reg,
  op_cmp_reg, op_and_reg, op_or_reg, op_xor_reg, op_mul_reg, op_div_reg, op_push, op_pop,
  op_load_indir, op_store_indir, op_load32_indir, op_store32_indir, op_syscall, op_sysret, op_jmpr,
  op_callr, op_jmprel, op_callrel, op_beq, op_bne, op_blt, op_bge, op_ble, op_bgt, op_blo, op_bhs,
  op_bls, op_bhi, op_bmi, op_bpl, op_bvs, op_bvc, op_jmp32, op_call32, op_adc, op_sbb, op_sarv,
  op_shlv, op_shrv, op_rolv, op_rorv, op_imul, op_idiv, op_umod, op_imod, op_neg, op_test, op_mulhu,
  op_mulhs, op_sar, op_rol, op_ror, op_adci, op_sbbi, op_imuli, op_idivi, op_umodi, op_imodi,
  op_testi, op_ldb, op_ldbs, op_ldh, op_ldhs, op_ldw, op_stb, op_sth, op_stw, op_lea, op_leapc,
  op_movsp, op_setsp, op_addsp, op_brk, op_mfcr, op_mtcr, op_tlbflush, op_invlpg, op_wfi, op_cpuid,
  op_pushf, op_popf, op_rdcyc, op_ret32, op_push32, op_pop32, op_add32r, op_sub32r, op_cmp32r,
  op_mul32r, op_div32r, op_halt,
}

unfoldable pub op_name : Opcode → String
op_name op_nop = "NOP"
op_name op_load = "LOAD"
op_name op_add = "ADD"
op_name op_store = "STORE"
op_name op_jmp = "JMP"
op_name op_jz = "JZ"
op_name op_and = "AND"
op_name op_or = "OR"
op_name op_xor = "XOR"
op_name op_not = "NOT"
op_name op_call = "CALL"
op_name op_ret = "RET"
op_name op_in = "IN"
op_name op_out = "OUT"
op_name op_sub = "SUB"
op_name op_cmp = "CMP"
op_name op_jc = "JC"
op_name op_jn = "JN"
op_name op_jo = "JO"
op_name op_jnz = "JNZ"
op_name op_shl = "SHL"
op_name op_shr = "SHR"
op_name op_mul = "MUL"
op_name op_div = "DIV"
op_name op_int = "INT"
op_name op_iret = "IRET"
op_name op_cli = "CLI"
op_name op_sti = "STI"
op_name op_load32 = "LOAD32"
op_name op_store32 = "STORE32"
op_name op_add32 = "ADD32"
op_name op_sub32 = "SUB32"
op_name op_mul32 = "MUL32"
op_name op_div32 = "DIV32"
op_name op_shl32 = "SHL32"
op_name op_shr32 = "SHR32"
op_name op_and32 = "AND32"
op_name op_or32 = "OR32"
op_name op_xor32 = "XOR32"
op_name op_cmp32 = "CMP32"
op_name op_mov = "MOV"
op_name op_add_reg = "ADD"
op_name op_sub_reg = "SUB"
op_name op_cmp_reg = "CMP"
op_name op_and_reg = "AND"
op_name op_or_reg = "OR"
op_name op_xor_reg = "XOR"
op_name op_mul_reg = "MUL"
op_name op_div_reg = "DIV"
op_name op_push = "PUSH"
op_name op_pop = "POP"
op_name op_load_indir = "LOAD"
op_name op_store_indir = "STORE"
op_name op_load32_indir = "LOAD32"
op_name op_store32_indir = "STORE32"
op_name op_syscall = "SYSCALL"
op_name op_sysret = "SYSRET"
op_name op_jmpr = "JMPR"
op_name op_callr = "CALLR"
op_name op_jmprel = "JMPREL"
op_name op_callrel = "CALLREL"
op_name op_beq = "BEQ"
op_name op_bne = "BNE"
op_name op_blt = "BLT"
op_name op_bge = "BGE"
op_name op_ble = "BLE"
op_name op_bgt = "BGT"
op_name op_blo = "BLO"
op_name op_bhs = "BHS"
op_name op_bls = "BLS"
op_name op_bhi = "BHI"
op_name op_bmi = "BMI"
op_name op_bpl = "BPL"
op_name op_bvs = "BVS"
op_name op_bvc = "BVC"
op_name op_jmp32 = "JMP32"
op_name op_call32 = "CALL32"
op_name op_adc = "ADC"
op_name op_sbb = "SBB"
op_name op_sarv = "SARV"
op_name op_shlv = "SHLV"
op_name op_shrv = "SHRV"
op_name op_rolv = "ROLV"
op_name op_rorv = "RORV"
op_name op_imul = "IMUL"
op_name op_idiv = "IDIV"
op_name op_umod = "UMOD"
op_name op_imod = "IMOD"
op_name op_neg = "NEG"
op_name op_test = "TEST"
op_name op_mulhu = "MULHU"
op_name op_mulhs = "MULHS"
op_name op_sar = "SAR"
op_name op_rol = "ROL"
op_name op_ror = "ROR"
op_name op_adci = "ADCI"
op_name op_sbbi = "SBBI"
op_name op_imuli = "IMULI"
op_name op_idivi = "IDIVI"
op_name op_umodi = "UMODI"
op_name op_imodi = "IMODI"
op_name op_testi = "TESTI"
op_name op_ldb = "LDB"
op_name op_ldbs = "LDBS"
op_name op_ldh = "LDH"
op_name op_ldhs = "LDHS"
op_name op_ldw = "LDW"
op_name op_stb = "STB"
op_name op_sth = "STH"
op_name op_stw = "STW"
op_name op_lea = "LEA"
op_name op_leapc = "LEAPC"
op_name op_movsp = "MOVSP"
op_name op_setsp = "SETSP"
op_name op_addsp = "ADDSP"
op_name op_brk = "BRK"
op_name op_mfcr = "MFCR"
op_name op_mtcr = "MTCR"
op_name op_tlbflush = "TLBFLUSH"
op_name op_invlpg = "INVLPG"
op_name op_wfi = "WFI"
op_name op_cpuid = "CPUID"
op_name op_pushf = "PUSHF"
op_name op_popf = "POPF"
op_name op_rdcyc = "RDCYC"
op_name op_ret32 = "RET32"
op_name op_push32 = "PUSH32"
op_name op_pop32 = "POP32"
op_name op_add32r = "ADD32"
op_name op_sub32r = "SUB32"
op_name op_cmp32r = "CMP32"
op_name op_mul32r = "MUL32"
op_name op_div32r = "DIV32"
op_name op_halt = "HALT"
