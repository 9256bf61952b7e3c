-- ===== src/Isa/Format.antt =====
-- The table `dis_ops` and the lengths `dis_len` of src/dis.c.
use tortoise.Base.{ℕ}
use tortoise.Isa.{Opcode}
use tortoise.Isa.{
  op_nop, op_load, op_add, op_store, op_jmp, op_jz, op_and, op_or, op_xor, op_not, op_call, op_ret,
  op_in, op_out, op_sub, op_cmp, op_jc, op_jn, op_jo, op_jnz, op_shl, op_shr, op_mul, op_div,
  op_int, op_iret, op_cli, op_sti, op_load32, op_store32, op_add32, op_sub32, op_mul32, op_div32,
  op_shl32, op_shr32, op_and32, op_or32, op_xor32, op_cmp32, op_mov, op_add_reg, op_sub_reg,
  op_cmp_reg, op_and_reg, op_or_reg, op_xor_reg, op_mul_reg, op_div_reg, op_push, op_pop,
  op_load_indir, op_store_indir, op_load32_indir, op_store32_indir, op_syscall, op_sysret, op_jmpr,
  op_callr, op_jmprel, op_callrel, op_beq, op_bne, op_blt, op_bge, op_ble, op_bgt, op_blo, op_bhs,
  op_bls, op_bhi, op_bmi, op_bpl, op_bvs, op_bvc, op_jmp32, op_call32, op_adc, op_sbb, op_sarv,
  op_shlv, op_shrv, op_rolv, op_rorv, op_imul, op_idiv, op_umod, op_imod, op_neg, op_test, op_mulhu,
  op_mulhs, op_sar, op_rol, op_ror, op_adci, op_sbbi, op_imuli, op_idivi, op_umodi, op_imodi,
  op_testi, op_ldb, op_ldbs, op_ldh, op_ldhs, op_ldw, op_stb, op_sth, op_stw, op_lea, op_leapc,
  op_movsp, op_setsp, op_addsp, op_brk, op_mfcr, op_mtcr, op_tlbflush, op_invlpg, op_wfi, op_cpuid,
  op_pushf, op_popf, op_rdcyc, op_ret32, op_push32, op_pop32, op_add32r, op_sub32r, op_cmp32r,
  op_mul32r, op_div32r, op_halt,
}

-- The operand formats of include/dis.h; no opcode has the format `f_x`.
pub data Format : Type 0 where
  f_n f_x f_r8 f_i8 f_rr f_a16 f_ri16 f_rd16 f_ind f_inds f_ri32 f_ra f_rb f_ri f_rel f_abs f_m :
      Format
  f_ms f_leapc f_mfcr f_mtcr f_addsp : Format

unfoldable pub dis_len : Format → ℕ
dis_len f_n = 1
dis_len f_x = 1
dis_len f_r8 = 2
dis_len f_i8 = 2
dis_len f_rr = 2
dis_len f_a16 = 3
dis_len f_ri16 = 4
dis_len f_rd16 = 4
dis_len f_ind = 4
dis_len f_inds = 4
dis_len f_ri32 = 6
dis_len f_ra = 2
dis_len f_rb = 2
dis_len f_ri = 6
dis_len f_rel = 6
dis_len f_abs = 6
dis_len f_m = 6
dis_len f_ms = 6
dis_len f_leapc = 6
dis_len f_mfcr = 2
dis_len f_mtcr = 2
dis_len f_addsp = 6

unfoldable pub op_format : Opcode → Format
op_format op_nop = f_n
op_format op_load = f_ri16
op_format op_add = f_ri16
op_format op_store = f_ri16
op_format op_jmp = f_a16
op_format op_jz = f_ri16
op_format op_and = f_ri16
op_format op_or = f_ri16
op_format op_xor = f_ri16
op_format op_not = f_r8
op_format op_call = f_a16
op_format op_ret = f_n
op_format op_in = f_ri16
op_format op_out = f_ri16
op_format op_sub = f_ri16
op_format op_cmp = f_ri16
op_format op_jc = f_a16
op_format op_jn = f_a16
op_format op_jo = f_a16
op_format op_jnz = f_a16
op_format op_shl = f_rd16
op_format op_shr = f_rd16
op_format op_mul = f_rd16
op_format op_div = f_rd16
op_format op_int = f_i8
op_format op_iret = f_n
op_format op_cli = f_n
op_format op_sti = f_n
op_format op_load32 = f_ri32
op_format op_store32 = f_ri32
op_format op_add32 = f_ri32
op_format op_sub32 = f_ri32
op_format op_mul32 = f_ri32
op_format op_div32 = f_ri32
op_format op_shl32 = f_ri32
op_format op_shr32 = f_ri32
op_format op_and32 = f_ri32
op_format op_or32 = f_ri32
op_format op_xor32 = f_ri32
op_format op_cmp32 = f_ri32
op_format op_mov = f_rr
op_format op_add_reg = f_rr
op_format op_sub_reg = f_rr
op_format op_cmp_reg = f_rr
op_format op_and_reg = f_rr
op_format op_or_reg = f_rr
op_format op_xor_reg = f_rr
op_format op_mul_reg = f_rr
op_format op_div_reg = f_rr
op_format op_push = f_r8
op_format op_pop = f_r8
op_format op_load_indir = f_ind
op_format op_store_indir = f_inds
op_format op_load32_indir = f_ind
op_format op_store32_indir = f_inds
op_format op_syscall = f_n
op_format op_sysret = f_n
op_format op_jmpr = f_rb
op_format op_callr = f_rb
op_format op_jmprel = f_rel
op_format op_callrel = f_rel
op_format op_beq = f_rel
op_format op_bne = f_rel
op_format op_blt = f_rel
op_format op_bge = f_rel
op_format op_ble = f_rel
op_format op_bgt = f_rel
op_format op_blo = f_rel
op_format op_bhs = f_rel
op_format op_bls = f_rel
op_format op_bhi = f_rel
op_format op_bmi = f_rel
op_format op_bpl = f_rel
op_format op_bvs = f_rel
op_format op_bvc = f_rel
op_format op_jmp32 = f_abs
op_format op_call32 = f_abs
op_format op_adc = f_rr
op_format op_sbb = f_rr
op_format op_sarv = f_rr
op_format op_shlv = f_rr
op_format op_shrv = f_rr
op_format op_rolv = f_rr
op_format op_rorv = f_rr
op_format op_imul = f_rr
op_format op_idiv = f_rr
op_format op_umod = f_rr
op_format op_imod = f_rr
op_format op_neg = f_ra
op_format op_test = f_rr
op_format op_mulhu = f_rr
op_format op_mulhs = f_rr
op_format op_sar = f_ri
op_format op_rol = f_ri
op_format op_ror = f_ri
op_format op_adci = f_ri
op_format op_sbbi = f_ri
op_format op_imuli = f_ri
op_format op_idivi = f_ri
op_format op_umodi = f_ri
op_format op_imodi = f_ri
op_format op_testi = f_ri
op_format op_ldb = f_m
op_format op_ldbs = f_m
op_format op_ldh = f_m
op_format op_ldhs = f_m
op_format op_ldw = f_m
op_format op_stb = f_ms
op_format op_sth = f_ms
op_format op_stw = f_ms
op_format op_lea = f_m
op_format op_leapc = f_leapc
op_format op_movsp = f_ra
op_format op_setsp = f_rb
op_format op_addsp = f_addsp
op_format op_brk = f_n
op_format op_mfcr = f_mfcr
op_format op_mtcr = f_mtcr
op_format op_tlbflush = f_n
op_format op_invlpg = f_rb
op_format op_wfi = f_n
op_format op_cpuid = f_ra
op_format op_pushf = f_n
op_format op_popf = f_n
op_format op_rdcyc = f_ra
op_format op_ret32 = f_n
op_format op_push32 = f_rb
op_format op_pop32 = f_ra
op_format op_add32r = f_rr
op_format op_sub32r = f_rr
op_format op_cmp32r = f_rr
op_format op_mul32r = f_rr
op_format op_div32r = f_rr
op_format op_halt = f_n
