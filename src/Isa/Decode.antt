-- ===== src/Isa/Decode.antt =====
-- From a byte to its opcode: the `switch` over the opcode, and `op_len` as `cpu_init_size` fills it.
use tortoise.Base.{ℕ, Option, none, some, List, [], ◌∷◌, ◌==◌, if◌then◌else◌}
use tortoise.Isa.{Opcode, opcode_byte}
use tortoise.Isa.Format.{op_format, dis_len}
use tortoise.Isa.{
  op_nop, op_load, op_add, op_store, op_jmp, op_jz, op_and, op_or, op_xor, op_not, op_call, op_ret,
  op_in, op_out, op_sub, op_cmp, op_jc, op_jn, op_jo, op_jnz, op_shl, op_shr, op_mul, op_div,
  op_int, op_iret, op_cli, op_sti, op_load32, op_store32, op_add32, op_sub32, op_mul32, op_div32,
  op_shl32, op_shr32, op_and32, op_or32, op_xor32, op_cmp32, op_mov, op_add_reg, op_sub_reg,
  op_cmp_reg, op_and_reg, op_or_reg, op_xor_reg, op_mul_reg, op_div_reg, op_push, op_pop,
  op_load_indir, op_store_indir, op_load32_indir, op_store32_indir, op_syscall, op_sysret, op_jmpr,
  op_callr, op_jmprel, op_callrel, op_beq, op_bne, op_blt, op_bge, op_ble, op_bgt, op_blo, op_bhs,
  op_bls, op_bhi, op_bmi, op_bpl, op_bvs, op_bvc, op_jmp32, op_call32, op_adc, op_sbb, op_sarv,
  op_shlv, op_shrv, op_rolv, op_rorv, op_imul, op_idiv, op_umod, op_imod, op_neg, op_test, op_mulhu,
  op_mulhs, op_sar, op_rol, op_ror, op_adci, op_sbbi, op_imuli, op_idivi, op_umodi, op_imodi,
  op_testi, op_ldb, op_ldbs, op_ldh, op_ldhs, op_ldw, op_stb, op_sth, op_stw, op_lea, op_leapc,
  op_movsp, op_setsp, op_addsp, op_brk, op_mfcr, op_mtcr, op_tlbflush, op_invlpg, op_wfi, op_cpuid,
  op_pushf, op_popf, op_rdcyc, op_ret32, op_push32, op_pop32, op_add32r, op_sub32r, op_cmp32r,
  op_mul32r, op_div32r, op_halt,
}

abbrev pub opcodes : List Opcode
opcodes =
    op_nop ∷ op_load ∷ op_add ∷ op_store ∷ op_jmp ∷ op_jz ∷ op_and ∷ op_or ∷ op_xor ∷ op_not
    ∷ op_call ∷ op_ret ∷ op_in ∷ op_out ∷ op_sub ∷ op_cmp ∷ op_jc ∷ op_jn ∷ op_jo ∷ op_jnz ∷ op_shl
    ∷ op_shr ∷ op_mul ∷ op_div ∷ op_int ∷ op_iret ∷ op_cli ∷ op_sti ∷ op_load32 ∷ op_store32
    ∷ op_add32 ∷ op_sub32 ∷ op_mul32 ∷ op_div32 ∷ op_shl32 ∷ op_shr32 ∷ op_and32 ∷ op_or32
    ∷ op_xor32 ∷ op_cmp32 ∷ op_mov ∷ op_add_reg ∷ op_sub_reg ∷ op_cmp_reg ∷ op_and_reg ∷ op_or_reg
    ∷ op_xor_reg ∷ op_mul_reg ∷ op_div_reg ∷ op_push ∷ op_pop ∷ op_load_indir ∷ op_store_indir
    ∷ op_load32_indir ∷ op_store32_indir ∷ op_syscall ∷ op_sysret ∷ op_jmpr ∷ op_callr ∷ op_jmprel
    ∷ op_callrel ∷ op_beq ∷ op_bne ∷ op_blt ∷ op_bge ∷ op_ble ∷ op_bgt ∷ op_blo ∷ op_bhs ∷ op_bls
    ∷ op_bhi ∷ op_bmi ∷ op_bpl ∷ op_bvs ∷ op_bvc ∷ op_jmp32 ∷ op_call32 ∷ op_adc ∷ op_sbb ∷ op_sarv
    ∷ op_shlv ∷ op_shrv ∷ op_rolv ∷ op_rorv ∷ op_imul ∷ op_idiv ∷ op_umod ∷ op_imod ∷ op_neg
    ∷ op_test ∷ op_mulhu ∷ op_mulhs ∷ op_sar ∷ op_rol ∷ op_ror ∷ op_adci ∷ op_sbbi ∷ op_imuli
    ∷ op_idivi ∷ op_umodi ∷ op_imodi ∷ op_testi ∷ op_ldb ∷ op_ldbs ∷ op_ldh ∷ op_ldhs ∷ op_ldw
    ∷ op_stb ∷ op_sth ∷ op_stw ∷ op_lea ∷ op_leapc ∷ op_movsp ∷ op_setsp ∷ op_addsp ∷ op_brk
    ∷ op_mfcr ∷ op_mtcr ∷ op_tlbflush ∷ op_invlpg ∷ op_wfi ∷ op_cpuid ∷ op_pushf ∷ op_popf
    ∷ op_rdcyc ∷ op_ret32 ∷ op_push32 ∷ op_pop32 ∷ op_add32r ∷ op_sub32r ∷ op_cmp32r ∷ op_mul32r
    ∷ op_div32r ∷ op_halt ∷ []

unfoldable pub find_opcode : ℕ → List Opcode → Option Opcode
find_opcode b [] = none
find_opcode b (o ∷ os) = let rest = find_opcode b os in if opcode_byte o == b then some o else rest

-- `none` where the switch takes `default`.
unfoldable pub opcode_at : ℕ → Option Opcode
unfolding find_opcode opcode_byte
opcode_at b = find_opcode b opcodes

abbrev pub length_of : Option Opcode → ℕ
length_of none = 1
length_of (some o) = dis_len (op_format o)

-- The length of an instruction by its first byte; a byte that is no opcode has length 1.
unfoldable pub op_len : ℕ → ℕ
unfolding opcode_at op_format dis_len
op_len b = length_of (opcode_at b)
