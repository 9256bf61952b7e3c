-- ===== src/Cpu/Exec/Switch.antt =====
-- The switch over the opcode and the check of privileged instructions.
use tortoise.Base.{Bool, true, false, not, ◌&&◌, Option, none, some, if◌then◌else◌, has_bit}
use tortoise.Machine.Monad.{M, Void, skip, ◌>>=◌, ◌>>◌, when, get}
use tortoise.Alu.{beq, bne, blt, bge, ble, bgt, blo, bhs, bls, bhi, bmi, bpl, bvs, bvc}
use tortoise.Isa.{
  Opcode, op_nop, op_load, op_add, op_store, op_jmp, op_jz, op_and, op_or, op_xor, op_not, op_call,
  op_ret, op_in, op_out, op_sub, op_cmp, op_jc, op_jn, op_jo, op_jnz, op_shl, op_shr, op_mul,
  op_div, op_int, op_iret, op_cli, op_sti, op_load32, op_store32, op_add32, op_sub32, op_mul32,
  op_div32, op_shl32, op_shr32, op_and32, op_or32, op_xor32, op_cmp32, op_mov, op_add_reg,
  op_sub_reg, op_cmp_reg, op_and_reg, op_or_reg, op_xor_reg, op_mul_reg, op_div_reg, op_push,
  op_pop, op_load_indir, op_store_indir, op_load32_indir, op_store32_indir, op_syscall, op_sysret,
  op_jmpr, op_callr, op_jmprel, op_callrel, op_beq, op_bne, op_blt, op_bge, op_ble, op_bgt, op_blo,
  op_bhs, op_bls, op_bhi, op_bmi, op_bpl, op_bvs, op_bvc, op_jmp32, op_call32, op_adc, op_sbb,
  op_sarv, op_shlv, op_shrv, op_rolv, op_rorv, op_imul, op_idiv, op_umod, op_imod, op_neg, op_test,
  op_mulhu, op_mulhs, op_sar, op_rol, op_ror, op_adci, op_sbbi, op_imuli, op_idivi, op_umodi,
  op_imodi, op_testi, op_ldb, op_ldbs, op_ldh, op_ldhs, op_ldw, op_stb, op_sth, op_stw, op_lea,
  op_leapc, op_movsp, op_setsp, op_addsp, op_brk, op_mfcr, op_mtcr, op_tlbflush, op_invlpg, op_wfi,
  op_cpuid, op_pushf, op_popf, op_rdcyc, op_ret32, op_push32, op_pop32, op_add32r, op_sub32r,
  op_cmp32r, op_mul32r, op_div32r, op_halt,
}
use tortoise.Isa.Decode.{opcode_at}
use tortoise.Mem.Phys.{ext_on}
use tortoise.Mem.Virtual.{is_user}
use tortoise.Cpu.Fault.{cpu_fault}
use tortoise.Cpu.Stack.{fetch_byte, cpu_interrupt, invalid_opcode, trap}
use tortoise.Cpu.Exec.Imm16.{
  exec_load, exec_add, exec_store, exec_jmp, exec_jz, exec_and, exec_or, exec_xor, exec_not,
  exec_call, exec_ret, exec_in, exec_out, exec_sub, exec_cmp, exec_jump_if, exec_shl, exec_shr,
  exec_mul, exec_div,
}
use tortoise.Cpu.Exec.Imm32.{
  exec_load32, exec_store32, exec_add32, exec_sub32, exec_mul32, exec_div32, exec_shl32, exec_shr32,
  exec_and32, exec_or32, exec_xor32, exec_cmp32,
}
use tortoise.Cpu.Exec.Pair16.{
  exec_mov, exec_add_reg, exec_sub_reg, exec_cmp_reg, exec_and_reg, exec_or_reg, exec_xor_reg,
  exec_mul_reg, exec_div_reg, exec_push, exec_pop,
}
use tortoise.Cpu.Exec.Indirect.{exec_load_indir, exec_store_indir}
use tortoise.Cpu.Exec.Control.{
  exec_int, exec_iret, exec_syscall, exec_sysret, exec_jmpr, exec_callr, exec_jmprel, exec_callrel,
  exec_branch, exec_jmp32, exec_call32, exec_ret32,
}
use tortoise.Cpu.Exec.Alu32.{exec_pair, exec_neg, exec_imm}
use tortoise.Cpu.Exec.Memory.{
  exec_ld, exec_st, exec_leapc, exec_movsp, exec_setsp, exec_addsp, exec_push32, exec_pop32,
}
use tortoise.Cpu.Exec.System.{
  exec_set_int, exec_mfcr, exec_mtcr, exec_tlbflush, exec_invlpg, exec_wfi, exec_cpuid, exec_pushf,
  exec_popf, exec_rdcyc, exec_halt,
}

unfoldable pub execute : Opcode → M Void
execute op_nop = skip
execute op_load = exec_load
execute op_add = exec_add
execute op_store = exec_store
execute op_jmp = exec_jmp
execute op_jz = exec_jz
execute op_and = exec_and
execute op_or = exec_or
execute op_xor = exec_xor
execute op_not = exec_not
execute op_call = exec_call
execute op_ret = exec_ret
execute op_in = exec_in
execute op_out = exec_out
execute op_sub = exec_sub
execute op_cmp = exec_cmp
execute op_jc = exec_jump_if (has_bit 1)
execute op_jn = exec_jump_if (has_bit 2)
execute op_jo = exec_jump_if (has_bit 3)
execute op_jnz = exec_jump_if (λ flags. not (has_bit 0 flags))
execute op_shl = exec_shl
execute op_shr = exec_shr
execute op_mul = exec_mul
execute op_div = exec_div
execute op_int = exec_int
execute op_iret = exec_iret
execute op_cli = exec_set_int false
execute op_sti = exec_set_int true
execute op_load32 = exec_load32
execute op_store32 = exec_store32
execute op_add32 = exec_add32
execute op_sub32 = exec_sub32
execute op_mul32 = exec_mul32
execute op_div32 = exec_div32
execute op_shl32 = exec_shl32
execute op_shr32 = exec_shr32
execute op_and32 = exec_and32
execute op_or32 = exec_or32
execute op_xor32 = exec_xor32
execute op_cmp32 = exec_cmp32
execute op_mov = exec_mov
execute op_add_reg = exec_add_reg
execute op_sub_reg = exec_sub_reg
execute op_cmp_reg = exec_cmp_reg
execute op_and_reg = exec_and_reg
execute op_or_reg = exec_or_reg
execute op_xor_reg = exec_xor_reg
execute op_mul_reg = exec_mul_reg
execute op_div_reg = exec_div_reg
execute op_push = exec_push
execute op_pop = exec_pop
execute op_load_indir = exec_load_indir 2
execute op_store_indir = exec_store_indir 2
execute op_load32_indir = exec_load_indir 4
execute op_store32_indir = exec_store_indir 4
execute op_syscall = exec_syscall
execute op_sysret = exec_sysret
execute op_jmpr = exec_jmpr
execute op_callr = exec_callr
execute op_jmprel = exec_jmprel
execute op_callrel = exec_callrel
execute op_beq = exec_branch beq
execute op_bne = exec_branch bne
execute op_blt = exec_branch blt
execute op_bge = exec_branch bge
execute op_ble = exec_branch ble
execute op_bgt = exec_branch bgt
execute op_blo = exec_branch blo
execute op_bhs = exec_branch bhs
execute op_bls = exec_branch bls
execute op_bhi = exec_branch bhi
execute op_bmi = exec_branch bmi
execute op_bpl = exec_branch bpl
execute op_bvs = exec_branch bvs
execute op_bvc = exec_branch bvc
execute op_jmp32 = exec_jmp32
execute op_call32 = exec_call32
execute op_adc = exec_pair op_adc
execute op_sbb = exec_pair op_sbb
execute op_sarv = exec_pair op_sarv
execute op_shlv = exec_pair op_shlv
execute op_shrv = exec_pair op_shrv
execute op_rolv = exec_pair op_rolv
execute op_rorv = exec_pair op_rorv
execute op_imul = exec_pair op_imul
execute op_idiv = exec_pair op_idiv
execute op_umod = exec_pair op_umod
execute op_imod = exec_pair op_imod
execute op_neg = exec_neg
execute op_test = exec_pair op_test
execute op_mulhu = exec_pair op_mulhu
execute op_mulhs = exec_pair op_mulhs
execute op_sar = exec_imm op_sar
execute op_rol = exec_imm op_rol
execute op_ror = exec_imm op_ror
execute op_adci = exec_imm op_adci
execute op_sbbi = exec_imm op_sbbi
execute op_imuli = exec_imm op_imuli
execute op_idivi = exec_imm op_idivi
execute op_umodi = exec_imm op_umodi
execute op_imodi = exec_imm op_imodi
execute op_testi = exec_imm op_testi
execute op_ldb = exec_ld op_ldb
execute op_ldbs = exec_ld op_ldbs
execute op_ldh = exec_ld op_ldh
execute op_ldhs = exec_ld op_ldhs
execute op_ldw = exec_ld op_ldw
execute op_stb = exec_st op_stb
execute op_sth = exec_st op_sth
execute op_stw = exec_st op_stw
execute op_lea = exec_ld op_lea
execute op_leapc = exec_leapc
execute op_movsp = exec_movsp
execute op_setsp = exec_setsp
execute op_addsp = exec_addsp
execute op_brk = trap 3
execute op_mfcr = exec_mfcr
execute op_mtcr = exec_mtcr
execute op_tlbflush = exec_tlbflush
execute op_invlpg = exec_invlpg
execute op_wfi = exec_wfi
execute op_cpuid = exec_cpuid
execute op_pushf = exec_pushf
execute op_popf = exec_popf
execute op_rdcyc = exec_rdcyc
execute op_ret32 = exec_ret32
execute op_push32 = exec_push32
execute op_pop32 = exec_pop32
execute op_add32r = exec_pair op_add32r
execute op_sub32r = exec_pair op_sub32r
execute op_cmp32r = exec_pair op_cmp32r
execute op_mul32r = exec_pair op_mul32r
execute op_div32r = exec_pair op_div32r
execute op_halt = exec_halt

-- What a user program may not execute in legacy mode.
unfoldable pub is_privileged : Option Opcode → Bool
is_privileged none = false
is_privileged (some op_cli) = true
is_privileged (some op_sti) = true
is_privileged (some op_iret) = true
is_privileged (some op_in) = true
is_privileged (some op_out) = true
is_privileged (some _) = false

-- In extended mode HALT and SYSRET are privileged too.
unfoldable pub is_ext_privileged : Option Opcode → Bool
unfolding is_privileged
is_ext_privileged (some op_halt) = true
is_ext_privileged (some op_sysret) = true
is_ext_privileged op = is_privileged op

-- `none` is the `default` of the switch.
unfoldable pub dispatch : Option Opcode → M Void
dispatch none = invalid_opcode
dispatch (some op) = execute op

unfoldable pub execute_instruction : M Void
unfolding dispatch is_privileged is_ext_privileged
execute_instruction = do
  b ← fetch_byte
  let op = opcode_at b
  user_mode ← get (λ m. is_user m.mode)
  ext ← get ext_on
  when (user_mode && ext && is_ext_privileged op) (cpu_fault 13 0)
  if user_mode && not ext && is_privileged op then cpu_interrupt 13 else dispatch op
