-- ===== src/Cpu/Exec/Steady/Switch.antt =====
-- How the switch over the opcode of src/cpu.c ends. WFI waits for the host, which the model
-- bounds by `Host.patience`, and is left out.
use tortoise.Base.{
  ◌≡◌, ◌≢◌, refl, ap, if◌then◌else◌, ◌+◌, Bool, true, false, not, ◌&&◌, Option, none, some, has_bit,
  get_or,
}
use tortoise.Machine.{Machine}
use tortoise.Machine.Monad.{when, ◌>>◌}
use tortoise.Machine.Steady.{KeepsDepth, returns, sequencing}
use tortoise.Alu.{beq, bge, bgt, bhi, bhs, ble, blo, bls, blt, bmi, bne, bpl, bvc, bvs}
use tortoise.Isa.{
  Opcode, op_nop, op_load, op_add, op_store, op_jmp, op_jz, op_and, op_or, op_xor, op_not, op_call,
  op_ret, op_in, op_out, op_sub, op_cmp, op_jc, op_jn, op_jo, op_jnz, op_shl, op_shr, op_mul,
  op_div, op_int, op_iret, op_cli, op_sti, op_load32, op_store32, op_add32, op_sub32, op_mul32,
  op_div32, op_shl32, op_shr32, op_and32, op_or32, op_xor32, op_cmp32, op_mov, op_add_reg,
  op_sub_reg, op_cmp_reg, op_and_reg, op_or_reg, op_xor_reg, op_mul_reg, op_div_reg, op_push,
  op_pop, op_load_indir, op_store_indir, op_load32_indir, op_store32_indir, op_syscall, op_sysret,
  op_jmpr, op_callr, op_jmprel, op_callrel, op_beq, op_bne, op_blt, op_bge, op_ble, op_bgt, op_blo,
  op_bhs, op_bls, op_bhi, op_bmi, op_bpl, op_bvs, op_bvc, op_jmp32, op_call32, op_adc, op_sbb,
  op_sarv, op_shlv, op_shrv, op_rolv, op_rorv, op_imul, op_idiv, op_umod, op_imod, op_neg, op_test,
  op_mulhu, op_mulhs, op_sar, op_rol, op_ror, op_adci, op_sbbi, op_imuli, op_idivi, op_umodi,
  op_imodi, op_testi, op_ldb, op_ldbs, op_ldh, op_ldhs, op_ldw, op_stb, op_sth, op_stw, op_lea,
  op_leapc, op_movsp, op_setsp, op_addsp, op_brk, op_mfcr, op_mtcr, op_tlbflush, op_invlpg, op_wfi,
  op_cpuid, op_pushf, op_popf, op_rdcyc, op_ret32, op_push32, op_pop32, op_add32r, op_sub32r,
  op_cmp32r, op_mul32r, op_div32r, op_halt,
}
use tortoise.Isa.Decode.{opcode_at}
use tortoise.Cpu.Fault.Steady.{cpu_fault-KeepsDepth}
use tortoise.Cpu.Stack.{fetch_byte, cpu_interrupt}
use tortoise.Cpu.Fault.{cpu_fault}
use tortoise.Mem.Phys.{ext_on}
use tortoise.Mem.Virtual.{is_user}
use tortoise.Cpu.Stack.Steady.{cpu_interrupt-KeepsDepth, invalid_opcode-KeepsDepth}
use tortoise.Cpu.Exec.Steady.Alu32.{exec_imm-KeepsDepth, exec_neg-KeepsDepth, exec_pair-KeepsDepth}
use tortoise.Cpu.Exec.Steady.Control.{
  exec_branch-KeepsDepth, exec_call32-KeepsDepth, exec_callr-KeepsDepth, exec_callrel-KeepsDepth,
  exec_int-KeepsDepth, exec_iret-KeepsDepth, exec_jmp32-KeepsDepth, exec_jmpr-KeepsDepth,
  exec_jmprel-KeepsDepth, exec_ret32-KeepsDepth, exec_syscall-KeepsDepth, exec_sysret-KeepsDepth,
}
use tortoise.Cpu.Exec.Steady.Imm16.{
  exec_add-KeepsDepth, exec_and-KeepsDepth, exec_call-KeepsDepth, exec_cmp-KeepsDepth,
  exec_div-KeepsDepth, exec_in-KeepsDepth, exec_jmp-KeepsDepth, exec_jump_if-KeepsDepth,
  exec_jz-KeepsDepth, exec_load-KeepsDepth, exec_mul-KeepsDepth, exec_not-KeepsDepth,
  exec_or-KeepsDepth, exec_out-KeepsDepth, exec_ret-KeepsDepth, exec_shl-KeepsDepth,
  exec_shr-KeepsDepth, exec_store-KeepsDepth, exec_sub-KeepsDepth, exec_xor-KeepsDepth,
}
use tortoise.Cpu.Exec.Steady.Imm32.{
  exec_add32-KeepsDepth, exec_and32-KeepsDepth, exec_cmp32-KeepsDepth, exec_div32-KeepsDepth,
  exec_load32-KeepsDepth, exec_mul32-KeepsDepth, exec_or32-KeepsDepth, exec_shl32-KeepsDepth,
  exec_shr32-KeepsDepth, exec_store32-KeepsDepth, exec_sub32-KeepsDepth, exec_xor32-KeepsDepth,
}
use tortoise.Cpu.Exec.Steady.Memory.{
  exec_addsp-KeepsDepth, exec_ld-KeepsDepth, exec_leapc-KeepsDepth, exec_movsp-KeepsDepth,
  exec_pop32-KeepsDepth, exec_push32-KeepsDepth, exec_setsp-KeepsDepth, exec_st-KeepsDepth,
}
use tortoise.Cpu.Exec.Steady.Pair16.{
  exec_add_reg-KeepsDepth, exec_and_reg-KeepsDepth, exec_cmp_reg-KeepsDepth,
  exec_div_reg-KeepsDepth, exec_load_indir-KeepsDepth, exec_mov-KeepsDepth, exec_mul_reg-KeepsDepth,
  exec_or_reg-KeepsDepth, exec_pop-KeepsDepth, exec_push-KeepsDepth, exec_store_indir-KeepsDepth,
  exec_sub_reg-KeepsDepth, exec_xor_reg-KeepsDepth,
}
use tortoise.Cpu.Exec.Steady.System.{
  exec_cpuid-KeepsDepth, exec_halt-KeepsDepth, exec_invlpg-KeepsDepth, exec_mfcr-KeepsDepth,
  exec_mtcr-KeepsDepth, exec_popf-KeepsDepth, exec_pushf-KeepsDepth, exec_rdcyc-KeepsDepth,
  exec_set_int-KeepsDepth, exec_tlbflush-KeepsDepth,
}
use tortoise.Cpu.Stack.Steady.{trap-KeepsDepth}
use tortoise.Cpu.Exec.Switch.{
  is_privileged, is_ext_privileged, execute, dispatch, execute_instruction,
}

execute-KeepsDepth :
    (op : Opcode) → op ≢ op_wfi → (m : Machine) → m.depth ≡ 0 → KeepsDepth 0 (execute op m)
unfolding execute
execute-KeepsDepth op_nop other m h = returns h
execute-KeepsDepth op_load other m h = exec_load-KeepsDepth m h
execute-KeepsDepth op_add other m h = exec_add-KeepsDepth m h
execute-KeepsDepth op_store other m h = exec_store-KeepsDepth m h
execute-KeepsDepth op_jmp other m h = exec_jmp-KeepsDepth m h
execute-KeepsDepth op_jz other m h = exec_jz-KeepsDepth m h
execute-KeepsDepth op_and other m h = exec_and-KeepsDepth m h
execute-KeepsDepth op_or other m h = exec_or-KeepsDepth m h
execute-KeepsDepth op_xor other m h = exec_xor-KeepsDepth m h
execute-KeepsDepth op_not other m h = exec_not-KeepsDepth m h
execute-KeepsDepth op_call other m h = exec_call-KeepsDepth m h
execute-KeepsDepth op_ret other m h = exec_ret-KeepsDepth m h
execute-KeepsDepth op_in other m h = exec_in-KeepsDepth m h
execute-KeepsDepth op_out other m h = exec_out-KeepsDepth m h
execute-KeepsDepth op_sub other m h = exec_sub-KeepsDepth m h
execute-KeepsDepth op_cmp other m h = exec_cmp-KeepsDepth m h
execute-KeepsDepth op_jc other m h = exec_jump_if-KeepsDepth (has_bit 1) m h
execute-KeepsDepth op_jn other m h = exec_jump_if-KeepsDepth (has_bit 2) m h
execute-KeepsDepth op_jo other m h = exec_jump_if-KeepsDepth (has_bit 3) m h
execute-KeepsDepth op_jnz other m h = exec_jump_if-KeepsDepth (λ flags. not (has_bit 0 flags)) m h
execute-KeepsDepth op_shl other m h = exec_shl-KeepsDepth m h
execute-KeepsDepth op_shr other m h = exec_shr-KeepsDepth m h
execute-KeepsDepth op_mul other m h = exec_mul-KeepsDepth m h
execute-KeepsDepth op_div other m h = exec_div-KeepsDepth m h
execute-KeepsDepth op_int other m h = exec_int-KeepsDepth m h
execute-KeepsDepth op_iret other m h = exec_iret-KeepsDepth m h
execute-KeepsDepth op_cli other m h = exec_set_int-KeepsDepth false m h
execute-KeepsDepth op_sti other m h = exec_set_int-KeepsDepth true m h
execute-KeepsDepth op_load32 other m h = exec_load32-KeepsDepth m h
execute-KeepsDepth op_store32 other m h = exec_store32-KeepsDepth m h
execute-KeepsDepth op_add32 other m h = exec_add32-KeepsDepth m h
execute-KeepsDepth op_sub32 other m h = exec_sub32-KeepsDepth m h
execute-KeepsDepth op_mul32 other m h = exec_mul32-KeepsDepth m h
execute-KeepsDepth op_div32 other m h = exec_div32-KeepsDepth m h
execute-KeepsDepth op_shl32 other m h = exec_shl32-KeepsDepth m h
execute-KeepsDepth op_shr32 other m h = exec_shr32-KeepsDepth m h
execute-KeepsDepth op_and32 other m h = exec_and32-KeepsDepth m h
execute-KeepsDepth op_or32 other m h = exec_or32-KeepsDepth m h
execute-KeepsDepth op_xor32 other m h = exec_xor32-KeepsDepth m h
execute-KeepsDepth op_cmp32 other m h = exec_cmp32-KeepsDepth m h
execute-KeepsDepth op_mov other m h = exec_mov-KeepsDepth m h
execute-KeepsDepth op_add_reg other m h = exec_add_reg-KeepsDepth m h
execute-KeepsDepth op_sub_reg other m h = exec_sub_reg-KeepsDepth m h
execute-KeepsDepth op_cmp_reg other m h = exec_cmp_reg-KeepsDepth m h
execute-KeepsDepth op_and_reg other m h = exec_and_reg-KeepsDepth m h
execute-KeepsDepth op_or_reg other m h = exec_or_reg-KeepsDepth m h
execute-KeepsDepth op_xor_reg other m h = exec_xor_reg-KeepsDepth m h
execute-KeepsDepth op_mul_reg other m h = exec_mul_reg-KeepsDepth m h
execute-KeepsDepth op_div_reg other m h = exec_div_reg-KeepsDepth m h
execute-KeepsDepth op_push other m h = exec_push-KeepsDepth m h
execute-KeepsDepth op_pop other m h = exec_pop-KeepsDepth m h
execute-KeepsDepth op_load_indir other m h = exec_load_indir-KeepsDepth 2 m h
execute-KeepsDepth op_store_indir other m h = exec_store_indir-KeepsDepth 2 m h
execute-KeepsDepth op_load32_indir other m h = exec_load_indir-KeepsDepth 4 m h
execute-KeepsDepth op_store32_indir other m h = exec_store_indir-KeepsDepth 4 m h
execute-KeepsDepth op_syscall other m h = exec_syscall-KeepsDepth m h
execute-KeepsDepth op_sysret other m h = exec_sysret-KeepsDepth m h
execute-KeepsDepth op_jmpr other m h = exec_jmpr-KeepsDepth m h
execute-KeepsDepth op_callr other m h = exec_callr-KeepsDepth m h
execute-KeepsDepth op_jmprel other m h = exec_jmprel-KeepsDepth m h
execute-KeepsDepth op_callrel other m h = exec_callrel-KeepsDepth m h
execute-KeepsDepth op_beq other m h = exec_branch-KeepsDepth beq m h
execute-KeepsDepth op_bne other m h = exec_branch-KeepsDepth bne m h
execute-KeepsDepth op_blt other m h = exec_branch-KeepsDepth blt m h
execute-KeepsDepth op_bge other m h = exec_branch-KeepsDepth bge m h
execute-KeepsDepth op_ble other m h = exec_branch-KeepsDepth ble m h
execute-KeepsDepth op_bgt other m h = exec_branch-KeepsDepth bgt m h
execute-KeepsDepth op_blo other m h = exec_branch-KeepsDepth blo m h
execute-KeepsDepth op_bhs other m h = exec_branch-KeepsDepth bhs m h
execute-KeepsDepth op_bls other m h = exec_branch-KeepsDepth bls m h
execute-KeepsDepth op_bhi other m h = exec_branch-KeepsDepth bhi m h
execute-KeepsDepth op_bmi other m h = exec_branch-KeepsDepth bmi m h
execute-KeepsDepth op_bpl other m h = exec_branch-KeepsDepth bpl m h
execute-KeepsDepth op_bvs other m h = exec_branch-KeepsDepth bvs m h
execute-KeepsDepth op_bvc other m h = exec_branch-KeepsDepth bvc m h
execute-KeepsDepth op_jmp32 other m h = exec_jmp32-KeepsDepth m h
execute-KeepsDepth op_call32 other m h = exec_call32-KeepsDepth m h
execute-KeepsDepth op_adc other m h = exec_pair-KeepsDepth op_adc m h
execute-KeepsDepth op_sbb other m h = exec_pair-KeepsDepth op_sbb m h
execute-KeepsDepth op_sarv other m h = exec_pair-KeepsDepth op_sarv m h
execute-KeepsDepth op_shlv other m h = exec_pair-KeepsDepth op_shlv m h
execute-KeepsDepth op_shrv other m h = exec_pair-KeepsDepth op_shrv m h
execute-KeepsDepth op_rolv other m h = exec_pair-KeepsDepth op_rolv m h
execute-KeepsDepth op_rorv other m h = exec_pair-KeepsDepth op_rorv m h
execute-KeepsDepth op_imul other m h = exec_pair-KeepsDepth op_imul m h
execute-KeepsDepth op_idiv other m h = exec_pair-KeepsDepth op_idiv m h
execute-KeepsDepth op_umod other m h = exec_pair-KeepsDepth op_umod m h
execute-KeepsDepth op_imod other m h = exec_pair-KeepsDepth op_imod m h
execute-KeepsDepth op_neg other m h = exec_neg-KeepsDepth m h
execute-KeepsDepth op_test other m h = exec_pair-KeepsDepth op_test m h
execute-KeepsDepth op_mulhu other m h = exec_pair-KeepsDepth op_mulhu m h
execute-KeepsDepth op_mulhs other m h = exec_pair-KeepsDepth op_mulhs m h
execute-KeepsDepth op_sar other m h = exec_imm-KeepsDepth op_sar m h
execute-KeepsDepth op_rol other m h = exec_imm-KeepsDepth op_rol m h
execute-KeepsDepth op_ror other m h = exec_imm-KeepsDepth op_ror m h
execute-KeepsDepth op_adci other m h = exec_imm-KeepsDepth op_adci m h
execute-KeepsDepth op_sbbi other m h = exec_imm-KeepsDepth op_sbbi m h
execute-KeepsDepth op_imuli other m h = exec_imm-KeepsDepth op_imuli m h
execute-KeepsDepth op_idivi other m h = exec_imm-KeepsDepth op_idivi m h
execute-KeepsDepth op_umodi other m h = exec_imm-KeepsDepth op_umodi m h
execute-KeepsDepth op_imodi other m h = exec_imm-KeepsDepth op_imodi m h
execute-KeepsDepth op_testi other m h = exec_imm-KeepsDepth op_testi m h
execute-KeepsDepth op_ldb other m h = exec_ld-KeepsDepth op_ldb m h
execute-KeepsDepth op_ldbs other m h = exec_ld-KeepsDepth op_ldbs m h
execute-KeepsDepth op_ldh other m h = exec_ld-KeepsDepth op_ldh m h
execute-KeepsDepth op_ldhs other m h = exec_ld-KeepsDepth op_ldhs m h
execute-KeepsDepth op_ldw other m h = exec_ld-KeepsDepth op_ldw m h
execute-KeepsDepth op_stb other m h = exec_st-KeepsDepth op_stb m h
execute-KeepsDepth op_sth other m h = exec_st-KeepsDepth op_sth m h
execute-KeepsDepth op_stw other m h = exec_st-KeepsDepth op_stw m h
execute-KeepsDepth op_lea other m h = exec_ld-KeepsDepth op_lea m h
execute-KeepsDepth op_leapc other m h = exec_leapc-KeepsDepth m h
execute-KeepsDepth op_movsp other m h = exec_movsp-KeepsDepth m h
execute-KeepsDepth op_setsp other m h = exec_setsp-KeepsDepth m h
execute-KeepsDepth op_addsp other m h = exec_addsp-KeepsDepth m h
execute-KeepsDepth op_brk other m h = trap-KeepsDepth 3 m h
execute-KeepsDepth op_mfcr other m h = exec_mfcr-KeepsDepth m h
execute-KeepsDepth op_mtcr other m h = exec_mtcr-KeepsDepth m h
execute-KeepsDepth op_tlbflush other m h = exec_tlbflush-KeepsDepth m h
execute-KeepsDepth op_invlpg other m h = exec_invlpg-KeepsDepth m h
execute-KeepsDepth op_wfi other m h = absurd (other refl)
execute-KeepsDepth op_cpuid other m h = exec_cpuid-KeepsDepth m h
execute-KeepsDepth op_pushf other m h = exec_pushf-KeepsDepth m h
execute-KeepsDepth op_popf other m h = exec_popf-KeepsDepth m h
execute-KeepsDepth op_rdcyc other m h = exec_rdcyc-KeepsDepth m h
execute-KeepsDepth op_ret32 other m h = exec_ret32-KeepsDepth m h
execute-KeepsDepth op_push32 other m h = exec_push32-KeepsDepth m h
execute-KeepsDepth op_pop32 other m h = exec_pop32-KeepsDepth m h
execute-KeepsDepth op_add32r other m h = exec_pair-KeepsDepth op_add32r m h
execute-KeepsDepth op_sub32r other m h = exec_pair-KeepsDepth op_sub32r m h
execute-KeepsDepth op_cmp32r other m h = exec_pair-KeepsDepth op_cmp32r m h
execute-KeepsDepth op_mul32r other m h = exec_pair-KeepsDepth op_mul32r m h
execute-KeepsDepth op_div32r other m h = exec_pair-KeepsDepth op_div32r m h
execute-KeepsDepth op_halt other m h = exec_halt-KeepsDepth m h

dispatch-KeepsDepth :
    (op : Option Opcode)
    → op ≢ some op_wfi
    → (m : Machine) → m.depth ≡ 0
    → KeepsDepth 0 (dispatch op m)
unfolding dispatch
dispatch-KeepsDepth none other m h = invalid_opcode-KeepsDepth m h
dispatch-KeepsDepth (some op) other m h = execute-KeepsDepth op (λ e. other (ap some e)) m h

-- The privilege check and the switch, by the results of the two tests.
guarded-KeepsDepth :
    (ext legacy : Bool) (op : Option Opcode)
    → op ≢ some op_wfi
    → (m : Machine) → m.depth ≡ 0
    → KeepsDepth 0
        ((when ext (cpu_fault 13 0) >> (if legacy then cpu_interrupt 13 else dispatch op)) m)
guarded-KeepsDepth ext legacy op other m h =
    search
      (sequencing, cpu_fault-KeepsDepth, cpu_interrupt-KeepsDepth, dispatch-KeepsDepth op other)
      depth 10

-- Outside an exception, an instruction in the buffer that is not WFI always comes to an end: it
-- returns at exception depth 0, or leaves by `longjmp` at depth 0 or with the machine stopped,
-- whatever the page tables, devices and exception vectors are.
pub execute_instruction-KeepsDepth :
    (m : Machine)
    → opcode_at (get_or m.ib m.ipos 0) ≢ some op_wfi
    → m.depth ≡ 0
    → KeepsDepth 0 (execute_instruction m)
unfolding execute_instruction fetch_byte dispatch is_privileged is_ext_privileged
execute_instruction-KeepsDepth m other h =
    let op = opcode_at (get_or m.ib m.ipos 0) in
    guarded-KeepsDepth (is_user m.mode && ext_on m && is_ext_privileged op)
      (is_user m.mode && not (ext_on m) && is_privileged op) op other
      (record m { ipos = m.ipos + 1 }) h
