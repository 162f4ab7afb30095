-- ===== src/Cairo/Runner/Instruction.antt =====
-- cairo/src/runner.rs: the accessors of `CairoInstruction`. Those of an operand or a result panic
-- where it is absent.
use proof_systems.Outcome.{Outcome, expect}
use proof_systems.Field.{Field}
use proof_systems.Cairo.Word
use proof_systems.Cairo.Word.{CairoWord}
use proof_systems.Cairo.Runner.State.{CairoInstruction}

module _ {F : Type 0} where
  unfoldable pub instr : CairoInstruction F → F
  instr i = i.word.word

  unfoldable pub size : CairoInstruction F → F
  size i = i.vars.size

  unfoldable pub res : CairoInstruction F → Outcome F
  res i = expect i.vars.res "None res"

  unfoldable pub dst : CairoInstruction F → Outcome F
  dst i = expect i.vars.dst "None dst"

  unfoldable pub op0 : CairoInstruction F → Outcome F
  op0 i = expect i.vars.op0 "None op0"

  unfoldable pub op1 : CairoInstruction F → Outcome F
  op1 i = expect i.vars.op1 "None op1"

  unfoldable pub adr_dst : CairoInstruction F → F
  adr_dst i = i.vars.adr_dst

  unfoldable pub adr_op0 : CairoInstruction F → F
  adr_op0 i = i.vars.adr_op0

  unfoldable pub adr_op1 : CairoInstruction F → F
  adr_op1 i = i.vars.adr_op1

  unfoldable pub pc : CairoInstruction F → F
  pc i = i.ptrs.pc

  unfoldable pub ap : CairoInstruction F → F
  ap i = i.ptrs.ap

  unfoldable pub fp : CairoInstruction F → F
  fp i = i.ptrs.fp

module _ {F : Type 0} ⦃f : Field F⦄ where
  unfoldable pub off_dst : CairoInstruction F → F
  off_dst i = Word.off_dst i.word

  unfoldable pub off_op0 : CairoInstruction F → F
  off_op0 i = Word.off_op0 i.word

  unfoldable pub off_op1 : CairoInstruction F → F
  off_op1 i = Word.off_op1 i.word

  unfoldable pub f_dst_fp : CairoInstruction F → F
  f_dst_fp i = Word.f_dst_fp i.word

  unfoldable pub f_op0_fp : CairoInstruction F → F
  f_op0_fp i = Word.f_op0_fp i.word

  unfoldable pub f_op1_val : CairoInstruction F → F
  f_op1_val i = Word.f_op1_val i.word

  unfoldable pub f_op1_fp : CairoInstruction F → F
  f_op1_fp i = Word.f_op1_fp i.word

  unfoldable pub f_op1_ap : CairoInstruction F → F
  f_op1_ap i = Word.f_op1_ap i.word

  unfoldable pub f_res_add : CairoInstruction F → F
  f_res_add i = Word.f_res_add i.word

  unfoldable pub f_res_mul : CairoInstruction F → F
  f_res_mul i = Word.f_res_mul i.word

  unfoldable pub f_pc_abs : CairoInstruction F → F
  f_pc_abs i = Word.f_pc_abs i.word

  unfoldable pub f_pc_rel : CairoInstruction F → F
  f_pc_rel i = Word.f_pc_rel i.word

  unfoldable pub f_pc_jnz : CairoInstruction F → F
  f_pc_jnz i = Word.f_pc_jnz i.word

  unfoldable pub f_ap_add : CairoInstruction F → F
  f_ap_add i = Word.f_ap_add i.word

  unfoldable pub f_ap_one : CairoInstruction F → F
  f_ap_one i = Word.f_ap_one i.word

  unfoldable pub f_opc_call : CairoInstruction F → F
  f_opc_call i = Word.f_opc_call i.word

  unfoldable pub f_opc_ret : CairoInstruction F → F
  f_opc_ret i = Word.f_opc_ret i.word

  unfoldable pub f_opc_aeq : CairoInstruction F → F
  f_opc_aeq i = Word.f_opc_aeq i.word

  unfoldable pub f15 : CairoInstruction F → F
  f15 i = Word.f15 i.word
