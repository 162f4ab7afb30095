-- ===== src/Cairo/Word.antt =====
-- cairo/src/word.rs: the decomposition of a word into offsets, flag bits and flag sets.
pub mod Decode
use proof_systems.Prelude.{ℕ, ◌+◌, ◌*◌, ◌%◌, ◌^◌, false, get_or, if◌then◌else◌}
use proof_systems.Field.{Field, ◌⊖◌}
use proof_systems.Cairo.Flags.{pos_dst, pos_op0, pos_op1, pos_flags}
use proof_systems.Cairo.Helper.{to_bits, lsb, u16_chunk}

pub record CairoWord (F : Type 0) : Type 0 where
  pub word : F

module _ {F : Type 0} ⦃f : Field F⦄ where
  unfoldable pub bias : F → F
  bias offset = offset ⊖ f.from_ℕ (2 ^ 15)

  -- `bool` converts to the field element 0 or 1.
  unfoldable pub flag_at : CairoWord F → ℕ → F
  flag_at w pos = f.from_ℕ (if get_or (to_bits w.word) (pos_flags + pos) false then 1 else 0)

  unfoldable pub off_dst : CairoWord F → F
  off_dst w = bias (u16_chunk w.word pos_dst)

  unfoldable pub off_op0 : CairoWord F → F
  off_op0 w = bias (u16_chunk w.word pos_op0)

  unfoldable pub off_op1 : CairoWord F → F
  off_op1 w = bias (u16_chunk w.word pos_op1)

  unfoldable pub f_dst_fp : CairoWord F → F
  f_dst_fp w = flag_at w 0

  unfoldable pub f_op0_fp : CairoWord F → F
  f_op0_fp w = flag_at w 1

  unfoldable pub f_op1_val : CairoWord F → F
  f_op1_val w = flag_at w 2

  unfoldable pub f_op1_fp : CairoWord F → F
  f_op1_fp w = flag_at w 3

  unfoldable pub f_op1_ap : CairoWord F → F
  f_op1_ap w = flag_at w 4

  unfoldable pub f_res_add : CairoWord F → F
  f_res_add w = flag_at w 5

  unfoldable pub f_res_mul : CairoWord F → F
  f_res_mul w = flag_at w 6

  unfoldable pub f_pc_abs : CairoWord F → F
  f_pc_abs w = flag_at w 7

  unfoldable pub f_pc_rel : CairoWord F → F
  f_pc_rel w = flag_at w 8

  unfoldable pub f_pc_jnz : CairoWord F → F
  f_pc_jnz w = flag_at w 9

  unfoldable pub f_ap_add : CairoWord F → F
  f_ap_add w = flag_at w 10

  unfoldable pub f_ap_one : CairoWord F → F
  f_ap_one w = flag_at w 11

  unfoldable pub f_opc_call : CairoWord F → F
  f_opc_call w = flag_at w 12

  unfoldable pub f_opc_ret : CairoWord F → F
  f_opc_ret w = flag_at w 13

  unfoldable pub f_opc_aeq : CairoWord F → F
  f_opc_aeq w = flag_at w 14

  unfoldable pub f15 : CairoWord F → F
  f15 w = flag_at w 15

  -- Flag sets, in `u8` arithmetic.
  unfoldable pub dst_reg : CairoWord F → ℕ
  unfolding f_dst_fp
  dst_reg w = lsb (f_dst_fp w)

  unfoldable pub op0_reg : CairoWord F → ℕ
  unfolding f_op0_fp
  op0_reg w = lsb (f_op0_fp w)

  unfoldable pub op1_src : CairoWord F → ℕ
  unfolding f_op1_ap f_op1_fp f_op1_val
  op1_src w = (2 * (2 * lsb (f_op1_ap w) + lsb (f_op1_fp w)) + lsb (f_op1_val w)) % 2 ^ 8

  unfoldable pub res_log : CairoWord F → ℕ
  unfolding f_res_mul f_res_add
  res_log w = (2 * lsb (f_res_mul w) + lsb (f_res_add w)) % 2 ^ 8

  unfoldable pub pc_up : CairoWord F → ℕ
  unfolding f_pc_jnz f_pc_rel f_pc_abs
  pc_up w = (2 * (2 * lsb (f_pc_jnz w) + lsb (f_pc_rel w)) + lsb (f_pc_abs w)) % 2 ^ 8

  unfoldable pub ap_up : CairoWord F → ℕ
  unfolding f_ap_one f_ap_add
  ap_up w = (2 * lsb (f_ap_one w) + lsb (f_ap_add w)) % 2 ^ 8

  unfoldable pub opcode : CairoWord F → ℕ
  unfolding f_opc_aeq f_opc_ret f_opc_call
  opcode w = (2 * (2 * lsb (f_opc_aeq w) + lsb (f_opc_ret w)) + lsb (f_opc_call w)) % 2 ^ 8
