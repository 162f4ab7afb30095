-- ===== src/Cairo/Flags.antt =====
-- cairo/src/flags.rs: positions and values of the flag sets of an instruction.
use proof_systems.Prelude.{ℕ}

abbrev pub num_flags : ℕ
num_flags = 16

abbrev pub pos_dst : ℕ
pos_dst = 0

abbrev pub pos_op0 : ℕ
pos_op0 = 1

abbrev pub pos_op1 : ℕ
pos_op1 = 2

abbrev pub pos_flags : ℕ
pos_flags = 48

abbrev pub dst_ap : ℕ
dst_ap = 0

abbrev pub op0_ap : ℕ
op0_ap = 0

abbrev pub op1_dbl : ℕ
op1_dbl = 0

abbrev pub op1_val : ℕ
op1_val = 1

abbrev pub op1_fp : ℕ
op1_fp = 2

abbrev pub op1_ap : ℕ
op1_ap = 4

abbrev pub res_one : ℕ
res_one = 0

abbrev pub res_add : ℕ
res_add = 1

abbrev pub res_mul : ℕ
res_mul = 2

abbrev pub pc_siz : ℕ
pc_siz = 0

abbrev pub pc_abs : ℕ
pc_abs = 1

abbrev pub pc_rel : ℕ
pc_rel = 2

abbrev pub pc_jnz : ℕ
pc_jnz = 4

abbrev pub ap_z2 : ℕ
ap_z2 = 0

abbrev pub ap_add : ℕ
ap_add = 1

abbrev pub ap_one : ℕ
ap_one = 2

abbrev pub opc_jmp_inc : ℕ
opc_jmp_inc = 0

abbrev pub opc_call : ℕ
opc_call = 1

abbrev pub opc_ret : ℕ
opc_ret = 2

abbrev pub opc_aeq : ℕ
opc_aeq = 4
