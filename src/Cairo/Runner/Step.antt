-- ===== src/Cairo/Runner/Step.antt =====
-- cairo/src/runner.rs: the methods of `CairoStep`. Reads of the instruction with no write between them are one read.
use proof_systems.Prelude.{
  Bool, true, false, not, ◌&&◌, ◌||◌, Option, none, some, ◌==◌, if◌then◌else◌,
}
use proof_systems.Field.{Field, ◌⊕◌, ◌⊗◌}
use proof_systems.Cairo.Flags.{
  dst_ap, op0_ap, op1_dbl, op1_val, op1_fp, op1_ap, res_one, res_add, res_mul, pc_siz, pc_abs,
  pc_rel, pc_jnz, ap_z2, ap_add, ap_one, opc_jmp_inc, opc_call, opc_ret, opc_aeq,
}
use proof_systems.Cairo.Word.{
  CairoWord, off_dst, off_op0, off_op1, dst_reg, op0_reg, op1_src, res_log, pc_up, ap_up, opcode,
}
use proof_systems.Cairo.Runner.State.{
  CairoInstruction, MemoryOps, M, ◌>>=◌, ◌>>◌, return, fail, expect, get_curr, get_vars, set_vars,
  set_next, mem_read, mem_write,
}

abbrev pub is_none {ℓ} : {A : Type ℓ} → Option A → Bool
is_none none = true
is_none (some a) = false

-- `self.vars.dst == Some(F::zero())`
abbrev pub is_zero : {F : Type 0} ⦃f : Field F⦄ → Option F → Bool
is_zero none = false
is_zero ⦃f⦄ (some x) = f.beq x f.zero

module _ {F Mem : Type 0} ⦃f : Field F⦄ ⦃o : MemoryOps F Mem⦄ where
  unfoldable pub instr : M F Mem (CairoWord F)
  instr = do
    c ← get_curr
    x ← mem_read c.pc
    w ← expect x "pc points to None cell"
    return (record { word = w })

  unfoldable pub set_op0 : M F Mem (Unit {0})
  set_op0 = do
    w ← instr
    c ← get_curr
    let reg = if op0_reg w == op0_ap then c.ap else c.fp
    set_vars (λ v. record v { adr_op0 = reg ⊕ off_op0 w })
    x ← mem_read (reg ⊕ off_op0 w)
    set_vars (λ v. record v { op0 = x })

  -- The register and the instruction size that the second operand's source gives.
  unfoldable pub op1_register : CairoWord F → M F Mem (F × F)
  op1_register w = do
    c ← get_curr
    v ← get_vars
    if op1_src w == op1_dbl
        then (do x ← expect v.op0 "None op0 for OP1_DBL"; return (x, f.one))
        else if op1_src w == op1_val
        then return (c.pc, f.from_ℕ 2)
        else if op1_src w == op1_fp
        then return (c.fp, f.one)
        else if op1_src w == op1_ap
        then return (c.ap, f.one)
        else fail "Invalid op1_src flagset"

  unfoldable pub set_op1 : M F Mem (Unit {0})
  set_op1 = do
    w ← instr
    (reg, size) ← op1_register w
    set_vars (λ v. record v { size = size; adr_op1 = reg ⊕ off_op1 w })
    x ← mem_read (reg ⊕ off_op1 w)
    set_vars (λ v. record v { op1 = x })

  -- The match on `res_log`, for the updates of pc other than `jnz`.
  unfoldable pub res_logic : CairoWord F → M F Mem (Option F)
  res_logic w = do
    v ← get_vars
    if res_log w == res_one
        then return v.op1
        else if res_log w == res_add
        then (do
          a ← expect v.op0 "None op0 after RES_ADD"
          b ← expect v.op1 "None op1 after RES_ADD"
          return (some (a ⊕ b)))
        else if res_log w == res_mul
        then (do
          a ← expect v.op0 "None op0 after RES_MUL"
          b ← expect v.op1 "None op1 after RES_MUL"
          return (some (a ⊗ b)))
        else fail "Invalid res_log flagset"

  unfoldable pub set_res : M F Mem (Unit {0})
  set_res = do
    w ← instr
    if pc_up w == pc_jnz
        then (if res_log w == res_one && opcode w == opc_jmp_inc && not (ap_up w == ap_add)
            then set_vars (λ v. record v { res = some f.zero })
            else fail "Invalid JNZ instruction")
        else if pc_up w == pc_siz || pc_up w == pc_abs || pc_up w == pc_rel
        then (do x ← res_logic w; set_vars (λ v. record v { res = x }))
        else fail "Invalid pc_up flagset"

  unfoldable pub set_dst : M F Mem (Unit {0})
  set_dst = do
    w ← instr
    c ← get_curr
    let reg = if dst_reg w == dst_ap then c.ap else c.fp
    set_vars (λ v. record v { adr_dst = reg ⊕ off_dst w })
    x ← mem_read (reg ⊕ off_dst w)
    set_vars (λ v. record v { dst = x })

  unfoldable pub next_pc : M F Mem (Option F)
  next_pc = do
    w ← instr
    c ← get_curr
    v ← get_vars
    if pc_up w == pc_siz
        then return (some (c.pc ⊕ v.size))
        else if pc_up w == pc_abs
        then (do r ← expect v.res "None res after PC_ABS"; return (some r))
        else if pc_up w == pc_rel
        then (do r ← expect v.res "None res after PC_REL"; return (some (c.pc ⊕ r)))
        else if pc_up w == pc_jnz
        then (if is_zero v.dst
            then return (some (c.pc ⊕ v.size))
            else (do x ← expect v.op1 "None op1 after PC_JNZ"; return (some (c.pc ⊕ x))))
        else fail "Invalid pc_up flagset"

  -- The branch of `next_apfp` for `call`.
  unfoldable pub call_apfp : M F Mem (Option F × Option F)
  call_apfp = do
    c ← get_curr
    v ← get_vars
    mem_write c.ap c.fp
    d ← mem_read c.ap
    set_vars (λ v. record v { dst = d })
    mem_write (c.ap ⊕ f.one) (c.pc ⊕ v.size)
    x ← mem_read (c.ap ⊕ f.one)
    set_vars (λ v. record v { op0 = x })
    let next_fp = some (c.ap ⊕ f.from_ℕ 2)
    w ← instr
    if ap_up w == ap_z2
        then return (some (c.ap ⊕ f.from_ℕ 2), next_fp)
        else fail "ap increment in call instruction"

  -- The match on `ap_up` of the other instructions.
  unfoldable pub other_ap : CairoWord F → M F Mem (Option F)
  other_ap w = do
    c ← get_curr
    v ← get_vars
    if ap_up w == ap_z2
        then return (some c.ap)
        else if ap_up w == ap_add
        then (do r ← expect v.res "None res after AP_ADD"; return (some (c.ap ⊕ r)))
        else if ap_up w == ap_one
        then return (some (c.ap ⊕ f.one))
        else fail "Invalid ap_up flagset"

  -- The assertion `dst = res`: it writes the side that is not known.
  unfoldable pub assert_equal : M F Mem (Unit {0})
  assert_equal = do
    v ← get_vars
    if is_none v.res
        then (do
          d ← expect v.dst "None dst after OPC_AEQ"
          mem_write v.adr_op1 d
          x ← mem_read v.adr_op1
          set_vars (λ v. record v { op1 = x })
          y ← mem_read v.adr_op1
          set_vars (λ v. record v { res = y }))
        else (do
          r ← expect v.res "None res after OPC_AEQ"
          mem_write v.adr_dst r
          x ← mem_read v.adr_dst
          set_vars (λ v. record v { dst = x }))

  -- The match on `opcode` of the other instructions.
  unfoldable pub other_fp : CairoWord F → M F Mem (Option F)
  other_fp w = do
    c ← get_curr
    v ← get_vars
    if opcode w == opc_jmp_inc
        then return (some c.fp)
        else if opcode w == opc_ret
        then (do d ← expect v.dst "None dst after OPC_RET"; return (some d))
        else if opcode w == opc_aeq
        then (do assert_equal; return (some c.fp))
        else fail "This case must never happen"

  unfoldable pub next_apfp : M F Mem (Option F × Option F)
  next_apfp = do
    w ← instr
    if opcode w == opc_call
        then call_apfp
        else if opcode w == opc_jmp_inc || opcode w == opc_ret || opcode w == opc_aeq
        then (do next_ap ← other_ap w; next_fp ← other_fp w; return (next_ap, next_fp))
        else fail "Invalid opcode flagset"

  unfoldable pub execute : M F Mem (CairoInstruction F)
  execute = do
    set_op0
    set_op1
    set_res
    set_dst
    n_pc ← next_pc
    (n_ap, n_fp) ← next_apfp
    pc ← expect n_pc "Empty next program counter"
    ap ← expect n_ap "Empty next allocation pointer"
    fp ← expect n_fp "Empty next frame pointer"
    set_next (record { pc = pc; ap = ap; fp = fp })
    w ← instr
    c ← get_curr
    v ← get_vars
    return (record { word = w; ptrs = c; vars = v })
