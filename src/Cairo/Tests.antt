-- ===== src/Cairo/Tests.antt =====
-- Runs of the model of cairo/src on concrete programs, in the base field of Pallas.
use proof_systems.Prelude.{
  ◌+◌, ◌*◌, ◌^◌, ◌<◌, ◌≡◌, ◌≢◌, refl, Option, none, some, List, [], ◌∷◌, arith, ◌==◌, if◌then◌else◌,
}
use proof_systems.Outcome.{Outcome, ok, panic}
use proof_systems.Field.{◌⊕◌, ◌⊖◌, le_bytes}
use proof_systems.Field.Residue.{residue, residues}
use proof_systems.Field.Pallas.{Fp, pallas, element, pallas-IsRing, pallas-IsCanonical}
use proof_systems.Cairo.Helper.{
  byte_bits, bits_of_bytes, u64_from, to_bytes, to_bits, lsb, u16_chunk, to_u64,
}
use proof_systems.Cairo.Word.{
  CairoWord, bias, flag_at, off_dst, off_op0, off_op1, f_dst_fp, f_op0_fp, f_op1_ap, f_op1_fp,
  f_op1_val, f_res_mul, f_res_add, f_pc_jnz, f_pc_rel, f_pc_abs, f_ap_one, f_ap_add, f_opc_aeq,
  f_opc_ret, f_opc_call, f15, dst_reg, op0_reg, op1_src, res_log, pc_up, ap_up, opcode,
}
use proof_systems.Cairo.Word.Decode.{decode-encode}
use proof_systems.Cairo.Memory.{CairoMemory, len, new, read, write}
use proof_systems.Cairo.Memory.Cells.{cell}
use proof_systems.Cairo.Runner.State.{
  CairoState, CairoInstruction, CairoStep, new_step, cairo_memory,
}
use proof_systems.Cairo.Runner.Contents.{Contents, update, contents_memory}
use proof_systems.Cairo.Runner.Step.{execute, assert_equal}
use proof_systems.Cairo.Runner.Refine.{Agrees, view, execute_refines}
use proof_systems.Cairo.Runner.Calls.{IsCallRel, IsReturn, call_vars, execute_call, call_return}
use proof_systems.Cairo.Runner.Program.{
  CairoProgram, Loop, run_loop, execute_program, turn, after_step,
}
use proof_systems.Cairo.Runner.Program.Refine.{view_loop, seen, run_loop_refines}
use proof_systems.Cairo.Runner.Program.Runs.{IsRunOf, execute_program_steps}
use proof_systems.Cairo.Runner.Step.{
  instr, set_op0, op1_register, set_op1, res_logic, set_res, set_dst, next_pc, call_apfp, other_ap,
  other_fp, next_apfp,
}
use proof_systems.Cairo.Memory.{resize, index}

-- [ap] = 10; ap++, and a return.
abbrev tempvar : List Fp
tempvar = element 0x480680017fff8000 ∷ element 10 ∷ element 0x208b7fff7fff7ffe ∷ []

abbrev program : CairoMemory Fp
program = new tempvar

program_long : len program ≡ 4
unfolding len new
program_long = refl

program_pos : 0 < len program
program_pos = let e = program_long in omega arith

call_word : CairoWord Fp
call_word = record { word = element 0x1104800180018000 }

call_word-IsCallRel : IsCallRel call_word
unfolding call_word op1_src res_log pc_up ap_up opcode f_op1_ap f_op1_fp f_op1_val f_res_mul
    f_res_add f_pc_jnz f_pc_rel f_pc_abs f_ap_one f_ap_add f_opc_aeq f_opc_ret f_opc_call flag_at
    lsb to_bits bits_of_bytes byte_bits to_bytes residues residue le_bytes
call_word-IsCallRel = record { op1 = refl; res = refl; pc = refl; ap = refl; opc = refl }

decode-encode_example :
    (off_dst call_word ≡ pallas.from_ℕ 0x8000 ⊖ pallas.from_ℕ (2 ^ 15))
    × (off_op0 call_word ≡ pallas.from_ℕ 0x8001 ⊖ pallas.from_ℕ (2 ^ 15))
    × (off_op1 call_word ≡ pallas.from_ℕ 0x8001 ⊖ pallas.from_ℕ (2 ^ 15))
    × (dst_reg call_word
          + 2 * op0_reg call_word
          + 4 * op1_src call_word
          + 32 * res_log call_word
          + 128 * pc_up call_word
          + 1024 * ap_up call_word
          + 4096 * opcode call_word
          + 32768 * lsb (f15 call_word)
        ≡ 0x1104)
unfolding call_word residues
decode-encode_example =
    decode-encode pallas-IsCanonical 0x8000 0x8001 0x8001 0x1104 (omega arith) (omega arith)
      (omega arith) (omega arith) call_word refl

start : CairoState Fp
start = record { pc = element 1; ap = element 4; fp = element 4 }

execute_refines_example :
    Agrees program (execute (new_step program start)) (execute (view (new_step program start)))
unfolding new_step
execute_refines_example = execute_refines (new_step program start) program_pos

-- A call at 1 of the function at 5, which returns at once.
callee : Contents Fp
callee j =
    if 1 == j
    then some (element 0x1104800180018000)
    else if 2 == j
    then some (element 4)
    else if 5 == j
    then some (element 0x208b7fff7fff7ffe)
    else none

caller : CairoState Fp
caller = record { pc = element 1; ap = element 10; fp = element 10 }

return_word : CairoWord Fp
return_word = record { word = element 0x208b7fff7fff7ffe }

return_word-IsReturn : IsReturn return_word
unfolding return_word dst_reg off_dst off_op1 bias u16_chunk f_dst_fp op1_src res_log pc_up ap_up
    opcode f_op1_ap f_op1_fp f_op1_val f_res_mul f_res_add f_pc_jnz f_pc_rel f_pc_abs f_ap_one
    f_ap_add f_opc_aeq f_opc_ret f_opc_call flag_at lsb to_bits bits_of_bytes byte_bits to_bytes
    residues residue le_bytes
return_word-IsReturn = record {
  dst = refl;
  op1 = refl;
  res = refl;
  pc = refl;
  ap = refl;
  opc = refl;
  minus_two = refl;
  minus_one = refl;
}

-- The addresses that the call and the return use.
at_call : callee (to_u64 caller.pc) ≡ some call_word.word
unfolding callee caller call_word to_u64 u64_from to_bytes residues residue le_bytes
at_call = refl

at_target : callee (to_u64 (caller.pc ⊕ off_op1 call_word)) ≡ some (element 4)
unfolding callee caller call_word to_u64 u64_from to_bytes residues residue le_bytes off_op1 bias
    u16_chunk
at_target = refl

addresses :
    (to_u64 caller.pc ≡ 1) × (to_u64 caller.ap ≡ 10) × (to_u64 (caller.ap ⊕ pallas.one) ≡ 11)
unfolding caller to_u64 u64_from to_bytes residues residue le_bytes
addresses = (refl, refl, refl)

stack_above :
    (to_u64 caller.ap ≢ to_u64 caller.pc)
    × (to_u64 (caller.ap ⊕ pallas.one) ≢ to_u64 caller.pc)
    × (to_u64 (caller.ap ⊕ pallas.one) ≢ to_u64 caller.ap)
stack_above = let (a, b, c) = addresses in (λ e. omega arith, λ e. omega arith, λ e. omega arith)

called : CairoStep Fp (Contents Fp)
called = record {
  mem =
      update (update callee (to_u64 caller.ap) caller.fp) (to_u64 (caller.ap ⊕ pallas.one))
        (caller.pc ⊕ pallas.from_ℕ 2);
  curr = caller;
  next = some (record {
    pc = caller.pc ⊕ element 4;
    ap = caller.ap ⊕ pallas.from_ℕ 2;
    fp = caller.ap ⊕ pallas.from_ℕ 2;
  });
  vars = call_vars caller call_word (element 4);
}

execute_call_example :
    execute (new_step callee caller)
    ≡ ok (
      record { word = call_word; ptrs = caller; vars = call_vars caller call_word (element 4) },
      called,
    )
unfolding called
execute_call_example =
    execute_call callee caller call_word (element 4) at_call call_word-IsCallRel at_target
      stack_above.0 stack_above.1

callee_state : CairoState Fp
callee_state = record {
  pc = caller.pc ⊕ element 4;
  ap = caller.ap ⊕ pallas.from_ℕ 2;
  fp = caller.ap ⊕ pallas.from_ℕ 2;
}

called_next : called.next ≡ some callee_state
unfolding called callee_state
called_next = refl

at_return : called.mem (to_u64 callee_state.pc) ≡ some return_word.word
unfolding called callee_state return_word callee caller to_u64 u64_from to_bytes residues residue
    le_bytes
at_return = refl

call_return_example :
    (i' : CairoInstruction Fp) × (s' : CairoStep Fp (Contents Fp)) × (execute
        (new_step called.mem callee_state)
      ≡ ok (i', s'))
    × (s'.next
        ≡ some (record { pc = caller.pc ⊕ pallas.from_ℕ 2; ap = callee_state.ap; fp = caller.fp }))
    × (s'.mem ≡ called.mem)
call_return_example =
    call_return pallas-IsRing callee caller call_word (element 4) at_call call_word-IsCallRel
      at_target stack_above.0 stack_above.1 stack_above.2
      (record { word = call_word; ptrs = caller; vars = call_vars caller call_word (element 4) })
      called execute_call_example callee_state called_next called.mem callee_state return_word refl
      refl refl at_return return_word-IsReturn

asserting : CairoStep Fp (Contents Fp)
asserting = record (new_step callee caller) {
  vars = record {
    dst = none;
    op0 = none;
    op1 = none;
    res = some (element 6);
    adr_dst = element 12;
    adr_op0 = element 0;
    adr_op1 = element 0;
    size = element 1;
  };
}

tempvar_program : CairoProgram Fp (CairoMemory Fp)
tempvar_program = record { steps = element 0; mem = program; ini = start; fin = start; trace = [] }

-- The program that a run returned, or else the one given.
result : {A : Type 0} → Outcome (Option A) → A → A
result (ok (some a)) b = a
result (ok none) b = b
result (panic e) b = b

finished : CairoProgram Fp (CairoMemory Fp)
finished = result (execute_program 3 tempvar_program) tempvar_program

-- The run ends after two steps, with 10 at the address 4.
tempvar_run : execute_program 3 tempvar_program ≡ ok (some finished)
unfolding finished result tempvar_program start execute_program run_loop turn after_step execute
    new_step set_op0 set_op1 op1_register set_res res_logic set_dst next_pc next_apfp call_apfp
    other_ap other_fp assert_equal instr new len resize index read write to_u64 u64_from residues
    residue le_bytes off_dst off_op0 off_op1 bias u16_chunk dst_reg op0_reg op1_src res_log pc_up
    ap_up opcode f_dst_fp f_op0_fp f_op1_ap f_op1_fp f_op1_val f_res_mul f_res_add f_pc_jnz f_pc_rel
    f_pc_abs f_ap_one f_ap_add f_opc_aeq f_opc_ret f_opc_call flag_at lsb to_bits bits_of_bytes
    byte_bits to_bytes
tempvar_run = refl

tempvar_steps : (finished.steps ≡ element 2) × (cell finished.mem 4 ≡ some (element 10))
unfolding cell finished result tempvar_program start execute_program run_loop turn after_step
    execute new_step set_op0 set_op1 op1_register set_res res_logic set_dst next_pc next_apfp
    call_apfp other_ap other_fp assert_equal instr new len resize index read write to_u64 u64_from
    residues residue le_bytes off_dst off_op0 off_op1 bias u16_chunk dst_reg op0_reg op1_src res_log
    pc_up ap_up opcode f_dst_fp f_op0_fp f_op1_ap f_op1_fp f_op1_val f_res_mul f_res_add f_pc_jnz
    f_pc_rel f_pc_abs f_ap_one f_ap_add f_opc_aeq f_opc_ret f_opc_call flag_at lsb to_bits
    bits_of_bytes byte_bits to_bytes
tempvar_steps = (refl, refl)

execute_program_steps_example : IsRunOf 3 tempvar_program finished
execute_program_steps_example =
    execute_program_steps 3 tempvar_program finished (unfold tempvar_program in refl) tempvar_run

first : Loop Fp (CairoMemory Fp)
first = record { mem = program; curr = start; next = start; n = 0; trace = [] }

run_loop_refines_example : run_loop 3 (view_loop first) ≡ seen (run_loop 3 first)
unfolding first
run_loop_refines_example = run_loop_refines 3 first program_pos
