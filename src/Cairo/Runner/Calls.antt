-- ===== src/Cairo/Runner/Calls.antt =====
-- cairo/src/runner.rs: calls and returns, on the memory as a function.
use proof_systems.Prelude.{◌≡◌, ◌≢◌, refl, sym, ap, ◌∙◌, Option, some, ◌==◌, arith, if◌then◌else◌}
use proof_systems.Outcome.{ok}
use proof_systems.Field.{Field, ◌⊕◌, ◌⊖◌, IsRing}
use proof_systems.Field.Facts.{add-sub_assoc, add-zero}
use proof_systems.Cairo.Helper.{to_u64}
use proof_systems.Cairo.Word.{
  CairoWord, off_dst, off_op0, off_op1, dst_reg, op0_reg, op1_src, res_log, pc_up, ap_up, opcode,
}
use proof_systems.Cairo.Runner.State
use proof_systems.Cairo.Runner.State.{
  CairoState, CairoContext, CairoInstruction, CairoStep, M, new_step,
}
use proof_systems.Cairo.Runner.Contents.{Contents, update, contents_memory}
use proof_systems.Cairo.Runner.Step.{
  instr, set_op0, op1_register, set_op1, res_logic, set_res, set_dst, next_pc, call_apfp, other_ap,
  other_fp, next_apfp, execute,
}

module _ {F : Type 0} ⦃f : Field F⦄ where
  instr_lem :
      (s : CairoStep F (Contents F)) (w : CairoWord F)
      → s.mem (to_u64 s.curr.pc) ≡ some w.word
      → instr s ≡ ok (w, s)
  unfolding instr
  instr_lem s w h = rw h refl

  -- The first operand's address.
  abbrev pub op0_address : CairoState F → CairoWord F → F
  op0_address c w = (if op0_reg w == 0 then c.ap else c.fp) ⊕ off_op0 w

  abbrev pub dst_address : CairoState F → CairoWord F → F
  dst_address c w = (if dst_reg w == 0 then c.ap else c.fp) ⊕ off_dst w

  -- `call` by an immediate: the flags of its word.
  pub record IsCallRel (w : CairoWord F) : Type 0 where
    pub op1 : op1_src w ≡ 1
    pub res : res_log w ≡ 0
    pub pc : pc_up w ≡ 2
    pub ap : ap_up w ≡ 0
    pub opc : opcode w ≡ 1

  set_op0_lem :
      (s : CairoStep F (Contents F)) (w : CairoWord F)
      → s.mem (to_u64 s.curr.pc) ≡ some w.word
      → set_op0 s
        ≡ ok (
          tt,
          record s {
            vars = record s.vars {
              adr_op0 = op0_address s.curr w;
              op0 = s.mem (to_u64 (op0_address s.curr w));
            };
          },
        )
  unfolding set_op0
  set_op0_lem s w h = rw (instr_lem s w h, set_op0, State.◌>>=◌) refl

  -- The variables, the instruction and the step after such a call.
  abbrev pub call_vars : CairoState F → CairoWord F → F → CairoContext F
  call_vars c w target = record {
    dst = some c.fp;
    op0 = some (c.pc ⊕ f.from_ℕ 2);
    op1 = some target;
    res = some target;
    adr_dst = dst_address c w;
    adr_op0 = op0_address c w;
    adr_op1 = c.pc ⊕ off_op1 w;
    size = f.from_ℕ 2;
  }

  -- A call by an immediate saves the caller's fp and the return address on the stack, moves both
  -- stack pointers behind them and jumps; no other cell changes. It needs a stack that does not
  -- overwrite the call itself, which is read again after the writes.
  pub execute_call :
      (m : Contents F) (c : CairoState F) (w : CairoWord F) (target : F)
      → m (to_u64 c.pc) ≡ some w.word
      → IsCallRel w
      → m (to_u64 (c.pc ⊕ off_op1 w)) ≡ some target
      → to_u64 c.ap ≢ to_u64 c.pc
      → to_u64 (c.ap ⊕ f.one) ≢ to_u64 c.pc
      → execute (new_step m c)
        ≡ ok (
          record { word = w; ptrs = c; vars = call_vars c w target },
          record {
            mem = update (update m (to_u64 c.ap) c.fp) (to_u64 (c.ap ⊕ f.one)) (c.pc ⊕ f.from_ℕ 2);
            curr = c;
            next =
                some
                  (record { pc = c.pc ⊕ target; ap = c.ap ⊕ f.from_ℕ 2; fp = c.ap ⊕ f.from_ℕ 2 });
            vars = call_vars c w target;
          },
        )
  unfolding execute new_step set_op0 set_op1 op1_register set_res res_logic set_dst next_pc
      next_apfp call_apfp instr
  execute_call m c w target hw fl ht a b = ground arith

  -- `ret`: the flags of its word, and its offsets -2 and -1 from fp.
  pub record IsReturn (w : CairoWord F) : Type 0 where
    pub dst : dst_reg w ≡ 1
    pub op1 : op1_src w ≡ 2
    pub res : res_log w ≡ 0
    pub pc : pc_up w ≡ 1
    pub ap : ap_up w ≡ 0
    pub opc : opcode w ≡ 2
    pub minus_two : off_dst w ≡ f.zero ⊖ f.from_ℕ 2
    pub minus_one : off_op1 w ≡ f.zero ⊖ f.one

  abbrev pub return_vars : CairoState F → CairoWord F → Option F → F → F → CairoContext F
  return_vars c w op0 old_fp target = record {
    dst = some old_fp;
    op0 = op0;
    op1 = some target;
    res = some target;
    adr_dst = c.fp ⊕ off_dst w;
    adr_op0 = op0_address c w;
    adr_op1 = c.fp ⊕ off_op1 w;
    size = f.one;
  }

  -- A return jumps to the address below fp, restores the fp below that, and writes nothing.
  execute_return :
      (m : Contents F) (c : CairoState F) (w : CairoWord F) (old_fp target : F)
      → m (to_u64 c.pc) ≡ some w.word
      → IsReturn w
      → m (to_u64 (c.fp ⊕ off_dst w)) ≡ some old_fp
      → m (to_u64 (c.fp ⊕ off_op1 w)) ≡ some target
      → execute (new_step m c)
        ≡ ok (
          record {
            word = w;
            ptrs = c;
            vars = return_vars c w (m (to_u64 (op0_address c w))) old_fp target;
          },
          record {
            mem = m;
            curr = c;
            next = some (record { pc = target; ap = c.ap; fp = old_fp });
            vars = return_vars c w (m (to_u64 (op0_address c w))) old_fp target;
          },
        )
  unfolding execute new_step set_op0 set_op1 op1_register set_res res_logic set_dst next_pc
      next_apfp other_ap other_fp instr
  execute_return m c w old_fp target hw fl hd ht = ground arith

  module _ (r : IsRing f) where
    above_two : (a : F) → (a ⊕ f.from_ℕ 2) ⊕ (f.zero ⊖ f.from_ℕ 2) ≡ a
    above_two a =
        add-sub_assoc r (a ⊕ f.from_ℕ 2) f.zero (f.from_ℕ 2)
        ∙ ap (λ t. t ⊖ f.from_ℕ 2) (add-zero r _)
        ∙ r.add-sub a (f.from_ℕ 2)

    above_one : (a : F) → (a ⊕ f.from_ℕ 2) ⊕ (f.zero ⊖ f.one) ≡ a ⊕ f.one
    above_one a =
        add-sub_assoc r (a ⊕ f.from_ℕ 2) f.zero f.one
        ∙ ap (λ t. t ⊖ f.one) (add-zero r _ ∙ ap (λ t. a ⊕ t) two ∙ sym (r.add_assoc a f.one f.one))
        ∙ r.add-sub (a ⊕ f.one) f.one
      where
        two : f.from_ℕ 2 ≡ f.one ⊕ f.one
        two = r.from-add 1 1 ∙ ap (λ t. t ⊕ t) r.from-one

    -- A call followed, at any later time, by a return in the frame that the call opened continues
    -- behind the call, in the caller's frame: if the callee left the two saved cells as they were,
    -- a step on a return instruction succeeds, its next pc is the address behind the call, its next
    -- fp the caller's, and ap stays.
    pub call_return :
        (m : Contents F) (c : CairoState F) (w : CairoWord F) (target : F)
        → m (to_u64 c.pc) ≡ some w.word
        → IsCallRel w
        → m (to_u64 (c.pc ⊕ off_op1 w)) ≡ some target
        → to_u64 c.ap ≢ to_u64 c.pc
        → to_u64 (c.ap ⊕ f.one) ≢ to_u64 c.pc
        → to_u64 (c.ap ⊕ f.one) ≢ to_u64 c.ap
        → (i : CairoInstruction F) (s : CairoStep F (Contents F))
        → execute (new_step m c) ≡ ok (i, s)
        → (n : CairoState F) → s.next ≡ some n
        → (m' : Contents F) (c' : CairoState F) (w' : CairoWord F) → c'.fp ≡ n.fp
        → m' (to_u64 c.ap) ≡ s.mem (to_u64 c.ap)
        → m' (to_u64 (c.ap ⊕ f.one)) ≡ s.mem (to_u64 (c.ap ⊕ f.one))
        → m' (to_u64 c'.pc) ≡ some w'.word
        → IsReturn w'
        → (i' : CairoInstruction F) × (s' : CairoStep F (Contents F)) × (execute (new_step m' c')
            ≡ ok (i', s'))
          × (s'.next ≡ some (record { pc = c.pc ⊕ f.from_ℕ 2; ap = c'.ap; fp = c.fp }))
          × (s'.mem ≡ m')
    call_return m c w target hw fl ht a b d i s run n hn m' c' w' hfp h1 h2 hw' fl' =
        let e = sym run ∙ execute_call m c w target hw fl ht a b in
        let fp : c'.fp ≡ c.ap ⊕ f.from_ℕ 2 = ground arith in
        let below_two : c'.fp ⊕ off_dst w' ≡ c.ap = rw (fp, fl'.minus_two) (above_two c.ap) in
        let below_one : c'.fp ⊕ off_op1 w' ≡ c.ap ⊕ f.one =
          rw (fp, fl'.minus_one) (above_one c.ap) in
        let saved_fp : m' (to_u64 c.ap) ≡ some c.fp = ground arith in
        let saved_pc : m' (to_u64 (c.ap ⊕ f.one)) ≡ some (c.pc ⊕ f.from_ℕ 2) = ground arith in
        (
          _,
          _,
          execute_return m' c' w' c.fp (c.pc ⊕ f.from_ℕ 2) hw' fl' (rw below_two saved_fp)
              (rw below_one saved_pc),
          refl,
          refl,
        )
