-- ===== src/Cairo/Runner/Program/Runs.antt =====
-- cairo/src/runner.rs: what a program that was run counts, records, and ends with.
use mathlib.Core.Path.{subst}
use proof_systems.Prelude.{
  ℕ, zero, suc, ◌+◌, ◌%◌, ◌^◌, ◌≤◌, ◌<◌, ◌≡◌, refl, sym, ap, ◌∙◌, ◌⊎◌, Bool, true, false, none,
  some, List, [], ◌∷◌, ◌++◌, arith, length, length-append, Option-cases, inl, inr,
}
use proof_systems.Outcome.{ok, >>=-eq-ok, Outcome-cases}
use proof_systems.Field.{Field}
use proof_systems.Cairo.Runner.State.{CairoState, CairoInstruction, CairoStep, MemoryOps, new_step}
use proof_systems.Cairo.Runner.Step.{execute}
use proof_systems.Cairo.Runner.Program.{
  CairoProgram, Loop, after_step, turn, run_loop, execute_program,
}

-- The last instruction of a trace is that of a step, from some memory and pointers, which left the
-- memory and the final pointers, and next pointers only where the program counter has reached the
-- allocation pointer.
pub record IsEnd {F Mem : Type 0} ⦃f : Field F⦄ ⦃o : MemoryOps F Mem⦄ (mem' : Mem)
    (fin : CairoState F) (trace' : List (CairoInstruction F)) : Type 0 where
  pub mem : Mem
  pub ptrs : CairoState F
  pub trace : List (CairoInstruction F)
  pub instruction : CairoInstruction F
  pub step : CairoStep F Mem
  pub executed : execute (new_step mem ptrs) ≡ ok (instruction, step)
  pub recorded : trace' ≡ trace ++ instruction ∷ []
  pub left_mem : mem' ≡ step.mem
  pub left_ptrs : fin ≡ step.curr
  pub reached :
      (step.next ≡ none)
      ⊎ ((next : CairoState F) × (step.next ≡ some next) × (f.ble step.curr.ap next.pc ≡ true))

module _ {F Mem : Type 0} ⦃f : Field F⦄ ⦃o : MemoryOps F Mem⦄ where
  after_step_trace :
      (l : Loop F Mem) (i : CairoInstruction F) (s : CairoStep F Mem)
      → ((after_step l i s).0.trace ≡ l.trace ++ i ∷ [])
        × ((after_step l i s).0.n ≡ (l.n + 1) % 2 ^ 64)
        × ((after_step l i s).0.mem ≡ s.mem)
        × ((after_step l i s).0.curr ≡ s.curr)
  unfolding after_step
  after_step_trace l i s = ground arith

  after_step-reached :
      (l : Loop F Mem) (i : CairoInstruction F) (s : CairoStep F Mem)
      → (after_step l i s).1 ≡ true
      → (s.next ≡ none)
        ⊎ ((next : CairoState F) × (s.next ≡ some next) × (f.ble s.curr.ap next.pc ≡ true))
  unfolding after_step
  after_step-reached l i s e = elim (Option-cases s.next) [
    | inl out ↦ inl out
    | inr (next, found) ↦ inr (next, found, rw found at e)
  ]

  -- A turn adds one instruction to the trace and one to the time.
  turn_trace :
      (l m : Loop F Mem) (b : Bool)
      → turn l ≡ ok (m, b)
      → (length m.trace ≡ length l.trace + 1) × (m.n ≡ (l.n + 1) % 2 ^ 64)
  unfolding turn
  turn_trace l m b e =
      let (r, run, done) =
        >>=-eq-ok (execute (new_step l.mem l.next)) (λ r. ok (after_step l r.0 r.1)) e in
      let (trace, time, _, _) = after_step_trace l r.0 r.1 in
      let split = length-append l.trace (r.0 ∷ []) in
      let same : (after_step l r.0 r.1).0 ≡ m = cc in (rw (← same, trace) split, rw (← same) time)

  turn-IsEnd : (l m : Loop F Mem) → turn l ≡ ok (m, true) → IsEnd m.mem m.curr m.trace
  unfolding turn
  turn-IsEnd l m e =
      let (r, run, done) =
        >>=-eq-ok (execute (new_step l.mem l.next)) (λ r. ok (after_step l r.0 r.1)) e in
      let (trace, time, mem, curr) = after_step_trace l r.0 r.1 in
      let same : (after_step l r.0 r.1).0 ≡ m = cc in
      let stop : (after_step l r.0 r.1).1 ≡ true = cc in
      record {
        mem = l.mem;
        ptrs = l.next;
        trace = l.trace;
        instruction = r.0;
        step = r.1;
        executed = run;
        recorded = ap (λ t. t.trace) (sym same) ∙ trace;
        left_mem = ap (λ t. t.mem) (sym same) ∙ mem;
        left_ptrs = ap (λ t. t.curr) (sym same) ∙ curr;
        reached = after_step-reached l r.0 r.1 stop;
      }

  -- The turns that a loop took
  record Turns (fuel : ℕ) (l l' : Loop F Mem) : Type 0 where
    count : ℕ
    within : count ≤ fuel
    positive : 0 < count
    traced : length l'.trace ≡ length l.trace + count
    timed : l'.n % 2 ^ 64 ≡ (l.n + count) % 2 ^ 64
    u64 : l'.n < 2 ^ 64
    ended : IsEnd l'.mem l'.curr l'.trace

  run_loop-Turns : (fuel : ℕ) (l l' : Loop F Mem) → run_loop fuel l ≡ ok (some l') → Turns fuel l l'
  unfolding run_loop
  run_loop-Turns zero l l' e = cc
  run_loop-Turns (suc fuel) l l' e = elim (Outcome-cases (turn l)) [
    | inl ((m, true), t) ↦
        let done = rw (t, run_loop) at e in
        let same : m ≡ l' = cc in
        let (traced, timed) = turn_trace l m true t in
        let turns : Turns (suc fuel) l m = record {
          count = 1;
          within = omega arith;
          positive = omega arith;
          traced = traced;
          timed = omega arith;
          u64 = omega arith;
          ended = turn-IsEnd l m t;
        } in
        subst (Turns (suc fuel) l) same turns
    | inl ((m, false), t) ↦
        let rest = run_loop-Turns fuel m l' (rw (t, run_loop) at e) in
        let (traced, timed) = turn_trace l m false t in
        let w = rest.within in
        let tr = rest.traced in
        let ti = rest.timed in
        record {
          count = suc rest.count;
          within = omega arith;
          positive = omega arith;
          traced = omega arith;
          timed = omega arith;
          u64 = rest.u64;
          ended = rest.ended;
        }
    | inr (message, t) ↦ let bad = rw (t, run_loop) at e in cc
  ]

  -- More fuel does not change a result.
  run_loop_more :
      (fuel fuel' : ℕ) (l l' : Loop F Mem)
      → run_loop fuel l ≡ ok (some l')
      → fuel ≤ fuel'
      → run_loop fuel' l ≡ ok (some l')
  unfolding run_loop
  run_loop_more zero fuel' l l' h le = cc
  run_loop_more (suc fuel) zero l l' h le = absurd (omega arith)
  run_loop_more (suc fuel) (suc fuel') l l' h le = elim (Outcome-cases (turn l)) [
    | inl ((m, true), t) ↦ let done = rw (t, run_loop) at h in rw (t, run_loop) done
    | inl ((m, false), t) ↦
        let rest = rw (t, run_loop) at h in
        rw (t, run_loop) (run_loop_more fuel fuel' m l' rest (omega arith))
    | inr (message, t) ↦ let bad = rw (t, run_loop) at h in cc
  ]

  abbrev start : CairoProgram F Mem → Loop F Mem
  start p = record { mem = p.mem; curr = p.ini; next = p.ini; n = 0; trace = p.trace }

  abbrev finish : CairoProgram F Mem → Loop F Mem → CairoProgram F Mem
  finish p l = record p { mem = l.mem; trace = l.trace; steps = f.from_ℕ l.n; fin = l.curr }

  -- The loop that a program ran
  execute_program-run_loop :
      (fuel : ℕ) (p p' : CairoProgram F Mem)
      → execute_program fuel p ≡ ok (some p')
      → (l : Loop F Mem) × (run_loop fuel (start p) ≡ ok (some l)) × (finish p l ≡ p')
  unfolding execute_program
  execute_program-run_loop fuel p p' h =
      let (r, run, done) = >>=-eq-ok (run_loop fuel (start p)) _ h in
      elim (Option-cases r) [
        | inl out ↦ let d = rw out at done in cc
        | inr (l, found) ↦ let d = rw found at done in (l, run ∙ ap ok found, cc)
      ]

  -- What is known of a program that was run with some fuel
  pub record IsRunOf (fuel : ℕ) (p p' : CairoProgram F Mem) : Type 0 where
    pub counted : p'.steps ≡ f.from_ℕ (length p'.trace % 2 ^ 64)
    pub within : length p'.trace ≤ fuel
    pub positive : 0 < length p'.trace
    pub same_ini : p'.ini ≡ p.ini
    pub ended : IsEnd p'.mem p'.fin p'.trace
    pub more : (fuel' : ℕ) → fuel ≤ fuel' → execute_program fuel' p ≡ ok (some p')

  -- A program that was run from an empty trace counts as many steps as there are instructions in its
  -- trace, up to the width of the counter, at least one and at most the fuel. Its initial pointers
  -- stay, and its trace, memory and final pointers are those of a last step that ended the loop. More
  -- fuel gives the same program.
  pub execute_program_steps :
      (fuel : ℕ) (p p' : CairoProgram F Mem)
      → p.trace ≡ []
      → execute_program fuel p ≡ ok (some p')
      → IsRunOf fuel p p'
  execute_program_steps fuel p p' e h =
      let (l, run, same) = execute_program-run_loop fuel p p' h in
      let turns = run_loop-Turns fuel (start p) l run in
      let w = turns.within in
      let pos = turns.positive in
      let tr = turns.traced in
      let ti = turns.timed in
      let u = turns.u64 in
      let empty : length p.trace ≡ 0 = ap length e in
      let n : l.n ≡ length l.trace % 2 ^ 64 = omega arith in
      let known : IsRunOf fuel p (finish p l) = record {
        counted = ap f.from_ℕ n;
        within = omega arith;
        positive = omega arith;
        same_ini = refl;
        ended = turns.ended;
        more = λ fuel' le.
            unfold execute_program in rw (run_loop_more fuel fuel' (start p) l run le) refl;
      } in
      subst (IsRunOf fuel p) same known
