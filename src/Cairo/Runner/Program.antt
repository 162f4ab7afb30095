-- ===== src/Cairo/Runner/Program.antt =====
-- cairo/src/runner.rs, `CairoProgram`: the loop that executes steps. A program may run for ever, so the loop takes fuel,
-- one unit for each step; `none` means that the fuel ran out.
pub mod Runs
pub mod Refine
use proof_systems.Prelude.{
  ℕ, zero, suc, ◌+◌, ◌%◌, ◌^◌, Bool, true, false, Option, none, some, List, [], ◌∷◌, ◌++◌,
  if◌then◌else◌,
}
use proof_systems.Outcome.{Outcome, ok, panic}
use proof_systems.Outcome
use proof_systems.Field.{Field}
use proof_systems.Cairo.Memory.{CairoMemory, len}
use proof_systems.Cairo.Runner.State.{
  CairoState, CairoInstruction, CairoStep, MemoryOps, new_step, cairo_memory,
}
use proof_systems.Cairo.Runner.Step.{execute}

pub record CairoProgram (F Mem : Type 0) : Type 0 where
  pub steps : F
  pub mem : Mem
  pub ini : CairoState F
  pub fin : CairoState F
  pub trace : List (CairoInstruction F)

-- The variables of the loop: the memory, the local copies of the pointers, the time, the trace.
pub record Loop (F Mem : Type 0) : Type 0 where
  pub mem : Mem
  pub curr : CairoState F
  pub next : CairoState F
  pub n : ℕ
  pub trace : List (CairoInstruction F)

module _ {F Mem : Type 0} ⦃f : Field F⦄ ⦃o : MemoryOps F Mem⦄ where
  -- The rest of the loop's body after a step: the new variables, and whether to end.
  unfoldable pub after_step : Loop F Mem → CairoInstruction F → CairoStep F Mem → Loop F Mem × Bool
  after_step l i s =
      let l' = record l {
        mem = s.mem;
        curr = s.curr;
        n = (l.n + 1) % 2 ^ 64;
        trace = l.trace ++ i ∷ [];
      } in
      elim s.next [
        | none ↦ (l', true)
        | some ptrs ↦ (record l' { next = ptrs }, f.ble s.curr.ap ptrs.pc)
      ]

  -- One turn of the loop.
  unfoldable pub turn : Loop F Mem → Outcome (Loop F Mem × Bool)
  turn l = Outcome.◌>>=◌ (execute (new_step l.mem l.next)) (λ r. ok (after_step l r.0 r.1))

  unfoldable pub run_loop : ℕ → Loop F Mem → Outcome (Option (Loop F Mem))
  run_loop zero l = ok none
  run_loop (suc fuel) l = elim (turn l) [
    | ok (l', end) ↦ elim end [ true ↦ ok (some l') | false ↦ run_loop fuel l' ]
    | panic e ↦ panic e
  ]

  -- `execute` of a program with its initial pointers
  unfoldable pub execute_program : ℕ → CairoProgram F Mem → Outcome (Option (CairoProgram F Mem))
  execute_program fuel p =
      Outcome.◌>>=◌
        (run_loop fuel (record { mem = p.mem; curr = p.ini; next = p.ini; n = 0; trace = p.trace }))
        (λ r. elim r [
          | none ↦ ok none
          | some l ↦
              ok (
                some
                  (record p { mem = l.mem; trace = l.trace; steps = f.from_ℕ l.n; fin = l.curr }))
        ])

module _ {F : Type 0} ⦃f : Field F⦄ where
  -- `CairoProgram::new`
  unfoldable pub new_program :
      ℕ → CairoMemory F → ℕ → Outcome (Option (CairoProgram F (CairoMemory F)))
  new_program fuel mem pc =
      let ap = f.from_ℕ (len mem) in
      execute_program fuel (record {
        steps = f.zero;
        mem = mem;
        ini = record { pc = f.from_ℕ pc; ap = ap; fp = ap };
        fin = record { pc = f.zero; ap = f.zero; fp = f.zero };
        trace = [];
      })
