-- ===== src/Cairo/Runner/Program/Refine.antt =====
-- cairo/src/runner.rs: the loop of a program on the growing vector against the loop on the total
-- function.
use proof_systems.Prelude.{
  ℕ, zero, suc, ◌<◌, ◌≡◌, refl, ap, Bool, true, false, Option, none, some, arith, Option-cases, inl,
  inr,
}
use proof_systems.Outcome.{Outcome, ok, panic, ◌>>=◌}
use proof_systems.Field.{Field}
use proof_systems.Cairo.Memory.{CairoMemory, len}
use proof_systems.Cairo.Memory.Cells.{cell}
use proof_systems.Cairo.Runner.State.{CairoInstruction, CairoStep, new_step, cairo_memory}
use proof_systems.Cairo.Runner.Contents.{Contents, contents_memory}
use proof_systems.Cairo.Runner.Step.{execute}
use proof_systems.Cairo.Runner.Refine.{view, Agrees, execute_refines}
use proof_systems.Cairo.Runner.Program.{Loop, after_step, turn, run_loop}

module _ {F : Type 0} where
  abbrev pub view_loop : Loop F (CairoMemory F) → Loop F (Contents F)
  view_loop l = record { mem = cell l.mem; curr = l.curr; next = l.next; n = l.n; trace = l.trace }

  -- The outcome of a turn on the vector is the outcome on the function.
  abbrev AgreesTurn :
      Outcome (Loop F (CairoMemory F) × Bool) → Outcome (Loop F (Contents F) × Bool) → Type 0
  AgreesTurn (ok (l, end)) t = (t ≡ ok (view_loop l, end)) × (0 < len l.mem)
  AgreesTurn (panic e) t = t ≡ panic e

  -- The outcome of the loop on the function, from that on the vector.
  abbrev pub seen :
      Outcome (Option (Loop F (CairoMemory F))) → Outcome (Option (Loop F (Contents F)))
  seen (ok none) = ok none
  seen (ok (some l)) = ok (some (view_loop l))
  seen (panic e) = panic e

module _ {F : Type 0} ⦃f : Field F⦄ where
  after_step-view :
      (l : Loop F (CairoMemory F)) (i : CairoInstruction F) (s : CairoStep F (CairoMemory F))
      → (after_step (view_loop l) i (view s)
          ≡ (view_loop (after_step l i s).0, (after_step l i s).1))
        × ((after_step l i s).0.mem ≡ s.mem)
  unfolding after_step
  after_step-view l i s = elim (Option-cases s.next) [
    | inl e ↦ (rw e refl, rw e refl)
    | inr (ptrs, e) ↦ (rw e refl, rw e refl)
  ]

  bind-AgreesTurn :
      (l : Loop F (CairoMemory F)) (r : Outcome (CairoInstruction F × CairoStep F (CairoMemory F)))
      (t : Outcome (CairoInstruction F × CairoStep F (Contents F)))
      → 0 < len l.mem
      → Agrees l.mem r t
      → AgreesTurn
          (r >>= λ x. ok (after_step l x.0 x.1))
          (t >>= λ x. ok (after_step (view_loop l) x.0 x.1))
  bind-AgreesTurn l (ok (i, s)) t h (e, grows) =
      let (same, mem) = after_step-view l i s in
      let long : 0 < len s.mem = let le = grows.0 in omega arith in (rw e (ap ok same), rw mem long)
  bind-AgreesTurn l (panic e) t h p = rw p refl

  turn-AgreesTurn :
      (l : Loop F (CairoMemory F)) → 0 < len l.mem → AgreesTurn (turn l) (turn (view_loop l))
  unfolding turn new_step
  turn-AgreesTurn l h =
      bind-AgreesTurn l (execute (new_step l.mem l.next)) (execute (new_step (cell l.mem) l.next)) h
        (execute_refines (new_step l.mem l.next) h)

  loop_seen :
      (fuel : ℕ) (r : Outcome (Loop F (CairoMemory F) × Bool))
      (t : Outcome (Loop F (Contents F) × Bool))
      → AgreesTurn r t
      → ((l : Loop F (CairoMemory F))
          → 0 < len l.mem
          → run_loop fuel (view_loop l) ≡ seen (run_loop fuel l))
      → elim t [
        | ok (l', end) ↦ elim end [ true ↦ ok (some l') | false ↦ run_loop fuel l' ]
        | panic e ↦ panic e
      ]
        ≡ seen (elim r [
          | ok (l', end) ↦ elim end [ true ↦ ok (some l') | false ↦ run_loop fuel l' ]
          | panic e ↦ panic e
        ])
  loop_seen fuel (ok (l, true)) t (e, h) ih = rw e refl
  loop_seen fuel (ok (l, false)) t (e, h) ih = rw e (ih l h)
  loop_seen fuel (panic x) t p ih = rw p refl

  -- The loop on a memory with its dummy cell, a vector that grows on access, has the outcome of the
  -- loop on a total function from addresses to contents: it ends after the same steps with the same
  -- pointers, time, trace and contents, panics with the same message, or runs out of the same fuel.
  pub run_loop_refines :
      (fuel : ℕ) (l : Loop F (CairoMemory F))
      → 0 < len l.mem
      → run_loop fuel (view_loop l) ≡ seen (run_loop fuel l)
  unfolding run_loop
  run_loop_refines zero l h = refl
  run_loop_refines (suc fuel) l h =
      loop_seen fuel (turn l) (turn (view_loop l)) (turn-AgreesTurn l h) (run_loop_refines fuel)
