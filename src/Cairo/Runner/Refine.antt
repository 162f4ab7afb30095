-- ===== src/Cairo/Runner/Refine.antt =====
-- cairo/src/runner.rs: a step on the growing vector against the step on the total function.
use Prim.Native.String.{String}
use native.Mathlib.Nat.{le_trans}
use mathlib.Core.Path.{fun_ext}
use proof_systems.Prelude.{
  ◌≤◌, ◌<◌, ◌≡◌, refl, sym, ap, ◌∙◌, Bool, true, false, Option, none, some, arith, if◌then◌else◌,
}
use proof_systems.Outcome.{Outcome, ok, panic}
use proof_systems.Field.{Field}
use proof_systems.Cairo.Helper.{to_u64}
use proof_systems.Cairo.Word.{CairoWord}
use proof_systems.Cairo.Memory.{CairoMemory, len}
use proof_systems.Cairo.Memory.Cells.{cell, read_total, write_total}
use proof_systems.Cairo.Runner.State.{
  CairoState, CairoContext, CairoStep, M, ◌>>=◌, return, fail, expect, get_curr, get_vars, set_vars,
  set_next, mem_read, mem_write, cairo_memory,
}
use proof_systems.Cairo.Runner.Contents.{Contents, contents_memory}
use proof_systems.Cairo.Runner.Step.{
  instr, set_op0, op1_register, set_op1, res_logic, set_res, set_dst, next_pc, call_apfp, other_ap,
  assert_equal, other_fp, next_apfp, execute,
}

module _ {F : Type 0} where
  -- The step as a client of the memory sees it.
  abbrev pub view : CairoStep F (CairoMemory F) → CairoStep F (Contents F)
  view s = record { mem = cell s.mem; curr = s.curr; next = s.next; vars = s.vars }

  -- What may happen to the vector: it does not shrink, and the program's length stays.
  abbrev pub Grows : CairoMemory F → CairoMemory F → Type 0
  Grows m m' = (len m ≤ len m') × (m'.codelen ≡ m.codelen)

  -- The outcome on the vector is the outcome on the function.
  abbrev pub Agrees :
      {A : Type 0}
      → CairoMemory F
      → Outcome (A × CairoStep F (CairoMemory F))
      → Outcome (A × CairoStep F (Contents F))
      → Type 0
  Agrees m (ok (a, s)) r = (r ≡ ok (a, view s)) × Grows m s.mem
  Agrees m (panic e) r = r ≡ panic e

  pub record Refines {A : Type 0} (m : M F (CairoMemory F) A) (n : M F (Contents F) A)
      : Type 0 where
    pub run : (s : CairoStep F (CairoMemory F)) → 0 < len s.mem → Agrees s.mem (m s) (n (view s))

  Agrees-trans :
      {A : Type 0} (m m' : CairoMemory F) (r : Outcome (A × CairoStep F (CairoMemory F)))
      (t : Outcome (A × CairoStep F (Contents F)))
      → Grows m m'
      → Agrees m' r t
      → Agrees m r t
  Agrees-trans m m' (ok (a, s)) t g h = (h.0, (le_trans g.0 h.1.0, h.1.1 ∙ g.1))
  Agrees-trans m m' (panic e) t g h = h

  bind-Agrees :
      {A B : Type 0} (m : CairoMemory F) (f : A → M F (CairoMemory F) B)
      (g : A → M F (Contents F) B)
      → 0 < len m
      → ((a : A) → Refines (f a) (g a))
      → (r : Outcome (A × CairoStep F (CairoMemory F))) (t : Outcome (A × CairoStep F (Contents F)))
      → Agrees m r t
      → Agrees m
          (elim r [ ok (a, s) ↦ f a s | panic e ↦ panic e ])
          (elim t [ ok (a, s) ↦ g a s | panic e ↦ panic e ])
  bind-Agrees m f g pos k (ok (a, s)) t (e, grows) = rw e (
      Agrees-trans m s.mem (f a s) (g a (view s)) grows
        ((k a).run s (let le = grows.0 in omega arith)))
  bind-Agrees m f g pos k (panic e) t p = rw p

  Refines-bind :
      {A B : Type 0} (m : M F (CairoMemory F) A) (n : M F (Contents F) A)
      (f : A → M F (CairoMemory F) B) (g : A → M F (Contents F) B)
      → Refines m n
      → ((a : A) → Refines (f a) (g a))
      → Refines (m >>= f) (n >>= g)
  Refines-bind m n f g h k = record {
    run = λ s pos. bind-Agrees s.mem f g pos k (m s) (n (view s)) (h.run s pos);
  }

  Refines-if :
      {A : Type 0} (b : Bool) (m m' : M F (CairoMemory F) A) (n n' : M F (Contents F) A)
      → Refines m n
      → Refines m' n'
      → Refines (if b then m else m') (if b then n else n')
  Refines-if true m m' n n' h h' = h
  Refines-if false m m' n n' h h' = h'

  Grows-refl : (m : CairoMemory F) → Grows m m
  Grows-refl m = (omega arith, refl)

  Refines-return : {A : Type 0} (a : A) → Refines (return a) (return a)
  Refines-return a = record { run = λ s pos. (refl, Grows-refl s.mem) }

  Refines-fail : {A : Type 0} (e : String) → Refines {A = A} (fail e) (fail e)
  Refines-fail e = record { run = λ s pos. refl }

  Refines-expect : {A : Type 0} (o : Option A) (e : String) → Refines (expect o e) (expect o e)
  Refines-expect none e = record { run = λ s pos. refl }
  Refines-expect (some a) e = record { run = λ s pos. (refl, Grows-refl s.mem) }

  Refines-get_curr : Refines get_curr get_curr
  Refines-get_curr = record { run = λ s pos. (refl, Grows-refl s.mem) }

  Refines-get_vars : Refines get_vars get_vars
  Refines-get_vars = record { run = λ s pos. (refl, Grows-refl s.mem) }

  Refines-set_vars : (g : CairoContext F → CairoContext F) → Refines (set_vars g) (set_vars g)
  Refines-set_vars g = record { run = λ s pos. (refl, Grows-refl s.mem) }

  Refines-set_next : (c : CairoState F) → Refines (set_next c) (set_next c)
  Refines-set_next c = record { run = λ s pos. (refl, Grows-refl s.mem) }

module _ {F : Type 0} ⦃f : Field F⦄ where
  read-Agrees :
      (a : F) (s : CairoStep F (CairoMemory F))
      → 0 < len s.mem
      → Agrees s.mem (mem_read a s) (mem_read a (view s))
  read-Agrees a s pos =
      let (m', run, room, code, same) = read_total s.mem a pos in
      rw run (
        ap (λ (c : Contents F). ok (cell s.mem (to_u64 a), record (view s) { mem = c }))
            (sym (fun_ext same)),
        (omega arith, code),
      )

  write-Agrees :
      (a x : F) (s : CairoStep F (CairoMemory F))
      → 0 < len s.mem
      → Agrees s.mem (mem_write a x s) (mem_write a x (view s))
  write-Agrees a x s pos =
      let (m', run, room, code, same) = write_total s.mem a x pos in
      rw run (
        ap (λ (c : Contents F). ok (tt, record (view s) { mem = c })) (sym (fun_ext same)),
        (omega arith, code),
      )

  Refines-read : (a : F) → Refines (mem_read a) (mem_read a)
  Refines-read a = record { run = read-Agrees a }

  Refines-write : (a x : F) → Refines (mem_write a x) (mem_write a x)
  Refines-write a x = record { run = write-Agrees a x }

  ruleset rules = (
    Refines-bind, Refines-if, Refines-return, Refines-fail, Refines-expect, Refines-get_curr,
    Refines-get_vars, Refines-set_vars, Refines-set_next, Refines-read, Refines-write,
  )

  Refines-instr : Refines {F = F} instr instr
  unfolding instr
  Refines-instr = search rules depth 20

  Refines-op1_register : (w : CairoWord F) → Refines {F = F} (op1_register w) (op1_register w)
  unfolding op1_register
  Refines-op1_register w = search rules depth 20

  Refines-set_op0 : Refines {F = F} set_op0 set_op0
  unfolding set_op0
  Refines-set_op0 = search (rules, Refines-instr) depth 24

  Refines-set_op1 : Refines {F = F} set_op1 set_op1
  unfolding set_op1
  Refines-set_op1 = search (rules, Refines-instr, Refines-op1_register) depth 24

  Refines-res_logic : (w : CairoWord F) → Refines {F = F} (res_logic w) (res_logic w)
  unfolding res_logic
  Refines-res_logic w = search (rules) depth 24

  Refines-set_res : Refines {F = F} set_res set_res
  unfolding set_res
  Refines-set_res = search (rules, Refines-instr, Refines-res_logic) depth 24

  Refines-set_dst : Refines {F = F} set_dst set_dst
  unfolding set_dst
  Refines-set_dst = search (rules, Refines-instr) depth 24

  Refines-next_pc : Refines {F = F} next_pc next_pc
  unfolding next_pc
  Refines-next_pc = search (rules, Refines-instr) depth 24

  Refines-call_apfp : Refines {F = F} call_apfp call_apfp
  unfolding call_apfp
  Refines-call_apfp = search (rules, Refines-instr) depth 24

  Refines-other_ap : (w : CairoWord F) → Refines {F = F} (other_ap w) (other_ap w)
  unfolding other_ap
  Refines-other_ap w = search (rules) depth 24

  Refines-assert_equal : Refines {F = F} assert_equal assert_equal
  unfolding assert_equal
  Refines-assert_equal = search (rules) depth 24

  Refines-other_fp : (w : CairoWord F) → Refines {F = F} (other_fp w) (other_fp w)
  unfolding other_fp
  Refines-other_fp w = search (rules, Refines-assert_equal) depth 24

  Refines-next_apfp : Refines {F = F} next_apfp next_apfp
  unfolding next_apfp
  Refines-next_apfp =
      search (rules, Refines-instr, Refines-call_apfp, Refines-other_ap, Refines-other_fp) depth 24

  Refines-execute : Refines {F = F} execute execute
  unfolding execute
  Refines-execute =
      search
        (
          rules, Refines-instr, Refines-set_op0, Refines-set_op1, Refines-set_res, Refines-set_dst,
          Refines-next_pc, Refines-next_apfp,
        )
        depth 24

  -- A step on a memory with its dummy cell, a vector that grows on access, has the result or the
  -- panic of the step on a total function from addresses to contents; the vector does not shrink,
  -- and the length of the program stays.
  pub execute_refines :
      (s : CairoStep F (CairoMemory F))
      → 0 < len s.mem
      → Agrees s.mem (execute s) (execute (view s))
  execute_refines = Refines-execute.run
