-- ===== src/Cairo/Runner/State.antt =====
-- The pointers, the auxiliary variables and the state of a step, and the monad of its methods: a
-- method takes the step it mutates, and returns it with its result, or panics.
use Prim.Native.String.{String}
use proof_systems.Prelude.{Option, none, some}
use proof_systems.Outcome.{Outcome, ok, panic}
use proof_systems.Outcome
use proof_systems.Field.{Field}
use proof_systems.Cairo.Memory.{CairoMemory}
use proof_systems.Cairo.Memory
use proof_systems.Cairo.Word.{CairoWord}

pub record CairoState (F : Type 0) : Type 0 where
  pub pc : F
  pub ap : F
  pub fp : F

pub record CairoContext (F : Type 0) : Type 0 where
  pub dst : Option F
  pub op0 : Option F
  pub op1 : Option F
  pub res : Option F
  pub adr_dst : F
  pub adr_op0 : F
  pub adr_op1 : F
  pub size : F

pub record CairoInstruction (F : Type 0) : Type 0 where
  pub word : CairoWord F
  pub ptrs : CairoState F
  pub vars : CairoContext F

-- What a step asks of its memory; the runner uses it with `CairoMemory`.
pub record MemoryOps (F Mem : Type 0) : Type 0 where
  pub read : Mem → F → Outcome (Option F × Mem)
  pub write : Mem → F → F → Outcome Mem

instance abbrev pub cairo_memory : {F : Type 0} ⦃f : Field F⦄ → MemoryOps F (CairoMemory F)
cairo_memory = record { read = Memory.read; write = Memory.write }

pub record CairoStep (F Mem : Type 0) : Type 0 where
  pub mem : Mem
  pub curr : CairoState F
  pub next : Option (CairoState F)
  pub vars : CairoContext F

abbrev pub default_context : {F : Type 0} ⦃f : Field F⦄ → CairoContext F
default_context ⦃f⦄ = record {
  dst = none;
  op0 = none;
  op1 = none;
  res = none;
  adr_dst = f.zero;
  adr_op0 = f.zero;
  adr_op1 = f.zero;
  size = f.zero;
}

-- `CairoStep::new`
unfoldable pub new_step : {F Mem : Type 0} ⦃f : Field F⦄ → Mem → CairoState F → CairoStep F Mem
new_step mem ptrs = record { mem = mem; curr = ptrs; next = none; vars = default_context }

abbrev pub M : Type 0 → Type 0 → Type 0 → Type 0
M F Mem A = CairoStep F Mem → Outcome (A × CairoStep F Mem)

module _ {F Mem : Type 0} where
  infixl 5 ◌>>=◌ ◌>>◌
  abbrev pub ◌>>=◌ : {A B : Type 0} → M F Mem A → (A → M F Mem B) → M F Mem B
  ◌>>=◌ m f s = elim (m s) [ ok (a, s') ↦ f a s' | panic e ↦ panic e ]

  abbrev pub ◌>>◌ : {B : Type 0} → M F Mem (Unit {0}) → M F Mem B → M F Mem B
  m >> k = m >>= λ _. k

  abbrev pub return : {A : Type 0} → A → M F Mem A
  return a s = ok (a, s)

  -- `panic!`
  abbrev pub fail : {A : Type 0} → String → M F Mem A
  fail e s = panic e

  -- `o.expect(message)`
  abbrev pub expect : {A : Type 0} → Option A → String → M F Mem A
  expect none e s = panic e
  expect (some a) e s = ok (a, s)

  -- `self.curr` and `self.vars`, read and assigned
  abbrev pub get_curr : M F Mem (CairoState F)
  get_curr s = ok (s.curr, s)

  abbrev pub get_vars : M F Mem (CairoContext F)
  get_vars s = ok (s.vars, s)

  abbrev pub set_vars : (CairoContext F → CairoContext F) → M F Mem (Unit {0})
  set_vars g s = ok (tt, record s { vars = g s.vars })

  abbrev pub set_next : CairoState F → M F Mem (Unit {0})
  set_next ptrs s = ok (tt, record s { next = some ptrs })

  abbrev pub mem_read : ⦃o : MemoryOps F Mem⦄ → F → M F Mem (Option F)
  mem_read ⦃o⦄ a s = Outcome.◌>>=◌ (o.read s.mem a) (λ r. ok (r.0, record s { mem = r.1 }))

  abbrev pub mem_write : ⦃o : MemoryOps F Mem⦄ → F → F → M F Mem (Unit {0})
  mem_write ⦃o⦄ a x s = Outcome.◌>>=◌ (o.write s.mem a x) (λ m. ok (tt, record s { mem = m }))
