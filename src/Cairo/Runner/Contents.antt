-- ===== src/Cairo/Runner/Contents.antt =====
-- Memory as a total function from addresses to contents: the specification of `CairoMemory`, with no
-- vector, no growth and no index out of bounds.
use proof_systems.Prelude.{ℕ, Option, some, ◌==◌, if◌then◌else◌}
use proof_systems.Outcome.{ok}
use proof_systems.Field.{Field}
use proof_systems.Cairo.Helper.{to_u64}
use proof_systems.Cairo.Runner.State.{MemoryOps}

abbrev pub Contents : Type 0 → Type 0
Contents F = ℕ → Option F

abbrev pub update : {F : Type 0} → Contents F → ℕ → F → Contents F
update m a x j = if a == j then some x else m j

instance abbrev pub contents_memory : {F : Type 0} ⦃f : Field F⦄ → MemoryOps F (Contents F)
contents_memory = record {
  read = λ m a. ok (m (to_u64 a), m);
  write = λ m a x. ok (update m (to_u64 a) x);
}
