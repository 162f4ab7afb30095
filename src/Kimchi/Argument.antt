-- ===== src/Kimchi/Argument.antt =====
-- kimchi/src/circuits/argument.rs: arguments, and their constraints combined with powers of alpha.
pub mod Combined
use proof_systems.Prelude.{ℕ, ◌==◌, List, length, if◌then◌else◌}
use proof_systems.Outcome
use proof_systems.Outcome.{Outcome}
use proof_systems.Field.{Field}
use proof_systems.Kimchi.Gates.{GateType, ArgumentType, gate, permutation, lookup}
use proof_systems.Kimchi.Alphas.{Alphas, get_exponents}
use proof_systems.Kimchi.Expr.{ConstantExpr, Expr}
use proof_systems.Kimchi.Expr.Columns.{Column, curr, Attempt, ok, panic, ◌>>=◌}
use proof_systems.Kimchi.Expr.Arith
use proof_systems.Kimchi.Expr.Arith.{scalars, combine_constraints}

-- The trait, whose constants and function are fields. `count` is `CONSTRAINTS`.
pub record Argument (F : Type 0) : Type 0 where
  pub argument_type : ArgumentType
  pub count : ℕ
  pub constraints : List (Expr (ConstantExpr F))

unfoldable pub attempt : {A : Type 0} → Outcome A → Attempt A
attempt (Outcome.ok x) = ok x
attempt (Outcome.panic message) = panic

module _ {F : Type 0} where
  unfoldable pub index : GateType → Expr (ConstantExpr F)
  index g = Expr.cell (record { col = Column.index g; row = curr })

module _ {F : Type 0} ⦃f : Field F⦄ where
  -- The constraint of a gate is filtered by the selector of the gate.
  unfoldable pub filtered : ArgumentType → Expr (ConstantExpr F) → Expr (ConstantExpr F)
  filtered (gate g) c = Arith.mul (scalars f) (index g) c
  filtered permutation c = c
  filtered lookup c = c

  unfoldable pub combined_constraints : Argument F → Alphas F → Attempt (Expr (ConstantExpr F))
  combined_constraints a alphas =
      if length a.constraints == a.count
      then (do
        exponents ← attempt (get_exponents alphas a.argument_type a.count)
        c ← combine_constraints exponents a.constraints
        ok (filtered a.argument_type c))
      else panic
