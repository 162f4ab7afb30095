-- ===== src/Kimchi/CompleteAdd.antt =====
-- kimchi/src/circuits/polynomials/complete_add.rs: the constraints of the gate for the addition of
-- points, and its verification.
pub mod Values
pub mod Verified
pub mod Sum
mod Tests
use proof_systems.Prelude.{ℕ, Bool, List, [], ◌∷◌, ◌++◌, if◌then◌else◌}
use proof_systems.Outcome.{Outcome, ok, expect, ◌>>=◌}
use proof_systems.Field.{Field, ◌⊕◌, ◌⊖◌, ◌⊗◌}
use proof_systems.Oracle.Permutation.{at}
use proof_systems.Kimchi.Gates.{Columns, GateType, gate, GateResult, valid, ensure}
use proof_systems.Kimchi.Expr.{ConstantExpr, Expr}
use proof_systems.Kimchi.Expr.Columns.{Column, curr}
use proof_systems.Kimchi.Expr.Arith.{scalars}
use proof_systems.Kimchi.Expr.Arith
use proof_systems.Kimchi.Argument.{Argument}

-- The eleven cells of a row that the gate reads
pub record Cells (F : Type 0) : Type 0 where
  pub x1 : F
  pub y1 : F
  pub x2 : F
  pub y2 : F
  pub x3 : F
  pub y3 : F
  pub inf : F
  pub same_x : F
  pub s : F
  pub inf_z : F
  pub x21_inv : F

module _ {F : Type 0} where
  unfoldable pub read_cells : Columns F → ℕ → Outcome (Cells F)
  read_cells witness row = do
    x1 ← at (witness 0) row
    y1 ← at (witness 1) row
    x2 ← at (witness 2) row
    y2 ← at (witness 3) row
    x3 ← at (witness 4) row
    y3 ← at (witness 5) row
    inf ← at (witness 6) row
    same_x ← at (witness 7) row
    s ← at (witness 8) row
    inf_z ← at (witness 9) row
    x21_inv ← at (witness 10) row
    ok (record {
      x1 = x1;
      y1 = y1;
      x2 = x2;
      y2 = y2;
      x3 = x3;
      y3 = y3;
      inf = inf;
      same_x = same_x;
      s = s;
      inf_z = inf_z;
      x21_inv = x21_inv;
    })

  unfoldable pub witness_curr : ℕ → Expr (ConstantExpr F)
  witness_curr i = Expr.cell (record { col = Column.witness i; row = curr })

module _ {F : Type 0} ⦃f : Field F⦄ where
  unfoldable pub zero_check :
      Expr (ConstantExpr F)
      → Expr (ConstantExpr F)
      → Expr (ConstantExpr F)
      → List (Expr (ConstantExpr F))
  zero_check z z_inv r =
      Arith.sub (scalars f) (Arith.mul (scalars f) z_inv z)
        (Arith.sub (scalars f) (Arith.one (scalars f)) r)
      ∷ Arith.mul (scalars f) r z
      ∷ []

  -- The expressions that are cached, with the numbers that the cache gives them
  abbrev pub x21 : Expr (ConstantExpr F)
  x21 = Expr.cache 0 (Arith.sub (scalars f) (witness_curr 2) (witness_curr 0))

  abbrev pub y21 : Expr (ConstantExpr F)
  y21 = Expr.cache 1 (Arith.sub (scalars f) (witness_curr 3) (witness_curr 1))

  abbrev pub x1_squared : Expr (ConstantExpr F)
  x1_squared = Expr.cache 2 (Arith.mul (scalars f) (witness_curr 0) (witness_curr 0))

  abbrev pub dbl_case : Expr (ConstantExpr F)
  dbl_case =
      Arith.sub (scalars f)
        (Arith.sub (scalars f)
          (Arith.mul (scalars f) (Expr.double (witness_curr 8)) (witness_curr 1))
          (Expr.double x1_squared))
        x1_squared

  abbrev pub add_case : Expr (ConstantExpr F)
  add_case = Arith.sub (scalars f) (Arith.mul (scalars f) x21 (witness_curr 8)) y21

  unfoldable pub constraints : List (Expr (ConstantExpr F))
  constraints =
      zero_check x21 (witness_curr 10) (witness_curr 7)
      ++ Arith.add (scalars f) (Arith.mul (scalars f) (witness_curr 7) dbl_case) (
          Arith.mul (scalars f) (Arith.sub (scalars f) (Arith.one (scalars f)) (witness_curr 7))
            add_case)
        ∷ Arith.sub (scalars f)
            (Arith.add (scalars f) (Arith.add (scalars f) (witness_curr 0) (witness_curr 2))
              (witness_curr 4))
            (Arith.mul (scalars f) (witness_curr 8) (witness_curr 8))
        ∷ Arith.sub (scalars f)
            (Arith.sub (scalars f)
              (Arith.mul (scalars f) (witness_curr 8)
                (Arith.sub (scalars f) (witness_curr 0) (witness_curr 4)))
              (witness_curr 1))
            (witness_curr 5)
        ∷ Arith.mul (scalars f) y21 (Arith.sub (scalars f) (witness_curr 7) (witness_curr 6))
        ∷ Arith.sub (scalars f) (Arith.mul (scalars f) y21 (witness_curr 9)) (witness_curr 6)
        ∷ []

  unfoldable pub argument : Argument F
  argument = record {
    argument_type = gate GateType.complete_add;
    count = 7;
    constraints = constraints;
  }

  -- The steps of the verification, each before what follows it
  unfoldable pub check_same_x : Cells F → Outcome GateResult → Outcome GateResult
  check_same_x c next =
      if f.beq c.x1 c.x2
      then ensure (f.beq c.same_x f.one) "Expected same_x = true" next
      else ensure (f.beq c.same_x f.zero) "Expected same_x = false" next

  unfoldable pub check_s : Cells F → Outcome GateResult → Outcome GateResult
  check_s c next =
      if f.beq c.same_x f.one
      then (let x1_squared = c.x1 ⊗ c.x1 in
          ensure (f.beq ((c.s ⊕ c.s) ⊗ c.y1) (x1_squared ⊕ x1_squared ⊕ x1_squared))
            "double s wrong" next)
      else ensure (f.beq ((c.x2 ⊖ c.x1) ⊗ c.s) (c.y2 ⊖ c.y1)) "add s wrong" next

  -- `F::from((y1 != y2) as u64)`
  unfoldable pub not_same_y : Cells F → F
  not_same_y c = f.from_ℕ (if f.beq c.y1 c.y2 then 0 else 1)

  unfoldable pub check_inf_z : Cells F → Outcome GateResult → Outcome GateResult
  check_inf_z c next =
      if f.beq c.y1 c.y2 then ensure (f.beq c.inf_z f.zero) "wrong inf z (y1 == y2)" next else (do
        a ←
            if f.beq c.same_x f.one
            then expect (f.inverse (c.y2 ⊖ c.y1)) "called `Option::unwrap()` on a `None` value"
            else ok f.zero
        ensure (f.beq c.inf_z a) "wrong inf z (y1 != y2)" next)

  unfoldable pub check_x21_inv : Cells F → Outcome GateResult → Outcome GateResult
  check_x21_inv c next =
      if f.beq c.x1 c.x2
      then ensure (f.beq c.x21_inv f.zero) "wrong x21_inv (x1 == x2)" next
      else (do
        a ← expect (f.inverse (c.x2 ⊖ c.x1)) "called `Option::unwrap()` on a `None` value"
        ensure (f.beq c.x21_inv a) "wrong x21_inv (x1 != x2)" next)

  unfoldable pub verify_cells : Cells F → Outcome GateResult
  verify_cells c = check_same_x c (
      check_s c (
        ensure (f.beq (c.s ⊗ c.s) (c.x1 ⊕ c.x2 ⊕ c.x3)) "x3 wrong" (
          ensure (f.beq c.y3 (c.s ⊗ (c.x1 ⊖ c.x3) ⊖ c.y1)) "y3 wrong" (
            ensure (f.beq c.inf (c.same_x ⊗ not_same_y c)) "inf wrong"
              (check_inf_z c (check_x21_inv c (ok valid)))))))

  unfoldable pub verify_complete_add : ℕ → Columns F → Outcome GateResult
  verify_complete_add row witness = do c ← read_cells witness row; verify_cells c
