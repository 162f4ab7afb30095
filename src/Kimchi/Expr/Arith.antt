-- ===== src/Kimchi/Expr/Arith.antt =====
-- kimchi/src/circuits/expr.rs: the arithmetic of expressions, which simplifies as it builds, the
-- constraints that are made with it, and the evaluation of the constants.
pub mod Values
pub mod Folding
pub mod Constraints
use proof_systems.Prelude.{ℕ, suc, List, [], ◌∷◌, Bool, true, false, ◌||◌, if◌then◌else◌}
use proof_systems.Field.{Field}
use proof_systems.Kimchi.Expr.{ConstantExpr, Op2, Expr}
use proof_systems.Kimchi.Expr.Columns.{Attempt, ok, panic, ◌>>=◌, evaluate_variable}
use proof_systems.Kimchi.Expr.Evaluate.{
  Constants, Point, value, apply, eval_vanishes_on_last_4_rows, unnormalized_lagrange_basis,
}
use proof_systems.Kimchi.Expr.Scalar

-- The traits that the arithmetic asks of the constants of an expression.
pub record Coefficient (C : Type 0) : Type 0 where
  pub zero : C
  pub one : C
  pub neg : C → C
  pub is_zero : C → Bool
  pub is_one : C → Bool

abbrev pub scalars : {F : Type 0} → Field F → Coefficient (ConstantExpr F)
scalars f = record {
  zero = ConstantExpr.literal f.zero;
  one = ConstantExpr.literal f.one;
  neg = Scalar.neg ⦃f = f⦄;
  is_zero = Scalar.is_zero ⦃f = f⦄;
  is_one = Scalar.is_one ⦃f = f⦄;
}

abbrev pub elements : {F : Type 0} → Field F → Coefficient F
elements f = record {
  zero = f.zero;
  one = f.one;
  neg = f.neg;
  is_zero = λ x. f.beq x f.zero;
  is_one = λ x. f.beq x f.one;
}

module _ {C : Type 0} (k : Coefficient C) where
  abbrev pub zero : Expr C
  zero = Expr.constant k.zero

  abbrev pub one : Expr C
  one = Expr.constant k.one

  unfoldable pub is_zero : Expr C → Bool
  is_zero (Expr.constant x) = k.is_zero x
  is_zero _ = false

  unfoldable pub is_one : Expr C → Bool
  is_one (Expr.constant x) = k.is_one x
  is_one _ = false

  unfoldable pub neg : Expr C → Expr C
  neg (Expr.constant x) = Expr.constant (k.neg x)
  neg e = Expr.bin_op Op2.mul (Expr.constant (k.neg k.one)) e

  unfoldable pub add : Expr C → Expr C → Expr C
  add x y = if is_zero x then y else if is_zero y then x else Expr.bin_op Op2.add x y

  -- The new value of the expression on the left
  unfoldable pub add_assign : Expr C → Expr C → Expr C
  add_assign x y = if is_zero x then y else (if is_zero y then x else Expr.bin_op Op2.add x y)

  unfoldable pub mul : Expr C → Expr C → Expr C
  mul x y =
      if is_zero x || is_zero y
      then zero
      else if is_one x
      then y
      else if is_one y
      then x
      else Expr.bin_op Op2.mul x y

  unfoldable pub sub : Expr C → Expr C → Expr C
  sub x y = if is_zero y then x else Expr.bin_op Op2.sub x y

  unfoldable pub pow : Expr C → ℕ → Expr C
  pow x ℕ.zero = one
  pow x (suc p) = Expr.pow x (suc p)

module _ {F : Type 0} ⦃f : Field F⦄ where
  -- `From<u64>`
  unfoldable pub from_u64 : ℕ → Expr (ConstantExpr F)
  from_u64 x = Expr.constant (ConstantExpr.literal (f.from_ℕ x))

  -- The sum from `acc` on; `zip_eq` panics where one list is longer.
  unfoldable pub combine_from :
      Expr (ConstantExpr F)
      → List ℕ
      → List (Expr (ConstantExpr F))
      → Attempt (Expr (ConstantExpr F))
  combine_from acc [] [] = ok acc
  combine_from acc (i ∷ alphas) (c ∷ cs) =
      combine_from
        (add (scalars f) acc (mul (scalars f) (Expr.constant (Scalar.pow ConstantExpr.alpha i)) c))
        alphas cs
  combine_from acc [] (c ∷ cs) = panic
  combine_from acc (i ∷ alphas) [] = panic

  unfoldable pub combine_constraints :
      List ℕ → List (Expr (ConstantExpr F)) → Attempt (Expr (ConstantExpr F))
  combine_constraints alphas cs = combine_from (zero (scalars f)) alphas cs

  unfoldable pub boolean : Expr (ConstantExpr F) → Expr (ConstantExpr F)
  boolean b = sub (scalars f) (Expr.square b) b

  unfoldable pub crumb : Expr (ConstantExpr F) → Expr (ConstantExpr F)
  crumb x =
      mul (scalars f)
        (mul (scalars f) (mul (scalars f) x (sub (scalars f) x (one (scalars f))))
          (sub (scalars f) x (from_u64 2)))
        (sub (scalars f) x (from_u64 3))

  unfoldable pub evaluate_constants : Constants F → Expr (ConstantExpr F) → Attempt (Expr F)
  evaluate_constants c (Expr.double x) = do x' ← evaluate_constants c x; ok (Expr.double x')
  evaluate_constants c (Expr.pow x d) = do x' ← evaluate_constants c x; ok (pow (elements f) x' d)
  evaluate_constants c (Expr.square x) = do x' ← evaluate_constants c x; ok (Expr.square x')
  evaluate_constants c (Expr.constant x) = do v ← value c x; ok (Expr.constant v)
  evaluate_constants c (Expr.cell v) = ok (Expr.cell v)
  evaluate_constants c Expr.vanishes_on_last4_rows = ok Expr.vanishes_on_last4_rows
  evaluate_constants c (Expr.unnormalized_lagrange_basis i) =
      ok (Expr.unnormalized_lagrange_basis i)
  evaluate_constants c (Expr.bin_op Op2.add x y) = do
    x' ← evaluate_constants c x
    y' ← evaluate_constants c y
    ok (add (elements f) x' y')
  evaluate_constants c (Expr.bin_op Op2.mul x y) = do
    x' ← evaluate_constants c x
    y' ← evaluate_constants c y
    ok (mul (elements f) x' y')
  evaluate_constants c (Expr.bin_op Op2.sub x y) = do
    x' ← evaluate_constants c x
    y' ← evaluate_constants c y
    ok (sub (elements f) x' y')
  evaluate_constants c (Expr.cache id e) = do e' ← evaluate_constants c e; ok (Expr.cache id e')

  -- `evaluate` of an expression whose constants are elements
  unfoldable pub evaluate_elements : Point F → Expr F → Attempt F
  evaluate_elements p (Expr.constant x) = ok x
  evaluate_elements p (Expr.pow x n) = do v ← evaluate_elements p x; ok (f.pow v n)
  evaluate_elements p (Expr.double x) = do v ← evaluate_elements p x; ok (f.add v v)
  evaluate_elements p (Expr.square x) = do v ← evaluate_elements p x; ok (f.mul v v)
  evaluate_elements p (Expr.bin_op op x y) = do
    v ← evaluate_elements p x
    u ← evaluate_elements p y
    ok (apply op v u)
  evaluate_elements p Expr.vanishes_on_last4_rows = eval_vanishes_on_last_4_rows p.domain p.pt
  evaluate_elements p (Expr.unnormalized_lagrange_basis i) =
      unnormalized_lagrange_basis p.domain i p.pt
  evaluate_elements p (Expr.cell v) = evaluate_variable p.evals v
  evaluate_elements p (Expr.cache id e) = evaluate_elements p e
