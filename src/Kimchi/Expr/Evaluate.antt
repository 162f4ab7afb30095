-- ===== src/Kimchi/Expr/Evaluate.antt =====
-- kimchi/src/circuits/expr.rs: the value of an expression at a point, and
-- `eval_vanishes_on_last_4_rows` of kimchi/src/circuits/polynomials/permutation.rs. `x.double()` is
-- `x + x`, and `x.square()` is `x * x`.
use proof_systems.Prelude.{ℕ, suc, ◌+◌, ◌-◌, ◌^◌, Option, List, ◌==◌, ltb, get_elem?, if◌then◌else◌}
use proof_systems.Field.{Field, ◌⊕◌, ◌⊖◌, ◌⊗◌}
use proof_systems.Kimchi.Expr.{ConstantExpr, Op2, Expr}
use proof_systems.Kimchi.Expr.Columns.{
  ℤ, pos, negsuc, Attempt, ok, panic, ◌>>=◌, unwrap, ProofEvaluations, evaluate_variable,
}

pub record Constants (F : Type 0) : Type 0 where
  pub alpha : F
  pub beta : F
  pub gamma : F
  pub joint_combiner : Option F
  pub endo_coefficient : F
  pub mds : List (List F)

-- A domain of `ark_poly`, and what the code takes from other crates at it: the inverse and the
-- quotient of elements, which are absent at zero, and the value of the vanishing polynomial.
pub record Domain (F : Type 0) : Type 0 where
  pub group_gen : F
  pub size : ℕ
  pub inverse : F → Option F
  pub div : F → F → Option F
  pub evaluate_vanishing_polynomial : F → F

-- What an evaluation is given.
pub record Point (F : Type 0) : Type 0 where
  pub domain : Domain F
  pub pt : F
  pub evals : List (ProofEvaluations F)
  pub constants : Constants F

abbrev zk_rows : ℕ
zk_rows = 3

module _ {F : Type 0} ⦃f : Field F⦄ where
  -- `domain.group_gen` to the power `i`
  unfoldable pub omega : Domain F → ℤ → Attempt F
  omega d (pos i) = ok (f.pow d.group_gen i)
  omega d (negsuc i) =
      if suc i == 2 ^ 31 then panic else unwrap (d.inverse (f.pow d.group_gen (suc i)))

  unfoldable pub unnormalized_lagrange_basis : Domain F → ℤ → F → Attempt F
  unnormalized_lagrange_basis d i pt = do
    omega_i ← omega d i
    unwrap (d.div (d.evaluate_vanishing_polynomial pt) (pt ⊖ omega_i))

  -- `domain.size - (ZK_ROWS + 1)` overflows on a smaller domain.
  unfoldable pub eval_vanishes_on_last_4_rows : Domain F → F → Attempt F
  eval_vanishes_on_last_4_rows d x =
      if ltb d.size (zk_rows + 1)
      then panic
      else let w4 = f.pow d.group_gen (d.size - (zk_rows + 1)) in
        let w3 = d.group_gen ⊗ w4 in
        let w2 = d.group_gen ⊗ w3 in
        let w1 = d.group_gen ⊗ w2 in ok ((x ⊖ w1) ⊗ (x ⊖ w2) ⊗ (x ⊖ w3) ⊗ (x ⊖ w4))

  -- `c.mds[row][col]`
  unfoldable pub mds_entry : Constants F → ℕ → ℕ → Attempt F
  mds_entry c row col = do r ← unwrap (get_elem? c.mds row); unwrap (get_elem? r col)

  unfoldable pub apply : Op2 → F → F → F
  apply Op2.add x y = x ⊕ y
  apply Op2.mul x y = x ⊗ y
  apply Op2.sub x y = x ⊖ y

  unfoldable pub value : Constants F → ConstantExpr F → Attempt F
  value c ConstantExpr.alpha = ok c.alpha
  value c ConstantExpr.beta = ok c.beta
  value c ConstantExpr.gamma = ok c.gamma
  value c ConstantExpr.joint_combiner = unwrap c.joint_combiner
  value c ConstantExpr.endo_coefficient = ok c.endo_coefficient
  value c (ConstantExpr.mds row col) = mds_entry c row col
  value c (ConstantExpr.literal x) = ok x
  value c (ConstantExpr.pow x p) = do v ← value c x; ok (f.pow v p)
  value c (ConstantExpr.add x y) = do v ← value c x; u ← value c y; ok (v ⊕ u)
  value c (ConstantExpr.mul x y) = do v ← value c x; u ← value c y; ok (v ⊗ u)
  value c (ConstantExpr.sub x y) = do v ← value c x; u ← value c y; ok (v ⊖ u)

  -- `evaluate_`
  unfoldable pub evaluate : Point F → Expr (ConstantExpr F) → Attempt F
  evaluate p (Expr.constant c) = value p.constants c
  evaluate p (Expr.cell v) = evaluate_variable p.evals v
  evaluate p (Expr.double x) = do v ← evaluate p x; ok (v ⊕ v)
  evaluate p (Expr.square x) = do v ← evaluate p x; ok (v ⊗ v)
  evaluate p (Expr.bin_op op x y) = do v ← evaluate p x; u ← evaluate p y; ok (apply op v u)
  evaluate p Expr.vanishes_on_last4_rows = eval_vanishes_on_last_4_rows p.domain p.pt
  evaluate p (Expr.unnormalized_lagrange_basis i) = unnormalized_lagrange_basis p.domain i p.pt
  evaluate p (Expr.pow x n) = do v ← evaluate p x; ok (f.pow v n)
  evaluate p (Expr.cache id x) = evaluate p x
