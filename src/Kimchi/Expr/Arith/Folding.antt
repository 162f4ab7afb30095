-- ===== src/Kimchi/Expr/Arith/Folding.antt =====
-- kimchi/src/circuits/expr.rs: evaluating the constants first does not change the value.
use proof_systems.Prelude.{ℕ, zero, suc, ◌≡◌, refl, ap, sym, ◌∙◌}
use proof_systems.Field.{Field, IsRing}
use proof_systems.Kimchi.Expr.{ConstantExpr, Op2, Expr}
use proof_systems.Kimchi.Expr.Columns.{ok, >>=-eq-ok}
use proof_systems.Kimchi.Expr.Evaluate.{Point, evaluate, apply}
use proof_systems.Kimchi.Expr.Arith.{elements, evaluate_constants, evaluate_elements}
use proof_systems.Kimchi.Expr.Arith
use proof_systems.Kimchi.Expr.Arith.Values.{ev-add, ev-sub, ev-mul, evaluate_elements-IsEvaluation}

module _ {F : Type 0} ⦃f : Field F⦄ (r : IsRing f) (p : Point F) where
  -- What is built from an expression has its value.
  abbrev Folds : Expr (ConstantExpr F) → F → Type 0
  Folds e v =
      (e' : Expr F) × (evaluate_constants p.constants e ≡ ok e') × (evaluate_elements p e' ≡ ok v)

  Folds-binary :
      (op : Op2) (x y : Expr (ConstantExpr F)) (a b : F)
      → Folds x a
      → Folds y b
      → Folds (Expr.bin_op op x y) (apply op a b)
  unfolding evaluate_constants apply
  Folds-binary Op2.add x y a b (x', xc, xv) (y', yc, yv) = (
    Arith.add (elements f) x' y',
    rw (xc, yc) refl,
    ev-add r (evaluate_elements-IsEvaluation r p) x' y' a b xv yv,
  )
  Folds-binary Op2.mul x y a b (x', xc, xv) (y', yc, yv) = (
    Arith.mul (elements f) x' y',
    rw (xc, yc) refl,
    ev-mul r (evaluate_elements-IsEvaluation r p) x' y' a b xv yv,
  )
  Folds-binary Op2.sub x y a b (x', xc, xv) (y', yc, yv) = (
    Arith.sub (elements f) x' y',
    rw (xc, yc) refl,
    ev-sub r (evaluate_elements-IsEvaluation r p) x' y' a b xv yv,
  )

  pow-evaluate :
      (x : Expr F) (v : F) (n : ℕ)
      → evaluate_elements p x ≡ ok v
      → evaluate_elements p (Arith.pow (elements f) x n) ≡ ok (f.pow v n)
  unfolding Arith.pow evaluate_elements
  pow-evaluate x v zero h = ap ok (sym (r.pow-zero v))
  pow-evaluate x v (suc n) h = rw h refl

  -- Where an expression has a value at a point, its constants can be evaluated first, and what is
  -- left has the same value.
  pub evaluate_elements-evaluate_constants :
      (e : Expr (ConstantExpr F)) (v : F)
      → evaluate p e ≡ ok v
      → (e' : Expr F) × (evaluate_constants p.constants e ≡ ok e') × (evaluate_elements p e' ≡ ok v)
  unfolding evaluate evaluate_constants evaluate_elements
  evaluate_elements-evaluate_constants (Expr.constant c) v h = (Expr.constant v, rw h refl, refl)
  evaluate_elements-evaluate_constants (Expr.cell x) v h = (Expr.cell x, refl, h)
  evaluate_elements-evaluate_constants (Expr.double x) v h =
      let (a, xa, same) = >>=-eq-ok (evaluate p x) _ h in
      let (x', xc, xv) = evaluate_elements-evaluate_constants x a xa in
      (Expr.double x', rw xc refl, rw xv same)
  evaluate_elements-evaluate_constants (Expr.square x) v h =
      let (a, xa, same) = >>=-eq-ok (evaluate p x) _ h in
      let (x', xc, xv) = evaluate_elements-evaluate_constants x a xa in
      (Expr.square x', rw xc refl, rw xv same)
  evaluate_elements-evaluate_constants (Expr.bin_op op x y) v h =
      let (a, xa, h1) = >>=-eq-ok (evaluate p x) _ h in
      let (b, yb, same) = >>=-eq-ok (evaluate p y) _ h1 in
      let (e', made, has) =
        Folds-binary op x y a b (evaluate_elements-evaluate_constants x a xa)
          (evaluate_elements-evaluate_constants y b yb) in
      (e', made, has ∙ same)
  evaluate_elements-evaluate_constants Expr.vanishes_on_last4_rows v h =
      (Expr.vanishes_on_last4_rows, refl, h)
  evaluate_elements-evaluate_constants (Expr.unnormalized_lagrange_basis i) v h =
      (Expr.unnormalized_lagrange_basis i, refl, h)
  evaluate_elements-evaluate_constants (Expr.pow x n) v h =
      let (a, xa, same) = >>=-eq-ok (evaluate p x) _ h in
      let (x', xc, xv) = evaluate_elements-evaluate_constants x a xa in
      (Arith.pow (elements f) x' n, rw xc refl, pow-evaluate x' a n xv ∙ same)
  evaluate_elements-evaluate_constants (Expr.cache id x) v h =
      let (x', xc, xv) = evaluate_elements-evaluate_constants x v h in
      (Expr.cache id x', rw xc refl, xv)
