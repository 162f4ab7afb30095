-- ===== src/Kimchi/Expr/Linearize/AtPoint.antt =====
-- kimchi/src/circuits/expr.rs: the linearization of a constraint, and its value at a point.
use proof_systems.Prelude.{Bool, ◌≡◌, refl, ap, sym, ◌∙◌, List, [], ◌∷◌}
use mathlib.Core.List.{Permᴰ}
use proof_systems.Field.{Field, ◌⊕◌, ◌⊗◌, IsRing}
use proof_systems.Field.Facts.{neg_one-mul, mul-zero}
use proof_systems.Kimchi.Expr.{ConstantExpr, Expr}
use proof_systems.Kimchi.Expr.Columns.{
  Column, Attempt, ok, err, panic, ◌>>=◌, >>=-eq-ok, ok-injective, evaluate_variable,
}
use proof_systems.Kimchi.Expr.Evaluate.{
  Point, value, evaluate, apply, eval_vanishes_on_last_4_rows, unnormalized_lagrange_basis,
}
use proof_systems.Kimchi.Expr.Scalar
use proof_systems.Kimchi.Expr.Scalar.{is_zero-value, is_one-value, value-neg}
use proof_systems.Kimchi.Expr.Arith.{scalars}
use proof_systems.Kimchi.Expr.Linearize.{Linearization, Monomials, linearize}
use proof_systems.Kimchi.Expr.Linearize.Meaning.{Valuation, IsValuation, Fits, meaning, total}
use proof_systems.Kimchi.Expr.Linearize.Sound.{current, linearize-meaning}

abbrev pub or_else : {A : Type 0} → Attempt A → A → A
or_else (ok x) d = x
or_else (err e) d = d
or_else panic d = d

module _ {F : Type 0} ⦃f : Field F⦄ where
  -- The values at a point, with those of the columns that are not evaluated there
  abbrev pub at_point : Point F → (Column → F) → Valuation (ConstantExpr F) F
  at_point p columns = record {
    coefficient = λ c. or_else (value p.constants c) f.zero;
    cell = λ v. or_else (evaluate_variable p.evals v) (columns v.col);
    vanishes = or_else (eval_vanishes_on_last_4_rows p.domain p.pt) f.zero;
    lagrange = λ i. or_else (unnormalized_lagrange_basis p.domain i p.pt) f.zero;
  }

  -- The values of the coefficients of index terms, in order
  abbrev pub Coefficients : Point F → List (Column × Expr (ConstantExpr F)) → List F → Type 0
  Coefficients p [] [] = Unit
  Coefficients p (t ∷ terms) (c ∷ cs) = (evaluate p t.1 ≡ ok c) × Coefficients p terms cs
  Coefficients p _ _ = ⊥

  pub combination : (Column → F) → List (Column × Expr (ConstantExpr F)) → List F → F
  combination columns (t ∷ terms) (c ∷ cs) = columns t.0 ⊗ c ⊕ combination columns terms cs
  combination columns _ _ = f.zero

module _ {F : Type 0} ⦃f : Field F⦄ (r : IsRing f) (p : Point F) (columns : Column → F) where
  neg_coefficient :
      (c : ConstantExpr F)
      → or_else (value p.constants (Scalar.neg c)) f.zero
        ≡ f.neg (or_else (value p.constants c) f.zero)
  unfolding Scalar.neg value
  neg_coefficient (ConstantExpr.literal x) = refl
  neg_coefficient c = negated (value p.constants c)
    where
      negated :
          (m : Attempt F)
          → or_else (m >>= λ u. ok (f.neg f.one ⊗ u)) f.zero ≡ f.neg (or_else m f.zero)
      negated (ok u) = neg_one-mul r u
      negated (err e) = sym (sym (neg_one-mul r f.zero) ∙ mul-zero r _)
      negated panic = sym (sym (neg_one-mul r f.zero) ∙ mul-zero r _)

  pub at_point-IsValuation : IsValuation (scalars f) (at_point p columns)
  unfolding value
  at_point-IsValuation = record {
    zero_value = refl;
    one_value = refl;
    is_zero_value = λ c h. ap (λ m. or_else m f.zero) (is_zero-value r p.constants c h);
    is_one_value = λ c h. ap (λ m. or_else m f.zero) (is_one-value r p.constants c h);
    neg_value = neg_coefficient;
  }

  -- An expression that evaluates at the point means its value.
  pub meaning-evaluate :
      (e : Expr (ConstantExpr F)) (v : F) → evaluate p e ≡ ok v → meaning (at_point p columns) e ≡ v
  unfolding meaning evaluate
  meaning-evaluate (Expr.constant c) v h = ap (λ m. or_else m f.zero) h
  meaning-evaluate (Expr.cell x) v h = ap (λ m. or_else m (columns x.col)) h
  meaning-evaluate (Expr.double x) v h =
      let (a, xa, same) = >>=-eq-ok (evaluate p x) _ h in
      ap (λ t. t ⊕ t) (meaning-evaluate x a xa) ∙ ok-injective same
  meaning-evaluate (Expr.square x) v h =
      let (a, xa, same) = >>=-eq-ok (evaluate p x) _ h in
      ap (λ t. t ⊗ t) (meaning-evaluate x a xa) ∙ ok-injective same
  meaning-evaluate (Expr.bin_op op x y) v h =
      let (a, xa, h1) = >>=-eq-ok (evaluate p x) _ h in
      let (b, yb, same) = >>=-eq-ok (evaluate p y) _ h1 in
      ap (λ t. apply op t (meaning (at_point p columns) y)) (meaning-evaluate x a xa)
      ∙ ap (apply op a) (meaning-evaluate y b yb)
      ∙ ok-injective same
  meaning-evaluate Expr.vanishes_on_last4_rows v h = ap (λ m. or_else m f.zero) h
  meaning-evaluate (Expr.unnormalized_lagrange_basis i) v h = ap (λ m. or_else m f.zero) h
  meaning-evaluate (Expr.pow x n) v h =
      let (a, xa, same) = >>=-eq-ok (evaluate p x) _ h in
      ap (λ t. f.pow t n) (meaning-evaluate x a xa) ∙ ok-injective same
  meaning-evaluate (Expr.cache id x) v h = meaning-evaluate x v h

  total-combination :
      (terms : List (Column × Expr (ConstantExpr F))) (cs : List F)
      → Coefficients p terms cs
      → total (at_point p columns) (current (at_point p columns)) terms
        ≡ combination (current (at_point p columns)) terms cs
  unfolding total combination
  total-combination [] [] h = refl
  total-combination [] (c ∷ cs) h = absurd h
  total-combination (t ∷ terms) [] h = absurd h
  total-combination (t ∷ terms) (c ∷ cs) h =
      ap
        (λ x.
          current (at_point p columns) t.0 ⊗ x
          ⊕ total (at_point p columns) (current (at_point p columns)) terms)
        (meaning-evaluate t.1 c h.0)
      ∙ ap (λ x. current (at_point p columns) t.0 ⊗ c ⊕ x) (total-combination terms cs h.1)

  -- Where every exponent of a constraint is a `u64`, the constraint has a value at a point, and its
  -- linearization is made with a constant term and coefficients that have values there, the value of
  -- the constraint is that of the constant term and of the sum of the columns, each times the value of
  -- its coefficient.
  pub linearize-evaluate :
      (order : Monomials (ConstantExpr F) → Monomials (ConstantExpr F))
      (reorders : (m : Monomials (ConstantExpr F)) → Permᴰ (order m) m)
      (collect : List (Column × Expr (ConstantExpr F)) → List (Column × Expr (ConstantExpr F)))
      (collects : (m : List (Column × Expr (ConstantExpr F))) → Permᴰ (collect m) m)
      (ev : Column → Bool) (e : Expr (ConstantExpr F)) (l : Linearization (Expr (ConstantExpr F)))
      (v t : F) (cs : List F)
      → Fits e
      → linearize (scalars f) order collect ev e ≡ ok l
      → evaluate p e ≡ ok v
      → evaluate p l.constant_term ≡ ok t
      → Coefficients p l.index_terms cs
      → v ≡ t ⊕ combination (current (at_point p columns)) l.index_terms cs
  linearize-evaluate order reorders collect collects ev e l v t cs fits made has constant
        coefficients =
      sym (meaning-evaluate e v has)
      ∙ linearize-meaning r at_point-IsValuation order reorders collect collects ev e l fits made
      ∙ ap (λ x. x ⊕ total (at_point p columns) (current (at_point p columns)) l.index_terms)
          (meaning-evaluate l.constant_term t constant)
      ∙ ap (λ x. t ⊕ x) (total-combination l.index_terms cs coefficients)
