-- ===== src/Kimchi/Expr/Linearize/Monomials.antt =====
-- kimchi/src/circuits/expr.rs: the sum of the monomials of an expression is the expression.
use proof_systems.Prelude.{◌≡◌, refl, ap, sym, ◌∙◌, ◌&&◌, Bool, true, false, [], ◌∷◌, if◌then◌else◌}
use mathlib.Core.List.{Permᴰ}
use proof_systems.Field.{Field, ◌⊕◌, ◌⊖◌, ◌⊗◌, IsRing}
use proof_systems.Field.Facts.{
  add-zero, mul-one, add-neg, mul-neg, add_interchange, sub-zero, add-sub_swap,
}
use proof_systems.Kimchi.Expr.{Op2, Expr}
use proof_systems.Kimchi.Expr.Columns.{Column, Variable}
use proof_systems.Kimchi.Expr.Evaluate.{apply}
use proof_systems.Kimchi.Expr.Arith.{Coefficient}
use proof_systems.Kimchi.Expr.Arith
use proof_systems.Kimchi.Expr.Linearize.Keys.{Variables-discrete}
use proof_systems.Kimchi.Expr.Linearize.{
  Monomials, is_constant, single, add_terms, sub_terms, double_terms, monomials,
}
use proof_systems.Kimchi.Expr.Linearize.Meaning.{
  Valuation, IsValuation, Fits, meaning, product, total, total-single, total-alter, meaning-one,
  meaning-neg, meaning-add, meaning-sub,
}
use proof_systems.Kimchi.Expr.Linearize.Products.{sum, sum-order, sum-single, sum-mul_monomials}
use proof_systems.Kimchi.Expr.Linearize.Exponents.{sum-power}

module _ {C F : Type 0} ⦃f : Field F⦄ (r : IsRing f) {k : Coefficient C} {ρ : Valuation C F}
    (s : IsValuation k ρ) (order : Monomials C → Monomials C)
    (reorders : (m : Monomials C) → Permᴰ (order m) m) where
  sum-add_terms :
      (e2 res : Monomials C)
      → sum r s order reorders (add_terms k e2 res)
        ≡ sum r s order reorders res ⊕ sum r s order reorders e2
  unfolding add_terms total
  sum-add_terms [] res = sym (add-zero r _)
  sum-add_terms ((m, c) ∷ e2) res =
      sum-add_terms e2 _
      ∙ ap (λ t. t ⊕ sum r s order reorders e2)
          (total-alter r ρ (product ρ) Variables-discrete m c _ _ res refl
            (λ v. meaning-add r s v c))
      ∙ r.add_assoc _ _ _

  sum-sub_terms :
      (e2 res : Monomials C)
      → sum r s order reorders (sub_terms k e2 res)
        ≡ sum r s order reorders res ⊖ sum r s order reorders e2
  unfolding sub_terms total
  sum-sub_terms [] res = sym (sub-zero r _)
  sum-sub_terms ((m, c) ∷ e2) res =
      sum-sub_terms e2 _
      ∙ ap (λ t. t ⊖ sum r s order reorders e2)
          (total-alter r ρ (product ρ) Variables-discrete m (Arith.neg k c) _ (f.neg (meaning ρ c))
              res (meaning-neg r s c) (λ v. meaning-sub r s v c ∙ sym (add-neg r _ _))
            ∙ ap (λ t. sum r s order reorders res ⊕ t) (mul-neg r _ _)
            ∙ add-neg r _ _)
      ∙ add-sub_swap r _ _ _

  sum-double_terms :
      (m : Monomials C)
      → sum r s order reorders (double_terms m)
        ≡ sum r s order reorders m ⊕ sum r s order reorders m
  unfolding double_terms total meaning
  sum-double_terms [] = sym (r.zero-add f.zero)
  sum-double_terms ((m, c) ∷ e) =
      ap (λ t. product ρ m ⊗ (meaning ρ c ⊕ meaning ρ c) ⊕ t) (sum-double_terms e)
      ∙ ap (λ t. t ⊕ (sum r s order reorders e ⊕ sum r s order reorders e)) (r.mul-add _ _ _)
      ∙ add_interchange r _ _ _ _

  cell_value : (v : Variable) → product ρ (v ∷ []) ⊗ meaning ρ (Expr.constant k.one) ≡ ρ.cell v
  unfolding product
  cell_value v = ap (λ t. (ρ.cell v ⊗ f.one) ⊗ t) (meaning-one r s) ∙ mul-one r _ ∙ mul-one r _

  -- Either an expression is a single constant term, or what its parts make of it.
  either :
      (b : Bool) (e : Expr C) (m : Monomials C)
      → sum r s order reorders m ≡ meaning ρ e
      → sum r s order reorders (if b then single [] e else m) ≡ meaning ρ e
  either true e m h = sum-single r s order reorders e
  either false e m h = h

  -- Where every exponent is a `u64`, the monomials of an expression sum r s order reorders up to its value, whichever
  -- columns are evaluated and in whichever order maps are iterated.
  pub sum-monomials :
      (ev : Column → Bool) (e : Expr C)
      → Fits e
      → sum r s order reorders (monomials k order ev e) ≡ meaning ρ e
  unfolding monomials meaning apply
  sum-monomials ev (Expr.pow x d) h =
      either (is_constant ev x) (Expr.pow x d) _
        (sum-power r s order reorders d _ h.0 ∙ ap (λ t. f.pow t d) (sum-monomials ev x h.1))
  sum-monomials ev (Expr.double x) h = either (is_constant ev x) (Expr.double x) _ (
      sum-double_terms (order (monomials k order ev x))
      ∙ ap (λ t. t ⊕ t) (sum-order r s order reorders _ ∙ sum-monomials ev x h))
  sum-monomials ev (Expr.cache id x) h =
      either (is_constant ev x) (Expr.cache id x) _ (sum-monomials ev x h)
  sum-monomials ev (Expr.unnormalized_lagrange_basis i) h = sum-single r s order reorders _
  sum-monomials ev Expr.vanishes_on_last4_rows h = sum-single r s order reorders _
  sum-monomials ev (Expr.constant c) h = sum-single r s order reorders _
  sum-monomials ev (Expr.cell v) h =
      either (ev v.col) (Expr.cell v) _
        (total-single r ρ (product ρ) (v ∷ []) (Expr.constant k.one) ∙ cell_value v)
  sum-monomials ev (Expr.bin_op Op2.add x y) h =
      either (is_constant ev x && is_constant ev y) (Expr.bin_op Op2.add x y) _ (
        sum-add_terms (order (monomials k order ev y)) (monomials k order ev x)
        ∙ ap (λ t. sum r s order reorders (monomials k order ev x) ⊕ t)
            (sum-order r s order reorders _ ∙ sum-monomials ev y h.1)
        ∙ ap (λ t. t ⊕ meaning ρ y) (sum-monomials ev x h.0))
  sum-monomials ev (Expr.bin_op Op2.sub x y) h =
      either (is_constant ev x && is_constant ev y) (Expr.bin_op Op2.sub x y) _ (
        sum-sub_terms (order (monomials k order ev y)) (monomials k order ev x)
        ∙ ap (λ t. sum r s order reorders (monomials k order ev x) ⊖ t)
            (sum-order r s order reorders _ ∙ sum-monomials ev y h.1)
        ∙ ap (λ t. t ⊖ meaning ρ y) (sum-monomials ev x h.0))
  sum-monomials ev (Expr.bin_op Op2.mul x y) h =
      either (is_constant ev x && is_constant ev y) (Expr.bin_op Op2.mul x y) _ (
        sum-mul_monomials r s order reorders (monomials k order ev x) (monomials k order ev y)
        ∙ ap (λ t. sum r s order reorders (monomials k order ev x) ⊗ t) (sum-monomials ev y h.1)
        ∙ ap (λ t. t ⊗ meaning ρ y) (sum-monomials ev x h.0))
  sum-monomials ev (Expr.square x) h = either (is_constant ev x) (Expr.square x) _ (
      sum-mul_monomials r s order reorders (monomials k order ev x) (monomials k order ev x)
      ∙ ap (λ t. t ⊗ t) (sum-monomials ev x h))
