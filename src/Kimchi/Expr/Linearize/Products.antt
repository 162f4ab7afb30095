-- ===== src/Kimchi/Expr/Linearize/Products.antt =====
-- kimchi/src/circuits/expr.rs: the sum of the monomials of a product.
use proof_systems.Prelude.{◌≡◌, ap, sym, ◌∙◌, List, [], ◌∷◌}
use mathlib.Core.List.{Permᴰ}
use proof_systems.Field.{Field, ◌⊕◌, ◌⊗◌, IsRing}
use proof_systems.Field.Facts.{add-zero, mul-zero, add-mul}
use proof_systems.Field.Powers.{mul_interchange}
use proof_systems.Kimchi.Expr.{Expr}
use proof_systems.Kimchi.Expr.Columns.{Variable}
use proof_systems.Kimchi.Expr.Arith.{Coefficient}
use proof_systems.Kimchi.Expr.Arith
use proof_systems.Kimchi.Expr.Linearize.Keys.{Variables-discrete}
use proof_systems.Kimchi.Expr.Linearize.{
  Monomials, add_product, add_products, mul_loop, mul_monomials, single,
}
use proof_systems.Kimchi.Expr.Linearize.Meaning.{
  Valuation, IsValuation, meaning, product, total, product-sort-append, total-single, total-perm,
  total-alter, meaning-zero_add, meaning-add, meaning-mul,
}

module _ {C F : Type 0} ⦃f : Field F⦄ (r : IsRing f) {k : Coefficient C} {ρ : Valuation C F}
    (s : IsValuation k ρ) (order : Monomials C → Monomials C)
    (reorders : (m : Monomials C) → Permᴰ (order m) m) where
  -- The value of the sum of monomials
  abbrev pub sum : Monomials C → F
  sum m = total ρ (product ρ) m

  abbrev term : List Variable × Expr C → F
  term t = product ρ t.0 ⊗ meaning ρ t.1

  pub sum-order : (m : Monomials C) → sum (order m) ≡ sum m
  sum-order m = total-perm r ρ (product ρ) (reorders m)

  pub sum-single : (c : Expr C) → sum (single [] c) ≡ meaning ρ c
  unfolding product
  sum-single c = total-single r ρ (product ρ) [] c ∙ r.one-mul _

  sum-add_product :
      (t : List Variable × Expr C) (res : Monomials C) (u : List Variable × Expr C)
      → sum (add_product k t res u) ≡ sum res ⊕ term t ⊗ term u
  unfolding add_product
  sum-add_product (m1, c1) res (m2, c2) =
      total-alter r ρ (product ρ) Variables-discrete _ _ _ _ res
        (meaning-zero_add r s (Arith.mul k c1 c2)) (λ v. meaning-add r s v _)
      ∙ ap (λ t. sum res ⊕ t)
          (ap (λ t. t ⊗ meaning ρ (Arith.mul k c1 c2)) (product-sort-append r ρ m1 m2)
            ∙ ap (λ t. (product ρ m1 ⊗ product ρ m2) ⊗ t) (meaning-mul r s c1 c2)
            ∙ mul_interchange r _ _ _ _)

  sum-add_products :
      (t : List Variable × Expr C) (e2 res : Monomials C)
      → sum (add_products k t e2 res) ≡ sum res ⊕ term t ⊗ sum e2
  unfolding add_products total
  sum-add_products t [] res = sym (ap (λ x. sum res ⊕ x) (mul-zero r (term t)) ∙ add-zero r _)
  sum-add_products t (u ∷ e2) res =
      sum-add_products t e2 (add_product k t res u)
      ∙ ap (λ x. x ⊕ term t ⊗ sum e2) (sum-add_product t res u)
      ∙ r.add_assoc _ _ _
      ∙ ap (λ x. sum res ⊕ x) (sym (r.mul-add (term t) (term u) (sum e2)))

  sum-mul_loop : (e1 e2 res : Monomials C) → sum (mul_loop k e1 e2 res) ≡ sum res ⊕ sum e1 ⊗ sum e2
  unfolding mul_loop total
  sum-mul_loop [] e2 res = sym (ap (λ x. sum res ⊕ x) (r.zero-mul (sum e2)) ∙ add-zero r _)
  sum-mul_loop (t ∷ e1) e2 res =
      sum-mul_loop e1 e2 (add_products k t e2 res)
      ∙ ap (λ x. x ⊕ sum e1 ⊗ sum e2) (sum-add_products t e2 res)
      ∙ r.add_assoc _ _ _
      ∙ ap (λ x. sum res ⊕ x) (sym (add-mul r (term t) (sum e1) (sum e2)))

  pub sum-mul_monomials :
      (e1 e2 : Monomials C) → sum (mul_monomials k order e1 e2) ≡ sum e1 ⊗ sum e2
  unfolding mul_monomials total
  sum-mul_monomials e1 e2 =
      sum-mul_loop (order e1) (order e2) []
      ∙ r.zero-add _
      ∙ ap (λ x. x ⊗ sum (order e2)) (sum-order e1)
      ∙ ap (λ x. sum e1 ⊗ x) (sum-order e2)
