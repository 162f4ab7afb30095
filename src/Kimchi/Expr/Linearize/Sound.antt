-- ===== src/Kimchi/Expr/Linearize/Sound.antt =====
-- kimchi/src/circuits/expr.rs: a linearization has the value of the expression that it is made from.
use proof_systems.Prelude.{◌≡◌, refl, ap, sym, ◌∙◌, Bool, List, [], ◌∷◌, Bool-cases, inl, inr}
use mathlib.Core.List.{Permᴰ}
use proof_systems.Field.{Field, ◌⊕◌, ◌⊗◌, IsRing}
use proof_systems.Field.Facts.{add-zero, mul-one}
use proof_systems.Kimchi.Expr.{Expr}
use proof_systems.Kimchi.Expr.Columns.{
  Column, CurrOrNext, curr, next, Variable, ok, >>=-eq-ok, ok-injective,
}
use proof_systems.Kimchi.Expr.Arith.{Coefficient}
use proof_systems.Kimchi.Expr.Arith
use proof_systems.Kimchi.Expr.Linearize.Keys.{Column-discrete}
use proof_systems.Kimchi.Expr.Linearize.{
  Linearization, Monomials, Sums, partition, times_cells, place_at, place, place_all, monomials,
  linearize,
}
use proof_systems.Kimchi.Expr.Linearize.Meaning.{
  Valuation, IsValuation, Fits, meaning, product, total, total-perm, total-alter, meaning-zero,
  meaning-add, meaning-add_assign, meaning-mul,
}
use proof_systems.Kimchi.Expr.Linearize.Products.{sum, sum-order}
use proof_systems.Kimchi.Expr.Linearize.Monomials.{sum-monomials}

module _ {C F : Type 0} ⦃f : Field F⦄ (ρ : Valuation C F) where
  -- The value of a column in the current row
  abbrev pub current : Column → F
  current col = ρ.cell (record { col = col; row = curr })

  -- The value of the sums that a linearization is made of
  abbrev pub value_of : Expr C → List (Column × Expr C) → F
  value_of constant_term terms = meaning ρ constant_term ⊕ total ρ current terms

module _ {C F : Type 0} ⦃f : Field F⦄ (r : IsRing f) {k : Coefficient C} {ρ : Valuation C F}
    (s : IsValuation k ρ) (order : Monomials C → Monomials C)
    (reorders : (m : Monomials C) → Permᴰ (order m) m) where
  product-partition :
      (ev : Column → Bool) (m : List Variable)
      → product ρ m ≡ product ρ (partition ev m).0 ⊗ product ρ (partition ev m).1
  unfolding product partition
  product-partition ev [] = sym (r.one-mul f.one)
  product-partition ev (v ∷ m) = elim (Bool-cases (ev v.col)) [
    | inl h ↦ rw h (ap (λ t. ρ.cell v ⊗ t) (product-partition ev m) ∙ sym (r.mul_assoc _ _ _))
    | inr h ↦ rw h (
        ap (λ t. ρ.cell v ⊗ t) (product-partition ev m)
        ∙ sym (r.mul_assoc _ _ _)
        ∙ ap (λ t. t ⊗ product ρ (partition ev m).1) (r.mul_comm _ _)
        ∙ r.mul_assoc _ _ _)
  ]

  meaning-times_cells :
      (c : Expr C) (vs : List Variable)
      → meaning ρ (times_cells k c vs) ≡ meaning ρ c ⊗ product ρ vs
  unfolding times_cells product meaning
  meaning-times_cells c [] = sym (mul-one r _)
  meaning-times_cells c (v ∷ vs) =
      meaning-times_cells (Arith.mul k c (Expr.cell v)) vs
      ∙ ap (λ t. t ⊗ product ρ vs) (meaning-mul r s c (Expr.cell v))
      ∙ r.mul_assoc _ _ _

  value : Sums C → F
  value sums = value_of ρ sums.0 sums.1

  place-value :
      (vs : List Variable) (c : Expr C) (sums sums' : Sums C)
      → place k vs c sums ≡ ok sums'
      → value sums' ≡ value sums ⊕ product ρ vs ⊗ meaning ρ c
  unfolding place place_at product value
  place-value [] c (t, res) sums' h =
      ap value (sym (ok-injective h))
      ∙ ap (λ x. x ⊕ total ρ (current ρ) res) (meaning-add_assign r s t c)
      ∙ r.add_assoc _ _ _
      ∙ ap (λ x. meaning ρ t ⊕ x) (r.add_comm _ _)
      ∙ sym (r.add_assoc _ _ _)
      ∙ ap (λ x. value_of ρ t res ⊕ x) (sym (r.one-mul _))
  place-value (v ∷ []) c (t, res) sums' h = one_variable v.col v.row refl h
    where
      one_variable :
          (col : Column) (row : CurrOrNext)
          → v ≡ record { col = col; row = row }
          → place_at k col row c (t, res) ≡ ok sums'
          → value sums' ≡ value (t, res) ⊕ (ρ.cell v ⊗ f.one) ⊗ meaning ρ c
      one_variable col next e h = cc
      one_variable col curr e h =
          ap value (sym (ok-injective h))
          ∙ ap (λ x. meaning ρ t ⊕ x)
              (total-alter r ρ (current ρ) Column-discrete col c _ _ res refl
                (λ u. meaning-add r s u c))
          ∙ sym (r.add_assoc _ _ _)
          ∙ ap (λ x. value_of ρ t res ⊕ x ⊗ meaning ρ c) (ap ρ.cell (sym e) ∙ sym (mul-one r _))
  place-value (v ∷ w ∷ vs) c sums sums' h = cc

  place_all-value :
      (ev : Column → Bool) (m : Monomials C) (sums sums' : Sums C)
      → place_all k ev m sums ≡ ok sums'
      → value sums' ≡ value sums ⊕ sum r s order reorders m
  unfolding place_all total
  place_all-value ev [] sums sums' h = ap value (sym (ok-injective h)) ∙ sym (add-zero r _)
  place_all-value ev ((m, c) ∷ rest) sums sums' h =
      let parts = partition ev m in
      let (mid, first, later) = >>=-eq-ok (place k parts.1 (times_cells k c parts.0) sums) _ h in
      place_all-value ev rest mid sums' later
      ∙ ap (λ t. t ⊕ sum r s order reorders rest)
          (place-value parts.1 (times_cells k c parts.0) sums mid first
            ∙ ap (λ t. value sums ⊕ t)
                (ap (λ t. product ρ parts.1 ⊗ t) (meaning-times_cells c parts.0)
                  ∙ r.mul_comm _ _
                  ∙ r.mul_assoc _ _ _
                  ∙ r.mul_comm _ _
                  ∙ ap (λ t. t ⊗ meaning ρ c) (sym (product-partition ev m))))
      ∙ r.add_assoc _ _ _

  -- Where every exponent of an expression is a `u64` and its linearization is made, the value of the
  -- expression is that of the constant term and of the sum of the columns in the current row, each
  -- times its coefficient: under every valuation, in whichever order maps are iterated.
  pub linearize-meaning :
      (collect : List (Column × Expr C) → List (Column × Expr C))
      (collects : (m : List (Column × Expr C)) → Permᴰ (collect m) m) (ev : Column → Bool)
      (e : Expr C) (l : Linearization (Expr C))
      → Fits e
      → linearize k order collect ev e ≡ ok l
      → meaning ρ e ≡ value_of ρ l.constant_term l.index_terms
  unfolding linearize total value
  linearize-meaning collect collects ev e l fits h =
      let start = order (monomials k order ev e) in
      let ((t, res), placed, done) = >>=-eq-ok (place_all k ev start (Arith.zero k, [])) _ h in
      let same = ok-injective done in
      sym (
        ap (λ (x : Linearization (Expr C)). value_of ρ x.constant_term x.index_terms) (sym same)
        ∙ ap (λ x. meaning ρ t ⊕ x) (total-perm r ρ (current ρ) (collects res))
        ∙ place_all-value ev start (Arith.zero k, []) (t, res) placed
        ∙ ap (λ x. (x ⊕ f.zero) ⊕ sum r s order reorders start) (meaning-zero r s)
        ∙ ap (λ x. x ⊕ sum r s order reorders start) (r.zero-add f.zero)
        ∙ r.zero-add _
        ∙ sum-order r s order reorders _
        ∙ sum-monomials r s order reorders ev e fits)
