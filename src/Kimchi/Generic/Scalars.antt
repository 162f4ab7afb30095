-- ===== src/Kimchi/Generic/Scalars.antt =====
-- kimchi/src/circuits/polynomials/generic.rs: the scalars of the generic gate, against its constraints.
use proof_systems.Prelude.{◌≡◌, refl, sym, ap, ◌∙◌, List, ◌∷◌}
use proof_systems.Outcome.{ok}
use proof_systems.Field.{Field, ◌⊕◌, ◌⊗◌, IsRing}
use proof_systems.Field.Facts.{add-zero}
use proof_systems.Kimchi.Generic.{gate_scalars, next_alpha, gnrc_scalars}

module _ {F : Type 0} ⦃f : Field F⦄ where
  -- The sum of the products of scalars and coefficients, as far as both go
  pub scaled_sum : List F → List F → F
  scaled_sum (s ∷ scalars) (c ∷ coeffs) = s ⊗ c ⊕ scaled_sum scalars coeffs
  scaled_sum _ _ = f.zero

  -- The constraint of a gate, from its five coefficients and three cells
  abbrev pub gate_constraint : F → F → F → F → F → F → F → F → F
  gate_constraint c0 c1 c2 c3 c4 x y o = c0 ⊗ x ⊕ (c1 ⊗ y ⊕ (c2 ⊗ o ⊕ (c3 ⊗ (x ⊗ y) ⊕ c4)))

module _ {F : Type 0} ⦃f : Field F⦄ (r : IsRing f) where
  factor : (a b c : F) → a ⊗ b ⊗ c ≡ a ⊗ (c ⊗ b)
  factor a b c = r.mul_assoc a b c ∙ ap (λ t. a ⊗ t) (r.mul_comm b c)

  join : (a u v rest s t : F) → s ≡ a ⊗ u → t ≡ a ⊗ v ⊕ rest → s ⊕ t ≡ a ⊗ (u ⊕ v) ⊕ rest
  join a u v rest s t p q =
      ap (λ z. z ⊕ t) p
      ∙ ap (λ z. a ⊗ u ⊕ z) q
      ∙ sym (r.add_assoc _ _ rest)
      ∙ ap (λ z. z ⊕ rest) (sym (r.mul-add a u v))

  -- A gate's five products, before a rest
  five_products :
      (a c0 c1 c2 c3 c4 x y o rest : F)
      → a ⊗ x ⊗ c0 ⊕ (a ⊗ y ⊗ c1 ⊕ (a ⊗ o ⊗ c2 ⊕ (a ⊗ x ⊗ y ⊗ c3 ⊕ (a ⊗ c4 ⊕ rest))))
        ≡ a ⊗ gate_constraint c0 c1 c2 c3 c4 x y o ⊕ rest
  five_products a c0 c1 c2 c3 c4 x y o rest = join a _ _ rest _ _ (factor a x c0) (
      join a _ _ rest _ _ (factor a y c1) (
        join a _ _ rest _ _ (factor a o c2)
          (join a _ _ rest _ _ (ap (λ t. t ⊗ c3) (r.mul_assoc a x y) ∙ factor a (x ⊗ y) c3) refl)))

  -- With two powers of alpha, the scalars of the generic gate are made from the first six cells of a
  -- row, and with the ten coefficients of the row they sum up to its two constraints, each times its
  -- power of alpha and the value of the selector.
  pub gnrc_scalars-constraints :
      (alpha1 alpha2 generic_zeta : F) (alphas rest : List F) (l1 r1 o1 l2 r2 o2 : F)
      (c0 c1 c2 c3 c4 c5 c6 c7 c8 c9 : F) (more : List F)
      → (scalars : List F) × (gnrc_scalars
            (alpha1 ∷ alpha2 ∷ alphas)
            (l1 ∷ r1 ∷ o1 ∷ l2 ∷ r2 ∷ o2 ∷ rest)
            generic_zeta
          ≡ ok scalars)
        × (scaled_sum scalars (c0 ∷ c1 ∷ c2 ∷ c3 ∷ c4 ∷ c5 ∷ c6 ∷ c7 ∷ c8 ∷ c9 ∷ more)
            ≡ alpha1 ⊗ generic_zeta ⊗ gate_constraint c0 c1 c2 c3 c4 l1 r1 o1
              ⊕ alpha2 ⊗ generic_zeta ⊗ gate_constraint c5 c6 c7 c8 c9 l2 r2 o2)
  unfolding gnrc_scalars gate_scalars next_alpha scaled_sum
  gnrc_scalars-constraints alpha1 alpha2 generic_zeta alphas rest l1 r1 o1 l2 r2 o2 c0 c1 c2 c3 c4
        c5 c6 c7 c8 c9 more =
      (
        _,
        refl,
        five_products (alpha1 ⊗ generic_zeta) c0 c1 c2 c3 c4 l1 r1 o1 _
            ∙ ap (λ t. alpha1 ⊗ generic_zeta ⊗ gate_constraint c0 c1 c2 c3 c4 l1 r1 o1 ⊕ t)
                (five_products (alpha2 ⊗ generic_zeta) c5 c6 c7 c8 c9 l2 r2 o2 f.zero
                  ∙ add-zero r _),
      )
