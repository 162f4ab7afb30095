-- ===== src/Kimchi/Expr/Arith/Constraints.antt =====
-- kimchi/src/circuits/expr.rs: the value of a combination of constraints, and of the constraints on
-- bits and pairs of bits.
use proof_systems.Prelude.{
  ℕ, length, arith, ◌≡◌, refl, ap, sym, ◌∙◌, ◌⊎◌, inl, inr, ◌↔◌, List, [], ◌∷◌,
}
use proof_systems.Field.{Field, ◌⊕◌, ◌⊖◌, ◌⊗◌, IsRing}
use proof_systems.Field.Facts.{sub-eq-zero_iff, mul-sub_one, mul-zero, add-zero}
use proof_systems.Kimchi.Expr.{ConstantExpr, Expr}
use proof_systems.Kimchi.Expr.Columns.{Attempt, ok, ok-injective, ◌>>=◌}
use proof_systems.Kimchi.Expr.Evaluate.{Point, value, evaluate}
use proof_systems.Kimchi.Expr.Scalar
use proof_systems.Kimchi.Expr.Scalar.{value-pow}
use proof_systems.Kimchi.Expr.Arith.{from_u64, combine_from, combine_constraints, boolean, crumb}
use proof_systems.Kimchi.Expr.Arith.Values.{ev-add, ev-sub, ev-mul, evaluate-IsEvaluation}

module _ {F : Type 0} ⦃f : Field F⦄ where
  -- The values of constraints, in order.
  abbrev pub Values : Point F → List (Expr (ConstantExpr F)) → List F → Type 0
  Values p [] [] = Unit
  Values p (c ∷ cs) (v ∷ vs) = (evaluate p c ≡ ok v) × Values p cs vs
  Values p _ _ = ⊥

  -- The sum of values, each times a power of `a`.
  unfoldable pub weighted : F → List ℕ → List F → F
  weighted a (i ∷ alphas) (v ∷ vs) = f.pow a i ⊗ v ⊕ weighted a alphas vs
  weighted a _ _ = f.zero

module _ {F : Type 0} ⦃f : Field F⦄ (r : IsRing f) (p : Point F) where
  alpha_value : value p.constants ConstantExpr.alpha ≡ ok p.constants.alpha
  unfolding value
  alpha_value = refl

  combine_from-weighted :
      (alphas : List ℕ) (cs : List (Expr (ConstantExpr F))) (vs : List F)
      (acc : Expr (ConstantExpr F)) (w : F)
      → length alphas ≡ length cs
      → Values p cs vs
      → evaluate p acc ≡ ok w
      → (e : Expr (ConstantExpr F)) × (combine_from acc alphas cs ≡ ok e)
        × (evaluate p e ≡ ok (w ⊕ weighted p.constants.alpha alphas vs))
  unfolding combine_from weighted
  combine_from-weighted [] [] [] acc w n h e = (acc, refl, e ∙ ap ok (sym (add-zero r w)))
  combine_from-weighted [] [] (v ∷ vs) acc w n h e = absurd h
  combine_from-weighted [] (c ∷ cs) vs acc w n h e = absurd (omega (arith, n))
  combine_from-weighted (i ∷ alphas) [] vs acc w n h e = absurd (omega (arith, n))
  combine_from-weighted (i ∷ alphas) (c ∷ cs) [] acc w n h e = absurd h
  combine_from-weighted (i ∷ alphas) (c ∷ cs) (v ∷ vs) acc w n h e =
      let power : evaluate p (Expr.constant (Scalar.pow ConstantExpr.alpha i))
          ≡ ok (f.pow p.constants.alpha i) =
        unfold evaluate in
        value-pow r p.constants ConstantExpr.alpha i p.constants.alpha alpha_value in
      let term = ev-mul r (evaluate-IsEvaluation r p) _ c _ v power h.0 in
      let start = ev-add r (evaluate-IsEvaluation r p) acc _ w _ e term in
      let (e', made, has) = combine_from-weighted alphas cs vs _ _ (omega (arith, n)) h.1 start in
      (e', made, has ∙ ap ok (r.add_assoc w _ _))

  -- Where each constraint has a value at a point and there is one exponent for each, their
  -- combination is made, and its value is the sum of their values, each times its power of alpha.
  pub combine_constraints-weighted :
      (alphas : List ℕ) (cs : List (Expr (ConstantExpr F))) (vs : List F)
      → length alphas ≡ length cs
      → Values p cs vs
      → (e : Expr (ConstantExpr F)) × (combine_constraints alphas cs ≡ ok e)
        × (evaluate p e ≡ ok (weighted p.constants.alpha alphas vs))
  unfolding combine_constraints
  combine_constraints-weighted alphas cs vs n h =
      let (e, made, has) =
        combine_from-weighted alphas cs vs _ f.zero n h ((evaluate-IsEvaluation r p).zero_ok) in
      (e, made, has ∙ ap ok (r.zero-add _))

  module _ (x : Expr (ConstantExpr F)) (v : F) (has : evaluate p x ≡ ok v) where
    evaluate-boolean : evaluate p (boolean x) ≡ ok (v ⊗ v ⊖ v)
    unfolding boolean evaluate
    evaluate-boolean =
        ev-sub r (evaluate-IsEvaluation r p) (Expr.square x) x (v ⊗ v) v
          (ap (λ (m : Attempt F). m >>= λ u. ok (u ⊗ u)) has) has

    evaluate-crumb :
        evaluate p (crumb x) ≡ ok (v ⊗ (v ⊖ f.one) ⊗ (v ⊖ f.from_ℕ 2) ⊗ (v ⊖ f.from_ℕ 3))
    unfolding crumb from_u64 evaluate value
    evaluate-crumb =
        let s = evaluate-IsEvaluation r p in
        let less = λ (y : Expr (ConstantExpr F)) (u : F) (at : evaluate p y ≡ ok u).
          ev-sub r s x y v u has at in
        ev-mul r s _ _ _ _
          (ev-mul r s _ _ _ _ (ev-mul r s _ _ _ _ has (less _ _ s.one_ok)) (less _ _ refl))
          (less _ _ refl)

    module _ (domain : (a b : F) → a ⊗ b ≡ f.zero → (a ≡ f.zero) ⊎ (b ≡ f.zero)) where
      -- In a field without divisors of zero, the constraint of a bit vanishes on zero and one only.
      pub boolean_iff : (evaluate p (boolean x) ≡ ok f.zero) ↔ ((v ≡ f.zero) ⊎ (v ≡ f.one))
      boolean_iff = (
        λ h.
            elim (domain (v ⊖ f.one) v
              (mul-sub_one r v ∙ ok-injective (sym evaluate-boolean ∙ h))) [
                | inl e ↦ inr ((sub-eq-zero_iff r v f.one).0 e)
                | inr e ↦ inl e
              ],
        λ c. evaluate-boolean ∙ ap ok (sym (mul-sub_one r v) ∙ vanishes c),
      )
        where
          vanishes : (v ≡ f.zero) ⊎ (v ≡ f.one) → (v ⊖ f.one) ⊗ v ≡ f.zero
          vanishes (inl e) = ap (λ t. (v ⊖ f.one) ⊗ t) e ∙ mul-zero r (v ⊖ f.one)
          vanishes (inr e) = ap (λ t. t ⊗ v) ((sub-eq-zero_iff r v f.one).1 e) ∙ r.zero-mul v

      -- In a field without divisors of zero, the constraint of a pair of bits vanishes on the numbers
      -- below four only.
      pub crumb_iff :
          (evaluate p (crumb x) ≡ ok f.zero)
          ↔ ((v ≡ f.zero) ⊎ (v ≡ f.one) ⊎ (v ≡ f.from_ℕ 2) ⊎ (v ≡ f.from_ℕ 3))
      crumb_iff = (
        λ h. apart (ok-injective (sym evaluate-crumb ∙ h)),
        λ c. evaluate-crumb ∙ ap ok (vanishes c),
      )
        where
          Cases : Type 0
          Cases = (v ≡ f.zero) ⊎ (v ≡ f.one) ⊎ (v ≡ f.from_ℕ 2) ⊎ (v ≡ f.from_ℕ 3)

          product : F
          product = v ⊗ (v ⊖ f.one) ⊗ (v ⊖ f.from_ℕ 2) ⊗ (v ⊖ f.from_ℕ 3)

          equal : (b : F) → v ⊖ b ≡ f.zero → v ≡ b
          equal b = (sub-eq-zero_iff r v b).0

          apart : product ≡ f.zero → Cases
          apart h = elim (domain _ _ h) [
            | inr e3 ↦ inr (inr (inr (equal _ e3)))
            | inl h2 ↦ elim (domain _ _ h2) [
              | inr e2 ↦ inr (inr (inl (equal _ e2)))
              | inl h1 ↦ elim (domain _ _ h1) [ inl e0 ↦ inl e0 | inr e1 ↦ inr (inl (equal _ e1)) ]
            ]
          ]

          less : (b : F) → v ≡ b → v ⊖ b ≡ f.zero
          less b = (sub-eq-zero_iff r v b).1

          vanishes : Cases → product ≡ f.zero
          vanishes (inl e) =
              rw (e, r.zero-mul (f.zero ⊖ f.one), r.zero-mul (f.zero ⊖ f.from_ℕ 2)) (r.zero-mul _)
          vanishes (inr (inl e)) =
              rw (less _ e, mul-zero r v, r.zero-mul (v ⊖ f.from_ℕ 2)) (r.zero-mul _)
          vanishes (inr (inr (inl e))) = rw (less _ e, mul-zero r (v ⊗ (v ⊖ f.one))) (r.zero-mul _)
          vanishes (inr (inr (inr e))) = rw (less _ e) (mul-zero r _)
