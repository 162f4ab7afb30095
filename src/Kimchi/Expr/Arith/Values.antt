-- ===== src/Kimchi/Expr/Arith/Values.antt =====
-- kimchi/src/circuits/expr.rs: what the arithmetic of expressions means, in any evaluation.
use proof_systems.Prelude.{◌≡◌, refl, ap, sym, ◌∙◌, true, false, Bool-cases, inl, inr}
use proof_systems.Field.{Field, ◌⊕◌, ◌⊖◌, ◌⊗◌, IsRing}
use proof_systems.Field.Facts.{add-zero, mul-one, mul-zero, sub-zero, neg_one-mul}
use proof_systems.Kimchi.Expr.{Op2, Expr}
use proof_systems.Kimchi.Expr.Columns.{Attempt, ok, ◌>>=◌}
use proof_systems.Kimchi.Expr.Evaluate.{Point, value, evaluate, apply}
use proof_systems.Kimchi.Expr.Scalar.{is_zero-value, is_one-value, value-neg}
use proof_systems.Kimchi.Expr.Arith.{Coefficient, scalars, elements, evaluate_elements}
use proof_systems.Kimchi.Expr.Arith

-- What the arithmetic asks of an evaluation.
pub record IsEvaluation {C F : Type 0} ⦃f : Field F⦄ (k : Coefficient C) (ev : Expr C → Attempt F)
    : Type 0 where
  pub zero_ok : ev (Expr.constant k.zero) ≡ ok f.zero
  pub one_ok : ev (Expr.constant k.one) ≡ ok f.one
  pub is_zero_ok : (c : C) → k.is_zero c ≡ true → ev (Expr.constant c) ≡ ok f.zero
  pub is_one_ok : (c : C) → k.is_one c ≡ true → ev (Expr.constant c) ≡ ok f.one
  pub neg_ok :
      (c : C) (v : F) → ev (Expr.constant c) ≡ ok v → ev (Expr.constant (k.neg c)) ≡ ok (f.neg v)
  pub bin_op_ok :
      (op : Op2) (x y : Expr C)
      → ev (Expr.bin_op op x y) ≡ (do v ← ev x; u ← ev y; ok (apply op v u))

module _ {C F : Type 0} ⦃f : Field F⦄ (r : IsRing f) {k : Coefficient C} {ev : Expr C → Attempt F}
    (s : IsEvaluation k ev) where
  is_zero_meaning : (x : Expr C) (v : F) → Arith.is_zero k x ≡ true → ev x ≡ ok v → v ≡ f.zero
  unfolding Arith.is_zero
  is_zero_meaning (Expr.constant c) v h e = let z = s.is_zero_ok c h in cc
  is_zero_meaning _ v h e = cc

  is_one_meaning : (x : Expr C) (v : F) → Arith.is_one k x ≡ true → ev x ≡ ok v → v ≡ f.one
  unfolding Arith.is_one
  is_one_meaning (Expr.constant c) v h e = let z = s.is_one_ok c h in cc
  is_one_meaning _ v h e = cc

  pub ev-neg : (x : Expr C) (v : F) → ev x ≡ ok v → ev (Arith.neg k x) ≡ ok (f.neg v)
  unfolding Arith.neg apply
  ev-neg (Expr.constant c) v h = s.neg_ok c v h
  ev-neg x v h =
      s.bin_op_ok Op2.mul _ _ ∙ rw (s.neg_ok k.one f.one s.one_ok, h) (ap ok (neg_one-mul r v))

  module _ (x y : Expr C) (v u : F) (left : ev x ≡ ok v) (right : ev y ≡ ok u) where
    ev-bin_op : (op : Op2) → ev (Expr.bin_op op x y) ≡ ok (apply op v u)
    ev-bin_op op = s.bin_op_ok op x y ∙ rw (left, right) refl

    pub ev-add : ev (Arith.add k x y) ≡ ok (v ⊕ u)
    unfolding Arith.add apply
    ev-add = elim (Bool-cases (Arith.is_zero k x)) [
      | inl z ↦
          let e = is_zero_meaning x v z left in
          rw z (right ∙ ap ok (sym (ap (λ t. t ⊕ u) e ∙ r.zero-add u)))
      | inr nz ↦ elim (Bool-cases (Arith.is_zero k y)) [
        | inl z ↦
            let e = is_zero_meaning y u z right in
            rw (nz, z) (left ∙ ap ok (sym (ap (λ t. v ⊕ t) e ∙ add-zero r v)))
        | inr nz' ↦ rw (nz, nz') (ev-bin_op Op2.add)
      ]
    ]

    pub ev-add_assign : ev (Arith.add_assign k x y) ≡ ok (v ⊕ u)
    unfolding Arith.add_assign Arith.add
    ev-add_assign = ev-add

    pub ev-sub : ev (Arith.sub k x y) ≡ ok (v ⊖ u)
    unfolding Arith.sub apply
    ev-sub = elim (Bool-cases (Arith.is_zero k y)) [
      | inl z ↦
          let e = is_zero_meaning y u z right in
          rw z (left ∙ ap ok (sym (ap (λ t. v ⊖ t) e ∙ sub-zero r v)))
      | inr nz ↦ rw nz (ev-bin_op Op2.sub)
    ]

    ev-mul_one :
        Arith.is_zero k x ≡ false → Arith.is_zero k y ≡ false → ev (Arith.mul k x y) ≡ ok (v ⊗ u)
    unfolding Arith.mul apply
    ev-mul_one nz nz' = elim (Bool-cases (Arith.is_one k x)) [
      | inl z ↦
          let e = is_one_meaning x v z left in
          rw (nz, nz', z) (right ∙ ap ok (sym (ap (λ t. t ⊗ u) e ∙ r.one-mul u)))
      | inr other ↦ elim (Bool-cases (Arith.is_one k y)) [
        | inl z ↦
            let e = is_one_meaning y u z right in
            rw (nz, nz', other, z) (left ∙ ap ok (sym (ap (λ t. v ⊗ t) e ∙ mul-one r v)))
        | inr other' ↦ rw (nz, nz', other, other') (ev-bin_op Op2.mul)
      ]
    ]

    pub ev-mul : ev (Arith.mul k x y) ≡ ok (v ⊗ u)
    unfolding Arith.mul
    ev-mul = elim (Bool-cases (Arith.is_zero k x)) [
      | inl z ↦
          let e = is_zero_meaning x v z left in
          rw z (s.zero_ok ∙ ap ok (sym (ap (λ t. t ⊗ u) e ∙ r.zero-mul u)))
      | inr nz ↦ elim (Bool-cases (Arith.is_zero k y)) [
        | inl z ↦
            let e = is_zero_meaning y u z right in
            rw (nz, z) (s.zero_ok ∙ ap ok (sym (ap (λ t. v ⊗ t) e ∙ mul-zero r v)))
        | inr nz' ↦ ev-mul_one nz nz'
      ]
    ]

module _ {F : Type 0} ⦃f : Field F⦄ (r : IsRing f) (p : Point F) where
  pub evaluate-IsEvaluation : IsEvaluation (scalars f) (evaluate p)
  unfolding evaluate value
  evaluate-IsEvaluation = record {
    zero_ok = refl;
    one_ok = refl;
    is_zero_ok = λ c h. is_zero-value r p.constants c h;
    is_one_ok = λ c h. is_one-value r p.constants c h;
    neg_ok = λ c v h. value-neg r p.constants c v h;
    bin_op_ok = λ op x y. refl;
  }

  pub evaluate_elements-IsEvaluation : IsEvaluation (elements f) (evaluate_elements p)
  unfolding evaluate_elements
  evaluate_elements-IsEvaluation = record {
    zero_ok = refl;
    one_ok = refl;
    is_zero_ok = λ c h. ap ok ((r.beq_iff c f.zero).0 h);
    is_one_ok = λ c h. ap ok ((r.beq_iff c f.one).0 h);
    neg_ok = λ c v h. (let e : c ≡ v = cc in ap (λ t. ok (f.neg t)) e);
    bin_op_ok = λ op x y. refl;
  }
