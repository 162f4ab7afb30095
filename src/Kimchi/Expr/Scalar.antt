-- ===== src/Kimchi/Expr/Scalar.antt =====
-- kimchi/src/circuits/expr.rs: the arithmetic of constant expressions, which simplifies as it builds.
use proof_systems.Prelude.{
  ℕ, zero, suc, ◌≡◌, refl, ap, sym, ◌∙◌, Bool, true, false, if◌then◌else◌, Bool-cases, inl, inr,
}
use proof_systems.Field.{Field, ◌⊕◌, ◌⊖◌, ◌⊗◌, IsRing}
use proof_systems.Field.Facts.{add-zero, mul-one, sub-zero, neg_one-mul}
use proof_systems.Kimchi.Expr.{ConstantExpr}
use proof_systems.Kimchi.Expr.Columns.{Attempt, ok, ◌>>=◌}
use proof_systems.Kimchi.Expr.Evaluate.{Constants, value}

module _ {F : Type 0} ⦃f : Field F⦄ where
  unfoldable pub is_zero : ConstantExpr F → Bool
  is_zero (ConstantExpr.literal x) = f.beq x f.zero
  is_zero _ = false

  unfoldable pub is_one : ConstantExpr F → Bool
  is_one (ConstantExpr.literal x) = f.beq x f.one
  is_one _ = false

  unfoldable pub pow : ConstantExpr F → ℕ → ConstantExpr F
  pow x zero = ConstantExpr.literal f.one
  pow (ConstantExpr.literal x) (suc p) = ConstantExpr.literal (f.pow x (suc p))
  pow x (suc p) = ConstantExpr.pow x (suc p)

  unfoldable pub neg : ConstantExpr F → ConstantExpr F
  neg (ConstantExpr.literal x) = ConstantExpr.literal (f.neg x)
  neg e = ConstantExpr.mul (ConstantExpr.literal (f.neg f.one)) e

  -- The last matches of `add`, `sub` and `mul`
  unfoldable pub add_terms : ConstantExpr F → ConstantExpr F → ConstantExpr F
  add_terms (ConstantExpr.literal x) (ConstantExpr.literal y) = ConstantExpr.literal (x ⊕ y)
  add_terms x y = ConstantExpr.add x y

  unfoldable pub sub_terms : ConstantExpr F → ConstantExpr F → ConstantExpr F
  sub_terms (ConstantExpr.literal x) (ConstantExpr.literal y) = ConstantExpr.literal (x ⊖ y)
  sub_terms x y = ConstantExpr.sub x y

  unfoldable pub mul_terms : ConstantExpr F → ConstantExpr F → ConstantExpr F
  mul_terms (ConstantExpr.literal x) (ConstantExpr.literal y) = ConstantExpr.literal (x ⊗ y)
  mul_terms x y = ConstantExpr.mul x y

  unfoldable pub add : ConstantExpr F → ConstantExpr F → ConstantExpr F
  add x y = if is_zero x then y else if is_zero y then x else add_terms x y

  unfoldable pub sub : ConstantExpr F → ConstantExpr F → ConstantExpr F
  sub x y = if is_zero y then x else sub_terms x y

  unfoldable pub mul : ConstantExpr F → ConstantExpr F → ConstantExpr F
  mul x y = if is_one x then y else if is_one y then x else mul_terms x y

module _ {F : Type 0} ⦃f : Field F⦄ (r : IsRing f) (c : Constants F) where
  pub is_zero-value : (x : ConstantExpr F) → is_zero x ≡ true → value c x ≡ ok f.zero
  unfolding is_zero value
  is_zero-value (ConstantExpr.literal x) h = ap ok ((r.beq_iff x f.zero).0 h)
  is_zero-value _ h = cc

  pub is_one-value : (x : ConstantExpr F) → is_one x ≡ true → value c x ≡ ok f.one
  unfolding is_one value
  is_one-value (ConstantExpr.literal x) h = ap ok ((r.beq_iff x f.one).0 h)
  is_one-value _ h = cc

  value-add_terms :
      (x y : ConstantExpr F)
      → value c (add_terms x y) ≡ (do v ← value c x; u ← value c y; ok (v ⊕ u))
  unfolding add_terms value
  value-add_terms (ConstantExpr.literal x) (ConstantExpr.literal y) = refl
  value-add_terms (ConstantExpr.literal x) y = refl
  value-add_terms x y = refl

  value-sub_terms :
      (x y : ConstantExpr F)
      → value c (sub_terms x y) ≡ (do v ← value c x; u ← value c y; ok (v ⊖ u))
  unfolding sub_terms value
  value-sub_terms (ConstantExpr.literal x) (ConstantExpr.literal y) = refl
  value-sub_terms (ConstantExpr.literal x) y = refl
  value-sub_terms x y = refl

  value-mul_terms :
      (x y : ConstantExpr F)
      → value c (mul_terms x y) ≡ (do v ← value c x; u ← value c y; ok (v ⊗ u))
  unfolding mul_terms value
  value-mul_terms (ConstantExpr.literal x) (ConstantExpr.literal y) = refl
  value-mul_terms (ConstantExpr.literal x) y = refl
  value-mul_terms x y = refl

  module _ (x y : ConstantExpr F) (v u : F) (left : value c x ≡ ok v)
      (right : value c y ≡ ok u) where
    pub value-add : value c (add x y) ≡ ok (v ⊕ u)
    unfolding add
    value-add = elim (Bool-cases (is_zero x)) [
      | inl z ↦
          let e : v ≡ f.zero = (let a = is_zero-value x z in cc) in
          rw z (right ∙ ap ok (sym (ap (λ t. t ⊕ u) e ∙ r.zero-add u)))
      | inr nz ↦ elim (Bool-cases (is_zero y)) [
        | inl z ↦
            let e : u ≡ f.zero = (let a = is_zero-value y z in cc) in
            rw (nz, z) (left ∙ ap ok (sym (ap (λ t. v ⊕ t) e ∙ add-zero r v)))
        | inr nz' ↦ rw (nz, nz') (value-add_terms x y ∙ rw (left, right) refl)
      ]
    ]

    pub value-sub : value c (sub x y) ≡ ok (v ⊖ u)
    unfolding sub
    value-sub = elim (Bool-cases (is_zero y)) [
      | inl z ↦
          let e : u ≡ f.zero = (let a = is_zero-value y z in cc) in
          rw z (left ∙ ap ok (sym (ap (λ t. v ⊖ t) e ∙ sub-zero r v)))
      | inr nz ↦ rw nz (value-sub_terms x y ∙ rw (left, right) refl)
    ]

    pub value-mul : value c (mul x y) ≡ ok (v ⊗ u)
    unfolding mul
    value-mul = elim (Bool-cases (is_one x)) [
      | inl z ↦
          let e : v ≡ f.one = (let a = is_one-value x z in cc) in
          rw z (right ∙ ap ok (sym (ap (λ t. t ⊗ u) e ∙ r.one-mul u)))
      | inr nz ↦ elim (Bool-cases (is_one y)) [
        | inl z ↦
            let e : u ≡ f.one = (let a = is_one-value y z in cc) in
            rw (nz, z) (left ∙ ap ok (sym (ap (λ t. v ⊗ t) e ∙ mul-one r v)))
        | inr nz' ↦ rw (nz, nz') (value-mul_terms x y ∙ rw (left, right) refl)
      ]
    ]

  pub value-neg : (x : ConstantExpr F) (v : F) → value c x ≡ ok v → value c (neg x) ≡ ok (f.neg v)
  unfolding neg value
  value-neg (ConstantExpr.literal x) v h = cc
  value-neg x v h =
      ap (λ (m : Attempt F). m >>= λ u. ok (f.neg f.one ⊗ u)) h ∙ ap ok (neg_one-mul r v)

  pub value-pow :
      (x : ConstantExpr F) (n : ℕ) (v : F) → value c x ≡ ok v → value c (pow x n) ≡ ok (f.pow v n)
  unfolding pow value
  value-pow x zero v h = ap ok (sym (r.pow-zero v))
  value-pow (ConstantExpr.literal x) (suc n) v h = cc
  value-pow x (suc n) v h = ap (λ (m : Attempt F). m >>= λ u. ok (f.pow u (suc n))) h
