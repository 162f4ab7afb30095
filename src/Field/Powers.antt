-- ===== src/Field/Powers.antt =====
-- Powers of elements, by the laws of a ring.
use proof_systems.Prelude.{ℕ, zero, suc, ◌+◌, ◌≡◌, sym, ap, ◌∙◌, arith}
use proof_systems.Field.{Field, ◌⊗◌, IsRing}
use proof_systems.Field.Facts.{mul-one}

module _ {F : Type 0} ⦃f : Field F⦄ (r : IsRing f) where
  pub mul_interchange : (a b c d : F) → (a ⊗ b) ⊗ (c ⊗ d) ≡ (a ⊗ c) ⊗ (b ⊗ d)
  mul_interchange a b c d =
      r.mul_assoc a b (c ⊗ d)
      ∙ ap (λ x. a ⊗ x)
          (sym (r.mul_assoc b c d) ∙ ap (λ x. x ⊗ d) (r.mul_comm b c) ∙ r.mul_assoc c b d)
      ∙ sym (r.mul_assoc a c (b ⊗ d))

  pub pow-add : (a : F) (m n : ℕ) → f.pow a (m + n) ≡ f.pow a m ⊗ f.pow a n
  pow-add a m zero =
      ap (f.pow a) (let e : m + 0 ≡ m = omega arith in e)
      ∙ sym (mul-one r _)
      ∙ ap (λ t. f.pow a m ⊗ t) (sym (r.pow-zero a))
  pow-add a m (suc n) =
      ap (f.pow a) (let e : m + suc n ≡ suc (m + n) = omega arith in e)
      ∙ r.pow-suc a (m + n)
      ∙ ap (λ t. t ⊗ a) (pow-add a m n)
      ∙ r.mul_assoc _ _ a
      ∙ ap (λ t. f.pow a m ⊗ t) (sym (r.pow-suc a n))

  pub pow-mul : (a b : F) (n : ℕ) → f.pow (a ⊗ b) n ≡ f.pow a n ⊗ f.pow b n
  pow-mul a b zero = rw (r.pow-zero, r.pow-zero, r.pow-zero) (sym (r.one-mul f.one))
  pow-mul a b (suc n) =
      r.pow-suc (a ⊗ b) n
      ∙ ap (λ t. t ⊗ (a ⊗ b)) (pow-mul a b n)
      ∙ mul_interchange (f.pow a n) (f.pow b n) a b
      ∙ sym (
          ap (λ t. t ⊗ f.pow b (suc n)) (r.pow-suc a n)
          ∙ ap (λ t. (f.pow a n ⊗ a) ⊗ t) (r.pow-suc b n))

  pub pow-square : (a : F) (n : ℕ) → f.pow (a ⊗ a) n ≡ f.pow a (n + n)
  pow-square a n = pow-mul a a n ∙ sym (pow-add a n n)

  pub pow-one_base : (n : ℕ) → f.pow f.one n ≡ f.one
  pow-one_base zero = r.pow-zero f.one
  pow-one_base (suc n) = r.pow-suc f.one n ∙ mul-one r _ ∙ pow-one_base n

  pub pow-one : (a : F) → f.pow a 1 ≡ a
  pow-one a = r.pow-suc a 0 ∙ ap (λ t. t ⊗ a) (r.pow-zero a) ∙ r.one-mul a
