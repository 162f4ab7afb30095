-- ===== src/Field/Facts.antt =====
-- Ring identities that the proofs about addresses and sums share.
use proof_systems.Prelude.{◌≡◌, ◌↔◌, sym, ap, ◌∙◌, ◌≡⟨◌⟩◌, ◌∎}
use proof_systems.Field.{Field, ◌⊕◌, ◌⊖◌, ◌⊗◌, IsRing}

module _ {F : Type 0} ⦃f : Field F⦄ (r : IsRing f) where
  pub add-zero : (a : F) → a ⊕ f.zero ≡ a
  add-zero a = r.add_comm a f.zero ∙ r.zero-add a

  pub mul-one : (a : F) → a ⊗ f.one ≡ a
  mul-one a = r.mul_comm a f.one ∙ r.one-mul a

  pub mul-zero : (a : F) → a ⊗ f.zero ≡ f.zero
  mul-zero a = r.mul_comm a f.zero ∙ r.zero-mul a

  pub add-mul : (a b c : F) → (a ⊕ b) ⊗ c ≡ a ⊗ c ⊕ b ⊗ c
  add-mul a b c = rw (r.mul_comm (a ⊕ b) c, r.mul_comm a c, r.mul_comm b c) (r.mul-add c a b)

  pub add_cancel : (a b c : F) → a ⊕ c ≡ b ⊕ c → a ≡ b
  add_cancel a b c e = sym (r.add-sub a c) ∙ ap (λ x. x ⊖ c) e ∙ r.add-sub b c

  pub add_interchange : (a b c d : F) → (a ⊕ b) ⊕ (c ⊕ d) ≡ (a ⊕ c) ⊕ (b ⊕ d)
  add_interchange a b c d =
      (a ⊕ b) ⊕ (c ⊕ d)
      ≡⟨ r.add_assoc a b (c ⊕ d) ⟩ a ⊕ (b ⊕ (c ⊕ d))
      ≡⟨ ap (λ x. a ⊕ x) (sym (r.add_assoc b c d)) ⟩ a ⊕ ((b ⊕ c) ⊕ d)
      ≡⟨ ap (λ x. a ⊕ (x ⊕ d)) (r.add_comm b c) ⟩ a ⊕ ((c ⊕ b) ⊕ d)
      ≡⟨ ap (λ x. a ⊕ x) (r.add_assoc c b d) ⟩ a ⊕ (c ⊕ (b ⊕ d))
      ≡⟨ sym (r.add_assoc a c (b ⊕ d)) ⟩ (a ⊕ c) ⊕ (b ⊕ d) ∎

  pub add-sub_assoc : (a b c : F) → a ⊕ (b ⊖ c) ≡ (a ⊕ b) ⊖ c
  add-sub_assoc a b c =
      add_cancel _ _ c
        (r.add_assoc a (b ⊖ c) c ∙ ap (λ x. a ⊕ x) (r.sub-add b c) ∙ sym (r.sub-add (a ⊕ b) c))

  pub from-zero : f.from_ℕ 0 ≡ f.zero
  from-zero = sym (add_cancel f.zero (f.from_ℕ 0) (f.from_ℕ 0) (r.zero-add _ ∙ r.from-add 0 0))

  pub sub-zero : (a : F) → a ⊖ f.zero ≡ a
  sub-zero a = ap (λ t. t ⊖ f.zero) (sym (add-zero a)) ∙ r.add-sub a f.zero

  pub neg_one-mul : (a : F) → f.neg f.one ⊗ a ≡ f.neg a
  neg_one-mul a = add_cancel _ _ a (
      f.neg f.one ⊗ a ⊕ a
      ≡⟨ ap (λ t. f.neg f.one ⊗ a ⊕ t) (sym (r.one-mul a)) ⟩ f.neg f.one ⊗ a ⊕ f.one ⊗ a
      ≡⟨ sym (add-mul (f.neg f.one) f.one a) ⟩ (f.neg f.one ⊕ f.one) ⊗ a
      ≡⟨ ap (λ t. t ⊗ a) (neg-add f.one) ⟩ f.zero ⊗ a
      ≡⟨ r.zero-mul a ⟩ f.zero
      ≡⟨ sym (neg-add a) ⟩ f.neg a ⊕ a ∎)
    where
      neg-add : (b : F) → f.neg b ⊕ b ≡ f.zero
      neg-add b = ap (λ t. t ⊕ b) (r.neg-eq-sub b) ∙ r.sub-add f.zero b

  pub sub-eq-zero_iff : (a b : F) → (a ⊖ b ≡ f.zero) ↔ (a ≡ b)
  sub-eq-zero_iff a b = (
    λ e. sym (r.sub-add a b) ∙ ap (λ t. t ⊕ b) e ∙ r.zero-add b,
    λ e. add_cancel _ _ b (r.sub-add a b ∙ e ∙ sym (r.zero-add b)),
  )

  pub mul-sub_one : (a : F) → (a ⊖ f.one) ⊗ a ≡ a ⊗ a ⊖ a
  mul-sub_one a = add_cancel _ _ a (
      ap (λ t. (a ⊖ f.one) ⊗ a ⊕ t) (sym (r.one-mul a))
      ∙ sym (add-mul (a ⊖ f.one) f.one a)
      ∙ ap (λ t. t ⊗ a) (r.sub-add a f.one)
      ∙ sym (r.sub-add (a ⊗ a) a))

  pub add-sub_swap : (a b c : F) → (a ⊖ b) ⊖ c ≡ a ⊖ (b ⊕ c)
  add-sub_swap a b c = add_cancel _ _ (b ⊕ c) (
      ap (λ t. ((a ⊖ b) ⊖ c) ⊕ t) (r.add_comm b c)
      ∙ sym (r.add_assoc _ c b)
      ∙ ap (λ t. t ⊕ b) (r.sub-add (a ⊖ b) c)
      ∙ r.sub-add a b
      ∙ sym (r.sub-add a (b ⊕ c)))

  pub mul-neg : (a b : F) → a ⊗ f.neg b ≡ f.neg (a ⊗ b)
  mul-neg a b =
      ap (λ t. a ⊗ t) (sym (neg_one-mul b))
      ∙ sym (r.mul_assoc a _ b)
      ∙ ap (λ t. t ⊗ b) (r.mul_comm a _)
      ∙ r.mul_assoc _ a b
      ∙ neg_one-mul (a ⊗ b)

  pub add-neg : (a b : F) → a ⊕ f.neg b ≡ a ⊖ b
  add-neg a b =
      ap (λ t. a ⊕ t) (r.neg-eq-sub b) ∙ add-sub_assoc a f.zero b ∙ ap (λ t. t ⊖ b) (add-zero a)
