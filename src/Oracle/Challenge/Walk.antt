-- ===== src/Oracle/Challenge/Walk.antt =====
-- oracle/src/sponge.rs: what `to_field_with_length` computes from the bits of the challenge.
use native.Mathlib.Nat.{div-div-eq-div-mul}
use proof_systems.Prelude.{
  ℕ, zero, suc, ◌+◌, ◌*◌, ◌/◌, ◌%◌, ◌^◌, ◌==◌, ◌≤◌, ◌<◌, ◌≡◌, refl, sym, ap, ◌∙◌, Bool, some, List,
  [], ◌∷◌, get_elem?, arith, if◌then◌else◌, ◌⊎◌, inl, inr, two_pow-add, bit-mod_pow,
}
use proof_systems.Outcome.{ok}
use proof_systems.Field.{Field, ◌⊕◌, ◌⊗◌, IsRing}
use proof_systems.Field.Facts.{add-zero}
use proof_systems.Oracle.Challenge.{
  limbs, repr_limbs, get_bit, ScalarChallenge, double, challenge_turn, challenge_loop,
  to_field_with_length,
}

abbrev pub bit : ℕ → ℕ → Bool
bit v i = v / 2 ^ i % 2 == 1

get_elem?-limbs : (n v i : ℕ) → i < n → get_elem? (limbs n v) i ≡ some (v / 2 ^ (64 * i) % 2 ^ 64)
unfolding limbs
get_elem?-limbs zero v i h = absurd (omega arith)
get_elem?-limbs (suc n) v zero h = ap (λ t. some (t % 2 ^ 64)) (omega arith)
get_elem?-limbs (suc n) v (suc i) h =
    get_elem?-limbs n (v / 2 ^ 64) i (omega arith)
    ∙ ap (λ t. some (t % 2 ^ 64))
        (div-div-eq-div-mul v (2 ^ 64) (2 ^ (64 * i))
          ∙ ap (λ t. v / t) (sym (two_pow-add 64 (64 * i)) ∙ ap (λ t. 2 ^ t) (omega arith)))

-- `get_bit` reads a bit of the integer.
pub get_bit-limbs : (n v i : ℕ) → i < 64 * n → get_bit (limbs n v) i ≡ ok (v / 2 ^ i % 2)
unfolding get_bit
get_bit-limbs n v i h = rw (get_elem?-limbs n v (i / 64) (omega arith)) (
    ap ok (
      bit-mod_pow (v / 2 ^ (64 * (i / 64))) (i % 64) 64 (omega arith)
      ∙ ap (λ t. t % 2)
          (div-div-eq-div-mul v (2 ^ (64 * (i / 64))) (2 ^ (i % 64))
            ∙ ap (λ t. v / t)
                (sym (two_pow-add (64 * (i / 64)) (i % 64)) ∙ ap (λ t. 2 ^ t) (omega arith)))))

-- Pairs of bits, the highest pair and in it the higher bit first.
unfoldable pub crumbs : ℕ → ℕ → List (Bool × Bool)
crumbs v zero = []
crumbs v (suc i) = (bit v (2 * i + 1), bit v (2 * i)) ∷ crumbs v i

bit_cases : (x : ℕ) → x < 2 → (x ≡ 0) ⊎ (x ≡ 1)
bit_cases zero h = inl refl
bit_cases (suc zero) h = inr refl
bit_cases (suc (suc x)) h = absurd (omega arith)

module _ {F : Type 0} ⦃f : Field F⦄ where
  -- The terms that two bits add: the second bit is the sign, the first chooses which sum it goes to.
  unfoldable pub sign : Bool → F
  sign b0 = if b0 then f.one else f.neg f.one

  unfoldable pub to_a : Bool → Bool → F
  to_a b1 b0 = if b1 then sign b0 else f.zero

  unfoldable pub to_b : Bool → Bool → F
  to_b b1 b0 = if b1 then f.zero else sign b0

  unfoldable pub accumulate : List (Bool × Bool) → F × F → F × F
  accumulate [] ab = ab
  accumulate (c ∷ cs) (a, b) = accumulate cs (double a ⊕ to_a c.0 c.1, double b ⊕ to_b c.0 c.1)

  sign_lem : (x : ℕ) → x < 2 → (if x == 0 then f.neg f.one else f.one) ≡ sign (x == 1)
  unfolding sign
  sign_lem x h = elim (bit_cases x h) [ inl e ↦ rw e refl | inr e ↦ rw e refl ]

  module _ (r : IsRing f) where
    choice :
        (a b : F) (x1 x0 : ℕ)
        → x1 < 2
        → x0 < 2
        → ◌≡◌ {A = F × F}
            (let s = if x0 == 0 then f.neg f.one else f.one in
              if x1 == 0 then (double a, double b ⊕ s) else (double a ⊕ s, double b))
            (double a ⊕ to_a (x1 == 1) (x0 == 1), double b ⊕ to_b (x1 == 1) (x0 == 1))
    unfolding to_a to_b
    choice a b x1 x0 h1 h0 = elim (bit_cases x1 h1) [
      | inl e ↦
          rw (e, sign_lem x0 h0)
            (ap (λ t. (t, double b ⊕ sign (x0 == 1))) (sym (add-zero r (double a))))
      | inr e ↦
          rw (e, sign_lem x0 h0)
            (ap (λ t. (double a ⊕ sign (x0 == 1), t)) (sym (add-zero r (double b))))
    ]

    challenge_turn_lem :
        (v i : ℕ) (ab : F × F)
        → i < 128
        → challenge_turn (limbs repr_limbs v) i ab
          ≡ ok (
            double ab.0 ⊕ to_a (bit v (2 * i + 1)) (bit v (2 * i)),
            double ab.1 ⊕ to_b (bit v (2 * i + 1)) (bit v (2 * i)),
          )
    unfolding challenge_turn
    challenge_turn_lem v i (a, b) h =
        rw (get_bit-limbs 4 v (2 * i) (omega arith), get_bit-limbs 4 v (2 * i + 1) (omega arith))
          (ap ok (
            choice a b (v / 2 ^ (2 * i + 1) % 2) (v / 2 ^ (2 * i) % 2) (omega arith) (omega arith)))

    pub challenge_loop_lem :
        (v n : ℕ) (ab : F × F)
        → n ≤ 128
        → challenge_loop (limbs repr_limbs v) n ab ≡ ok (accumulate (crumbs v n) ab)
    unfolding challenge_loop accumulate crumbs
    challenge_loop_lem v zero ab h = refl
    challenge_loop_lem v (suc n) ab h =
        rw (challenge_turn_lem v n ab (omega arith)) (challenge_loop_lem v n _ (omega arith))

    -- The scalar of a challenge of at most 256 bits, from its pairs of bits.
    pub to_field_with_length_lem :
        (self : ScalarChallenge F) (length_in_bits : ℕ) (endo_coeff : F)
        → length_in_bits ≤ 256
        → to_field_with_length self length_in_bits endo_coeff
          ≡ ok (
              let ab =
                accumulate
                  (crumbs (f.into_repr self.inner) (length_in_bits / 2))
                  (f.from_ℕ 2, f.from_ℕ 2) in
              ab.0 ⊗ endo_coeff ⊕ ab.1)
    unfolding to_field_with_length
    to_field_with_length_lem self length_in_bits endo_coeff h =
        rw
          (challenge_loop_lem (f.into_repr self.inner) (length_in_bits / 2) (f.from_ℕ 2, f.from_ℕ 2)
            (omega arith))
          refl
