-- ===== src/Oracle/Challenge.antt =====
-- oracle/src/sponge.rs: `ScalarChallenge`, the scalar that a challenge of a number of bits stands for.
pub mod Walk
use proof_systems.Prelude.{
  ℕ, zero, suc, ◌+◌, ◌*◌, ◌/◌, ◌%◌, ◌^◌, ◌==◌, List, [], ◌∷◌, if◌then◌else◌,
}
use proof_systems.Outcome.{Outcome, ok, ◌>>=◌}
use proof_systems.Field.{Field, ◌⊕◌, ◌⊗◌}
use proof_systems.Oracle.Permutation.{at}

-- `as_ref()` of a `BigInteger` of `n` limbs: the `u64` digits of its integer, the least first.
unfoldable pub limbs : ℕ → ℕ → List ℕ
limbs zero v = []
limbs (suc n) v = v % 2 ^ 64 ∷ limbs n (v / 2 ^ 64)

unfoldable pub get_bit : List ℕ → ℕ → Outcome ℕ
get_bit limbs_lsb i = do limb ← at limbs_lsb (i / 64); ok (limb / 2 ^ (i % 64) % 2)

abbrev pub challenge_length_in_limbs : ℕ
challenge_length_in_limbs = 2

-- The limbs of a `BigInteger256`.
abbrev pub repr_limbs : ℕ
repr_limbs = 4

pub record ScalarChallenge (F : Type 0) : Type 0 where
  pub inner : F

module _ {F : Type 0} ⦃f : Field F⦄ where
  -- `double_in_place`
  unfoldable pub double : F → F
  double a = a ⊕ a

  -- The body of the loop of `to_field_with_length`.
  unfoldable pub challenge_turn : List ℕ → ℕ → F × F → Outcome (F × F)
  challenge_turn r i (a, b) = do
    r_2i ← get_bit r (2 * i)
    let s = if r_2i == 0 then f.neg f.one else f.one
    r_2i' ← get_bit r (2 * i + 1)
    ok (if r_2i' == 0 then (double a, double b ⊕ s) else (double a ⊕ s, double b))

  -- The loop over `(0..n).rev()`
  unfoldable pub challenge_loop : List ℕ → ℕ → F × F → Outcome (F × F)
  challenge_loop r zero ab = ok ab
  challenge_loop r (suc i) ab = challenge_turn r i ab >>= challenge_loop r i

  unfoldable pub to_field_with_length : ScalarChallenge F → ℕ → F → Outcome F
  to_field_with_length self length_in_bits endo_coeff = do
    let r = limbs repr_limbs (f.into_repr self.inner)
    (a, b) ← challenge_loop r (length_in_bits / 2) (f.from_ℕ 2, f.from_ℕ 2)
    ok (a ⊗ endo_coeff ⊕ b)

  unfoldable pub to_field : ScalarChallenge F → F → Outcome F
  to_field self endo_coeff = to_field_with_length self (64 * challenge_length_in_limbs) endo_coeff
