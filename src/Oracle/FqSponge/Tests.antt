-- ===== src/Oracle/FqSponge/Tests.antt =====
-- Runs of the model of oracle/src/sponge.rs with a sponge of 55 rounds, in the base field of Pallas.
use proof_systems.Prelude.{◌+◌, ◌<◌, ◌^◌, ◌≡◌, ltb, true, false, List, [], ◌∷◌, ◌++◌, arith}
use proof_systems.Outcome.{ok, ◌>>=◌}
use proof_systems.Field.Pallas.{
  Fp, pallas, element, pallas-IsRing, pallas-IsCanonical, pallas-IsRepr, pallas-modulus,
}
use proof_systems.Oracle.Sponge.{absorb}
use proof_systems.Oracle.Constants.{kimchi}
use proof_systems.Hasher.Sample.{fresh, fresh-IsValid}
use proof_systems.Oracle.FqSponge.{
  DefaultFqSponge, GroupAffine, squeeze_limbs, challenge, absorb_fr,
}
use proof_systems.Oracle.FqSponge.Limbs.{IsFqSponge, challenge_lt}
use proof_systems.Oracle.FqSponge.Order.{squeeze_limbs-add}
use proof_systems.Oracle.FqSponge.Absorb.{encode_scalar, encode_scalars, absorb_fr-encode}

-- A sponge that keeps one limb.
kept : DefaultFqSponge Fp
kept = record { sponge = fresh; last_squeezed = 9 ∷ [] }

kept-IsFqSponge : IsFqSponge kimchi kept
unfolding kept
kept-IsFqSponge = record { sponge_valid = fresh-IsValid; kept_limbs = (omega arith, tt) }

challenge_lt_example :
    (x : Fp) × (s' : DefaultFqSponge Fp) × (challenge kimchi kept ≡ ok (x, s'))
    × (pallas-IsCanonical.value x < 2 ^ 128)
    × IsFqSponge kimchi s'
challenge_lt_example =
    challenge_lt kimchi pallas-IsRepr kept kept-IsFqSponge (let m = pallas-modulus in omega arith)

squeeze_limbs-add_example : squeeze_limbs kimchi (1 + 3) kept ≡ (
    squeeze_limbs kimchi 1 kept >>= λ r. squeeze_limbs kimchi 3 r.1 >>= λ t. ok (r.0 ++ t.0, t.1))
squeeze_limbs-add_example = squeeze_limbs-add kimchi 1 3 kept

points : List (GroupAffine Fp)
points =
    record { x = element 3; y = element 4; infinity = false }
    ∷ record { x = element 1; y = element 1; infinity = true }
    ∷ []

absorb_fr-encode_example :
    ((xs : List Fp) (self : DefaultFqSponge Fp)
      → absorb_fr kimchi pallas-IsCanonical.modulus pallas-IsCanonical.modulus xs self ≡ (
          absorb kimchi
            (encode_scalars (ltb pallas-IsCanonical.modulus pallas-IsCanonical.modulus) xs)
            self.sponge
          >>= λ s. ok (record { sponge = s; last_squeezed = [] })))
    × ((x y : Fp)
        → encode_scalar {F = Fp} (ltb pallas-IsCanonical.modulus pallas-IsCanonical.modulus) x
          ≡ encode_scalar (ltb pallas-IsCanonical.modulus pallas-IsCanonical.modulus) y
        → x ≡ y)
absorb_fr-encode_example =
    absorb_fr-encode kimchi pallas-IsRepr pallas-IsRepr pallas-IsRing
      (let m = pallas-modulus in omega arith) (let m = pallas-modulus in omega arith)
      (let m = pallas-modulus in omega arith)
