-- ===== src/Oracle/FqSponge.antt =====
-- oracle/src/sponge.rs: `DefaultFqSponge` and `DefaultFrSponge`, which hand out the challenges of a
-- proof, over the sponge of `Sponge`.
pub mod Limbs
pub mod Order
pub mod Absorb
mod Tests
use proof_systems.Prelude.{
  ℕ, zero, suc, ◌+◌, ◌-◌, ◌*◌, ◌/◌, ◌%◌, ◌^◌, ◌==◌, Bool, true, false, Option, none, some, List, [],
  ◌∷◌, ◌++◌, length, take, drop, ltb, leb, if◌then◌else◌,
}
use proof_systems.Outcome.{Outcome, ok, panic, expect, ◌>>=◌}
use proof_systems.Field.{Field}
use proof_systems.Oracle.Constants.{SpongeConstants}
use proof_systems.Oracle.Permutation.{ArithmeticSpongeParams, at}
use proof_systems.Oracle.Sponge.{ArithmeticSponge, absorb, squeeze}
use proof_systems.Oracle.Sponge
use proof_systems.Oracle.Challenge.{limbs, repr_limbs, challenge_length_in_limbs}

abbrev pub high_entropy_limbs : ℕ
high_entropy_limbs = 2

-- `DefaultFrSponge` has the same fields.
pub record DefaultFqSponge (F : Type 0) : Type 0 where
  pub sponge : ArithmeticSponge F
  pub last_squeezed : List ℕ

pub record GroupAffine (F : Type 0) : Type 0 where
  pub x : F
  pub y : F
  pub infinity : Bool

-- The fold over the limbs from the last on; a `BigInteger256` drops what is above 256 bits.
unfoldable pub pack : List ℕ → ℕ
pack [] = 0
pack (x ∷ xs) = (pack xs * 2 ^ 64 % 2 ^ 256 + x) % 2 ^ 256

-- `from_bits_le` and `to_bits_le` of a `BigInteger`
unfoldable pub from_bits_le : List Bool → ℕ
from_bits_le [] = 0
from_bits_le (b ∷ bits) = (if b then 1 else 0) + 2 * from_bits_le bits

unfoldable pub to_bits_le : ℕ → ℕ → List Bool
to_bits_le zero v = []
to_bits_le (suc n) v = (v % 2 == 1) ∷ to_bits_le n (v / 2)

module _ {F : Type 0} where
  -- `last_squeezed.split_at(num_limbs)`
  abbrev pub split_limbs : ℕ → DefaultFqSponge F → List ℕ × DefaultFqSponge F
  split_limbs num_limbs self = (
    take num_limbs self.last_squeezed,
    record self { last_squeezed = drop num_limbs self.last_squeezed },
  )

module _ {F : Type 0} ⦃f : Field F⦄ (sc : SpongeConstants) where
  unfoldable pub new : ArithmeticSpongeParams F → DefaultFqSponge F
  new params = record { sponge = Sponge.new sc params; last_squeezed = [] }

  -- The other branch of the loops: one more element is squeezed.
  unfoldable pub refill : DefaultFqSponge F → Outcome (DefaultFqSponge F)
  refill self = do
    (x, sponge) ← squeeze sc self.sponge
    ok (record {
      sponge = sponge;
      last_squeezed =
          self.last_squeezed ++ take high_entropy_limbs (limbs repr_limbs (f.into_repr x));
    })

  -- The recursion of `squeeze_limbs`, with one unit of fuel for each call of itself.
  unfoldable pub squeeze_limbs_loop :
      ℕ → ℕ → DefaultFqSponge F → Outcome (List ℕ × DefaultFqSponge F)
  squeeze_limbs_loop zero num_limbs self =
      if leb num_limbs (length self.last_squeezed)
      then ok (split_limbs num_limbs self)
      else panic "out of fuel"
  squeeze_limbs_loop (suc fuel) num_limbs self =
      if leb num_limbs (length self.last_squeezed)
      then ok (split_limbs num_limbs self)
      else (refill self >>= squeeze_limbs_loop fuel num_limbs)

  unfoldable pub squeeze_limbs : ℕ → DefaultFqSponge F → Outcome (List ℕ × DefaultFqSponge F)
  squeeze_limbs num_limbs self = squeeze_limbs_loop num_limbs num_limbs self

  unfoldable pub squeeze_field : DefaultFqSponge F → Outcome (F × DefaultFqSponge F)
  squeeze_field self = do
    (x, sponge) ← squeeze sc self.sponge
    ok (x, record { sponge = sponge; last_squeezed = [] })

  -- `DefaultFrSponge::squeeze`, with fuel as in `squeeze_limbs_loop`
  unfoldable pub squeeze_fr : ℕ → ℕ → DefaultFqSponge F → Outcome (F × DefaultFqSponge F)
  squeeze_fr zero num_limbs self =
      if leb num_limbs (length self.last_squeezed)
      then (do
        x ←
            expect (f.from_repr (pack (take num_limbs self.last_squeezed)))
              "internal representation was not a valid field element"
        ok (x, record self { last_squeezed = drop num_limbs self.last_squeezed }))
      else panic "out of fuel"
  squeeze_fr (suc fuel) num_limbs self =
      if leb num_limbs (length self.last_squeezed)
      then (do
        x ←
            expect (f.from_repr (pack (take num_limbs self.last_squeezed)))
              "internal representation was not a valid field element"
        ok (x, record self { last_squeezed = drop num_limbs self.last_squeezed }))
      else (refill self >>= squeeze_fr fuel num_limbs)

  -- The loop of `absorb_g`
  unfoldable pub absorb_points :
      List (GroupAffine F) → ArithmeticSponge F → Outcome (ArithmeticSponge F)
  absorb_points [] s = ok s
  absorb_points (g ∷ gs) s =
      (if g.infinity
        then absorb sc (f.zero ∷ f.zero ∷ []) s
        else (absorb sc (g.x ∷ []) s >>= absorb sc (g.y ∷ [])))
      >>= absorb_points gs

  unfoldable pub absorb_g : List (GroupAffine F) → DefaultFqSponge F → Outcome (DefaultFqSponge F)
  absorb_g g self = do
    s ← absorb_points g self.sponge
    ok (record { sponge = s; last_squeezed = [] })

  unfoldable pub challenge_fq : DefaultFqSponge F → Outcome (F × DefaultFqSponge F)
  challenge_fq self = squeeze_field self

module _ {F S : Type 0} ⦃f : Field F⦄ ⦃g : Field S⦄ (sc : SpongeConstants) where
  unfoldable pub squeeze_scalar : ℕ → DefaultFqSponge F → Outcome (S × DefaultFqSponge F)
  squeeze_scalar num_limbs self = do
    (xs, self') ← squeeze_limbs sc num_limbs self
    x ← expect (g.from_repr (pack xs)) "internal representation was not a valid field element"
    ok (x, self')

  unfoldable pub challenge : DefaultFqSponge F → Outcome (S × DefaultFqSponge F)
  challenge self = squeeze_scalar challenge_length_in_limbs self

  unfoldable pub digest : DefaultFqSponge F → Outcome S
  digest self = do
    (x, self') ← squeeze_field sc self
    ok (elim (g.from_repr (f.into_repr x)) [ none ↦ g.zero | some y ↦ y ])

  module _ (scalar_modulus base_modulus : ℕ) where
    -- The closure of `absorb_fr`
    unfoldable pub absorb_scalar : S → ArithmeticSponge F → Outcome (ArithmeticSponge F)
    absorb_scalar x s =
        let bits = to_bits_le 256 (g.into_repr x) in
        if ltb scalar_modulus base_modulus
        then (do
          y ← expect (f.from_repr (from_bits_le bits)) "padding code has a bug"
          absorb sc (y ∷ []) s)
        else (do
          b ← at bits 0
          let low_bit = if b then f.one else f.zero
          high_bits ← expect (f.from_repr (from_bits_le (drop 1 bits))) "padding code has a bug"
          s1 ← absorb sc (high_bits ∷ []) s
          absorb sc (low_bit ∷ []) s1)

    unfoldable pub absorb_scalars : List S → ArithmeticSponge F → Outcome (ArithmeticSponge F)
    absorb_scalars [] s = ok s
    absorb_scalars (x ∷ xs) s = absorb_scalar x s >>= absorb_scalars xs

    unfoldable pub absorb_fr : List S → DefaultFqSponge F → Outcome (DefaultFqSponge F)
    absorb_fr x self = do
      s ← absorb_scalars x self.sponge
      ok (record { sponge = s; last_squeezed = [] })
