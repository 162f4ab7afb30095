-- ===== src/Oracle/FqSponge/Absorb.antt =====
-- oracle/src/sponge.rs: what `absorb_g` and `absorb_fr` absorb, as one list of elements.
use native.Mathlib.Nat.{pow-suc}
use proof_systems.Prelude.{
  ℕ, zero, suc, ◌*◌, ◌/◌, ◌%◌, ◌^◌, ◌==◌, ◌≤◌, ◌<◌, ◌≡◌, refl, sym, ap, ◌∙◌, Bool, some, List, [],
  ◌∷◌, ◌++◌, drop, get_or, ltb, ltb→lt, arith, if◌then◌else◌, Bool-cases, inl, inr, ==_iff,
}
use proof_systems.Outcome.{ok, ◌>>=◌, bind_congr}
use proof_systems.Field.{Field, IsRing, IsCanonical, IsRepr}
use proof_systems.Oracle.Constants.{SpongeConstants}
use proof_systems.Field.Facts.{from-zero}
use proof_systems.Oracle.Permutation.{at}
use proof_systems.Oracle.Sponge.{ArithmeticSponge, absorb}
use proof_systems.Oracle.Sponge.Blocks.{absorb-append}
use proof_systems.Oracle.FqSponge.{
  DefaultFqSponge, GroupAffine, absorb_points, absorb_g, to_bits_le, from_bits_le, absorb_scalar,
  absorb_scalars, absorb_fr,
}

module _ {F : Type 0} ⦃f : Field F⦄ where
  -- The coordinates of points; those of the point at infinity are zero.
  unfoldable pub coordinates : List (GroupAffine F) → List F
  coordinates [] = []
  coordinates (g ∷ gs) =
      (if g.infinity then f.zero ∷ f.zero ∷ [] else g.x ∷ g.y ∷ []) ++ coordinates gs

module _ {F : Type 0} ⦃f : Field F⦄ (sc : SpongeConstants) where
  absorb_points-coordinates :
      (gs : List (GroupAffine F)) (s : ArithmeticSponge F)
      → absorb_points sc gs s ≡ absorb sc (coordinates gs) s
  unfolding absorb_points coordinates absorb
  absorb_points-coordinates [] s = refl
  absorb_points-coordinates (g ∷ gs) s =
      ap (λ m. m >>= absorb_points sc gs) point
      ∙ bind_congr (absorb sc here s) _ _ (absorb_points-coordinates gs)
      ∙ sym (absorb-append sc here (coordinates gs) s)
    where
      here : List F
      here = if g.infinity then f.zero ∷ f.zero ∷ [] else g.x ∷ g.y ∷ []

      point :
          (if g.infinity
            then absorb sc (f.zero ∷ f.zero ∷ []) s
            else (absorb sc (g.x ∷ []) s >>= absorb sc (g.y ∷ [])))
          ≡ absorb sc here s
      point = elim (Bool-cases g.infinity) [
        | inl e ↦ rw e refl
        | inr e ↦ rw e (sym (absorb-append sc (g.x ∷ []) (g.y ∷ []) s))
      ]

  -- Absorbing points is absorbing the list of their coordinates, where those of the point at infinity
  -- are zero, and drops the limbs that were kept.
  pub absorb_g-coordinates :
      (gs : List (GroupAffine F)) (self : DefaultFqSponge F)
      → absorb_g sc gs self ≡ (
          absorb sc (coordinates gs) self.sponge >>= λ s.
          ok (record { sponge = s; last_squeezed = [] }))
  unfolding absorb_g
  absorb_g-coordinates gs self =
      ap (λ m. m >>= λ s. ok (record { sponge = s; last_squeezed = [] }))
        (absorb_points-coordinates gs self.sponge)

from_bits_le-to_bits_le : (n v : ℕ) → v < 2 ^ n → from_bits_le (to_bits_le n v) ≡ v
unfolding from_bits_le to_bits_le
from_bits_le-to_bits_le zero v h = omega arith
from_bits_le-to_bits_le (suc n) v h =
    let half : v < 2 ^ n * 2 = rw (pow-suc 2 n) at h in
    let ih = from_bits_le-to_bits_le n (v / 2) (omega arith) in rw ih (ground arith)

bits_parts :
    (v : ℕ)
    → (at (to_bits_le 256 v) 0 ≡ ok (v % 2 == 1))
      × (drop 1 (to_bits_le 256 v) ≡ to_bits_le 255 (v / 2))
unfolding to_bits_le
bits_parts v = (refl, refl)

module _ {F S : Type 0} ⦃f : Field F⦄ ⦃g : Field S⦄ where
  -- The elements that stand for a scalar: the element with its integer where the field of the
  -- scalars is the smaller one, otherwise the half of the integer and its lowest bit.
  unfoldable pub encode_scalar : Bool → S → List F
  encode_scalar smaller x =
      if smaller
      then f.from_ℕ (g.into_repr x) ∷ []
      else f.from_ℕ (g.into_repr x / 2) ∷ f.from_ℕ (g.into_repr x % 2) ∷ []

  abbrev pub encode_scalars : Bool → List S → List F
  encode_scalars smaller [] = []
  encode_scalars smaller (x ∷ xs) = encode_scalar smaller x ++ encode_scalars smaller xs

module _ {F S : Type 0} ⦃f : Field F⦄ ⦃g : Field S⦄ (sc : SpongeConstants) {c : IsCanonical f}
    (q : IsRepr c) {cs : IsCanonical g} (qs : IsRepr cs) where
  from_repr-from :
      (n : ℕ) → n < c.modulus → (f.from_repr n ≡ some (f.from_ℕ n)) × (c.value (f.from_ℕ n) ≡ n)
  from_repr-from n h =
      let (a, made, value) = q.from_repr-some n h in
      let same : f.from_ℕ n ≡ a = ap f.from_ℕ (sym value) ∙ q.from-value a in
      (made ∙ ap some (sym same), ap c.value same ∙ value)

  low_bit : IsRing f → (v : ℕ) → (if v % 2 == 1 then f.one else f.zero) ≡ f.from_ℕ (v % 2)
  low_bit rf v = elim (Bool-cases (v % 2 == 1)) [
    | inl e ↦ rw (e, (==_iff (v % 2) 1).0 e) (sym rf.from-one)
    | inr e ↦ let zero : v % 2 ≡ 0 = ground arith in rw (e, zero) (sym (from-zero rf))
  ]

  absorb_scalar-encode :
      (rf : IsRing f)
      → cs.modulus ≤ 2 ^ 256
      → cs.modulus ≤ 2 * c.modulus
      → 1 < c.modulus
      → (x : S) (s : ArithmeticSponge F)
      → absorb_scalar sc cs.modulus c.modulus x s
        ≡ absorb sc (encode_scalar (ltb cs.modulus c.modulus) x) s
  unfolding absorb_scalar encode_scalar
  absorb_scalar-encode rf small half two x s =
      let v = g.into_repr x in
      let below : v < cs.modulus =
        let e = qs.into_repr_lem x in let lt = cs.value-lt x in omega arith in
      elim (Bool-cases (ltb cs.modulus c.modulus)) [
        | inl e ↦
            let less = ltb→lt _ _ e in
            rw (e, from_bits_le-to_bits_le 256 v (omega arith))
              (rw ((from_repr-from v (omega arith)).0) refl)
        | inr e ↦
            let (first, rest) = bits_parts v in
            let (high, _) = from_repr-from (v / 2) (omega arith) in
            rw (e, first, rest, from_bits_le-to_bits_le 255 (v / 2) (omega arith))
              (rw (high, low_bit rf v)
                (sym (absorb-append sc (f.from_ℕ (v / 2) ∷ []) (f.from_ℕ (v % 2) ∷ []) s)))
      ]

  value_at : ℕ → List F → ℕ
  value_at i xs = c.value (get_or xs i f.zero)

  encode_scalar_injective :
      cs.modulus ≤ 2 * c.modulus
      → 1 < c.modulus
      → (x y : S)
      → encode_scalar {F = F} (ltb cs.modulus c.modulus) x
        ≡ encode_scalar (ltb cs.modulus c.modulus) y
      → x ≡ y
  unfolding encode_scalar value_at
  encode_scalar_injective half two x y same =
      let v = g.into_repr x in
      let w = g.into_repr y in
      let below : v < cs.modulus =
        let e = qs.into_repr_lem x in let lt = cs.value-lt x in omega arith in
      let below' : w < cs.modulus =
        let e = qs.into_repr_lem y in let lt = cs.value-lt y in omega arith in
      let equal : v ≡ w = elim (Bool-cases (ltb cs.modulus c.modulus)) [
        | inl e ↦
            let less = ltb→lt _ _ e in
            let first = ap (value_at 0) (rw e at same) in
            sym ((from_repr-from v (omega arith)).1) ∙ first ∙ (from_repr-from w (omega arith)).1
        | inr e ↦
            let high = ap (value_at 0) (rw e at same) in
            let low = ap (value_at 1) (rw e at same) in
            let halves : v / 2 ≡ w / 2 =
              sym ((from_repr-from (v / 2) (omega arith)).1)
              ∙ high
              ∙ (from_repr-from (w / 2) (omega arith)).1 in
            let bits : v % 2 ≡ w % 2 =
              sym ((from_repr-from (v % 2) (omega arith)).1)
              ∙ low
              ∙ (from_repr-from (w % 2) (omega arith)).1 in
            omega arith
      ] in
      cs.value_injective x y (sym (qs.into_repr_lem x) ∙ equal ∙ qs.into_repr_lem y)

  module _ (rf : IsRing f) (small : cs.modulus ≤ 2 ^ 256) (half : cs.modulus ≤ 2 * c.modulus)
      (two : 1 < c.modulus) where
    absorb_scalars-encode :
        (xs : List S) (s : ArithmeticSponge F)
        → absorb_scalars sc cs.modulus c.modulus xs s
          ≡ absorb sc (encode_scalars (ltb cs.modulus c.modulus) xs) s
    unfolding absorb_scalars absorb
    absorb_scalars-encode [] s = refl
    absorb_scalars-encode (x ∷ xs) s =
        ap (λ m. m >>= absorb_scalars sc cs.modulus c.modulus xs)
          (absorb_scalar-encode rf small half two x s)
        ∙ bind_congr (absorb sc (encode_scalar (ltb cs.modulus c.modulus) x) s) _ _
            (absorb_scalars-encode xs)
        ∙ sym (
            absorb-append sc (encode_scalar (ltb cs.modulus c.modulus) x)
              (encode_scalars (ltb cs.modulus c.modulus) xs) s)

    -- Absorbing scalars does not meet the panics of the conversion: it is absorbing the list of the
    -- elements that stand for them, and drops the limbs that were kept. Different scalars have
    -- different elements. The modulus of the scalars is at most twice that of the elements.
    pub absorb_fr-encode :
        ((xs : List S) (self : DefaultFqSponge F)
          → absorb_fr sc cs.modulus c.modulus xs self ≡ (
              absorb sc (encode_scalars (ltb cs.modulus c.modulus) xs) self.sponge >>= λ s.
              ok (record { sponge = s; last_squeezed = [] })))
        × ((x y : S)
            → encode_scalar {F = F} (ltb cs.modulus c.modulus) x
              ≡ encode_scalar (ltb cs.modulus c.modulus) y
            → x ≡ y)
    unfolding absorb_fr
    absorb_fr-encode = (
      λ xs self.
          ap (λ m. m >>= λ s. ok (record { sponge = s; last_squeezed = [] }))
            (absorb_scalars-encode xs self.sponge),
      encode_scalar_injective half two,
    )
