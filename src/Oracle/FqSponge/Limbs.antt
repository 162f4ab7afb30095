-- ===== src/Oracle/FqSponge/Limbs.antt =====
-- oracle/src/sponge.rs: the limbs that are handed out, and the challenges made of them.
use native.Mathlib.Nat.{pow-le-pow_right}
use proof_systems.Prelude.{
  ℕ, zero, suc, ◌+◌, ◌*◌, ◌^◌, ◌≤◌, ◌<◌, ◌≡◌, refl, sym, ap, ◌∙◌, List, [], ◌∷◌, ◌++◌, length, take,
  drop, leb, ltb, ltb→lt, leb→le, le→leb, arith, Bool-cases, inl, inr, length-append, length-take,
  two_pow-add,
}
use proof_systems.Outcome.{ok, ◌>>=◌, expect, bind_assoc, bind_congr}
use proof_systems.Field.{Field, IsCanonical, IsRepr}
use proof_systems.Oracle.Constants.{SpongeConstants}
use proof_systems.Oracle.Sponge.{ArithmeticSponge, squeeze}
use proof_systems.Oracle.Sponge.Valid.{IsValid, squeeze_total}
use proof_systems.Oracle.Challenge.{limbs, repr_limbs}
use proof_systems.Oracle.FqSponge.{
  DefaultFqSponge, pack, refill, split_limbs, squeeze_limbs_loop, squeeze_limbs, squeeze_scalar,
  squeeze_fr, squeeze_field, challenge, digest, high_entropy_limbs,
}

-- `u64` values
abbrev pub AreLimbs : List ℕ → Type 0
AreLimbs [] = Unit {0}
AreLimbs (x ∷ xs) = (x < 2 ^ 64) × AreLimbs xs

AreLimbs-append : (xs ys : List ℕ) → AreLimbs xs → AreLimbs ys → AreLimbs (xs ++ ys)
AreLimbs-append [] ys h k = k
AreLimbs-append (x ∷ xs) ys (h, hs) k = (h, AreLimbs-append xs ys hs k)

AreLimbs-take : (n : ℕ) (xs : List ℕ) → AreLimbs xs → AreLimbs (take n xs)
AreLimbs-take zero xs h = tt
AreLimbs-take (suc n) [] h = tt
AreLimbs-take (suc n) (x ∷ xs) (h, hs) = (h, AreLimbs-take n xs hs)

AreLimbs-drop : (n : ℕ) (xs : List ℕ) → AreLimbs xs → AreLimbs (drop n xs)
AreLimbs-drop zero xs h = h
AreLimbs-drop (suc n) [] h = tt
AreLimbs-drop (suc n) (x ∷ xs) (h, hs) = AreLimbs-drop n xs hs

fresh_limbs :
    (v : ℕ)
    → (length (take high_entropy_limbs (limbs repr_limbs v)) ≡ 2)
      × AreLimbs (take high_entropy_limbs (limbs repr_limbs v))
unfolding limbs
fresh_limbs v = (refl, (omega arith, (omega arith, tt)))

-- A state of the Fiat-Shamir sponge that hands out challenges: its sponge is valid, and it keeps limbs.
pub record IsFqSponge {F : Type 0} (sc : SpongeConstants) (s : DefaultFqSponge F) : Type 0 where
  pub sponge_valid : IsValid sc s.sponge
  pub kept_limbs : AreLimbs s.last_squeezed

module _ {F : Type 0} ⦃f : Field F⦄ (sc : SpongeConstants) where
  refill_total :
      (s : DefaultFqSponge F)
      → IsFqSponge sc s
      → (s' : DefaultFqSponge F) × (refill sc s ≡ ok s')
        × IsFqSponge sc s'
        × (length s'.last_squeezed ≡ length s.last_squeezed + 2)
  unfolding refill
  refill_total s v =
      let (x, sp, run, valid, _) = squeeze_total sc s.sponge v.sponge_valid in
      let (two, small) = fresh_limbs (f.into_repr x) in
      (
        record {
          sponge = sp;
          last_squeezed =
              s.last_squeezed ++ take high_entropy_limbs (limbs repr_limbs (f.into_repr x));
        },
        rw run refl,
        record {
          sponge_valid = valid;
          kept_limbs = AreLimbs-append s.last_squeezed _ v.kept_limbs small;
        },
        length-append s.last_squeezed _ ∙ ap (λ t. length s.last_squeezed + t) two,
      )

  split_limbs_lem :
      (num : ℕ) (s : DefaultFqSponge F)
      → IsFqSponge sc s
      → num ≤ length s.last_squeezed
      → (length (split_limbs num s).0 ≡ num)
        × AreLimbs (split_limbs num s).0
        × IsFqSponge sc (split_limbs num s).1
  split_limbs_lem num s v h = (
    length-take num s.last_squeezed h,
    AreLimbs-take num s.last_squeezed v.kept_limbs,
    record {
      sponge_valid = v.sponge_valid;
      kept_limbs = AreLimbs-drop num s.last_squeezed v.kept_limbs;
    },
  )

  -- A unit of fuel gives two limbs; with enough of them the limbs asked for are handed out.
  squeeze_limbs_loop_total :
      (fuel num : ℕ) (s : DefaultFqSponge F)
      → IsFqSponge sc s
      → num ≤ length s.last_squeezed + 2 * fuel
      → (xs : List ℕ) × (s' : DefaultFqSponge F) × (squeeze_limbs_loop sc fuel num s ≡ ok (xs, s'))
        × (length xs ≡ num)
        × AreLimbs xs
        × IsFqSponge sc s'
  unfolding squeeze_limbs_loop
  squeeze_limbs_loop_total zero num s v h =
      let (l, small, v') = split_limbs_lem num s v (omega arith) in
      (
        (split_limbs num s).0,
        (split_limbs num s).1,
        rw (le→leb num (length s.last_squeezed) (omega arith)) refl,
        l,
        small,
        v',
      )
  squeeze_limbs_loop_total (suc fuel) num s v h =
      elim (Bool-cases (leb num (length s.last_squeezed))) [
        | inl enough ↦
            let (l, small, v') = split_limbs_lem num s v (leb→le _ _ enough) in
            ((split_limbs num s).0, (split_limbs num s).1, rw enough refl, l, small, v')
        | inr short ↦
            let (s1, run, v1, longer) = refill_total s v in
            let (xs, s', rest, l, small, v') =
              squeeze_limbs_loop_total fuel num s1 v1 (omega arith) in
            (xs, s', rw (short, run) rest, l, small, v')
      ]

  -- A Fiat-Shamir sponge with a valid sponge hands out any number of limbs, each below 2 ^ 64, and
  -- its sponge is valid afterwards.
  pub squeeze_limbs_total :
      (num : ℕ) (s : DefaultFqSponge F)
      → IsFqSponge sc s
      → (xs : List ℕ) × (s' : DefaultFqSponge F) × (squeeze_limbs sc num s ≡ ok (xs, s'))
        × (length xs ≡ num)
        × AreLimbs xs
        × IsFqSponge sc s'
  unfolding squeeze_limbs
  squeeze_limbs_total num s v = squeeze_limbs_loop_total num num s v (omega arith)

-- The number of limbs, where they fit a `BigInteger256`.
abbrev pub limbs_number : List ℕ → ℕ
limbs_number [] = 0
limbs_number (x ∷ xs) = x + 2 ^ 64 * limbs_number xs

limbs_number_lt : (xs : List ℕ) → AreLimbs xs → limbs_number xs < 2 ^ (64 * length xs)
limbs_number_lt [] h = omega arith
limbs_number_lt (x ∷ xs) (h, hs) =
    let places : 2 ^ (64 * suc (length xs)) ≡ 2 ^ 64 * 2 ^ (64 * length xs) =
      ap (λ t. 2 ^ t) (omega arith) ∙ two_pow-add 64 (64 * length xs) in
    rw places (let ih = limbs_number_lt xs hs in omega arith)

pack_lem : (xs : List ℕ) → AreLimbs xs → length xs ≤ 4 → pack xs ≡ limbs_number xs
unfolding pack
pack_lem [] h l = refl
pack_lem (x ∷ xs) (h, hs) l =
    let ih = pack_lem xs hs (omega arith) in
    let below = limbs_number_lt xs hs in
    let top : 2 ^ (64 * length xs) ≤ 2 ^ 192 =
      pow-le-pow_right {n = 2} (omega arith) {i = 64 * length xs} {j = 192} (omega arith) in
    rw ih (omega arith)

module _ {F S : Type 0} ⦃f : Field F⦄ ⦃g : Field S⦄ (sc : SpongeConstants) {c : IsCanonical g}
    (q : IsRepr c) where
  -- A challenge is drawn from a Fiat-Shamir sponge with a valid sponge, and is below 2 ^ 128, where
  -- the modulus of the scalars is not.
  pub challenge_lt :
      (s : DefaultFqSponge F)
      → IsFqSponge sc s
      → 2 ^ 128 ≤ c.modulus
      → (x : S) × (s' : DefaultFqSponge F) × (challenge sc s ≡ ok (x, s'))
        × (c.value x < 2 ^ 128)
        × IsFqSponge sc s'
  unfolding challenge squeeze_scalar
  challenge_lt s v wide =
      let (xs, s', run, l, small, v') = squeeze_limbs_total sc 2 s v in
      let packed = pack_lem xs small (omega arith) in
      let bound = limbs_number_lt xs small in
      let low : pack xs < 2 ^ 128 = (let two = rw l at bound in omega arith) in
      let (x, made, value) = q.from_repr-some (pack xs) (omega arith) in
      (x, s', rw run (rw made refl), omega arith, v')

  -- The digest of a Fiat-Shamir sponge with a valid sponge is the integer of the next element of the
  -- sponge where it is a scalar, and zero otherwise; the limbs that were kept do not matter.
  pub digest_lem :
      (s : DefaultFqSponge F)
      → IsFqSponge sc s
      → (x : F) × (sp : ArithmeticSponge F) × (y : S) × (squeeze sc s.sponge ≡ ok (x, sp))
        × (digest sc s ≡ ok y)
        × (f.into_repr x < c.modulus → c.value y ≡ f.into_repr x)
        × (c.modulus ≤ f.into_repr x → y ≡ g.zero)
  unfolding digest squeeze_field
  digest_lem s v =
      let (x, sp, run, _, _) = squeeze_total sc s.sponge v.sponge_valid in
      elim (Bool-cases (ltb (f.into_repr x) c.modulus)) [
        | inl e ↦
            let small = ltb→lt _ _ e in
            let (y, made, value) = q.from_repr-some (f.into_repr x) small in
            (x, sp, y, run, rw (run, made) refl, λ h. value, λ h. absurd (omega arith))
        | inr e ↦
            let large : c.modulus ≤ f.into_repr x = ground arith in
            (
              x,
              sp,
              g.zero,
              run,
              rw (run, q.from_repr-none (f.into_repr x) large) refl,
              λ h. absurd (omega arith),
              λ h. refl,
            )
      ]

module _ {F : Type 0} ⦃f : Field F⦄ (sc : SpongeConstants) where
  -- `DefaultFrSponge` packs the limbs that `DefaultFqSponge` hands out.
  pub squeeze_fr-squeeze_limbs_loop :
      (fuel num : ℕ) (s : DefaultFqSponge F)
      → squeeze_fr sc fuel num s ≡ (
          squeeze_limbs_loop sc fuel num s >>= λ r.
          expect (f.from_repr (pack r.0)) "internal representation was not a valid field element"
          >>= λ x. ok (x, r.1))
  unfolding squeeze_fr squeeze_limbs_loop
  squeeze_fr-squeeze_limbs_loop zero num s = elim (Bool-cases (leb num (length s.last_squeezed))) [
    | inl e ↦ rw e refl
    | inr e ↦ rw e refl
  ]
  squeeze_fr-squeeze_limbs_loop (suc fuel) num s =
      elim (Bool-cases (leb num (length s.last_squeezed))) [
        | inl e ↦ rw e refl
        | inr e ↦ rw e (
            bind_congr (refill sc s) _ _ (squeeze_fr-squeeze_limbs_loop fuel num)
            ∙ sym (bind_assoc (refill sc s) (squeeze_limbs_loop sc fuel num) _))
      ]
