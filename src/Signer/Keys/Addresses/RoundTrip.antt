-- ===== src/Signer/Keys/Addresses/RoundTrip.antt =====
-- signer/src/pubkey.rs: the address of a key, read back.
use proof_systems.Prelude.{
  ℕ, zero, suc, ◌/◌, ◌+◌, ◌-◌, ◌%◌, ◌<◌, ◌≡◌, refl, ap, ◌∙◌, Bool, true, false, not, some, List, [],
  ◌∷◌, ◌++◌, length, take, drop, get_or, arith, ◌==◌, ◌⊎◌, inl, inr, length-append, take-append,
  drop-append, length-take, get_or-append, if◌then◌else◌, Bool-cases, ==_iff,
}
use proof_systems.Field.{Field, IsCanonical, IsRepr, le_bytes}
use proof_systems.Signer.Keys.{Curve, IsCurve, PubKey, is_even}
use proof_systems.Signer.Keys.Addresses.{
  AddressOps, ok, version, same_bytes, into_address, address_of_key, from_address, from_decoded,
  with_parity,
}

-- Base58 is one to one, and writes the 40 bytes of an address, which start with the version, with
-- 55 digits; a digest of SHA-256 has 32 bytes.
pub record IsAddressOps (o : AddressOps) : Type 0 where
  pub decode-encode : (bytes : List ℕ) → o.decode (o.encode bytes) ≡ some bytes
  pub length-encode :
      (bytes : List ℕ) → length bytes ≡ 40 → take 3 bytes ≡ version → length (o.encode bytes) ≡ 55
  pub length-sha256 : (bytes : List ℕ) → length (o.sha256 bytes) ≡ 32

-- `get_point_from_x` finds one of the two points that have the `x` of a point of the curve, and no
-- point but that at infinity is its own negative.
pub record IsLift {F S P : Type 0} {f : Field F} (c : IsCanonical f) (cv : Curve F S P)
    : Type 0 where
  pub lifted :
      (p : P) (greatest : Bool)
      → cv.is_on_curve p ≡ true
      → cv.is_zero p ≡ false
      → (q : P) × (cv.get_point_from_x (cv.x p) greatest ≡ some q) × ((q ≡ p) ⊎ (q ≡ cv.neg p))
  pub set_y-neg : (p : P) → cv.is_zero p ≡ false → cv.set_y p (f.neg (cv.y p)) ≡ cv.neg p
  pub neg-neg : (p : P) → cv.neg (cv.neg p) ≡ p
  pub y_pos : (p : P) → cv.is_on_curve p ≡ true → cv.is_zero p ≡ false → 0 < c.value (cv.y p)

pub same_bytes_refl : (xs : List ℕ) → same_bytes xs xs ≡ true
same_bytes_refl [] = refl
same_bytes_refl (x ∷ xs) = rw ((==_iff x x).1 refl) (same_bytes_refl xs)

pub length-le_bytes : (n v : ℕ) → length (le_bytes n v) ≡ n
unfolding le_bytes
length-le_bytes zero v = refl
length-le_bytes (suc n) v = ap suc (length-le_bytes n (v / 256))

parity : (m n p : ℕ) → m + n ≡ p → p % 2 ≡ 1 → (m % 2 == 0) ≡ not (n % 2 == 0)
parity m n p h odd = ground arith

-- The negation of an element that is not zero has the other parity.
is_even-not :
    {F : Type 0} ⦃f : Field F⦄ {c : IsCanonical f} (r : IsRepr c) (a : F)
    → 0 < c.value a
    → is_even (f.neg a) ≡ not (is_even a)
unfolding is_even
is_even-not ⦃f⦄ {c} r a pos =
    rw (r.into_repr_lem a, r.into_repr_lem (f.neg a))
      (parity (c.value (f.neg a)) (c.value a) c.modulus (r.value-neg a pos) r.modulus_odd)

bit-one : (b : Bool) → ((if b then 1 else 0) == 1) ≡ b
bit-one true = refl
bit-one false = refl

module _ {F S P : Type 0} ⦃f : Field F⦄ ⦃g : Field S⦄ {c : IsCanonical f} (r : IsRepr c)
    (cv : Curve F S P) (law : IsCurve f g cv) (lift : IsLift {S = S} c cv) where
  keeps : (p : P) → with_parity cv p (not (is_even (cv.y p))) ≡ p
  unfolding with_parity
  keeps p = elim (Bool-cases (is_even (cv.y p))) [ inl e ↦ rw e refl | inr e ↦ rw e refl ]

  flips :
      (p : P)
      → cv.is_on_curve p ≡ true
      → cv.is_zero p ≡ false
      → with_parity cv (cv.neg p) (not (is_even (cv.y p))) ≡ p
  unfolding with_parity
  flips p on nonzero =
      let other =
        ap is_even (law.y-neg p nonzero) ∙ is_even-not r (cv.y p) (lift.y_pos p on nonzero) in
      let back = lift.set_y-neg (cv.neg p) (law.is_zero-neg p ∙ nonzero) ∙ lift.neg-neg p in
      elim (Bool-cases (is_even (cv.y p))) [
        | inl e ↦ rw (other, e) back
        | inr e ↦ rw (other, e) back
      ]

  -- Of the two points with an `x`, the parity of `y` chooses the one it came from.
  pub parity_chooses :
      (p : P) (greatest : Bool)
      → cv.is_on_curve p ≡ true
      → cv.is_zero p ≡ false
      → (q : P) × (cv.get_point_from_x (cv.x p) greatest ≡ some q)
        × (with_parity cv q (not (is_even (cv.y p))) ≡ p)
  parity_chooses p greatest on nonzero =
      let (q, found, which) = lift.lifted p greatest on nonzero in
      elim which [
        | inl same ↦ (q, found, ap (λ t. with_parity cv t (not (is_even (cv.y p)))) same ∙ keeps p)
        | inr other ↦ (
          q,
          found,
          ap (λ t. with_parity cv t (not (is_even (cv.y p)))) other ∙ flips p on nonzero,
        )
      ]

  -- What `from_address` reads from the 40 bytes of an address.
  from_fields :
      (o : AddressOps) (x_bytes : List ℕ) (x : F) (p q : P) (b : Bool) (address : List ℕ)
      (sum : List ℕ)
      → length x_bytes ≡ 32
      → length sum ≡ 4
      → length address ≡ 55
      → o.decode address ≡ some ((version ++ (x_bytes ++ (if b then 1 else 0) ∷ [])) ++ sum)
      → take 4 (o.sha256 (o.sha256 (version ++ (x_bytes ++ (if b then 1 else 0) ∷ [])))) ≡ sum
      → f.deserialize x_bytes ≡ some x
      → cv.get_point_from_x x b ≡ some q
      → with_parity cv q b ≡ p
      → cv.is_on_curve p ≡ true
      → from_address o cv address ≡ ok (record { point = p })
  unfolding from_address from_decoded
  from_fields o x_bytes x p q b address sum xl sl al decoded summed field found signed on =
      let bit : ℕ = if b then 1 else 0 in
      let rest = x_bytes ++ bit ∷ [] in
      let raw = version ++ rest in
      let raw_length : length raw ≡ 36 = omega (arith, length-append x_bytes (bit ∷ [])) in
      let whole : length (raw ++ sum) ≡ 40 = omega (arith, length-append raw sum) in
      let cut : take (40 - 5 - 3) (drop 3 raw) ≡ x_bytes = take-append 32 x_bytes (bit ∷ []) xl in
      let parity_byte : (get_or raw (40 - 5) 0 == 1) ≡ b =
        ap (λ t. t == 1) (get_or-append x_bytes (bit ∷ []) 32 0 xl) ∙ bit-one b in
      rw
        (
          al,
          decoded,
          whole,
          take-append 36 raw sum raw_length,
          drop-append 36 raw sum raw_length,
          summed,
        )
        (rw (same_bytes_refl sum, cut, parity_byte, field, found, signed, on) refl)

  -- A point of the curve other than the point at infinity, over a field of 32 bytes, is what its
  -- address reads back as.
  pub from_address-into_address :
      (o : AddressOps)
      → IsAddressOps o
      → c.size ≡ 32
      → (self : PubKey P) → cv.is_on_curve self.point ≡ true
      → cv.is_zero self.point ≡ false
      → from_address o cv (address_of_key o cv self) ≡ ok self
  unfolding address_of_key into_address
  from_address-into_address o ops size self on nonzero =
      let p = self.point in
      let b = not (is_even (cv.y p)) in
      let x_bytes = f.serialize (cv.x p) in
      let raw = version ++ (x_bytes ++ (if b then 1 else 0) ∷ []) in
      let sum = take 4 (o.sha256 (o.sha256 raw)) in
      let x_length : length x_bytes ≡ 32 =
        ap length (c.serialize_lem (cv.x p)) ∙ length-le_bytes c.size (c.value (cv.x p)) ∙ size in
      let sum_length : length sum ≡ 4 =
        length-take 4 (o.sha256 (o.sha256 raw)) (omega (arith, ops.length-sha256 (o.sha256 raw))) in
      let whole : length (raw ++ sum) ≡ 40 =
        omega (arith, length-append raw sum, length-append x_bytes ((if b then 1 else 0) ∷ [])) in
      let (q, found, chosen) = parity_chooses p b on nonzero in
      from_fields o x_bytes (cv.x p) p q b (o.encode (raw ++ sum)) sum x_length sum_length
        (ops.length-encode (raw ++ sum) whole refl) (ops.decode-encode (raw ++ sum)) refl
        (c.deserialize-serialize (cv.x p)) found chosen on
