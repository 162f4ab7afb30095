-- ===== src/Signer/Keys/Addresses/Accepted.antt =====
-- signer/src/pubkey.rs: what the guards of `from_address` let through.
use proof_systems.Prelude.{
  ℕ, ◌≡◌, refl, sym, ap, ◌∙◌, Bool, true, false, Option, none, some, List, [], ◌∷◌, length, take,
  drop, get_or, ◌==◌, ==_iff, ◌&&◌,
}
use proof_systems.Field.{Field}
use proof_systems.Signer.Keys.{Curve, PubKey}
use proof_systems.Signer.Keys.Addresses.{
  AddressOps, PubKeyResult, PubKeyError, ok, err, version, check, ok_or, ◌>>=◌, ◌>>◌, same_bytes,
  from_address, from_decoded, with_parity, address_length, address_base58, address_raw_byte_length,
  address_checksum, address_version, x_coordinate_bytes, x_coordinate, non_curve_point,
}

module _ {B C : Type 0} where
  -- A step that let the code go on, taken apart for a proof of `C`.
  passed :
      (b : Bool) (e : PubKeyError) (next : PubKeyResult B) (y : B)
      → check b e >> next ≡ ok y
      → (b ≡ true → next ≡ ok y → C)
      → C
  passed true e next y h k = k refl h
  passed false e next y h k = cc

  found :
      {A : Type 0} (o : Option A) (e : PubKeyError) (next : A → PubKeyResult B) (y : B)
      → ok_or o e >>= next ≡ ok y
      → ((a : A) → o ≡ some a → next a ≡ ok y → C)
      → C
  found (some a) e next y h k = k a refl h
  found none e next y h k = cc

point_of : {P : Type 0} → PubKeyResult (PubKey P) → P → P
point_of (ok public) p = public.point
point_of (err e) p = p

&&-true : (a b : Bool) → (a && b) ≡ true → (a ≡ true) × (b ≡ true)
&&-true true b h = (refl, h)
&&-true false b h = cc

same_bytes-eq : (xs ys : List ℕ) → same_bytes xs ys ≡ true → xs ≡ ys
same_bytes-eq [] [] h = refl
same_bytes-eq [] (y ∷ ys) h = cc
same_bytes-eq (x ∷ xs) [] h = cc
same_bytes-eq (x ∷ xs) (y ∷ ys) h =
    let (head, tail) = &&-true (x == y) (same_bytes xs ys) h in
    rw ((==_iff x y).0 head, same_bytes-eq xs ys tail) refl

module _ {F S P : Type 0} ⦃f : Field F⦄ (o : AddressOps) (cv : Curve F S P) where
  -- The decoded bytes that give a key.
  abbrev pub IsDecoded : List ℕ → PubKey P → Type 0
  IsDecoded bytes self =
      (length bytes ≡ 40)
      × (take 3 (take 36 bytes) ≡ version)
      × (drop 36 bytes ≡ take 4 (o.sha256 (o.sha256 (take 36 bytes))))
      × (x : F) × (f.deserialize (take 32 (drop 3 (take 36 bytes))) ≡ some x)
      × (q : P) × (cv.get_point_from_x x (get_or (take 36 bytes) 35 0 == 1) ≡ some q)
      × (self.point ≡ with_parity cv q (get_or (take 36 bytes) 35 0 == 1))
      × (cv.is_on_curve self.point ≡ true)

  from_decoded-ok :
      (bytes : List ℕ) (self : PubKey P) → from_decoded o cv bytes ≡ ok self → IsDecoded bytes self
  unfolding from_decoded point_of with_parity
  from_decoded-ok bytes self h = passed _ address_raw_byte_length _ self h λ len h1.
      let forty : length bytes ≡ 40 = (==_iff (length bytes) 40).0 len in
      let h1' = rw forty at h1 in
      passed _ address_checksum _ self h1' λ sum h2. passed _ address_version _ self h2 λ tag h3.
        found _ x_coordinate_bytes _ self h3 λ x field h4.
          found _ x_coordinate _ self h4 λ q point h5.
            let signed = with_parity cv q (get_or (take 36 bytes) 35 0 == 1) in
            passed (cv.is_on_curve signed) non_curve_point (ok (record { point = signed })) self h5
              λ on h6.
                let same : self.point ≡ signed = ap (λ r. point_of r self.point) (sym h6) in
                (
                  forty,
                  same_bytes-eq _ _ tag,
                  same_bytes-eq _ _ sum,
                  x,
                  field,
                  q,
                  point,
                  same,
                  ap cv.is_on_curve same ∙ on,
                )

  -- `from_address` gives a key only where the address has 55 characters and decodes to 40 bytes: the
  -- version, an `x` and a parity byte, and the first four bytes of the double SHA-256 of these. The
  -- key is the point with the `x` and the parity, and is on the curve.
  pub from_address-ok :
      (address : List ℕ) (self : PubKey P)
      → from_address o cv address ≡ ok self
      → (length address ≡ 55)
        × (bytes : List ℕ) × (o.decode address ≡ some bytes)
        × IsDecoded bytes self
  unfolding from_address
  from_address-ok address self h = passed _ address_length _ self h λ len h1.
      found _ address_base58 _ self h1 λ bytes decoded h2.
        ((==_iff (length address) 55).0 len, bytes, decoded, from_decoded-ok bytes self h2)
