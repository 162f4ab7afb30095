-- ===== src/Signer/Keys/Addresses.antt =====
-- signer/src/pubkey.rs: Mina addresses, Base58 strings of the version, the compressed point and a
-- checksum. SHA-256 and Base58 are parameters.
pub mod Accepted
pub mod RoundTrip
use proof_systems.Prelude.{
  ℕ, ◌+◌, ◌-◌, Bool, true, false, not, Option, none, some, List, [], ◌∷◌, ◌++◌, ◌&&◌, ◌==◌, length,
  take, drop, get_or, if◌then◌else◌,
}
use proof_systems.Field.{Field}
use proof_systems.Signer.Keys.{Curve, PubKey, is_even}

pub data PubKeyError : Type 0 where
  address_length address_base58 address_raw_byte_length address_checksum : PubKeyError
  address_version x_coordinate_bytes x_coordinate non_curve_point : PubKeyError

pub data PubKeyResult (A : Type 0) : Type 0 where
  ok : A → PubKeyResult A
  err : PubKeyError → PubKeyResult A

infixl 5 ◌>>=◌ ◌>>◌
abbrev pub ◌>>=◌ : {A B : Type 0} → PubKeyResult A → (A → PubKeyResult B) → PubKeyResult B
ok x >>= k = k x
err e >>= k = err e

abbrev pub ◌>>◌ : {B : Type 0} → PubKeyResult (Unit {0}) → PubKeyResult B → PubKeyResult B
first >> second = first >>= λ _. second

-- `o.ok_or(e)?`
abbrev pub ok_or : {A : Type 0} → Option A → PubKeyError → PubKeyResult A
ok_or (some x) e = ok x
ok_or none e = err e

-- `if !b { return Err(e) }`
abbrev pub check : Bool → PubKeyError → PubKeyResult (Unit {0})
check true e = ok tt
check false e = err e

abbrev pub mina_address_len : ℕ
mina_address_len = 55

abbrev pub mina_address_raw_len : ℕ
mina_address_raw_len = 40

-- `==` on bytes
abbrev pub same_bytes : List ℕ → List ℕ → Bool
same_bytes [] [] = true
same_bytes [] (y ∷ ys) = false
same_bytes (x ∷ xs) [] = false
same_bytes (x ∷ xs) (y ∷ ys) = x == y && same_bytes xs ys

abbrev pub same_bool : Bool → Bool → Bool
same_bool true b = b
same_bool false b = not b

-- `Sha256::digest`, and Base58 on the bytes of a string.
pub record AddressOps : Type 0 where
  pub sha256 : List ℕ → List ℕ
  pub encode : List ℕ → List ℕ
  pub decode : List ℕ → Option (List ℕ)

pub record CompressedPubKey (F : Type 0) : Type 0 where
  pub x : F
  pub is_odd : Bool

abbrev pub version : List ℕ
version = 0xcb ∷ 0x01 ∷ 0x01 ∷ []

module _ {F S P : Type 0} ⦃f : Field F⦄ (cv : Curve F S P) where
  -- The signs of `get_point_from_x` follow the order of the field, those of an address the parity.
  unfoldable pub with_parity : P → Bool → P
  with_parity pt y_parity =
      if same_bool (is_even (cv.y pt)) y_parity then cv.set_y pt (f.neg (cv.y pt)) else pt

module _ {F S P : Type 0} ⦃f : Field F⦄ (o : AddressOps) (cv : Curve F S P) where
  -- `into_address` of a coordinate and a parity
  unfoldable pub into_address : F → Bool → List ℕ
  into_address x is_odd =
      let raw = version ++ (f.serialize x ++ (if is_odd then 1 else 0) ∷ []) in
      o.encode (raw ++ take 4 (o.sha256 (o.sha256 raw)))

  -- `into_compressed`
  unfoldable pub into_compressed : PubKey P → CompressedPubKey F
  into_compressed self = record { x = cv.x self.point; is_odd = not (is_even (cv.y self.point)) }

  -- The part of `from_address` after the decoding.
  unfoldable pub from_decoded : List ℕ → PubKeyResult (PubKey P)
  from_decoded bytes = do
    check (length bytes == mina_address_raw_len) address_raw_byte_length
    let raw = take (length bytes - 4) bytes
    let checksum = drop (length bytes - 4) bytes
    check (same_bytes checksum (take 4 (o.sha256 (o.sha256 raw)))) address_checksum
    let x_bytes = take (length bytes - 5 - 3) (drop 3 raw)
    let y_parity = get_or raw (length bytes - 5) 0 == 1
    check (same_bytes (take 3 raw) version) address_version
    x ← ok_or (f.deserialize x_bytes) x_coordinate_bytes
    pt ← ok_or (cv.get_point_from_x x y_parity) x_coordinate
    let signed = with_parity cv pt y_parity
    check (cv.is_on_curve signed) non_curve_point
    ok (record { point = signed })

  unfoldable pub from_address : List ℕ → PubKeyResult (PubKey P)
  from_address address = do
    check (length address == mina_address_len) address_length
    bytes ← ok_or (o.decode address) address_base58
    from_decoded bytes

  -- `PubKey::into_address`
  unfoldable pub address_of_key : PubKey P → List ℕ
  address_of_key self = into_address (cv.x self.point) (not (is_even (cv.y self.point)))

  -- `CompressedPubKey::into_address` and `from_address`
  unfoldable pub address_of_compressed : CompressedPubKey F → List ℕ
  address_of_compressed self = into_address self.x self.is_odd

  unfoldable pub compressed_of_address : List ℕ → PubKeyResult (CompressedPubKey F)
  compressed_of_address address = from_address address >>= λ public. ok (into_compressed public)
