-- ===== src/Signer/Keys.antt =====
-- signer/src: the keys of seckey.rs, pubkey.rs and keypair.rs, and the signature of signature.rs.
-- The curve of `ark_ec` is a parameter, an interface on the type of its points.
pub mod Addresses
use proof_systems.Prelude.{
  ℕ, ◌≡◌, Bool, true, false, Option, none, some, List, ◌%◌, ◌==◌, if◌then◌else◌,
}
use proof_systems.Field.{Field, ◌⊕◌, ◌⊗◌}

-- What the code takes from the curve: affine and projective points are one type. `x` and `y` are
-- the affine coordinates, `set_y` assigns one.
pub record Curve (F S P : Type 0) : Type 0 where
  pub generator : P
  pub mul : P → S → P
  pub add : P → P → P
  pub neg : P → P
  pub is_zero : P → Bool
  pub x : P → F
  pub y : P → F
  pub set_y : P → F → P
  pub is_on_curve : P → Bool
  pub get_point_from_x : F → Bool → Option P

-- The laws of a group that scalars act on, and that a negative has the same `x`
-- and, where it is not the point at infinity, the negated `y`.
pub record IsCurve {F S P : Type 0} (f : Field F) (g : Field S) (cv : Curve F S P) : Type 0 where
  pub mul-add :
      (a b : S)
      → cv.mul cv.generator (g.add a b) ≡ cv.add (cv.mul cv.generator a) (cv.mul cv.generator b)
  pub mul-mul : (a b : S) → cv.mul (cv.mul cv.generator a) b ≡ cv.mul cv.generator (g.mul b a)
  pub mul-neg : (a : S) → cv.mul cv.generator (g.neg a) ≡ cv.neg (cv.mul cv.generator a)
  pub neg-add : (p q : P) → cv.add (cv.neg q) (cv.add p q) ≡ p
  pub is_zero-neg : (p : P) → cv.is_zero (cv.neg p) ≡ cv.is_zero p
  pub x-neg : (p : P) → cv.x (cv.neg p) ≡ cv.x p
  pub y-neg : (p : P) → cv.is_zero p ≡ false → cv.y (cv.neg p) ≡ f.neg (cv.y p)

-- `y.into_repr().is_even()`
unfoldable pub is_even : {F : Type 0} ⦃f : Field F⦄ → F → Bool
is_even ⦃f⦄ a = f.into_repr a % 2 == 0

pub record SecKey (S : Type 0) : Type 0 where
  pub scalar : S

pub record PubKey (P : Type 0) : Type 0 where
  pub point : P

pub record Keypair (S P : Type 0) : Type 0 where
  pub secret : SecKey S
  pub public : PubKey P

pub record Signature (F S : Type 0) : Type 0 where
  pub rx : F
  pub s : S

pub data KeypairError : Type 0 where
  secret_key_hex secret_key_bytes non_curve_point : KeypairError

pub data KeypairResult (A : Type 0) : Type 0 where
  ok : A → KeypairResult A
  err : KeypairError → KeypairResult A

module _ {F S P : Type 0} ⦃f : Field F⦄ ⦃g : Field S⦄ (cv : Curve F S P) where
  unfoldable pub from_parts_unsafe : S → P → Keypair S P
  from_parts_unsafe secret public = record {
    secret = record { scalar = secret };
    public = record { point = public };
  }

  -- The part of `from_hex` after the decoding of the hexadecimal digits, whose bytes are reversed.
  unfoldable pub from_bytes : Option S → KeypairResult (Keypair S P)
  from_bytes none = err secret_key_bytes
  from_bytes (some secret) =
      let public = cv.mul cv.generator secret in
      if cv.is_on_curve public then ok (from_parts_unsafe secret public) else err non_curve_point
