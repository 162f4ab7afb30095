-- ===== src/Signer/Schnorr.antt =====
-- signer/src/schnorr.rs: `Schnorr`, which signs and verifies over a hasher.
pub mod Correct
use proof_systems.Prelude.{
  ℕ, ◌+◌, ◌%◌, Bool, true, false, Option, List, [], ◌∷◌, not, ◌&&◌, if◌then◌else◌,
}
use proof_systems.Outcome.{Outcome, ok, ◌>>=◌, expect}
use proof_systems.Field.{Field, ◌⊕◌, ◌⊗◌}
use proof_systems.Oracle.Constants.{SpongeConstants}
use proof_systems.Oracle.Permutation.{ArithmeticSpongeParams}
use proof_systems.Hasher.Input.{
  BitOps, RoInput, append_field, append_scalar, append_bytes, to_bytes,
}
use proof_systems.Hasher.Poseidon.{Hashable, Poseidon, hash}
use proof_systems.Hasher.Poseidon
use proof_systems.Signer.Keys.{Curve, is_even, PubKey, Keypair, Signature}

pub record Message (H F : Type 0) : Type 0 where
  pub input : H
  pub pub_key_x : F
  pub pub_key_y : F
  pub rx : F

pub record Schnorr (F D : Type 0) : Type 0 where
  pub hasher : Poseidon F
  pub domain_param : D

-- The `DomainParameter`, BLAKE2b with an output of 32 bytes, and `from_random_bytes`.
pub record NonceOps (D S : Type 0) : Type 0 where
  pub into_bytes : D → List ℕ
  pub blake : List ℕ → List ℕ
  pub from_random_bytes : List ℕ → Option S

module _ {F H D : Type 0} where
  -- `Hashable for Message`
  unfoldable pub message : Hashable F H D → Hashable F (Message H F) D
  message h = record {
    to_roinput = λ m.
        append_field (append_field (append_field (h.to_roinput m.input) m.pub_key_x) m.pub_key_y)
          m.rx;
    domain_string = h.domain_string;
  }

-- `bytes[bytes.len() - 1] &= 0b0011_1111`
unfoldable pub drop_two_bits : List ℕ → List ℕ
drop_two_bits [] = []
drop_two_bits (x ∷ []) = (x % 64) ∷ []
drop_two_bits (x ∷ y ∷ xs) = x ∷ drop_two_bits (y ∷ xs)

module _ {F S P H D : Type 0} ⦃f : Field F⦄ ⦃g : Field S⦄ (sc : SpongeConstants) (b : BitOps)
    (h : Hashable F H D) (cv : Curve F S P) (no : NonceOps D S) where
  unfoldable pub derive_nonce : Schnorr F D → Keypair S P → H → Outcome S
  derive_nonce self kp input = do
    let point = kp.public.point
    let roi = append_field (append_field (h.to_roinput input) (cv.x point)) (cv.y point)
    roi' ← append_scalar b roi kp.secret.scalar
    bytes ← to_bytes b (append_bytes roi' (no.into_bytes self.domain_param))
    expect (no.from_random_bytes (drop_two_bits (no.blake bytes)))
        "failed to create scalar from bytes"

  unfoldable pub message_hash : Schnorr F D → PubKey P → F → H → Outcome (S × Schnorr F D)
  message_hash self pub_key rx input = do
    (out, hasher) ← hash sc b (message h) self.hasher (record {
      input = input;
      pub_key_x = cv.x pub_key.point;
      pub_key_y = cv.y pub_key.point;
      rx = rx;
    })
    e ← expect (g.from_repr (f.into_repr out)) "failed to create scalar"
    ok (e, record self { hasher = hasher })

  unfoldable pub sign : Schnorr F D → Keypair S P → H → Outcome (Signature F S × Schnorr F D)
  sign self kp input = do
    k ← derive_nonce self kp input
    let r = cv.mul cv.generator k
    let k' = if is_even (cv.y r) then k else g.neg k
    (e, self') ← message_hash self kp.public (cv.x r) input
    ok (record { rx = cv.x r; s = k' ⊕ e ⊗ kp.secret.scalar }, self')

  unfoldable pub verify : Schnorr F D → Signature F S → PubKey P → H → Outcome (Bool × Schnorr F D)
  verify self sig public input = do
    (ev, self') ← message_hash self public sig.rx input
    let sv = cv.mul cv.generator sig.s
    let rv = cv.add (cv.neg (cv.mul public.point ev)) sv
    ok (if cv.is_zero rv then false else (is_even (cv.y rv) && f.beq (cv.x rv) sig.rx), self')

  unfoldable pub create : D → ArithmeticSpongeParams F → Outcome (Schnorr F D)
  create domain_param params = do
    hasher ← Poseidon.new sc b (message h) domain_param params
    ok (record { hasher = hasher; domain_param = domain_param })
