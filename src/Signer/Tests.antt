-- ===== src/Signer/Tests.antt =====
-- Runs of the model of signer/src: the multiples of one in the base field of Pallas are a group,
-- with the field itself as its scalars, and 1 and -1 as the points of the curve.
use proof_systems.Prelude.{
  ℕ, zero, suc, ◌≡◌, ◌<◌, refl, sym, ap, ◌∙◌, Bool, true, false, some, List, [], ◌∷◌, ◌++◌, length,
  arith, ◌||◌, replicate, drop, inl, inr, ◌⊎◌, Bool-cases, Bool-ext,
}
use proof_systems.Outcome.{ok}
use proof_systems.Field.{◌⊕◌, ◌⊗◌, le_bytes}
use proof_systems.Field.Facts
use proof_systems.Field.Residue.{residue, residues}
use proof_systems.Field.Pallas.{
  Fp, pallas, element, pallas-IsRing, pallas-IsCanonical, pallas-IsRepr, pallas-size,
}
use proof_systems.Oracle.Constants.{kimchi}
use proof_systems.Hasher.Sample.{ops, numbers, number_fields, hasher, hasher-IsReady}
use proof_systems.Cairo.Helper.{bits_of_bytes, byte_bits}
use proof_systems.Hasher.Input.{
  new, to_bytes, field_bits, append_field, append_scalar, append_bytes, append_u32,
}
use proof_systems.Signer.Keys.{
  Curve, IsCurve, Keypair, PubKey, Signature, is_even, from_parts_unsafe,
}
use proof_systems.Signer.Keys.Addresses.{
  AddressOps, address_of_key, from_address, from_decoded, into_address, with_parity,
}
use proof_systems.Signer.Keys.Addresses
use proof_systems.Signer.Keys.Addresses.RoundTrip.{IsAddressOps, IsLift, from_address-into_address}
use proof_systems.Signer.Keys.Addresses.Accepted.{IsDecoded, from_address-ok}
use proof_systems.Signer.Schnorr.{Schnorr, NonceOps, sign, verify, derive_nonce, drop_two_bits}
use proof_systems.Signer.Schnorr.Correct.{verify-sign}

abbrev line : Curve Fp Fp Fp
line = record {
  generator = pallas.one;
  mul = pallas.mul;
  add = pallas.add;
  neg = pallas.neg;
  is_zero = λ p. pallas.beq p pallas.zero;
  x = λ p. pallas.one;
  y = λ p. p;
  set_y = λ p y. y;
  is_on_curve = λ p. pallas.beq p pallas.one || pallas.beq p (pallas.neg pallas.one);
  get_point_from_x = λ x greatest. some pallas.one;
}

-- A negative, from the laws of the ring.
add-neg : (p : Fp) → p ⊕ pallas.neg p ≡ pallas.zero
add-neg p =
    ap (pallas.add p) (pallas-IsRing.neg-eq-sub p)
    ∙ pallas-IsRing.add_comm _ _
    ∙ pallas-IsRing.sub-add _ _

neg_unique : (p q : Fp) → p ⊕ q ≡ pallas.zero → q ≡ pallas.neg p
neg_unique p q e =
    Facts.add_cancel pallas-IsRing q (pallas.neg p) p
      (pallas-IsRing.add_comm q p ∙ e ∙ sym (add-neg p) ∙ pallas-IsRing.add_comm _ _)

neg-neg : (p : Fp) → pallas.neg (pallas.neg p) ≡ p
neg-neg p = sym (neg_unique (pallas.neg p) p (pallas-IsRing.add_comm _ _ ∙ add-neg p))

neg-zero : pallas.neg pallas.zero ≡ pallas.zero
neg-zero = sym (neg_unique pallas.zero pallas.zero (pallas-IsRing.zero-add _))

is_zero-neg : (p : Fp) → pallas.beq (pallas.neg p) pallas.zero ≡ pallas.beq p pallas.zero
is_zero-neg p =
    Bool-ext _ _
      (λ h.
        (pallas-IsRing.beq_iff _ _).1
          (sym (neg-neg p) ∙ ap pallas.neg ((pallas-IsRing.beq_iff _ _).0 h) ∙ neg-zero))
      (λ h.
        (pallas-IsRing.beq_iff _ _).1 (ap pallas.neg ((pallas-IsRing.beq_iff _ _).0 h) ∙ neg-zero))

line-IsCurve : IsCurve pallas pallas line
line-IsCurve = record {
  mul-add = λ a b. pallas-IsRing.mul-add _ _ _;
  mul-mul = λ a b.
      ap (λ t. t ⊗ b) (pallas-IsRing.one-mul a)
      ∙ pallas-IsRing.mul_comm a b
      ∙ sym (pallas-IsRing.one-mul _);
  mul-neg = λ a. pallas-IsRing.one-mul _ ∙ ap pallas.neg (sym (pallas-IsRing.one-mul a));
  neg-add = λ p q.
      pallas-IsRing.add_comm _ _
      ∙ pallas-IsRing.add_assoc p q _
      ∙ ap (pallas.add p) (add-neg q)
      ∙ Facts.add-zero pallas-IsRing p;
  is_zero-neg = is_zero-neg;
  x-neg = λ p. refl;
  y-neg = λ p h. refl;
}

from-zero : pallas.zero ≡ pallas.from_ℕ 0
unfolding residues residue
from-zero = refl

value-zero : pallas-IsCanonical.value pallas.zero ≡ 0
value-zero = ap pallas-IsCanonical.value from-zero ∙ pallas-IsCanonical.value-from 0 (omega arith)

zero-cases : (n : ℕ) → (n ≡ 0) ⊎ (0 < n)
zero-cases zero = inl refl
zero-cases (suc n) = inr (omega arith)

value_pos : (p : Fp) → pallas.beq p pallas.zero ≡ false → 0 < pallas-IsCanonical.value p
value_pos p h = elim (zero-cases (pallas-IsCanonical.value p)) [
  | inl e ↦
      let same =
        (pallas-IsRing.beq_iff p pallas.zero).1
          (pallas-IsCanonical.value_injective p pallas.zero (e ∙ sym value-zero)) in
      absurd (cc)
  | inr pos ↦ pos
]

lift_point :
    (p : Fp)
    → line.is_on_curve p ≡ true
    → (q : Fp) × (some pallas.one ≡ some q) × ((q ≡ p) ⊎ (q ≡ pallas.neg p))
lift_point p on = elim (Bool-cases (pallas.beq p pallas.one)) [
  | inl e ↦ (pallas.one, refl, inl (sym ((pallas-IsRing.beq_iff _ _).0 e)))
  | inr e ↦
      let other : p ≡ pallas.neg pallas.one = (pallas-IsRing.beq_iff _ _).0 (rw e at on) in
      (pallas.one, refl, inr (sym (neg-neg pallas.one) ∙ ap pallas.neg (sym other)))
]

line-IsLift : IsLift {S = Fp} pallas-IsCanonical line
line-IsLift = record {
  lifted = λ p greatest on nonzero. lift_point p on;
  set_y-neg = λ p h. refl;
  neg-neg = neg-neg;
  y_pos = λ p on nonzero. value_pos p nonzero;
}

nonce_ops : NonceOps Bool Fp
nonce_ops = record {
  into_bytes = λ d. 1 ∷ [];
  blake = λ bytes. bytes;
  from_random_bytes = λ bytes. some (element 7);
}

context : Schnorr Fp Bool
context = record { hasher = hasher; domain_param = true }

keys : Keypair Fp Fp
keys = from_parts_unsafe line (element 5) (element 5)

nonce : derive_nonce kimchi ops numbers line nonce_ops context keys 7 ≡ ok (element 7)
unfolding derive_nonce to_bytes field_bits append_field append_scalar append_bytes append_u32 new
    bits_of_bytes byte_bits le_bytes residues residue nonce_ops context keys from_parts_unsafe
    drop_two_bits
nonce = refl

seven : line.is_zero (line.mul line.generator (element 7)) ≡ false
unfolding residues residue
seven = refl

five : line.mul line.generator (element 5) ≡ element 5
five = pallas-IsRing.one-mul (element 5)

verify-sign_example :
    (sig : Signature Fp Fp) × (self' : Schnorr Fp Bool) × (sign kimchi ops numbers line nonce_ops
        context keys 7
      ≡ ok (sig, self'))
    × (verify kimchi ops numbers line nonce_ops self' sig keys.public 7 ≡ ok (true, self'))
unfolding keys context from_parts_unsafe
verify-sign_example =
    verify-sign kimchi ops numbers line nonce_ops pallas-IsRepr pallas-IsRepr (omega arith)
      pallas-IsRing pallas-IsRing line-IsCurve context keys 7 (element 7 ∷ []) (element 7)
      hasher-IsReady number_fields (sym five) nonce seven

-- Fifteen digits of zero, then the bytes.
address_ops : AddressOps
address_ops = record {
  sha256 = λ bytes. replicate 32 0;
  encode = λ bytes. replicate 15 0 ++ bytes;
  decode = λ address. some (drop 15 address);
}

address_ops-IsAddressOps : IsAddressOps address_ops
unfolding address_ops
address_ops-IsAddressOps = record {
  decode-encode = λ bytes. refl;
  length-encode = λ bytes h tag. omega arith;
  length-sha256 = λ bytes. refl;
}

minus_one : PubKey Fp
minus_one = record { point = pallas.neg pallas.one }

on_curve : line.is_on_curve minus_one.point ≡ true
unfolding minus_one residues residue
on_curve = refl

nonzero : line.is_zero minus_one.point ≡ false
unfolding minus_one residues residue
nonzero = refl

from_address-into_address_example :
    from_address address_ops line (address_of_key address_ops line minus_one)
    ≡ Addresses.ok minus_one
from_address-into_address_example =
    from_address-into_address pallas-IsRepr line line-IsCurve line-IsLift address_ops
      address_ops-IsAddressOps pallas-size minus_one on_curve nonzero

from_address-into_address_run :
    from_address address_ops line (address_of_key address_ops line minus_one)
    ≡ Addresses.ok minus_one
unfolding from_address from_decoded address_of_key into_address address_ops minus_one with_parity
    is_even le_bytes residues residue
from_address-into_address_run = refl

from_address-ok_example :
    (length (address_of_key address_ops line minus_one) ≡ 55)
    × (bytes : List ℕ) × (address_ops.decode (address_of_key address_ops line minus_one)
        ≡ some bytes)
    × IsDecoded address_ops line bytes minus_one
from_address-ok_example =
    from_address-ok address_ops line (address_of_key address_ops line minus_one) minus_one
      from_address-into_address_run
