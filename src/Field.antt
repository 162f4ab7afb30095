-- ===== src/Field.antt =====
-- `ark_ff::Field`: a third-party interface, so its operations are a parameter of the model, and
-- what the code relies on are the two law records below. `Field.Residue` is an implementation.
pub mod Residue
pub mod Facts
pub mod Powers
pub mod Pallas
pub mod Five
use proof_systems.Prelude.{
  ℕ, zero, suc, ◌+◌, ◌*◌, ◌/◌, ◌%◌, ◌^◌, ◌≤◌, ◌<◌, ◌≡◌, ◌↔◌, ◌⊎◌, ◌≢◌, Bool, true, Option, none,
  some, List, [], ◌∷◌,
}

-- `pow` takes a `u64` exponent, `from_ℕ` is `F::from(u64)`, `beq` is `==`, `ble` is `<=`,
-- `serialize` and `deserialize` are those of `ark_serialize`.
pub record Field (F : Type 0) : Type 0 where
  pub zero : F
  pub one : F
  pub add : F → F → F
  pub sub : F → F → F
  pub mul : F → F → F
  pub neg : F → F
  pub inverse : F → Option F
  pub pow : F → ℕ → F
  pub from_ℕ : ℕ → F
  pub beq : F → F → Bool
  pub ble : F → F → Bool
  pub serialize : F → List ℕ
  pub deserialize : List ℕ → Option F
  pub into_repr : F → ℕ
  pub from_repr : ℕ → Option F

module _ {F : Type 0} ⦃f : Field F⦄ where
  infixl 65 ◌⊕◌ ◌⊖◌
  infixl 70 ◌⊗◌
  abbrev pub ◌⊕◌ : F → F → F
  a ⊕ b = f.add a b

  abbrev pub ◌⊖◌ : F → F → F
  a ⊖ b = f.sub a b

  abbrev pub ◌⊗◌ : F → F → F
  a ⊗ b = f.mul a b

-- The ring laws; `sub` is determined by `sub-add`, and `neg` by `neg-eq-sub`.
pub record IsRing {F : Type 0} (f : Field F) : Type 0 where
  pub add_assoc : (a b c : F) → f.add (f.add a b) c ≡ f.add a (f.add b c)
  pub add_comm : (a b : F) → f.add a b ≡ f.add b a
  pub zero-add : (a : F) → f.add f.zero a ≡ a
  pub sub-add : (a b : F) → f.add (f.sub a b) b ≡ a
  pub neg-eq-sub : (a : F) → f.neg a ≡ f.sub f.zero a
  pub add-sub : (a b : F) → f.sub (f.add a b) b ≡ a
  pub mul_assoc : (a b c : F) → f.mul (f.mul a b) c ≡ f.mul a (f.mul b c)
  pub mul_comm : (a b : F) → f.mul a b ≡ f.mul b a
  pub one-mul : (a : F) → f.mul f.one a ≡ a
  pub zero-mul : (a : F) → f.mul f.zero a ≡ f.zero
  pub mul-add : (a b c : F) → f.mul a (f.add b c) ≡ f.add (f.mul a b) (f.mul a c)
  pub pow-zero : (a : F) → f.pow a 0 ≡ f.one
  pub pow-suc : (a : F) (n : ℕ) → f.pow a (suc n) ≡ f.mul (f.pow a n) a
  pub from-one : f.from_ℕ 1 ≡ f.one
  pub from-add : (m n : ℕ) → f.from_ℕ (m + n) ≡ f.add (f.from_ℕ m) (f.from_ℕ n)
  pub beq_iff : (a b : F) → (f.beq a b ≡ true) ↔ (a ≡ b)

-- `n` bytes of `v`, the least significant first.
unfoldable pub le_bytes : ℕ → ℕ → List ℕ
le_bytes zero v = []
le_bytes (suc n) v = v % 256 ∷ le_bytes n (v / 256)

-- The canonical integer of an element: below the modulus, serialised in `size` bytes with the least
-- significant byte first. A `u64` is below the modulus.
pub record IsCanonical {F : Type 0} (f : Field F) : Type 0 where
  pub value : F → ℕ
  pub modulus : ℕ
  pub size : ℕ
  pub eight-le-size : 8 ≤ size
  pub value-lt : (a : F) → value a < modulus
  pub modulus-le : modulus ≤ 256 ^ size
  pub value_injective : (a b : F) → value a ≡ value b → a ≡ b
  pub value-from : (n : ℕ) → n < 2 ^ 64 → value (f.from_ℕ n) ≡ n
  pub serialize_lem : (a : F) → f.serialize a ≡ le_bytes size (value a)
  pub deserialize-serialize : (a : F) → f.deserialize (f.serialize a) ≡ some a

-- `into_repr` and `from_repr`, and the integer of a negative; the modulus of a field of these
-- curves is odd, and an element of a prime field is a sum of ones.
pub record IsRepr {F : Type 0} {f : Field F} (c : IsCanonical f) : Type 0 where
  pub into_repr_lem : (a : F) → f.into_repr a ≡ c.value a
  pub from-value : (a : F) → f.from_ℕ (c.value a) ≡ a
  pub from_repr-some :
      (n : ℕ) → n < c.modulus → (a : F) × (f.from_repr n ≡ some a) × (c.value a ≡ n)
  pub from_repr-none : (n : ℕ) → c.modulus ≤ n → f.from_repr n ≡ none
  pub modulus_odd : c.modulus % 2 ≡ 1
  pub value-neg : (a : F) → 0 < c.value a → c.value (f.neg a) + c.value a ≡ c.modulus

-- What code relies on beyond the ring laws: there are no divisors of zero, and an inverse is one.
pub record IsDomain {F : Type 0} (f : Field F) : Type 0 where
  pub no_divisors : (a b : F) → f.mul a b ≡ f.zero → (a ≡ f.zero) ⊎ (b ≡ f.zero)
  pub one_ne_zero : f.one ≢ f.zero
  pub inverse-mul : (a b : F) → f.inverse a ≡ some b → f.mul b a ≡ f.one
