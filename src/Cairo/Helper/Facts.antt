-- ===== src/Cairo/Helper/Facts.antt =====
-- What the helpers compute of the canonical integer of an element.
use native.Mathlib.Nat.{pow-suc, div-div-eq-div-mul, mul_comm}
use proof_systems.Prelude.{
  ℕ, zero, suc, ◌+◌, ◌-◌, ◌*◌, ◌/◌, ◌%◌, ◌^◌, ◌<◌, ◌≡◌, refl, sym, ap, ◌∙◌, false, ◌==◌, get_or,
  arith,
}
use proof_systems.Field.{Field, IsCanonical, le_bytes}
use proof_systems.Cairo.Helper.{
  byte_bits, bits_of_bytes, u64_from, to_bytes, to_bits, lsb, u16_chunk, to_u64,
}

get_or-le_bytes : (n v i : ℕ) → i < n → get_or (le_bytes n v) i 0 ≡ v / 256 ^ i % 256
unfolding le_bytes
get_or-le_bytes zero v i h = elim h [ ]
get_or-le_bytes (suc n) v zero h = omega arith
get_or-le_bytes (suc n) v (suc i) h =
    get_or-le_bytes n (v / 256) i (omega arith)
    ∙ ap (λ t. t % 256)
        (div-div-eq-div-mul v 256 (256 ^ i)
          ∙ ap (λ t. v / t) (mul_comm 256 (256 ^ i) ∙ sym (pow-suc 256 i)))

u64_from-le_bytes :
    (k v : ℕ)
    → u64_from 8 0 0 (le_bytes (suc (suc (suc (suc (suc (suc (suc (suc k)))))))) v) ≡ v % 2 ^ 64
unfolding u64_from le_bytes
u64_from-le_bytes k v = omega arith

-- A bit of the bytes of a number is that bit of the number.
get_or-bits_of_bytes :
    (n v k : ℕ) → k < 8 * n → get_or (bits_of_bytes (le_bytes n v)) k false ≡ (v / 2 ^ k % 2 == 1)
unfolding bits_of_bytes byte_bits le_bytes
get_or-bits_of_bytes zero v k h = absurd (omega arith)
get_or-bits_of_bytes (suc n) v zero h = ap (λ t. t == 1) (omega arith)
get_or-bits_of_bytes (suc n) v (suc zero) h = ap (λ t. t == 1) (omega arith)
get_or-bits_of_bytes (suc n) v (suc (suc zero)) h = ap (λ t. t == 1) (omega arith)
get_or-bits_of_bytes (suc n) v (suc (suc (suc zero))) h = ap (λ t. t == 1) (omega arith)
get_or-bits_of_bytes (suc n) v (suc (suc (suc (suc zero)))) h = ap (λ t. t == 1) (omega arith)
get_or-bits_of_bytes (suc n) v (suc (suc (suc (suc (suc zero))))) h = ap (λ t. t == 1) (omega arith)
get_or-bits_of_bytes (suc n) v (suc (suc (suc (suc (suc (suc zero)))))) h =
    ap (λ t. t == 1) (omega arith)
get_or-bits_of_bytes (suc n) v (suc (suc (suc (suc (suc (suc (suc zero))))))) h =
    ap (λ t. t == 1) (omega arith)
get_or-bits_of_bytes (suc n) v (suc (suc (suc (suc (suc (suc (suc (suc k)))))))) h =
    get_or-bits_of_bytes n (v / 256) k (omega arith)
    ∙ ap (λ t. t % 2 == 1)
        (div-div-eq-div-mul v 256 (2 ^ k) ∙ ap (λ t. v / t) (simp pow-suc (omega arith)))

module _ {F : Type 0} ⦃f : Field F⦄ (c : IsCanonical f) where
  open c use {value, size}

  bytes_at : (x : F) (i : ℕ) → i < size → get_or (to_bytes x) i 0 ≡ value x / 256 ^ i % 256
  unfolding to_bytes
  bytes_at x i h = rw (c.serialize_lem x) (get_or-le_bytes size (value x) i h)

  -- `lsb` is the canonical integer modulo 256.
  pub lsb_lem : (x : F) → lsb x ≡ value x % 256
  unfolding lsb
  lsb_lem x = rw (bytes_at x 0 (let h = c.eight-le-size in omega arith)) (omega arith)

  pub to_u64_lem : (x : F) → to_u64 x ≡ value x % 2 ^ 64
  unfolding to_u64
  to_u64_lem x =
      let e : size ≡ suc (suc (suc (suc (suc (suc (suc (suc (size - 8)))))))) =
        let h = c.eight-le-size in omega arith in
      rw (c.serialize_lem x, e) (u64_from-le_bytes (size - 8) (value x))

  chunk :
      (x : F) (pos i j : ℕ)
      → 2 * pos ≡ i
      → i + 1 ≡ j
      → j < 8
      → (value x / 256 ^ i % 256 + value x / 256 ^ j % 256 * 2 ^ 8 % 2 ^ 16) % 2 ^ 16
        ≡ value x / 65536 ^ pos % 65536
      → u16_chunk x pos ≡ f.from_ℕ (value x / 65536 ^ pos % 65536)
  unfolding u16_chunk
  chunk x pos i j p q h e =
      let large = c.eight-le-size in
      rw (u16_chunk, p, q, bytes_at x i (omega arith), bytes_at x j (omega arith)) (ap f.from_ℕ e)

  -- A 16-bit chunk of the first eight bytes.
  pub u16_chunk_lem :
      (x : F) (pos : ℕ) → pos < 4 → u16_chunk x pos ≡ f.from_ℕ (value x / 65536 ^ pos % 65536)
  u16_chunk_lem x zero h = chunk x 0 0 1 refl refl (omega arith) (omega arith)
  u16_chunk_lem x (suc zero) h = chunk x 1 2 3 refl refl (omega arith) (omega arith)
  u16_chunk_lem x (suc (suc zero)) h = chunk x 2 4 5 refl refl (omega arith) (omega arith)
  u16_chunk_lem x (suc (suc (suc zero))) h = chunk x 3 6 7 refl refl (omega arith) (omega arith)
  u16_chunk_lem x (suc (suc (suc (suc pos)))) h = absurd (omega arith)

  pub to_bits_lem :
      (x : F) (k : ℕ) → k < 8 * size → get_or (to_bits x) k false ≡ (value x / 2 ^ k % 2 == 1)
  unfolding to_bits
  to_bits_lem x k h = rw (c.serialize_lem x) (get_or-bits_of_bytes size (value x) k h)
