-- ===== src/Cairo/Helper.antt =====
-- cairo/src/helper.rs, and `to_bytes` and `to_bits` of utils/src/field_helpers.rs: the bytes and
-- bits of field elements. A read of a byte that is not there is the default of `get_or`.
pub mod Facts
use proof_systems.Prelude.{
  ℕ, zero, suc, ◌+◌, ◌*◌, ◌/◌, ◌%◌, ◌^◌, Bool, List, [], ◌∷◌, ◌++◌, ◌==◌, get_or,
}
use proof_systems.Field.{Field}

-- The inner loop of `to_bits`: `bits.push(byte & 0x01 == 0x01); byte >>= 1;`
unfoldable pub byte_bits : ℕ → ℕ → List Bool
byte_bits zero byte = []
byte_bits (suc rounds) byte = (byte % 2 == 1) ∷ byte_bits rounds (byte / 2)

unfoldable pub bits_of_bytes : List ℕ → List Bool
bits_of_bytes [] = []
bits_of_bytes (byte ∷ bytes) = byte_bits 8 byte ++ bits_of_bytes bytes

-- The loop of `to_u64` over the bytes `i..8`, in `u64` arithmetic.
unfoldable pub u64_from : ℕ → ℕ → ℕ → List ℕ → ℕ
u64_from zero i acc bytes = acc
u64_from (suc rounds) i acc bytes =
    u64_from rounds (i + 1) ((acc + 2 ^ (i * 8) * get_or bytes i 0 % 2 ^ 64) % 2 ^ 64) bytes

module _ {F : Type 0} ⦃f : Field F⦄ where
  unfoldable pub to_bytes : F → List ℕ
  to_bytes x = f.serialize x

  unfoldable pub to_bits : F → List Bool
  unfolding bits_of_bytes byte_bits to_bytes
  to_bits x = bits_of_bytes (to_bytes x)

  unfoldable pub lsb : F → ℕ
  unfolding to_bytes
  lsb x = get_or (to_bytes x) 0 0

  unfoldable pub u16_chunk : F → ℕ → F
  unfolding to_bytes
  u16_chunk x pos =
      let bytes = to_bytes x in
      f.from_ℕ ((get_or bytes (2 * pos) 0 + get_or bytes (2 * pos + 1) 0 * 2 ^ 8 % 2 ^ 16) % 2 ^ 16)

  unfoldable pub to_u64 : F → ℕ
  unfolding u64_from to_bytes
  to_u64 x = u64_from 8 0 0 (to_bytes x)
