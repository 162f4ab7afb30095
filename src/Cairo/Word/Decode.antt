-- ===== src/Cairo/Word/Decode.antt =====
-- cairo/src/word.rs: the flag sets and offsets of a word, against the canonical integer of the word.
use proof_systems.Prelude.{
  ℕ, suc, ◌+◌, ◌*◌, ◌/◌, ◌%◌, ◌^◌, ◌<◌, ◌≡◌, refl, sym, ap, ◌∙◌, ◌==◌, arith, mod-pow-suc,
  if◌then◌else◌,
}
use native.Mathlib.Nat.{div-div-eq-div-mul}
use proof_systems.Field.{Field, ◌⊖◌, IsCanonical}
use proof_systems.Cairo.Helper.{lsb, u16_chunk}
use proof_systems.Cairo.Helper.Facts.{lsb_lem, to_bits_lem, u16_chunk_lem}
use proof_systems.Cairo.Word.{
  CairoWord, bias, flag_at, off_dst, off_op0, off_op1, f15, dst_reg, op0_reg, op1_src, res_log,
  pc_up, ap_up, opcode,
}

-- The test of a bit, as a number.
bit_number : (t : ℕ) → t < 2 → (if t == 1 then 1 else 0) % 256 ≡ t
bit_number t h = ground arith

bit_small : (t : ℕ) → (if t == 1 then 1 else 0) < 2 ^ 64
bit_small t = ground arith

-- Sixteen bits sum to the number whose bits they are.
binary_sum :
    (m b : ℕ → ℕ)
    → m 0 ≡ 0
    → ((k : ℕ) → m (suc k) ≡ m k + 2 ^ k * b k)
    → b 0
        + 2 * b 1
        + 4 * (2 * (2 * b 4 + b 3) + b 2)
        + 32 * (2 * b 6 + b 5)
        + 128 * (2 * (2 * b 9 + b 8) + b 7)
        + 1024 * (2 * b 11 + b 10)
        + 4096 * (2 * (2 * b 14 + b 13) + b 12)
        + 32768 * b 15
      ≡ m 16
binary_sum m b z s =
    omega (
      arith,
      z,
      s 0,
      s 1,
      s 2,
      s 3,
      s 4,
      s 5,
      s 6,
      s 7,
      s 8,
      s 9,
      s 10,
      s 11,
      s 12,
      s 13,
      s 14,
      s 15,
    )

module _ {F : Type 0} ⦃f : Field F⦄ (c : IsCanonical f) (w : CairoWord F) where
  open c use {value}

  lsb-flag_at : (i : ℕ) → i < 16 → lsb (flag_at w i) ≡ value w.word / 2 ^ (48 + i) % 2
  unfolding flag_at
  lsb-flag_at i h =
      let large = c.eight-le-size in
      let t = value w.word / 2 ^ (48 + i) % 2 in
      rw
        (
          flag_at,
          to_bits_lem c w.word (48 + i) (omega arith),
          lsb_lem c,
          c.value-from _ (bit_small t),
        )
        (bit_number t (omega arith))

  -- A bit of the flags, as a bit of the word.
  bit : ℕ → ℕ
  bit i = value w.word / 2 ^ 48 / 2 ^ i % 2

  lsb-flag_bit :
      (i j : ℕ) → i < 16 → 48 + i ≡ j → 2 ^ j ≡ 2 ^ 48 * 2 ^ i → lsb (flag_at w i) ≡ bit i
  unfolding bit
  lsb-flag_bit i j h e p =
      lsb-flag_at i h
      ∙ ap (λ t. value w.word / 2 ^ t % 2) e
      ∙ ap (λ t. value w.word / t % 2) p
      ∙ sym (ap (λ t. t % 2) (div-div-eq-div-mul (value w.word) (2 ^ 48) (2 ^ i)))

  bit-lt : (i : ℕ) → bit i < 2
  unfolding bit
  bit-lt i = omega arith

  dst_reg_bits : dst_reg w ≡ bit 0
  unfolding dst_reg
  dst_reg_bits = lsb-flag_bit 0 48 (omega arith) refl refl

  op0_reg_bits : op0_reg w ≡ bit 1
  unfolding op0_reg
  op0_reg_bits = lsb-flag_bit 1 49 (omega arith) refl refl

  op1_src_bits : op1_src w ≡ 2 * (2 * bit 4 + bit 3) + bit 2
  unfolding op1_src
  op1_src_bits =
      rw
        (
          lsb-flag_bit 4 52 (omega arith) refl refl,
          lsb-flag_bit 3 51 (omega arith) refl refl,
          lsb-flag_bit 2 50 (omega arith) refl refl,
        )
        (omega (arith, bit-lt 4, bit-lt 3, bit-lt 2))

  res_log_bits : res_log w ≡ 2 * bit 6 + bit 5
  unfolding res_log
  res_log_bits =
      rw (lsb-flag_bit 6 54 (omega arith) refl refl, lsb-flag_bit 5 53 (omega arith) refl refl)
        (omega (arith, bit-lt 6, bit-lt 5))

  pc_up_bits : pc_up w ≡ 2 * (2 * bit 9 + bit 8) + bit 7
  unfolding pc_up
  pc_up_bits =
      rw
        (
          lsb-flag_bit 9 57 (omega arith) refl refl,
          lsb-flag_bit 8 56 (omega arith) refl refl,
          lsb-flag_bit 7 55 (omega arith) refl refl,
        )
        (omega (arith, bit-lt 9, bit-lt 8, bit-lt 7))

  ap_up_bits : ap_up w ≡ 2 * bit 11 + bit 10
  unfolding ap_up
  ap_up_bits =
      rw (lsb-flag_bit 11 59 (omega arith) refl refl, lsb-flag_bit 10 58 (omega arith) refl refl)
        (omega (arith, bit-lt 11, bit-lt 10))

  opcode_bits : opcode w ≡ 2 * (2 * bit 14 + bit 13) + bit 12
  unfolding opcode
  opcode_bits =
      rw
        (
          lsb-flag_bit 14 62 (omega arith) refl refl,
          lsb-flag_bit 13 61 (omega arith) refl refl,
          lsb-flag_bit 12 60 (omega arith) refl refl,
        )
        (omega (arith, bit-lt 14, bit-lt 13, bit-lt 12))

  f15_bits : lsb (f15 w) ≡ bit 15
  unfolding f15
  f15_bits = lsb-flag_bit 15 63 (omega arith) refl refl

  -- The flag sets, put back in the layout of an instruction, are bits 48 to 63 of its word.
  pub flag_sets_sum :
      dst_reg w
        + 2 * op0_reg w
        + 4 * op1_src w
        + 32 * res_log w
        + 128 * pc_up w
        + 1024 * ap_up w
        + 4096 * opcode w
        + 32768 * lsb (f15 w)
      ≡ value w.word / 2 ^ 48 % 2 ^ 16
  flag_sets_sum =
      rw
        (
          dst_reg_bits, op0_reg_bits, op1_src_bits, res_log_bits, pc_up_bits, ap_up_bits,
          opcode_bits, f15_bits,
        )
        (binary_sum (λ k. value w.word / 2 ^ 48 % 2 ^ k) bit (omega arith)
          (unfold bit in mod-pow-suc (value w.word / 2 ^ 48)))

  -- The one-bit registers are 0 or 1, and the other flag sets stay below their width.
  pub flag_sets_lt :
      (dst_reg w < 2)
      × (op0_reg w < 2)
      × (op1_src w < 8)
      × (res_log w < 4)
      × (pc_up w < 8)
      × (ap_up w < 4)
      × (opcode w < 8)
  flag_sets_lt =
      rw
        (
          dst_reg_bits, op0_reg_bits, op1_src_bits, res_log_bits, pc_up_bits, ap_up_bits,
          opcode_bits,
        )
        (omega (
          arith,
          bit-lt 0,
          bit-lt 1,
          bit-lt 2,
          bit-lt 3,
          bit-lt 4,
          bit-lt 5,
          bit-lt 6,
          bit-lt 7,
          bit-lt 8,
          bit-lt 9,
          bit-lt 10,
          bit-lt 11,
          bit-lt 12,
          bit-lt 13,
          bit-lt 14,
        ))

  f15_lt : lsb (f15 w) < 2
  f15_lt = rw f15_bits (bit-lt 15)

  -- Each flag set is its slice of the 16 flags of the word.
  pub flag_sets_lem :
      (u : ℕ)
      → value w.word / 2 ^ 48 % 2 ^ 16 ≡ u
      → (dst_reg w ≡ u % 2)
        × (op0_reg w ≡ u / 2 % 2)
        × (op1_src w ≡ u / 4 % 8)
        × (res_log w ≡ u / 32 % 4)
        × (pc_up w ≡ u / 128 % 8)
        × (ap_up w ≡ u / 1024 % 4)
        × (opcode w ≡ u / 4096 % 8)
        × (lsb (f15 w) ≡ u / 32768 % 2)
  flag_sets_lem u e =
      let sum = flag_sets_sum ∙ e in let bounds = flag_sets_lt in let top = f15_lt in omega arith

  offset :
      (pos : ℕ)
      → pos < 4
      → bias (u16_chunk w.word pos) ≡ f.from_ℕ (value w.word / 65536 ^ pos % 65536) ⊖ f.from_ℕ 32768
  unfolding bias
  offset pos h = rw (bias, u16_chunk_lem c w.word pos h)

  -- The offsets are the three low 16-bit chunks, less 2 ^ 15.
  pub offsets_lem :
      (off_dst w ≡ f.from_ℕ (value w.word % 2 ^ 16) ⊖ f.from_ℕ (2 ^ 15))
      × (off_op0 w ≡ f.from_ℕ (value w.word / 2 ^ 16 % 2 ^ 16) ⊖ f.from_ℕ (2 ^ 15))
      × (off_op1 w ≡ f.from_ℕ (value w.word / 2 ^ 32 % 2 ^ 16) ⊖ f.from_ℕ (2 ^ 15))
  unfolding off_dst off_op0 off_op1
  offsets_lem = (
    offset 0 (omega arith) ∙ ap (λ t. f.from_ℕ (t % 2 ^ 16) ⊖ f.from_ℕ (2 ^ 15)) (omega arith),
    offset 1 (omega arith),
    offset 2 (omega arith),
  )

-- Packs three biased offsets and the flags into the word of an instruction, the layout that the
-- decoding is the inverse of.
abbrev pub encode : ℕ → ℕ → ℕ → ℕ → ℕ
encode dst op0 op1 flags = dst + 2 ^ 16 * op0 + 2 ^ 32 * op1 + 2 ^ 48 * flags

-- A word made from three offsets and sixteen flags decodes to them.
pub decode-encode :
    {F : Type 0} ⦃f : Field F⦄ (c : IsCanonical f) (dst op0 op1 flags : ℕ)
    → dst < 2 ^ 16
    → op0 < 2 ^ 16
    → op1 < 2 ^ 16
    → flags < 2 ^ 16
    → (w : CairoWord F) → w.word ≡ f.from_ℕ (encode dst op0 op1 flags)
    → (off_dst w ≡ f.from_ℕ dst ⊖ f.from_ℕ (2 ^ 15))
      × (off_op0 w ≡ f.from_ℕ op0 ⊖ f.from_ℕ (2 ^ 15))
      × (off_op1 w ≡ f.from_ℕ op1 ⊖ f.from_ℕ (2 ^ 15))
      × (dst_reg w
            + 2 * op0_reg w
            + 4 * op1_src w
            + 32 * res_log w
            + 128 * pc_up w
            + 1024 * ap_up w
            + 4096 * opcode w
            + 32768 * lsb (f15 w)
          ≡ flags)
decode-encode ⦃f⦄ c dst op0 op1 flags hd h0 h1 hf w e =
    let v : c.value w.word ≡ encode dst op0 op1 flags =
      ap c.value e ∙ c.value-from (encode dst op0 op1 flags) (omega arith) in
    let (od, o0, o1) = offsets_lem c w in
    let from : (a b : ℕ) → a ≡ b → f.from_ℕ a ⊖ f.from_ℕ (2 ^ 15) ≡ f.from_ℕ b ⊖ f.from_ℕ (2 ^ 15) =
      λ a b p. ap (λ t. f.from_ℕ t ⊖ f.from_ℕ (2 ^ 15)) p in
    (
      od ∙ from _ _ (rw v (omega arith)),
      o0 ∙ from _ _ (rw v (omega arith)),
      o1 ∙ from _ _ (rw v (omega arith)),
      flag_sets_sum c w ∙ rw v (omega arith),
    )
