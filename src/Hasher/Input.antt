-- ===== src/Hasher/Input.antt =====
-- hasher/src/roinput.rs: `ROInput`, the input of a hash, and what it serialises to. A bit vector is
-- the list of its bits.
pub mod Chunks
use proof_systems.Prelude.{
  ℕ, zero, suc, ◌-◌, Bool, false, List, [], ◌∷◌, ◌++◌, length, take, drop, replicate, leb,
  if◌then◌else◌,
}
use proof_systems.Outcome.{Outcome, ok, panic, ◌>>=◌, expect}
use proof_systems.Field.{Field, le_bytes}
use proof_systems.Cairo.Helper.{bits_of_bytes}

-- What other crates fix: `size_in_bits` of the two fields, and `BitVec::into_vec`.
pub record BitOps : Type 0 where
  pub fp_bits : ℕ
  pub fq_bits : ℕ
  pub into_vec : List Bool → List ℕ

pub record RoInput (F : Type 0) : Type 0 where
  pub fields : List F
  pub bits : List Bool

-- `&bits[..n]`
abbrev pub prefix {ℓ} : {A : Type ℓ} → ℕ → List A → Outcome (List A)
prefix n xs = if leb n (length xs) then ok (take n xs) else panic "range end index out of range"

module _ {F : Type 0} where
  unfoldable pub new : RoInput F
  new = record { fields = []; bits = [] }

  unfoldable pub append_roinput : RoInput F → RoInput F → RoInput F
  append_roinput roi other = record {
    fields = roi.fields ++ other.fields;
    bits = roi.bits ++ other.bits;
  }

  unfoldable pub append_hashable : {H : Type 0} → (H → RoInput F) → RoInput F → H → RoInput F
  append_hashable to_roinput roi input = append_roinput roi (to_roinput input)

  unfoldable pub append_field : RoInput F → F → RoInput F
  append_field roi f = record roi { fields = roi.fields ++ f ∷ [] }

  unfoldable pub append_scalar :
      {G : Type 0} ⦃g : Field G⦄ → BitOps → RoInput F → G → Outcome (RoInput F)
  append_scalar ⦃g⦄ b roi s = do
    bits ← prefix b.fq_bits (bits_of_bytes (g.serialize s))
    ok (record roi { bits = roi.bits ++ bits })

  unfoldable pub append_bool : RoInput F → Bool → RoInput F
  append_bool roi x = record roi { bits = roi.bits ++ x ∷ [] }

  unfoldable pub append_bytes : RoInput F → List ℕ → RoInput F
  append_bytes roi bytes = record roi { bits = roi.bits ++ bits_of_bytes bytes }

  unfoldable pub append_u32 : RoInput F → ℕ → RoInput F
  append_u32 roi x = append_bytes roi (le_bytes 4 x)

  unfoldable pub append_u64 : RoInput F → ℕ → RoInput F
  append_u64 roi x = append_bytes roi (le_bytes 8 x)

-- `bits.chunks(n)`. One unit of fuel is used for each chunk, and no chunk is empty.
unfoldable pub chunks {ℓ} : {A : Type ℓ} → ℕ → ℕ → List A → List (List A)
chunks n fuel [] = []
chunks n zero (x ∷ xs) = []
chunks n (suc fuel) (x ∷ xs) = take n (x ∷ xs) ∷ chunks n fuel (drop n (x ∷ xs))

module _ {F : Type 0} ⦃f : Field F⦄ (b : BitOps) where
  -- The fold of `to_bytes` over the fields.
  unfoldable pub field_bits : List F → Outcome (List Bool)
  field_bits [] = ok []
  field_bits (fe ∷ fields) = do
    bits ← prefix b.fp_bits (bits_of_bytes (f.serialize fe))
    rest ← field_bits fields
    ok (bits ++ rest)

  unfoldable pub to_bytes : RoInput F → Outcome (List ℕ)
  to_bytes roi = do bits ← field_bits roi.fields; ok (b.into_vec (bits ++ roi.bits))

  unfoldable pub chunk_field : List Bool → Outcome F
  chunk_field chunk =
      expect
        (f.deserialize
          (b.into_vec (take b.fp_bits chunk ++ replicate (b.fp_bits - length chunk) false)))
        "failed to create base field element"

  -- The fold of `to_fields` over the chunks.
  unfoldable pub chunk_fields : List (List Bool) → Outcome (List F)
  chunk_fields [] = ok []
  chunk_fields (c ∷ cs) = do x ← chunk_field c; xs ← chunk_fields cs; ok (x ∷ xs)

  unfoldable pub to_fields : RoInput F → Outcome (List F)
  to_fields roi = do
    xs ← chunk_fields (chunks (b.fp_bits - 1) (length roi.bits) roi.bits)
    ok (roi.fields ++ xs)
