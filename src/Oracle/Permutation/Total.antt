-- ===== src/Oracle/Permutation/Total.antt =====
-- oracle/src/permutation.rs: parameters of the right shape, and panics.
use proof_systems.Prelude.{
  All, ℕ, zero, suc, ◌+◌, ◌≤◌, ◌<◌, ◌≡◌, refl, ap, ◌∙◌, Bool, true, false, some, List, [], ◌∷◌, map,
  arith, length, get_elem?, set, if◌then◌else◌, length-set, get_elem?-lt_length,
}
use proof_systems.Outcome.{ok, ◌>>=◌}
use proof_systems.Field.{Field, ◌⊕◌}
use proof_systems.Oracle.Constants.{SpongeConstants}
use proof_systems.Oracle.Permutation.{
  ArithmeticSpongeParams, sbox, dot, apply_mds_matrix, add_row, add_constants, full_round,
  full_rounds, poseidon_block_cipher,
}

abbrev pub width : SpongeConstants → ℕ
width sc = sc.capacity + sc.rate

-- The rows of constants that the permutation reads: one for each round, and one before the first round
-- where there is an initial addition.
abbrev pub constants_needed : SpongeConstants → ℕ
constants_needed sc = if sc.initial_ark then sc.rounds_full + 1 else sc.rounds_full

-- Parameters for a state of the sponge's width: a full MDS matrix, and the constants that are needed.
pub record IsParams {F : Type 0} (sc : SpongeConstants) (params : ArithmeticSpongeParams F)
    : Type 0 where
  pub rate_pos : 0 < sc.rate
  pub full_mds : sc.full_mds ≡ true
  pub full_rounds_only : sc.half_rounds_full ≡ 0
  pub mds_rows : length params.mds ≡ width sc
  pub enough : constants_needed sc ≤ length params.round_constants
  pub rows_fit : All (λ row. length row ≤ width sc) params.round_constants

length-map {ℓ κ} :
    {A : Type ℓ} {B : Type κ} (g : A → B) (xs : List A) → length (map g xs) ≡ length xs
length-map g [] = refl
length-map g (x ∷ xs) = ap suc (length-map g xs)

All-get_elem? :
    {A : Type 0} (P : A → Type 0) (xs : List A) (i : ℕ) {x : A}
    → All P xs
    → get_elem? xs i ≡ some x
    → P x
All-get_elem? P [] i h e = cc
All-get_elem? P (y ∷ xs) zero h e = let same : y ≡ _ = cc in rw same at h.0
All-get_elem? P (y ∷ xs) (suc i) h e = All-get_elem? P xs i h.1 e

module _ {F : Type 0} ⦃f : Field F⦄ where
  add_row_total :
      (row : List F) (i : ℕ) (st : List F)
      → i + length row ≤ length st
      → (st' : List F) × (add_row row i st ≡ ok st') × (length st' ≡ length st)
  unfolding add_row
  add_row_total [] i st h = (st, refl, refl)
  add_row_total (x ∷ row) i st h =
      let (s, here) = get_elem?-lt_length st i (omega arith) in
      let same = length-set st i (s ⊕ x) in
      let (st', run, long) = add_row_total row (i + 1) (set st i (s ⊕ x)) (omega arith) in
      (st', rw (here) run, long ∙ same)

  module _ (sc : SpongeConstants) (params : ArithmeticSpongeParams F) (p : IsParams sc params) where
    add_constants_total :
        (r : ℕ) (st : List F)
        → r < length params.round_constants
        → length st ≡ width sc
        → (st' : List F) × (add_constants params r st ≡ ok st') × (length st' ≡ width sc)
    unfolding add_constants
    add_constants_total r st h e =
        let (row, here) = get_elem?-lt_length params.round_constants r h in
        let fits =
          All-get_elem? (λ row. length row ≤ width sc) params.round_constants r p.rows_fit here in
        let (st', run, long) = add_row_total row 0 st (omega arith) in (st', rw here run, long ∙ e)

    pub full_round_total :
        (r : ℕ) (st : List F)
        → r < length params.round_constants
        → length st ≡ width sc
        → (st' : List F) × (full_round sc params st r ≡ ok st') × (length st' ≡ width sc)
    unfolding full_round apply_mds_matrix
    full_round_total r st h e = simp p.full_mds (
        add_constants_total r _ h
          (length-map (dot f.zero (map (sbox sc) st)) params.mds ∙ p.mds_rows))

    full_rounds_total :
        (rounds r : ℕ) (st : List F)
        → r + rounds ≤ length params.round_constants
        → length st ≡ width sc
        → (st' : List F) × (full_rounds sc params rounds r st ≡ ok st') × (length st' ≡ width sc)
    unfolding full_rounds
    full_rounds_total zero r st h e = (st, refl, e)
    full_rounds_total (suc rounds) r st h e =
        let (s, run, long) = full_round_total r st (omega arith) e in
        rw run (full_rounds_total rounds (r + 1) s (omega arith) long)

    -- With parameters of the width of the sponge, a full matrix, full rounds only, and the rows of
    -- constants that these read, one for each round and one for an initial addition, the permutation of
    -- a state of that width returns a state of that width.
    pub poseidon_block_cipher_total :
        (st : List F)
        → length st ≡ width sc
        → (st' : List F) × (poseidon_block_cipher sc params st ≡ ok st') × (length st' ≡ width sc)
    unfolding poseidon_block_cipher
    poseidon_block_cipher_total st e = simp p.full_rounds_only (by_ark sc.initial_ark p.enough)
      where
        by_ark :
            (b : Bool)
            → (if b then sc.rounds_full + 1 else sc.rounds_full) ≤ length params.round_constants
            → (st' : List F) × ((if b
                  then (do s ← add_constants params 0 st; full_rounds sc params sc.rounds_full 1 s)
                  else full_rounds sc params sc.rounds_full 0 st)
                ≡ ok st')
              × (length st' ≡ width sc)
        by_ark true large =
            let (s, run, long) = add_constants_total 0 st (omega arith) e in
            rw run (full_rounds_total sc.rounds_full 1 s (omega arith) long)
        by_ark false large = full_rounds_total sc.rounds_full 0 st (omega arith) e
