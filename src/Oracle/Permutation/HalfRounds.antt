-- ===== src/Oracle/Permutation/HalfRounds.antt =====
-- oracle/src/permutation.rs: the variant of the permutation with half rounds.
use proof_systems.Prelude.{ℕ, zero, suc, ◌≡◌, ◌≢◌, refl, true, false, List, map, arith, ◌==◌}
use proof_systems.Outcome.{ok}
use proof_systems.Field.{Field}
use proof_systems.Oracle.Constants.{SpongeConstants}
use proof_systems.Oracle.Permutation.{
  ArithmeticSpongeParams, dot, apply_mds_matrix, add_constants, half_full, half_partial,
  half_rounds, poseidon_block_cipher,
}

module _ {F : Type 0} ⦃f : Field F⦄ (sc : SpongeConstants) (params : ArithmeticSpongeParams F)
    (mds : List (List F)) where
  other : ArithmeticSpongeParams F
  other = record params { mds = mds }

  full_layer :
      (ps : ArithmeticSpongeParams F)
      → sc.full_mds ≡ true
      → (st : List F) → apply_mds_matrix sc ps st ≡ ok (map (dot f.zero st) ps.mds)
  unfolding apply_mds_matrix
  full_layer ps e st = simp e

  half_full-mds :
      sc.full_mds ≡ true
      → (rounds r : ℕ) (st : List F)
      → half_full sc params rounds r st ≡ half_full sc other rounds r st
  unfolding half_full add_constants other
  half_full-mds e zero r st = refl
  half_full-mds e (suc rounds) r st =
      simp (full_layer params e, full_layer other e, half_full-mds e rounds)

  half_partial-mds :
      sc.full_mds ≡ true
      → (rounds r : ℕ) (st : List F)
      → half_partial sc params rounds r st ≡ half_partial sc other rounds r st
  unfolding half_partial add_constants other
  half_partial-mds e zero r st = refl
  half_partial-mds e (suc rounds) r st =
      simp (full_layer params e, full_layer other e, half_partial-mds e rounds)

  -- With half rounds, the matrix of a full linear layer has no effect on the permutation: any other
  -- matrix gives the same result.
  pub poseidon_block_cipher-mds :
      sc.full_mds ≡ true
      → sc.half_rounds_full ≢ 0
      → (st : List F)
      → poseidon_block_cipher sc params st
        ≡ poseidon_block_cipher sc (record params { mds = mds }) st
  unfolding poseidon_block_cipher half_rounds other
  poseidon_block_cipher-mds e h st =
      let halves : (sc.half_rounds_full == 0) ≡ false = ground arith in
      simp halves (simp (half_full-mds e, half_partial-mds e))
