-- ===== src/Oracle/Tests.antt =====
-- Runs of the model of oracle/src with parameters for 55 rounds, in the base field of Pallas.
use proof_systems.Prelude.{
  All, zero, suc, replicate, ◌≤◌, ℕ, ◌≡◌, refl, List, [], ◌∷◌, ◌++◌, arith, length,
}
use proof_systems.Outcome.{ok, ◌>>=◌}
use proof_systems.Field.Pallas.{Fp, pallas, element}
use proof_systems.Oracle.Constants.{SpongeConstants, kimchi, legacy}
use proof_systems.Oracle.Permutation.{ArithmeticSpongeParams, poseidon_block_cipher, add_row}
use proof_systems.Oracle.Permutation.Total.{IsParams, width, poseidon_block_cipher_total}
use proof_systems.Oracle.Permutation.HalfRounds.{poseidon_block_cipher-mds}
use proof_systems.Oracle.Sponge.{ArithmeticSponge, new, absorb}
use proof_systems.Oracle.Sponge.Valid.{IsValid, new-IsValid}
use proof_systems.Oracle.Sponge.Blocks.{within, absorb_blocks, concat, absorb_blocks_lem}

half : SpongeConstants
half = record kimchi { half_rounds_full = 1; rounds_partial = 1 }

row : ℕ → ℕ → ℕ → List Fp
row a b c = element a ∷ element b ∷ element c ∷ []

params : ArithmeticSpongeParams Fp
params = record {
  round_constants = replicate 55 (row 1 2 3);
  mds = row 2 1 1 ∷ row 1 2 1 ∷ row 1 1 2 ∷ [];
}

fit : (n : ℕ) → All (λ cells. length cells ≤ 3) (replicate n (row 1 2 3))
unfolding row
fit zero = tt
fit (suc n) = (omega arith, fit n)

params-IsParams : IsParams kimchi params
unfolding params row
params-IsParams = record {
  rate_pos = omega arith;
  full_mds = refl;
  full_rounds_only = refl;
  mds_rows = refl;
  enough = omega arith;
  rows_fit = fit 55;
}

-- The legacy sponge reads one row more than it has rounds.
legacy_params : ArithmeticSpongeParams Fp
legacy_params = record params { round_constants = replicate 64 (row 1 2 3) }

legacy-IsParams : IsParams legacy legacy_params
unfolding legacy_params params row
legacy-IsParams = record {
  rate_pos = omega arith;
  full_mds = refl;
  full_rounds_only = refl;
  mds_rows = refl;
  enough = omega arith;
  rows_fit = fit 64;
}

poseidon_block_cipher_total_example :
    (st' : List Fp) × (poseidon_block_cipher kimchi params (row 5 6 7) ≡ ok st')
    × (length st' ≡ width kimchi)
unfolding row
poseidon_block_cipher_total_example =
    poseidon_block_cipher_total kimchi params params-IsParams (row 5 6 7) refl

poseidon_block_cipher-mds_example :
    poseidon_block_cipher half params (row 5 6 7)
    ≡ poseidon_block_cipher half
        (record params { mds = row 1 0 0 ∷ row 0 1 0 ∷ row 0 0 1 ∷ [] })
        (row 5 6 7)
unfolding half
poseidon_block_cipher-mds_example =
    poseidon_block_cipher-mds half params (row 1 0 0 ∷ row 0 1 0 ∷ row 0 0 1 ∷ []) refl
      (λ e. omega arith) (row 5 6 7)

fresh : ArithmeticSponge Fp
fresh = new kimchi params

fresh-IsValid : IsValid kimchi fresh
unfolding fresh
fresh-IsValid = new-IsValid kimchi params params-IsParams

block : ℕ → ℕ → List Fp
block a b = element a ∷ element b ∷ []

absorb_blocks_lem_example :
    absorb kimchi
      (block 1 2 ++ concat kimchi (block 3 4 ∷ block 5 6 ∷ []))
      (within kimchi fresh (row 0 0 0) 0)
    ≡ (add_row (block 1 2) 0 (row 0 0 0) >>= λ st1.
        absorb_blocks kimchi fresh.params (block 3 4 ∷ block 5 6 ∷ []) st1 >>= λ st2.
        ok (within kimchi fresh st2 fresh.rate))
unfolding fresh new kimchi block
absorb_blocks_lem_example =
    absorb_blocks_lem kimchi fresh (block 1 2) (block 3 4 ∷ block 5 6 ∷ []) (row 0 0 0)
      (omega arith) (refl, (refl, (refl, tt)))
