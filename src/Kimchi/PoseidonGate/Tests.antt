-- ===== src/Kimchi/PoseidonGate/Tests.antt =====
-- A run of the witness of Poseidon with constants that repeat, in the base field of Pallas.
use proof_systems.Prelude.{
  All, ℕ, zero, suc, length, ◌≤◌, ◌<◌, ◌+◌, ◌≡◌, refl, List, [], ◌∷◌, ◌++◌, replicate, get_elem?,
  get_or, arith,
}
use proof_systems.Outcome.{build, Outcome, ok, panic}
use proof_systems.Field.Residue.{residue, residues}
use proof_systems.Field.Pallas.{Fp, pallas, element, pallas-IsRing}
use proof_systems.Oracle.Constants.{kimchi}
use proof_systems.Oracle.Permutation.{
  ArithmeticSpongeParams, poseidon_block_cipher, full_rounds, full_round, sbox, apply_mds_matrix,
  add_constants, add_row, dot,
}
use proof_systems.Oracle.Permutation.Total.{IsParams}
use proof_systems.Hasher.Sample.{row}
use proof_systems.Kimchi.Gates.{Columns, poseidon, ensure, valid}
use proof_systems.Kimchi.PoseidonGate.{generate_witness}
use proof_systems.Kimchi.PoseidonGate.Verify.{
  read_state, rc, mix, check_cells, check_rounds, verify_poseidon,
}
use proof_systems.Kimchi.PoseidonGate.Verify.Sound.{verify_poseidon-full_rounds}
use proof_systems.Kimchi.PoseidonGate.Output.{
  IsTall, IsShown, generate_witness-poseidon_block_cipher,
}

abbrev params : ArithmeticSpongeParams Fp
params = record {
  round_constants = replicate 55 (row 1 2 3);
  mds = row 2 1 1 ∷ row 1 2 1 ∷ row 1 1 2 ∷ [];
}

fit : (n : ℕ) → All (λ cells. length cells ≤ 3) (replicate n (row 1 2 3))
fit zero = tt
fit (suc n) = (omega arith, fit n)

params-IsParams : IsParams kimchi params
params-IsParams = record {
  rate_pos = omega arith;
  full_mds = refl;
  full_rounds_only = refl;
  mds_rows = refl;
  enough = omega arith;
  rows_fit = fit 55;
}

blank : Columns Fp
blank = λ j. replicate 14 pallas.zero

blank-IsTall : IsTall (2 + 11) blank
unfolding blank
blank-IsTall = λ j h. omega arith

generate_witness-poseidon_block_cipher_example :
    (w' : Columns Fp) × (st : List Fp) × (generate_witness 2 params blank
        (element 5)
        (element 6)
        (element 7)
      ≡ ok w')
    × (poseidon_block_cipher kimchi params (row 5 6 7) ≡ ok st)
    × IsShown 0 13 st w'
generate_witness-poseidon_block_cipher_example =
    generate_witness-poseidon_block_cipher params params-IsParams 2 blank (element 5) (element 6)
      (element 7) blank-IsTall

-- The state after `n` rounds, which has a value here
abbrev run_of : Outcome (List Fp) → List Fp
run_of (ok st) = st
run_of (panic e) = []

abbrev after : ℕ → List Fp
after n = run_of (full_rounds kimchi params n 0 (row 5 6 7))

-- Two rows of a witness of five rounds
abbrev five_rounds : Columns Fp
five_rounds = λ j.
    get_or (after 0 ++ after 4 ++ after 1 ++ after 2 ++ after 3) j pallas.zero
    ∷ get_or (after 5) j pallas.zero
    ∷ []

abbrev coeffs : List Fp
coeffs = row 1 2 3 ++ row 1 2 3 ++ row 1 2 3 ++ row 1 2 3 ++ row 1 2 3

coeffs-constants : rc poseidon coeffs ≡ ok (replicate 5 (row 1 2 3))
unfolding rc build
coeffs-constants = refl

five_rounds-verify_poseidon : verify_poseidon poseidon coeffs 0 five_rounds params.mds ≡ ok valid
unfolding verify_poseidon ensure rc build read_state check_rounds check_cells mix sbox full_rounds
    full_round apply_mds_matrix add_constants add_row dot residues residue
five_rounds-verify_poseidon = refl

coeffs-same :
    (j : ℕ)
    → j < 5
    → get_elem? params.round_constants (0 + j) ≡ get_elem? (replicate 5 (row 1 2 3)) j
coeffs-same zero h = refl
coeffs-same (suc zero) h = refl
coeffs-same (suc (suc zero)) h = refl
coeffs-same (suc (suc (suc zero))) h = refl
coeffs-same (suc (suc (suc (suc zero)))) h = refl
coeffs-same (suc (suc (suc (suc (suc j))))) h = absurd (omega (arith, h))

verify_poseidon-full_rounds_example :
    (st : List Fp) × (st' : List Fp) × (read_state five_rounds 0 0 ≡ ok st)
    × (read_state five_rounds 1 0 ≡ ok st')
    × (full_rounds kimchi params 5 0 st ≡ ok st')
verify_poseidon-full_rounds_example =
    verify_poseidon-full_rounds pallas-IsRing params (row 2 1 1) (row 1 2 1) (row 1 1 2) refl coeffs
      (replicate 5 (row 1 2 3)) 0 0 five_rounds coeffs-constants coeffs-same
      five_rounds-verify_poseidon
