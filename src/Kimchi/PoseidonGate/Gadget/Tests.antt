-- ===== src/Kimchi/PoseidonGate/Gadget/Tests.antt =====
-- A gadget over the residues modulo five, whose rounds do not change the state 1, 2, 3.
use proof_systems.Prelude.{
  All, ℕ, zero, suc, length, ◌≤◌, ◌+◌, ◌%◌, ◌≡◌, refl, sym, ap, ◌∙◌, none, some, List, [], ◌∷◌,
  ◌++◌, replicate, get_elem?, arith,
}
use proof_systems.Outcome.{build, Outcome, ok, panic}
use proof_systems.Field.Residue.{residue, residues}
use proof_systems.Field.Five.{F5, five, el, five-IsRing}
use proof_systems.Oracle.Constants.{kimchi}
use proof_systems.Oracle.Permutation.{ArithmeticSpongeParams, poseidon_block_cipher, sbox}
use proof_systems.Oracle.Permutation.Total.{IsParams}
use proof_systems.Kimchi.Gates.{Columns, ensure, valid}
use proof_systems.Kimchi.Circuit.{CircuitGate, new_wires, zero_gate}
use proof_systems.Kimchi.PoseidonGate.Verify.{
  read_state, rc, mix, check_cells, check_rounds, verify_poseidon,
}
use proof_systems.Kimchi.PoseidonGate.Gadget.{
  create_poseidon, row_coeffs, gadget_rows, create_poseidon_gadget,
}
use proof_systems.Kimchi.PoseidonGate.Gadget.Sound.{create_poseidon_gadget-poseidon_block_cipher}

abbrev cells : ℕ → ℕ → ℕ → List F5
cells a b c = el a ∷ el b ∷ el c ∷ []

abbrev params : ArithmeticSpongeParams F5
params = record {
  round_constants = replicate 55 (cells 4 3 0);
  mds = cells 2 1 1 ∷ cells 1 2 1 ∷ cells 1 1 2 ∷ [];
}

fit : (n : ℕ) → All (λ row. length row ≤ 3) (replicate n (cells 4 3 0))
fit zero = tt
fit (suc n) = (omega arith, fit n)

params-IsParams : IsParams kimchi params
params-IsParams = record {
  rate_pos = omega arith;
  full_mds = refl;
  full_rounds_only = refl;
  mds_rows = refl;
  enough = omega arith;
  rows_fit = fit 55;
}

widths :
    (n i : ℕ) (xs : List F5) → get_elem? (replicate n (cells 4 3 0)) i ≡ some xs → length xs ≡ 3
widths zero i xs e = cc
widths (suc n) zero xs e = let same : cells 4 3 0 ≡ xs = cc in sym (ap length same)
widths (suc n) (suc i) xs e = widths n i xs e

abbrev witness : Columns F5
witness = λ j. replicate 14 (el (j % 3 + 1))

abbrev made_of : {A : Type 0} → Outcome (List A) → List A
made_of (ok xs) = xs
made_of (panic e) = []

gates : List (CircuitGate F5)
gates = made_of (gadget_rows 11 2 0 (new_wires 2) params.round_constants)

gadget-created :
    create_poseidon_gadget 2 (new_wires 2) (new_wires 13) params.round_constants
    ≡ ok (gates ++ zero_gate (new_wires 13) ∷ [], 13)
unfolding gates create_poseidon_gadget gadget_rows row_coeffs build
gadget-created = refl

abbrev Checked : List (CircuitGate F5) → ℕ → Type 0
Checked [] row = Unit
Checked (gate ∷ rest) row =
    (verify_poseidon gate.typ gate.coeffs row witness params.mds ≡ ok valid)
    × Checked rest (row + 1)

Checked-Verifies :
    (checked : List (CircuitGate F5)) (row : ℕ)
    → Checked checked row
    → (i : ℕ) (g : CircuitGate F5) → get_elem? checked i ≡ some g
    → verify_poseidon g.typ g.coeffs (row + i) witness params.mds ≡ ok valid
Checked-Verifies [] row h i g e = absurd (let none_is : none ≡ some g = e in cc)
Checked-Verifies (gate ∷ rest) row h zero g e =
    let same : gate ≡ g = cc in
    let here : row + 0 ≡ row = omega arith in
    ap (λ t. verify_poseidon g.typ g.coeffs t witness params.mds) here
    ∙ ap (λ t. verify_poseidon t.typ t.coeffs row witness params.mds) (sym same)
    ∙ h.0
Checked-Verifies (gate ∷ rest) row h (suc i) g e =
    ap (λ t. verify_poseidon g.typ g.coeffs t witness params.mds)
      (let next : row + suc i ≡ row + 1 + i = omega arith in next)
    ∙ Checked-Verifies rest (row + 1) h.1 i g e

gates-Checked : Checked gates 2
unfolding gates create_poseidon gadget_rows row_coeffs verify_poseidon ensure rc build read_state
    check_rounds check_cells mix sbox residues residue
gates-Checked =
    (refl, (refl, (refl, (refl, (refl, (refl, (refl, (refl, (refl, (refl, (refl, tt)))))))))))

first-state : read_state witness 2 0 ≡ ok (cells 1 2 3)
unfolding read_state build
first-state = refl

create_poseidon_gadget-poseidon_block_cipher_example :
    (st' : List F5) × (read_state witness 13 0 ≡ ok st')
    × (poseidon_block_cipher kimchi params (cells 1 2 3) ≡ ok st')
create_poseidon_gadget-poseidon_block_cipher_example =
    create_poseidon_gadget-poseidon_block_cipher five-IsRing params params-IsParams (cells 2 1 1)
      (cells 1 2 1) (cells 1 1 2) refl (widths 55) witness 2 13 (new_wires 2) (new_wires 13) gates
      (cells 1 2 3) gadget-created (Checked-Verifies gates 2 gates-Checked) first-state
