-- ===== src/Kimchi/PoseidonGate/Verify.antt =====
-- kimchi/src/circuits/polynomials/poseidon.rs: the verification of a row of the Poseidon gate.
pub mod Sound
use proof_systems.Prelude.{ℕ, zero, suc, ◌+◌, ◌*◌, ◌==◌, List, [], ◌∷◌, ◌++◌, if◌then◌else◌}
use proof_systems.Outcome.{Outcome, ok, ◌>>=◌, build}
use proof_systems.Field.{Field, ◌⊕◌, ◌⊗◌}
use proof_systems.Oracle.Constants.{kimchi}
use proof_systems.Oracle.Permutation.{at, sbox}
use proof_systems.Kimchi.Gates.{
  Columns, GateType, poseidon, discriminant, GateResult, valid, ensure,
}
use proof_systems.Kimchi.PoseidonGate.{sponge_width, rounds_per_row, round_to_cols}

module _ {F : Type 0} where
  -- `witness[cols].iter().map(|col| col[row])`
  unfoldable pub read_state : Columns F → ℕ → ℕ → Outcome (List F)
  read_state witness row start = build sponge_width start (λ col. at (witness col) row)

module _ {F : Type 0} ⦃f : Field F⦄ where
  unfoldable pub rc : GateType → List F → Outcome (List (List F))
  rc typ coeffs = build rounds_per_row 0 (λ round. build sponge_width 0 (λ col.
      if discriminant typ == discriminant poseidon
      then at coeffs (sponge_width * round + col)
      else ok f.zero))

  -- The innermost loop, from `new_state`
  unfoldable pub mix : F → List F → List F → F
  mix new_state [] mds = new_state
  mix new_state (s ∷ state) [] = new_state
  mix new_state (s ∷ state) (m ∷ mds) = mix (new_state ⊕ sbox kimchi s ⊗ m) state mds

  -- The loop over the rows of the matrix, from `i` on, before what follows
  unfoldable pub check_cells :
      List (List F) → ℕ → List F → List F → List F → Outcome GateResult → Outcome GateResult
  check_cells [] i constants state next rest = rest
  check_cells (m ∷ mds) i constants state next rest = do
    c ← at constants i
    t ← at next i
    ensure (f.beq (mix c state m) t) "poseidon: permutation of state is incorrect"
        (check_cells mds (i + 1) constants state next rest)

  -- `n` rounds from `round` on
  unfoldable pub check_rounds :
      List (List F) → List (List F) → List (List F) → ℕ → ℕ → Outcome GateResult
  check_rounds mds constants states zero round = ok valid
  check_rounds mds constants states (suc n) round = do
    state ← at states round
    next ← at states (round + 1)
    c ← at constants round
    check_cells mds 0 c state next (check_rounds mds constants states n (round + 1))

  unfoldable pub verify_poseidon :
      GateType → List F → ℕ → Columns F → List (List F) → Outcome GateResult
  verify_poseidon typ coeffs row witness mds =
      ensure (discriminant typ == discriminant poseidon) "incorrect gate type (should be poseidon)"
        (do
          states ← build rounds_per_row 0 (λ round. read_state witness row (round_to_cols round))
          last_state ← read_state witness (row + 1) (round_to_cols 0)
          constants ← rc typ coeffs
          check_rounds mds constants (states ++ last_state ∷ []) rounds_per_row 0)
