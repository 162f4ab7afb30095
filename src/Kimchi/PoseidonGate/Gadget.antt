-- ===== src/Kimchi/PoseidonGate/Gadget.antt =====
-- kimchi/src/circuits/polynomials/poseidon.rs: the gates of a Poseidon hash.
pub mod Sound
mod Tests
use proof_systems.Prelude.{ℕ, zero, suc, ◌+◌, ◌*◌, ◌==◌, List, [], ◌∷◌, ◌++◌, if◌then◌else◌}
use proof_systems.Outcome.{Outcome, ok, ◌>>=◌, build}
use proof_systems.Oracle.Permutation.{at}
use proof_systems.Kimchi.Gates.{GateType}
use proof_systems.Kimchi.Circuit.{Wire, new_wires, CircuitGate, zero_gate}
use proof_systems.Kimchi.PoseidonGate.{sponge_width, rounds_per_row, pos_rows_per_hash}

unfoldable pub row_wires : List Wire → ℕ → ℕ → List Wire
row_wires first row rel_row = if rel_row == 0 then first else new_wires (row + rel_row)

module _ {F : Type 0} where
  abbrev pub flatten : List (List F) → List F
  flatten [] = []
  flatten (xs ∷ xss) = xs ++ flatten xss

  unfoldable pub create_poseidon : List Wire → List (List F) → CircuitGate F
  create_poseidon wires coeffs = record {
    typ = GateType.poseidon;
    wires = wires;
    coeffs = flatten coeffs;
  }

  -- The constants of the rounds of a row
  unfoldable pub row_coeffs : List (List F) → ℕ → Outcome (List (List F))
  row_coeffs round_constants rel_row = build rounds_per_row 0 (λ offset.
      build sponge_width 0 (λ field_el. do
        constants ← at round_constants (rel_row * rounds_per_row + offset)
        at constants field_el))

  -- The loop over the rows, `n` of them from `rel_row` on
  unfoldable pub gadget_rows :
      ℕ → ℕ → ℕ → List Wire → List (List F) → Outcome (List (CircuitGate F))
  gadget_rows zero row rel_row first round_constants = ok []
  gadget_rows (suc n) row rel_row first round_constants = do
    coeffs ← row_coeffs round_constants rel_row
    rest ← gadget_rows n row (rel_row + 1) first round_constants
    ok (create_poseidon (row_wires first row rel_row) coeffs ∷ rest)

  -- The gates, and the next row behind them
  unfoldable pub create_poseidon_gadget :
      ℕ → List Wire → List Wire → List (List F) → Outcome (List (CircuitGate F) × ℕ)
  create_poseidon_gadget row first last round_constants = do
    gates ← gadget_rows pos_rows_per_hash row 0 first round_constants
    ok (gates ++ zero_gate last ∷ [], row + pos_rows_per_hash)
