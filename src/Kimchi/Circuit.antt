-- ===== src/Kimchi/Circuit.antt =====
-- kimchi/src/circuits/wires.rs and gate.rs: wires and gates, and their bytes.
pub mod Bytes
mod Tests
use proof_systems.Prelude.{
  ℕ, zero, suc, ◌+◌, ◌*◌, ◌%◌, ◌^◌, Option, none, some, List, [], ◌∷◌, ◌++◌, length,
}
use proof_systems.Outcome.{Outcome, ok, ◌>>=◌}
use proof_systems.Field.{le_bytes}
use proof_systems.Oracle.Permutation.{at}
use proof_systems.Kimchi.Gates.{GateType, discriminant}

abbrev pub columns : ℕ
columns = 15

abbrev pub permuts : ℕ
permuts = 7

pub record Wire : Type 0 where
  pub row : ℕ
  pub col : ℕ

-- The wires of the cells of a row from `col` on
unfoldable pub wires_from : ℕ → ℕ → ℕ → List Wire
wires_from zero col row = []
wires_from (suc n) col row = record { row = row; col = col } ∷ wires_from n (suc col) row

-- `Wire::new`
unfoldable pub new_wires : ℕ → List Wire
new_wires row = wires_from permuts 0 row

-- `u32` values are written with the least significant byte first.
unfoldable pub write_wire : Wire → List ℕ
write_wire w = le_bytes 4 (w.row % 2 ^ 32) ++ le_bytes 4 (w.col % 2 ^ 32)

-- The value of four bytes, and the bytes behind them
unfoldable pub read_u32 : List ℕ → Option (ℕ × List ℕ)
read_u32 (a ∷ b ∷ c ∷ d ∷ rest) = some (a + 256 * b + 65536 * c + 16777216 * d, rest)
read_u32 _ = none

-- `Wire::read` after its row, and after its column
unfoldable pub with_col : ℕ → Option (ℕ × List ℕ) → Option (Wire × List ℕ)
with_col row none = none
with_col row (some (col, rest)) = some (record { row = row; col = col }, rest)

unfoldable pub with_row : Option (ℕ × List ℕ) → Option (Wire × List ℕ)
with_row none = none
with_row (some (row, rest)) = with_col row (read_u32 rest)

unfoldable pub read_wire : List ℕ → Option (Wire × List ℕ)
read_wire bytes = with_row (read_u32 bytes)

-- `wires` is an array of `PERMUTS` wires.
pub record CircuitGate (F : Type 0) : Type 0 where
  pub typ : GateType
  pub wires : List Wire
  pub coeffs : List F

module _ {F : Type 0} where
  -- `CircuitGate::zero`
  unfoldable pub zero_gate : List Wire → CircuitGate F
  zero_gate wires = record { typ = GateType.zero; wires = wires; coeffs = [] }

  -- The loop over the wires, `n` of them from `i` on
  unfoldable pub write_wires : CircuitGate F → ℕ → ℕ → Outcome (List ℕ)
  write_wires gate zero i = ok []
  write_wires gate (suc n) i = do
    w ← at gate.wires i
    bytes ← write_wires gate n (suc i)
    ok (write_wire w ++ bytes)

  unfoldable pub write_coeffs : (F → List ℕ) → List F → List ℕ
  write_coeffs write_element [] = []
  write_coeffs write_element (x ∷ xs) = write_element x ++ write_coeffs write_element xs

  -- The bytes of a gate, to a writer that does not fail, where those of an element are a parameter
  unfoldable pub write_gate : (F → List ℕ) → CircuitGate F → Outcome (List ℕ)
  write_gate write_element gate = do
    wires ← write_wires gate columns 0
    ok (
        discriminant gate.typ ∷ wires
        ++ length gate.coeffs % 256 ∷ write_coeffs write_element gate.coeffs)
