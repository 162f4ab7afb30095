-- ===== src/Kimchi/PoseidonGate.antt =====
-- kimchi/src/circuits/polynomials/poseidon.rs: the witness of the Poseidon permutation.
pub mod Output
pub mod Verify
pub mod Gadget
mod Tests
use proof_systems.Prelude.{
  ℕ, zero, suc, ◌+◌, ◌*◌, ◌%◌, ◌==◌, ltb, true, false, List, [], ◌∷◌, length, set, get_or,
  if◌then◌else◌,
}
use proof_systems.Outcome.{Outcome, ok, panic, guard, ◌>>=◌, ◌>>◌}
use proof_systems.Field.{Field}
use proof_systems.Oracle.Constants.{kimchi}
use proof_systems.Oracle.Permutation.{ArithmeticSpongeParams}
use proof_systems.Oracle.Sponge.{ArithmeticSponge, sponge_full_round}
use proof_systems.Oracle.Sponge
use proof_systems.Kimchi.Gates.{Columns}

-- `COLUMNS` and the constants that follow from it: three cells for a state, five states in a row, and
-- eleven rows.
abbrev pub sponge_width : ℕ
sponge_width = 3

abbrev pub rounds_per_row : ℕ
rounds_per_row = 5

abbrev pub pos_rows_per_hash : ℕ
pos_rows_per_hash = 11

abbrev pub state_order : List ℕ
state_order = 0 ∷ 2 ∷ 3 ∷ 4 ∷ 1 ∷ []

-- The first column of the range.
abbrev pub round_to_cols : ℕ → ℕ
round_to_cols i = get_or state_order i 0 * sponge_width

module _ {F : Type 0} where
  -- `witness_cols[col][row] = x`
  unfoldable pub write_cell : Columns F → ℕ → ℕ → F → Outcome (Columns F)
  write_cell w col row x =
      if ltb row (length (w col))
      then ok (λ j. if j == col then set (w j) row x else w j)
      else panic "index out of bounds"

  -- A row of `n` columns from `col` on is zipped with a state.
  unfoldable pub write_state : ℕ → ℕ → ℕ → List F → Columns F → Outcome (Columns F)
  write_state zero col row state w = ok w
  write_state (suc n) col row [] w = ok w
  write_state (suc n) col row (s ∷ state) w =
      write_cell w col row s >>= write_state n (col + 1) row state

module _ {F : Type 0} ⦃f : Field F⦄ where
  -- The body of the inner loop of `generate_witness`
  unfoldable pub witness_round :
      ℕ → ℕ → ℕ → ArithmeticSponge F × Columns F → Outcome (ArithmeticSponge F × Columns F)
  witness_round row row_idx round (sponge, w) = do
    let maybe_next_row = if round == 4 then row + 1 else row
    guard (if kimchi.initial_ark then false else true)
        "this won't work if the circuit has an INITIAL_ARK"
    sponge' ← sponge_full_round kimchi sponge (round + row_idx * rounds_per_row)
    w' ←
        write_state sponge_width (round_to_cols ((round + 1) % rounds_per_row)) maybe_next_row
          sponge'.state w
    ok (sponge', w')

  -- `n` rounds, from `round` on
  unfoldable pub witness_rounds :
      ℕ → ℕ → ℕ → ℕ → ArithmeticSponge F × Columns F → Outcome (ArithmeticSponge F × Columns F)
  witness_rounds zero row row_idx round sw = ok sw
  witness_rounds (suc n) row row_idx round sw =
      witness_round row row_idx round sw >>= witness_rounds n row row_idx (round + 1)

  -- `n` rows, from `row_idx` on
  unfoldable pub witness_rows :
      ℕ → ℕ → ℕ → ArithmeticSponge F × Columns F → Outcome (ArithmeticSponge F × Columns F)
  witness_rows zero row row_idx sw = ok sw
  witness_rows (suc n) row row_idx sw =
      witness_rounds rounds_per_row (row + row_idx) row_idx 0 sw
      >>= witness_rows n row (row_idx + 1)

  unfoldable pub generate_witness :
      ℕ → ArithmeticSpongeParams F → Columns F → F → F → F → Outcome (Columns F)
  generate_witness row params witness_cols i0 i1 i2 = do
    w ← write_state sponge_width 0 row (i0 ∷ i1 ∷ i2 ∷ []) witness_cols
    let sponge = record (Sponge.new kimchi params) { state = i0 ∷ i1 ∷ i2 ∷ [] }
    (sponge', w') ← witness_rows pos_rows_per_hash row 0 (sponge, w)
    ok w'
