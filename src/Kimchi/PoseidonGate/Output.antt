-- ===== src/Kimchi/PoseidonGate/Output.antt =====
-- kimchi/src/circuits/polynomials/poseidon.rs: the last row of the witness is the permutation.
use proof_systems.Prelude.{
  ℕ, zero, suc, ◌+◌, ◌*◌, ◌%◌, ◌==◌, ◌≤◌, ◌<◌, ◌≡◌, refl, sym, ap, ◌∙◌, false, lt→ltb, List, [],
  ◌∷◌, length, set, get_elem?, arith, if◌then◌else◌, Bool-cases, inl, inr, ==_iff, length-set,
  get_elem?-set_self,
}
use proof_systems.Outcome.{ok, ◌>>=◌, bind_assoc, bind_congr}
use proof_systems.Field.{Field}
use proof_systems.Oracle.Constants.{kimchi}
use proof_systems.Oracle.Permutation.{
  ArithmeticSpongeParams, full_round, full_rounds, poseidon_block_cipher,
}
use proof_systems.Oracle.Permutation.Total.{IsParams, full_round_total}
use proof_systems.Oracle.Sponge.{ArithmeticSponge, sponge_full_round}
use proof_systems.Oracle.Sponge
use proof_systems.Kimchi.Gates.{Columns}
use proof_systems.Kimchi.PoseidonGate.{
  write_cell, write_state, witness_round, witness_rounds, witness_rows, generate_witness,
  round_to_cols,
}

-- Every column has more than `n` cells.
abbrev pub IsTall : {F : Type 0} → ℕ → Columns F → Type 0
IsTall n w = (j : ℕ) → j < 15 → n < length (w j)

-- Three columns show a state in a row.
abbrev pub IsShown : {F : Type 0} → ℕ → ℕ → List F → Columns F → Type 0
IsShown col row st w =
    (get_elem? (w col) row ≡ get_elem? st 0)
    × (get_elem? (w (col + 1)) row ≡ get_elem? st 1)
    × (get_elem? (w (col + 2)) row ≡ get_elem? st 2)

module _ {F : Type 0} where
  write_cell_total :
      (n col row : ℕ) (x : F) (w : Columns F)
      → IsTall n w
      → col < 15
      → row ≤ n
      → (w' : Columns F) × (write_cell w col row x ≡ ok w')
        × IsTall n w'
        × (w' col ≡ set (w col) row x)
        × ((j : ℕ) → (j == col) ≡ false → w' j ≡ w j)
  unfolding write_cell
  write_cell_total n col row x w tall h le =
      let room = tall col h in
      (
        λ j. if j == col then set (w j) row x else w j,
        rw (lt→ltb row (length (w col)) (omega arith)) refl,
        λ j l. elim (Bool-cases (j == col)) [
          | inl e ↦ rw (e, length-set (w j) row x) (tall j l)
          | inr e ↦ rw e (tall j l)
        ],
        rw ((==_iff col col).1 refl) refl,
        λ j e. rw e refl,
      )

  -- A state of three elements, written to three columns.
  write_state_total :
      (n col row : ℕ) (a b c : F) (w : Columns F)
      → IsTall n w
      → col + 2 < 15
      → row ≤ n
      → (w' : Columns F) × (write_state 3 col row (a ∷ b ∷ c ∷ []) w ≡ ok w')
        × IsTall n w'
        × IsShown col row (a ∷ b ∷ c ∷ []) w'
  unfolding write_state
  write_state_total n col row a b c w tall h le =
      let (w1, run1, tall1, here1, rest1) = write_cell_total n col row a w tall (omega arith) le in
      let (w2, run2, tall2, here2, rest2) =
        write_cell_total n (col + 1) row b w1 tall1 (omega arith) le in
      let (w3, run3, tall3, here3, rest3) =
        write_cell_total n (col + 2) row c w2 tall2 (omega arith) le in
      (
        w3,
        rw (run1, run2)
            (ap (λ t. write_cell w2 t row c >>= λ v. ok v)
                (let e : col + 1 + 1 ≡ col + 2 = omega arith in e)
              ∙ rw run3 refl),
        tall3,
        (
          ap (λ t. get_elem? t row)
                (rest3 col (let e : (col == col + 2) ≡ false = ground arith in e)
                  ∙ rest2 col (let e : (col == col + 1) ≡ false = ground arith in e)
                  ∙ here1)
              ∙ get_elem?-set_self (w col) row a (let room = tall col (omega arith) in omega arith),
          ap (λ t. get_elem? t row)
                (rest3 (col + 1) (let e : (col + 1 == col + 2) ≡ false = ground arith in e) ∙ here2)
              ∙ get_elem?-set_self (w1 (col + 1)) row b
                  (let room = tall1 (col + 1) (omega arith) in omega arith),
          ap (λ t. get_elem? t row) here3
              ∙ get_elem?-set_self (w2 (col + 2)) row c
                  (let room = tall2 (col + 2) (omega arith) in omega arith),
        ),
      )

  write_list_total :
      (n col row : ℕ) (st : List F) (w : Columns F)
      → IsTall n w
      → col + 2 < 15
      → row ≤ n
      → length st ≡ 3
      → (w' : Columns F) × (write_state 3 col row st w ≡ ok w')
        × IsTall n w'
        × IsShown col row st w'
  write_list_total n col row [] w tall h le long = absurd (omega (arith, long))
  write_list_total n col row (a ∷ []) w tall h le long = absurd (omega (arith, long))
  write_list_total n col row (a ∷ b ∷ []) w tall h le long = absurd (omega (arith, long))
  write_list_total n col row (a ∷ b ∷ c ∷ []) w tall h le long =
      write_state_total n col row a b c w tall h le
  write_list_total n col row (a ∷ b ∷ c ∷ d ∷ st) w tall h le long = absurd (omega (arith, long))

next_cols_lt : (round : ℕ) → round < 5 → round_to_cols ((round + 1) % 5) + 2 < 15
next_cols_lt zero h = omega arith
next_cols_lt (suc zero) h = omega arith
next_cols_lt (suc (suc zero)) h = omega arith
next_cols_lt (suc (suc (suc zero))) h = omega arith
next_cols_lt (suc (suc (suc (suc zero)))) h = omega arith
next_cols_lt (suc (suc (suc (suc (suc round))))) h = absurd (omega arith)

module _ {F : Type 0} ⦃f : Field F⦄ (params : ArithmeticSpongeParams F)
    (p : IsParams kimchi params) where
  -- What a round of the witness does: it is a round of the permutation, and its state is shown.
  witness_round_total :
      (n row row_idx round : ℕ) (s : ArithmeticSponge F) (w : Columns F)
      → s.params ≡ params
      → length s.state ≡ 3
      → IsTall n w
      → row + 1 ≤ n
      → round < 5
      → round + row_idx * 5 < length params.round_constants
      → (s' : ArithmeticSponge F) × (w' : Columns F) × (witness_round row row_idx round (s, w)
          ≡ ok (s', w'))
        × (s'.params ≡ params)
        × (length s'.state ≡ 3)
        × IsTall n w'
        × (full_round kimchi params s.state (round + row_idx * 5) ≡ ok s'.state)
        × IsShown
            (round_to_cols ((round + 1) % 5))
            (if round == 4 then row + 1 else row)
            s'.state
            w'
  unfolding witness_round sponge_full_round
  witness_round_total n row row_idx round s w same wide tall room small enough =
      let (st, run, long) =
        full_round_total kimchi params p (round + row_idx * 5) s.state enough wide in
      let target : ℕ = if round == 4 then row + 1 else row in
      let le : target ≤ n = ground arith in
      let (w', write, tall', shown) =
        write_list_total n (round_to_cols ((round + 1) % 5)) target st w tall
          (next_cols_lt round small) le long in
      (record s { state = st }, w', rw (same, run) (rw write refl), same, long, tall', run, shown)

  -- `count` rounds up to the last of a row, and the state of the last in the next row.
  witness_rounds_total :
      (n row row_idx count round : ℕ) (s : ArithmeticSponge F) (w : Columns F)
      → s.params ≡ params
      → length s.state ≡ 3
      → IsTall n w
      → row + 1 ≤ n
      → count + round ≡ 5
      → 5 + row_idx * 5 ≤ length params.round_constants
      → (s' : ArithmeticSponge F) × (w' : Columns F) × (witness_rounds count row row_idx round
            (s, w)
          ≡ ok (s', w'))
        × (s'.params ≡ params)
        × (length s'.state ≡ 3)
        × IsTall n w'
        × (full_rounds kimchi params count (round + row_idx * 5) s.state ≡ ok s'.state)
        × (0 < count → IsShown 0 (row + 1) s'.state w')
  unfolding witness_rounds full_rounds
  witness_rounds_total n row row_idx zero round s w same wide tall room total enough =
      (s, w, refl, same, wide, tall, refl, λ h. absurd (omega arith))
  witness_rounds_total n row row_idx (suc zero) round s w same wide tall room total enough =
      let (s1, w1, run1, same1, wide1, tall1, full1, shown1) =
        witness_round_total n row row_idx round s w same wide tall room (omega arith)
          (omega arith) in
      let four : round ≡ 4 = omega arith in
      (s1, w1, rw run1 refl, same1, wide1, tall1, rw full1 refl, λ h. rw four at shown1)
  witness_rounds_total n row row_idx (suc (suc count)) round s w same wide tall room total enough =
      let (s1, w1, run1, same1, wide1, tall1, full1, shown1) =
        witness_round_total n row row_idx round s w same wide tall room (omega arith)
          (omega arith) in
      let (s2, w2, run2, same2, wide2, tall2, full2, shown2) =
        witness_rounds_total n row row_idx (suc count) (round + 1) s1 w1 same1 wide1 tall1 room
          (omega arith) enough in
      (
        s2,
        w2,
        rw run1 run2,
        same2,
        wide2,
        tall2,
        rw full1 (ap (λ t. full_rounds kimchi params (suc count) t s1.state) (omega arith) ∙ full2),
        λ h. shown2 (omega arith),
      )

  pub full_rounds-add :
      (m k r : ℕ) (st : List F)
      → full_rounds kimchi params (m + k) r st
        ≡ (full_rounds kimchi params m r st >>= full_rounds kimchi params k (r + m))
  unfolding full_rounds
  full_rounds-add zero k r st =
      ap (λ t. full_rounds kimchi params t r st) (let e : 0 + k ≡ k = omega arith in e)
      ∙ ap (λ t. full_rounds kimchi params k t st) (let e : r ≡ r + 0 = omega arith in e)
  full_rounds-add (suc m) k r st =
      ap (λ t. full_rounds kimchi params t r st)
        (let e : suc m + k ≡ suc (m + k) = omega arith in e)
      ∙ bind_congr (full_round kimchi params st r) _ _ (λ s.
        full_rounds-add m k (r + 1) s
        ∙ ap (λ t. full_rounds kimchi params m (r + 1) s >>= full_rounds kimchi params k t)
            (let e : r + 1 + m ≡ r + suc m = omega arith in e))
      ∙ sym (bind_assoc (full_round kimchi params st r) (full_rounds kimchi params m (r + 1)) _)

  no_rounds : (st : List F) (r : ℕ) → full_rounds kimchi params 0 r st ≡ ok st
  unfolding full_rounds
  no_rounds st r = refl

  -- `count` rows, and the state of the last in the row behind them.
  witness_rows_total :
      (n row count row_idx : ℕ) (s : ArithmeticSponge F) (w : Columns F)
      → s.params ≡ params
      → length s.state ≡ 3
      → IsTall n w
      → row + row_idx + count ≤ n
      → (row_idx + count) * 5 ≤ length params.round_constants
      → (s' : ArithmeticSponge F) × (w' : Columns F) × (witness_rows count row row_idx (s, w)
          ≡ ok (s', w'))
        × (full_rounds kimchi params (5 * count) (row_idx * 5) s.state ≡ ok s'.state)
        × (0 < count → IsShown 0 (row + row_idx + count) s'.state w')
  unfolding witness_rows
  witness_rows_total n row zero row_idx s w same wide tall room enough =
      (s, w, refl, no_rounds s.state (row_idx * 5), λ h. absurd (omega arith))
  witness_rows_total n row (suc zero) row_idx s w same wide tall room enough =
      let (s1, w1, run1, same1, wide1, tall1, full1, shown1) =
        witness_rounds_total n (row + row_idx) row_idx 5 0 s w same wide tall (omega arith) refl
          (omega arith) in
      (
        s1,
        w1,
        rw run1 refl,
        ap (λ t. full_rounds kimchi params 5 t s.state)
              (let e : row_idx * 5 ≡ 0 + row_idx * 5 = omega arith in e)
            ∙ full1,
        λ h. shown1 (omega arith),
      )
  witness_rows_total n row (suc (suc count)) row_idx s w same wide tall room enough =
      let (s1, w1, run1, same1, wide1, tall1, full1, shown1) =
        witness_rounds_total n (row + row_idx) row_idx 5 0 s w same wide tall (omega arith) refl
          (omega arith) in
      let (s2, w2, run2, full2, shown2) =
        witness_rows_total n row (suc count) (row_idx + 1) s1 w1 same1 wide1 tall1 (omega arith)
          (omega arith) in
      let last : row + (row_idx + 1) + suc count ≡ row + row_idx + suc (suc count) = omega arith in
      (
        s2,
        w2,
        rw run1 run2,
        ap (λ t. full_rounds kimchi params t (row_idx * 5) s.state)
              (let e : 5 * suc (suc count) ≡ 5 + 5 * suc count = omega arith in e)
            ∙ full_rounds-add 5 (5 * suc count) (row_idx * 5) s.state
            ∙ ap
                (λ t.
                  full_rounds kimchi params 5 t s.state
                  >>= full_rounds kimchi params (5 * suc count) (row_idx * 5 + 5))
                (let e : row_idx * 5 ≡ 0 + row_idx * 5 = omega arith in e)
            ∙ ap (λ o. o >>= full_rounds kimchi params (5 * suc count) (row_idx * 5 + 5)) full1
            ∙ ap (λ t. full_rounds kimchi params (5 * suc count) t s1.state)
                (let e : row_idx * 5 + 5 ≡ (row_idx + 1) * 5 = omega arith in e)
            ∙ full2,
        λ h. rw last at shown2 (omega arith),
      )

  -- For valid parameters, with at least 55 rows of round constants, and columns that reach the eleventh
  -- row behind the first, the witness of an input is made, and its last row shows what the permutation
  -- makes of the input.
  pub generate_witness-poseidon_block_cipher :
      (row : ℕ) (witness_cols : Columns F) (i0 i1 i2 : F)
      → IsTall (row + 11) witness_cols
      → (w' : Columns F) × (st : List F) × (generate_witness row params witness_cols i0 i1 i2
          ≡ ok w')
        × (poseidon_block_cipher kimchi params (i0 ∷ i1 ∷ i2 ∷ []) ≡ ok st)
        × IsShown 0 (row + 11) st w'
  unfolding generate_witness poseidon_block_cipher Sponge.new
  generate_witness-poseidon_block_cipher row witness_cols i0 i1 i2 tall =
      let input = i0 ∷ i1 ∷ i2 ∷ [] in
      let (w, run, tall1, _) =
        write_list_total (row + 11) 0 row input witness_cols tall (omega arith) (omega arith)
          refl in
      let s : ArithmeticSponge F = record (Sponge.new kimchi params) { state = input } in
      let rounds = p.enough in
      let (s', w', run', full, shown) =
        witness_rows_total (row + 11) row 11 0 s w refl refl tall1 (omega arith) (omega arith) in
      let last : row + 0 + 11 ≡ row + 11 = omega arith in
      (w', s'.state, rw run (rw run' refl), full, rw last at shown (omega arith))
