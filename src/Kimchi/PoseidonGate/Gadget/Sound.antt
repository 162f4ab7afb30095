-- ===== src/Kimchi/PoseidonGate/Gadget/Sound.antt =====
-- kimchi/src/circuits/polynomials/poseidon.rs: rows that verify for the gadget compute the permutation.
use proof_systems.Prelude.{
  ℕ, zero, suc, Option, none, ◌+◌, ◌*◌, ◌<◌, ◌≡◌, refl, sym, ap, ◌∙◌, some, List, [], ◌∷◌, ◌++◌,
  length, get_elem?, arith, get_elem?-lt_length,
}
use proof_systems.Outcome.{build, expect, ok, ◌>>=◌, ok-injective}
use proof_systems.Field.{Field, IsRing}
use proof_systems.Oracle.Constants.{kimchi}
use proof_systems.Oracle.Permutation.{
  ArithmeticSpongeParams, at, full_rounds, poseidon_block_cipher,
}
use proof_systems.Oracle.Permutation.Total.{IsParams}
use proof_systems.Kimchi.Gates.{Columns, valid, poseidon}
use proof_systems.Kimchi.Circuit.{Wire, CircuitGate, zero_gate}
use proof_systems.Kimchi.PoseidonGate.Output.{full_rounds-add}
use proof_systems.Kimchi.PoseidonGate.Verify.{read_state, rc, verify_poseidon}
use proof_systems.Kimchi.PoseidonGate.Verify.Sound.{
  returned, three, length-build, get_elem?-build, verify_poseidon-full_rounds,
}
use proof_systems.Kimchi.PoseidonGate.Gadget.{
  flatten, create_poseidon, row_coeffs, gadget_rows, create_poseidon_gadget,
}

snoc-injective : {A : Type 0} (x : A) (xs ys : List A) → xs ++ x ∷ [] ≡ ys ++ x ∷ [] → xs ≡ ys
snoc-injective x [] [] h = refl
snoc-injective x [] (y ∷ []) h = cc
snoc-injective x [] (y ∷ z ∷ ys) h = cc
snoc-injective x (y ∷ []) [] h = cc
snoc-injective x (y ∷ z ∷ xs) [] h = cc
snoc-injective x (y ∷ xs) (z ∷ ys) h =
    let tails : xs ++ x ∷ [] ≡ ys ++ x ∷ [] = cc in let same = snoc-injective x xs ys tails in cc

module _ {F : Type 0} ⦃f : Field F⦄ where
  five :
      (P : List (List F) → Type 0)
      → ((a b c d e : List F) → P (a ∷ b ∷ c ∷ d ∷ e ∷ []))
      → (xss : List (List F)) → length xss ≡ 5
      → P xss
  five P k [] h = absurd (omega (arith, h))
  five P k (a ∷ []) h = absurd (omega (arith, h))
  five P k (a ∷ b ∷ []) h = absurd (omega (arith, h))
  five P k (a ∷ b ∷ c ∷ []) h = absurd (omega (arith, h))
  five P k (a ∷ b ∷ c ∷ d ∷ []) h = absurd (omega (arith, h))
  five P k (a ∷ b ∷ c ∷ d ∷ e ∷ []) h = k a b c d e
  five P k (a ∷ b ∷ c ∷ d ∷ e ∷ g ∷ xss) h = absurd (omega (arith, h))

  -- The coefficients of a gate are read as they were given.
  rc-flatten :
      (coeffs : List (List F))
      → length coeffs ≡ 5
      → ((j : ℕ) (c : List F) → get_elem? coeffs j ≡ some c → length c ≡ 3)
      → rc poseidon (flatten coeffs) ≡ ok coeffs
  unfolding rc build
  rc-flatten coeffs n =
      five
        (λ xss.
          ((j : ℕ) (c : List F) → get_elem? xss j ≡ some c → length c ≡ 3)
          → rc poseidon (flatten xss) ≡ ok xss)
        (λ a b c d e widths.
          let (_, _, _, ea) = three a (widths 0 a refl) in
          let (_, _, _, eb) = three b (widths 1 b refl) in
          let (_, _, _, ec) = three c (widths 2 c refl) in
          let (_, _, _, ed) = three d (widths 3 d refl) in
          let (_, _, _, ee) = three e (widths 4 e refl) in rw (ea, eb, ec, ed, ee) refl)
        coeffs n

  whole_row :
      (o : Option (List F)) (c : List F)
      → ((xs : List F) → o ≡ some xs → length xs ≡ 3)
      → build 3 0 (λ field_el. do constants ← expect o "index out of bounds"; at constants field_el)
        ≡ ok c
      → o ≡ some c
  unfolding build
  whole_row none c widths h = cc
  whole_row (some xs) c widths h =
      let (_, _, _, e) = three xs (widths xs refl) in ap some (e ∙ ok-injective (rw e at h))

  row_coeffs-constants :
      (rcs : List (List F)) (k : ℕ) (coeffs : List (List F))
      → ((i : ℕ) (xs : List F) → get_elem? rcs i ≡ some xs → length xs ≡ 3)
      → row_coeffs rcs k ≡ ok coeffs
      → (j : ℕ) (c : List F) → get_elem? coeffs j ≡ some c
      → get_elem? rcs (k * 5 + j) ≡ some c
  unfolding row_coeffs
  row_coeffs-constants rcs k coeffs widths made j c e =
      ap (λ t. get_elem? rcs (k * 5 + t)) (let same : j ≡ 0 + j = omega arith in same)
      ∙ whole_row (get_elem? rcs (k * 5 + (0 + j))) c (widths (k * 5 + (0 + j)))
          (get_elem?-build 5 0 j _ coeffs c made e)

  row_coeffs-rc :
      (rcs : List (List F)) (k : ℕ) (coeffs : List (List F))
      → ((i : ℕ) (xs : List F) → get_elem? rcs i ≡ some xs → length xs ≡ 3)
      → row_coeffs rcs k ≡ ok coeffs
      → (rc poseidon (flatten coeffs) ≡ ok coeffs)
        × ((j : ℕ) → j < 5 → get_elem? rcs (k * 5 + j) ≡ get_elem? coeffs j)
  unfolding row_coeffs
  row_coeffs-rc rcs k coeffs widths made =
      let five_of = length-build 5 0 _ coeffs made in
      (
        rc-flatten coeffs five_of
            (λ j c e. widths (k * 5 + j) c (row_coeffs-constants rcs k coeffs widths made j c e)),
        λ j small.
            let (c, e) = get_elem?-lt_length coeffs j (omega (arith, five_of, small)) in
            row_coeffs-constants rcs k coeffs widths made j c e ∙ sym e,
      )

module _ {F : Type 0} ⦃f : Field F⦄ (r : IsRing f) (params : ArithmeticSpongeParams F)
    (p : IsParams kimchi params) (m0 m1 m2 : List F) (matrix : params.mds ≡ m0 ∷ m1 ∷ m2 ∷ [])
    (widths : (i : ℕ) (xs : List F) → get_elem? params.round_constants i ≡ some xs → length xs ≡ 3)
    (witness : Columns F) where
  -- Rows from `row` on verify for the gates.
  abbrev pub Verifies : List (CircuitGate F) → ℕ → Type 0
  Verifies gates row =
      (i : ℕ) (gate : CircuitGate F)
      → get_elem? gates i ≡ some gate
      → verify_poseidon gate.typ gate.coeffs (row + i) witness params.mds ≡ ok valid

  gadget_rows-full_rounds :
      (n row rel_row abs_row : ℕ) (first : List Wire) (gates : List (CircuitGate F)) (st : List F)
      → gadget_rows n row rel_row first params.round_constants ≡ ok gates
      → Verifies gates abs_row
      → read_state witness abs_row 0 ≡ ok st
      → (st' : List F) × (read_state witness (abs_row + n) 0 ≡ ok st')
        × (full_rounds kimchi params (n * 5) (rel_row * 5) st ≡ ok st')
  unfolding gadget_rows create_poseidon full_rounds
  gadget_rows-full_rounds zero row rel_row abs_row first gates st made verifies shown =
      (st, ap (λ t. read_state witness t 0) (omega arith) ∙ shown, refl)
  gadget_rows-full_rounds (suc n) row rel_row abs_row first gates st made verifies shown =
      returned (row_coeffs params.round_constants rel_row) _ gates made λ coeffs b1 h1.
        returned (gadget_rows n row (rel_row + 1) first params.round_constants) _ gates h1
          λ rest b2 h2.
            let all = ok-injective h2 in
            let here : abs_row ≡ abs_row + 0 = omega arith in
            let (read, same) = row_coeffs-rc params.round_constants rel_row coeffs widths b1 in
            let (s0, s1, r0, r1, step) =
              verify_poseidon-full_rounds r params m0 m1 m2 matrix (flatten coeffs) coeffs
                (rel_row * 5) abs_row witness read same
                (ap (λ t. verify_poseidon poseidon (flatten coeffs) t witness params.mds) here
                  ∙ verifies 0 _ (ap (λ t. get_elem? t 0) (sym all))) in
            let (st', end, run) =
              gadget_rows-full_rounds n row (rel_row + 1) (abs_row + 1) first rest s1 b2
                (λ i gate e.
                  ap (λ t. verify_poseidon gate.typ gate.coeffs t witness params.mds)
                    (let next : abs_row + 1 + i ≡ abs_row + suc i = omega arith in next)
                  ∙ verifies (suc i) gate (ap (λ t. get_elem? t (suc i)) (sym all) ∙ e))
                r1 in
            let start : s0 ≡ st = ok-injective (sym r0 ∙ shown) in
            (
              st',
              ap (λ t. read_state witness t 0) (omega arith) ∙ end,
              ap (λ t. full_rounds kimchi params t (rel_row * 5) st)
                    (let count : suc n * 5 ≡ 5 + n * 5 = omega arith in count)
                  ∙ full_rounds-add params p 5 (n * 5) (rel_row * 5) st
                  ∙ ap (λ m. m >>= full_rounds kimchi params (n * 5) (rel_row * 5 + 5))
                      (ap (full_rounds kimchi params 5 (rel_row * 5)) (sym start) ∙ step)
                  ∙ ap (λ t. full_rounds kimchi params (n * 5) t s1)
                      (let turn : rel_row * 5 + 5 ≡ (rel_row + 1) * 5 = omega arith in turn)
                  ∙ run,
            )

  -- For valid parameters, whose matrix has three rows and whose round constants, 55 at least, have three
  -- elements each: where a gadget is made of the round constants, and the rows from the first on verify for its
  -- Poseidon gates, the last row shows what the permutation makes of the state that the first shows.
  pub create_poseidon_gadget-poseidon_block_cipher :
      (row next : ℕ) (first last : List Wire) (gates : List (CircuitGate F)) (st : List F)
      → create_poseidon_gadget row first last params.round_constants
        ≡ ok (gates ++ zero_gate last ∷ [], next)
      → Verifies gates row
      → read_state witness row 0 ≡ ok st
      → (st' : List F) × (read_state witness next 0 ≡ ok st')
        × (poseidon_block_cipher kimchi params st ≡ ok st')
  unfolding create_poseidon_gadget poseidon_block_cipher
  create_poseidon_gadget-poseidon_block_cipher row next first last gates st made verifies shown =
      returned (gadget_rows 11 row 0 first params.round_constants) _ _ made λ rows b h.
        let both = ok-injective h in
        let same : rows ≡ gates = snoc-injective (zero_gate last) rows gates (ap (λ t. t.0) both) in
        let end : row + 11 ≡ next = ap (λ t. t.1) both in
        let (st', reads, run) =
          gadget_rows-full_rounds 11 row 0 row first gates st (b ∙ ap ok same) verifies shown in
        (st', ap (λ t. read_state witness t 0) (sym end) ∙ reads, run)
