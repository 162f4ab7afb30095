-- ===== src/Kimchi/EndomulScalar.antt =====
-- kimchi/src/circuits/polynomials/endomul_scalar.rs: the gate that computes the scalar of a
-- challenge, its witness and the verification of a row.
pub mod Crumbs
pub mod Rows
use Prim.Native.String.{String}
use mathlib.Core.List.{reverse}
use proof_systems.Prelude.{
  ℕ, zero, suc, ◌+◌, ◌*◌, ◌%◌, ◌==◌, Bool, true, false, List, [], ◌∷◌, ◌++◌, length, take, map,
  if◌then◌else◌,
}
use proof_systems.Outcome.{Outcome, ok, panic, guard, ◌>>=◌, ◌>>◌}
use proof_systems.Field.{Field, ◌⊕◌, ◌⊗◌}
use proof_systems.Oracle.Permutation.{at}
use proof_systems.Oracle.Challenge.{double}
use proof_systems.Oracle.Challenge.Walk.{bit}
use proof_systems.Hasher.Input.{chunks}
use proof_systems.Kimchi.Gates.{
  GateType, endo_mul_scalar, discriminant, GateResult, valid, invalid, ensure, Columns,
}

module _ {F : Type 0} where
  -- `witness_cols[i].push(x)`
  unfoldable pub push : Columns F → ℕ → F → Columns F
  push w i x = λ j. if j == i then w j ++ x ∷ [] else w j

-- `BitIteratorLE` of a `BigInteger256`: its 256 bits, the least first. This is `n` bits from `i`.
unfoldable pub bits_le : ℕ → ℕ → ℕ → List Bool
bits_le zero i v = []
bits_le (suc n) i v = bit v i ∷ bits_le n (suc i) v

pub record Scan (F : Type 0) : Type 0 where
  pub w : Columns F
  pub a : F
  pub b : F
  pub n : F

module _ {F : Type 0} ⦃f : Field F⦄ where
  unfoldable pub c_func : F → Outcome F
  c_func x =
      if f.beq x f.zero
      then ok f.zero
      else (if f.beq x f.one
          then ok f.zero
          else (if f.beq x (f.from_ℕ 2)
              then ok (f.neg f.one)
              else (if f.beq x (f.from_ℕ 3) then ok f.one else panic "c_func")))

  unfoldable pub d_func : F → Outcome F
  d_func x =
      if f.beq x f.zero
      then ok (f.neg f.one)
      else (if f.beq x f.one
          then ok f.one
          else (if f.beq x (f.from_ℕ 2)
              then ok f.zero
              else (if f.beq x (f.from_ℕ 3) then ok f.zero else panic "d_func")))

  -- `F::from(b as u64)`
  abbrev pub of_bool : Bool → F
  of_bool b = f.from_ℕ (if b then 1 else 0)

  unfoldable pub crumb_of : Bool → Bool → F
  crumb_of b1 b0 = of_bool b0 ⊕ double (of_bool b1)

  -- The body of the inner loop of `gen_witness`
  unfoldable pub scan_crumb : ℕ → List Bool → Scan F → Outcome (Scan F)
  scan_crumb j crumb_bits s = do
    b0 ← at crumb_bits 1
    b1 ← at crumb_bits 0
    let crumb = crumb_of b1 b0
    let sign = if b0 then f.one else f.neg f.one
    let a_prev = double s.a
    let a = if b1 then a_prev ⊕ sign else a_prev
    let b = if b1 then double s.b else double s.b ⊕ sign
    c ← c_func crumb
    guard (f.beq a (a_prev ⊕ c)) "assertion failed"
    ok (record { w = push s.w (6 + j) crumb; a = a; b = b; n = double (double s.n) ⊕ crumb })

  unfoldable pub scan_crumbs : ℕ → List (List Bool) → Scan F → Outcome (Scan F)
  scan_crumbs j [] s = ok s
  scan_crumbs j (crumb_bits ∷ rest) s = scan_crumb j crumb_bits s >>= scan_crumbs (suc j) rest

  -- The body of the outer loop
  unfoldable pub scan_row : List Bool → Scan F → Outcome (Scan F)
  scan_row row_bits s = do
    let start = push (push (push s.w 0 s.n) 2 s.a) 3 s.b
    t ← scan_crumbs 0 (chunks 2 (length row_bits) row_bits) (record s { w = start })
    ok (record t { w = push (push (push (push t.w 1 t.n) 4 t.a) 5 t.b) 14 f.zero })

  unfoldable pub scan_rows : List (List Bool) → Scan F → Outcome (Scan F)
  scan_rows [] s = ok s
  scan_rows (row_bits ∷ rest) s = scan_row row_bits s >>= scan_rows rest

  unfoldable pub gen_witness : Columns F → F → F → ℕ → Outcome (F × Columns F)
  gen_witness witness_cols scalar endo_scalar num_bits = do
    guard (num_bits % 16 == 0) "assertion failed"
    let bits_msb = reverse (take num_bits (bits_le 256 0 (f.into_repr scalar)))
    s ←
        scan_rows (chunks 16 (length bits_msb) bits_msb)
          (record { w = witness_cols; a = f.from_ℕ 2; b = f.from_ℕ 2; n = f.zero })
    guard (f.beq scalar s.n) "assertion failed"
    ok (s.a ⊗ endo_scalar ⊕ s.b, s.w)

  -- The fold of `verify_endomul_scalar` with `c_func` or `d_func`
  unfoldable pub fold_with : (F → Outcome F) → List F → F → Outcome F
  fold_with g [] acc = ok acc
  fold_with g (x ∷ xs) acc = g x >>= λ y. fold_with g xs (double acc ⊕ y)

  -- The fold with `acc.double().double() + x`
  unfoldable pub fold_crumbs : List F → F → F
  fold_crumbs [] acc = acc
  fold_crumbs (x ∷ xs) acc = fold_crumbs xs (double (double acc) ⊕ x)

  -- `witness[i][row]` for the columns from `i` on
  unfoldable pub read_cells : Columns F → ℕ → ℕ → ℕ → Outcome (List F)
  read_cells witness row zero i = ok []
  read_cells witness row (suc n) i = do
    x ← at (witness i) row
    xs ← read_cells witness row n (suc i)
    ok (x ∷ xs)

  unfoldable pub verify_endomul_scalar : GateType → ℕ → Columns F → Outcome GateResult
  verify_endomul_scalar typ row witness =
      ensure (discriminant typ == discriminant endo_mul_scalar) "incorrect gate type" (do
        n0 ← at (witness 0) row
        n8 ← at (witness 1) row
        a0 ← at (witness 2) row
        b0 ← at (witness 3) row
        a8 ← at (witness 4) row
        b8 ← at (witness 5) row
        xs ← read_cells witness row 8 6
        let n8_expected = fold_crumbs xs n0
        a8_expected ← fold_with c_func xs a0
        b8_expected ← fold_with d_func xs b0
        ensure (f.beq a8 a8_expected) "a8 incorrect" (
            ensure (f.beq b8 b8_expected) "b8 incorrect"
              (ensure (f.beq n8 n8_expected) "n8 incorrect" (ok valid))))
