-- ===== src/Kimchi/EndomulScalar/Rows.antt =====
-- kimchi/src/circuits/polynomials/endomul_scalar.rs: the witness of a scalar against the scalar of
-- the challenge, and the verification of its rows.
pub mod Verified
use mathlib.Core.List.{reverse}
use proof_systems.Prelude.{
  ℕ, zero, suc, ◌+◌, ◌*◌, ◌/◌, ◌^◌, ◌%◌, ◌==◌, ◌≤◌, ◌<◌, ◌≡◌, refl, sym, ap, ◌∙◌, Bool, true, false,
  List, [], ◌∷◌, ◌++◌, map, length, take, arith, ==_iff,
}
use native.Mathlib.Nat.{mod-eq_of_lt}
use proof_systems.Outcome.{Outcome, ok, ◌>>=◌}
use proof_systems.Field.{Field, ◌⊕◌, ◌⊗◌, IsRing, IsCanonical, IsRepr}
use proof_systems.Field.Facts.{from-zero}
use proof_systems.Oracle.Challenge.{ScalarChallenge, double, to_field_with_length}
use proof_systems.Oracle.Challenge.Walk.{crumbs, accumulate, to_field_with_length_lem}
use proof_systems.Hasher.Input.{chunks}
use proof_systems.Kimchi.Gates.{Columns}
use proof_systems.Kimchi.EndomulScalar.{
  Scan, push, fold_crumbs, scan_row, scan_rows, gen_witness, bits_le,
}
use proof_systems.Kimchi.EndomulScalar.Crumbs.{
  Crumb, after_crumbs, scan_crumbs-pairs, after_crumbs-accumulate, after_crumbs-n, crumb, number,
  fold_crumbs-from,
}
use proof_systems.Kimchi.EndomulScalar.Crumbs.Cut.{
  flatten, rows, part, chunks-crumbs, chunks-flatten, bits_msb, number-crumbs, length-flatten,
  crumbs-rows, length-crumbs, concat,
}

module _ {F : Type 0} ⦃f : Field F⦄ where
  abbrev pub start : Columns F → Scan F
  start w = record { w = w; a = f.from_ℕ 2; b = f.from_ℕ 2; n = f.zero }

  abbrev pub before_crumbs : Scan F → Scan F
  before_crumbs s = record s { w = push (push (push s.w 0 s.n) 2 s.a) 3 s.b }

  abbrev pub close_row : Scan F → Scan F
  close_row t = record t { w = push (push (push (push t.w 1 t.n) 4 t.a) 5 t.b) 14 f.zero }

  -- The state after the crumbs of a row, and after rows.
  unfoldable pub after_row : List Crumb → Scan F → Scan F
  after_row xs s = close_row (after_crumbs 0 xs (before_crumbs s))

  unfoldable pub after_rows : List (List Crumb) → Scan F → Scan F
  after_rows [] s = s
  after_rows (xs ∷ rest) s = after_rows rest (after_row xs s)

  accumulate-append :
      (xs ys : List Crumb) (ab : F × F)
      → accumulate (xs ++ ys) ab ≡ accumulate ys (accumulate xs ab)
  unfolding accumulate
  accumulate-append [] ys ab = refl
  accumulate-append (x ∷ xs) ys ab = accumulate-append xs ys _

  fold_crumbs-append :
      (xs ys : List Crumb) (n : F)
      → fold_crumbs (map crumb (xs ++ ys)) n
        ≡ fold_crumbs (map crumb ys) (fold_crumbs (map crumb xs) n)
  unfolding fold_crumbs
  fold_crumbs-append [] ys n = refl
  fold_crumbs-append (x ∷ xs) ys n = fold_crumbs-append xs ys _

module _ {F : Type 0} ⦃f : Field F⦄ (r : IsRing f) (c : IsCanonical f) where
  scan_row-flatten : (xs : List Crumb) (s : Scan F) → scan_row (flatten xs) s ≡ ok (after_row xs s)
  unfolding scan_row after_row
  scan_row-flatten xs s =
      rw (chunks-flatten (length (flatten xs)) xs (omega (arith, length-flatten xs)))
        (rw (scan_crumbs-pairs r c 0 xs (before_crumbs s)) refl)

  scan_rows-flatten :
      (xss : List (List Crumb)) (s : Scan F) → scan_rows (map flatten xss) s ≡ ok (after_rows xss s)
  unfolding scan_rows after_rows
  scan_rows-flatten [] s = refl
  scan_rows-flatten (xs ∷ xss) s =
      rw (scan_row-flatten xs s) (scan_rows-flatten xss (after_row xs s))

  -- The sums and the number run through the crumbs of all rows.
  after_rows-accumulate :
      (xss : List (List Crumb)) (s : Scan F)
      → ◌≡◌ {A = F × F}
          ((after_rows xss s).a, (after_rows xss s).b)
          (accumulate (concat xss) (s.a, s.b))
  unfolding after_rows after_row accumulate
  after_rows-accumulate [] s = refl
  after_rows-accumulate (xs ∷ xss) s =
      after_rows-accumulate xss (after_row xs s)
      ∙ ap (accumulate (concat xss)) (after_crumbs-accumulate r c 0 xs (before_crumbs s))
      ∙ sym (accumulate-append xs (concat xss) (s.a, s.b))

  after_rows-n :
      (xss : List (List Crumb)) (s : Scan F)
      → (after_rows xss s).n ≡ fold_crumbs (map crumb (concat xss)) s.n
  unfolding after_rows after_row fold_crumbs
  after_rows-n [] s = refl
  after_rows-n (xs ∷ xss) s =
      after_rows-n xss (after_row xs s)
      ∙ ap (fold_crumbs (map crumb (concat xss))) (after_crumbs-n r c 0 xs (before_crumbs s))
      ∙ sym (fold_crumbs-append xs (concat xss) s.n)

  module _ (q : IsRepr c) where
    -- The number of the rows of a scalar is the scalar.
    after_rows-scalar :
        (w : Columns F) (scalar : F) (k : ℕ)
        → c.value scalar < 2 ^ (16 * k)
        → (after_rows (rows (f.into_repr scalar) k) (start w)).n ≡ scalar
    after_rows-scalar w scalar k h =
        let v = f.into_repr scalar in
        let whole : 2 ^ (2 * (8 * k)) * 0 + v % 2 ^ (2 * (8 * k)) ≡ c.value scalar =
          rw (q.into_repr_lem scalar) (
            omega (
              arith,
              mod-eq_of_lt (
                  let places : 2 ^ (16 * k) ≡ 2 ^ (2 * (8 * k)) = ap (λ t. 2 ^ t) (omega arith) in
                  rw places at h),
            )) in
        after_rows-n (rows v k) (start w)
        ∙ ap (λ t. fold_crumbs (map crumb t) f.zero) (sym (crumbs-rows v k))
        ∙ ap (fold_crumbs (map crumb (crumbs v (8 * k)))) (sym (from-zero r))
        ∙ fold_crumbs-from r c (crumbs v (8 * k)) 0
        ∙ ap f.from_ℕ (number-crumbs v (8 * k) 0 ∙ whole)
        ∙ q.from-value scalar

    pub gen_witness-rows :
        (w : Columns F) (scalar endo_scalar : F) (k : ℕ)
        → k ≤ 16
        → c.value scalar < 2 ^ (16 * k)
        → gen_witness w scalar endo_scalar (16 * k) ≡ (
            let s = after_rows (rows (f.into_repr scalar) k) (start w) in
            ok (s.a ⊗ endo_scalar ⊕ s.b, s.w))
    unfolding gen_witness
    gen_witness-rows w scalar endo_scalar k h small =
        let v = f.into_repr scalar in
        let even : (16 * k % 16 == 0) ≡ true = (==_iff _ _).1 (omega arith) in
        let bits : reverse (take (16 * k) (bits_le 256 0 v)) ≡ flatten (crumbs v (8 * k)) =
          ap (λ t. reverse (take t (bits_le 256 0 v)))
            (let e : 16 * k ≡ 2 * (8 * k) = omega arith in e)
          ∙ bits_msb (8 * k) v (omega arith) in
        let fuel : k ≤ length (flatten (crumbs v (8 * k))) =
          omega (arith, length-flatten (crumbs v (8 * k)), length-crumbs v (8 * k)) in
        rw even (
          rw bits (
            rw (chunks-crumbs v k (length (flatten (crumbs v (8 * k)))) fuel) (
              rw (scan_rows-flatten (rows v k) (start w))
                (rw ((r.beq_iff _ _).1 (sym (after_rows-scalar w scalar k small))) refl))))

    -- The witness of a scalar of at most `16 * k` bits, for at most sixteen rows, is made, and the
    -- scalar that it returns is that of the challenge of the same number of bits.
    pub gen_witness-to_field :
        (w : Columns F) (scalar endo_scalar : F) (k : ℕ)
        → k ≤ 16
        → c.value scalar < 2 ^ (16 * k)
        → (x : F) × (w' : Columns F) × (gen_witness w scalar endo_scalar (16 * k) ≡ ok (x, w'))
          × (to_field_with_length (record { inner = scalar }) (16 * k) endo_scalar ≡ ok x)
    gen_witness-to_field w scalar endo_scalar k h small =
        let v = f.into_repr scalar in
        let s = after_rows (rows v k) (start w) in
        let sums = after_rows-accumulate (rows v k) (start w) in
        (
          s.a ⊗ endo_scalar ⊕ s.b,
          s.w,
          gen_witness-rows w scalar endo_scalar k h small,
          to_field_with_length_lem r (record { inner = scalar }) (16 * k) endo_scalar (omega arith)
              ∙ ap (λ (ab : F × F). ok (ab.0 ⊗ endo_scalar ⊕ ab.1))
                  (ap (λ t. accumulate (crumbs v t) (f.from_ℕ 2, f.from_ℕ 2))
                      (let e : 16 * k / 2 ≡ 8 * k = omega arith in e)
                    ∙ ap (λ t. accumulate t (f.from_ℕ 2, f.from_ℕ 2)) (crumbs-rows v k)
                    ∙ sym sums),
        )
