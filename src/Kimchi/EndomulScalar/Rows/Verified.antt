-- ===== src/Kimchi/EndomulScalar/Rows/Verified.antt =====
-- kimchi/src/circuits/polynomials/endomul_scalar.rs: each row of a witness verifies.
use proof_systems.Prelude.{
  ℕ, zero, suc, ◌+◌, ◌*◌, ◌^◌, ◌==◌, ◌≤◌, ◌<◌, ◌≡◌, refl, sym, ap, ◌∙◌, ◌⊎◌, some, List, [], ◌∷◌,
  length, get_elem?, arith, ==_iff, Bool-cases, inl, inr, length-append, get_elem?-append,
  get_elem?-snoc,
}
use proof_systems.Outcome.{ok}
use proof_systems.Field.{Field, ◌⊕◌, ◌⊗◌, IsRing, IsCanonical, IsRepr}
use proof_systems.Kimchi.Gates.{endo_mul_scalar}
use proof_systems.Kimchi.Gates.{Columns, ensure, valid}
use proof_systems.Kimchi.EndomulScalar.{Scan, push, read_cells, verify_endomul_scalar, gen_witness}
use proof_systems.Kimchi.EndomulScalar.Crumbs.{
  Crumb, crumb, after_crumb, after_crumbs, after_crumbs-n, fold_with-c_func, fold_with-d_func,
}
use proof_systems.Kimchi.EndomulScalar.Crumbs.Cut.{rows, part}
use proof_systems.Kimchi.EndomulScalar.Rows.{
  before_crumbs, after_row, after_rows, gen_witness-rows, start,
}

-- Every column has `k` cells.
abbrev pub IsLevel : {F : Type 0} → ℕ → Columns F → Type 0
IsLevel k w = (j : ℕ) → j < 15 → length (w j) ≡ k

-- The columns of `w'` have `k` cells at least, the first `k` of which are those of `w`.
abbrev IsGrown : {F : Type 0} → ℕ → Columns F → Columns F → Type 0
IsGrown k w w' =
    (j : ℕ)
    → (j < 15 → k ≤ length (w' j)) × ((i : ℕ) → i < k → get_elem? (w' j) i ≡ get_elem? (w j) i)

module _ {F : Type 0} ⦃f : Field F⦄ where
  push-IsGrown :
      (k : ℕ) (w w' : Columns F) (n : ℕ) (x : F)
      → IsGrown k w w'
      → n < 15
      → IsGrown k w (push w' n x)
  unfolding push
  push-IsGrown k w w' n x grown h j = elim (Bool-cases (j == n)) [
    | inl e ↦
        let same : j ≡ n = (==_iff j n).0 e in
        let (long, kept) = grown j in
        rw e (
          λ l. let room = long l in omega (arith, length-append (w' j) (x ∷ [])),
          λ i l.
              let room = long (rw (sym same) at h) in
              get_elem?-append (w' j) (x ∷ []) i (omega arith) ∙ kept i l,
        )
    | inr e ↦ rw e (grown j)
  ]

  crumbs-IsGrown :
      (k : ℕ) (w : Columns F) (n : ℕ) (xs : List Crumb) (s : Scan F)
      → n + length xs ≤ 8
      → IsGrown k w s.w
      → IsGrown k w (after_crumbs n xs s).w
  unfolding after_crumbs
  crumbs-IsGrown k w n [] s h grown = grown
  crumbs-IsGrown k w n (x ∷ xs) s h grown =
      crumbs-IsGrown k w (suc n) xs (after_crumb n x s) (omega arith)
        (push-IsGrown k w s.w (6 + n) (crumb x) grown (omega arith))

  row-IsGrown :
      (k : ℕ) (xs : List Crumb) (s : Scan F)
      → length xs ≤ 8
      → IsLevel k s.w
      → IsGrown k s.w (after_row xs s).w
  unfolding after_row
  row-IsGrown k xs s h level =
      let none : IsGrown k s.w s.w = λ j. (λ l. (let e = level j l in omega arith), λ i l. refl) in
      let opened =
        push-IsGrown k s.w _ 3 s.b
          (push-IsGrown k s.w _ 2 s.a (push-IsGrown k s.w _ 0 s.n none (omega arith)) (omega arith))
          (omega arith) in
      let t = after_crumbs 0 xs (before_crumbs s) in
      let crumbed = crumbs-IsGrown k s.w 0 xs (before_crumbs s) (omega arith) opened in
      push-IsGrown k s.w _ 14 f.zero
        (push-IsGrown k s.w _ 5 t.b
          (push-IsGrown k s.w _ 4 t.a (push-IsGrown k s.w _ 1 t.n crumbed (omega arith))
            (omega arith))
          (omega arith))
        (omega arith)

  after_row-IsLevel :
      (s : Scan F) (k : ℕ) (x0 x1 x2 x3 x4 x5 x6 x7 : Crumb)
      → IsLevel k s.w
      → IsLevel (suc k) (after_row (x0 ∷ x1 ∷ x2 ∷ x3 ∷ x4 ∷ x5 ∷ x6 ∷ x7 ∷ []) s).w
  unfolding after_row after_crumbs push
  after_row-IsLevel s k x0 x1 x2 x3 x4 x5 x6 x7 lev zero h =
      length-append (s.w 0) _ ∙ (let e = lev 0 (omega arith) in omega arith)
  after_row-IsLevel s k x0 x1 x2 x3 x4 x5 x6 x7 lev (suc zero) h =
      length-append (s.w 1) _ ∙ (let e = lev 1 (omega arith) in omega arith)
  after_row-IsLevel s k x0 x1 x2 x3 x4 x5 x6 x7 lev (suc (suc zero)) h =
      length-append (s.w 2) _ ∙ (let e = lev 2 (omega arith) in omega arith)
  after_row-IsLevel s k x0 x1 x2 x3 x4 x5 x6 x7 lev (suc (suc (suc zero))) h =
      length-append (s.w 3) _ ∙ (let e = lev 3 (omega arith) in omega arith)
  after_row-IsLevel s k x0 x1 x2 x3 x4 x5 x6 x7 lev (suc (suc (suc (suc zero)))) h =
      length-append (s.w 4) _ ∙ (let e = lev 4 (omega arith) in omega arith)
  after_row-IsLevel s k x0 x1 x2 x3 x4 x5 x6 x7 lev (suc (suc (suc (suc (suc zero))))) h =
      length-append (s.w 5) _ ∙ (let e = lev 5 (omega arith) in omega arith)
  after_row-IsLevel s k x0 x1 x2 x3 x4 x5 x6 x7 lev (suc (suc (suc (suc (suc (suc zero)))))) h =
      length-append (s.w 6) _ ∙ (let e = lev 6 (omega arith) in omega arith)
  after_row-IsLevel s k x0 x1 x2 x3 x4 x5 x6 x7 lev (suc (suc (suc (suc (suc (suc (suc zero)))))))
        h =
      length-append (s.w 7) _ ∙ (let e = lev 7 (omega arith) in omega arith)
  after_row-IsLevel s k x0 x1 x2 x3 x4 x5 x6 x7 lev
        (suc (suc (suc (suc (suc (suc (suc (suc zero)))))))) h =
      length-append (s.w 8) _ ∙ (let e = lev 8 (omega arith) in omega arith)
  after_row-IsLevel s k x0 x1 x2 x3 x4 x5 x6 x7 lev
        (suc (suc (suc (suc (suc (suc (suc (suc (suc zero))))))))) h =
      length-append (s.w 9) _ ∙ (let e = lev 9 (omega arith) in omega arith)
  after_row-IsLevel s k x0 x1 x2 x3 x4 x5 x6 x7 lev
        (suc (suc (suc (suc (suc (suc (suc (suc (suc (suc zero)))))))))) h =
      length-append (s.w 10) _ ∙ (let e = lev 10 (omega arith) in omega arith)
  after_row-IsLevel s k x0 x1 x2 x3 x4 x5 x6 x7 lev
        (suc (suc (suc (suc (suc (suc (suc (suc (suc (suc (suc zero))))))))))) h =
      length-append (s.w 11) _ ∙ (let e = lev 11 (omega arith) in omega arith)
  after_row-IsLevel s k x0 x1 x2 x3 x4 x5 x6 x7 lev
        (suc (suc (suc (suc (suc (suc (suc (suc (suc (suc (suc (suc zero)))))))))))) h =
      length-append (s.w 12) _ ∙ (let e = lev 12 (omega arith) in omega arith)
  after_row-IsLevel s k x0 x1 x2 x3 x4 x5 x6 x7 lev
        (suc (suc (suc (suc (suc (suc (suc (suc (suc (suc (suc (suc (suc zero))))))))))))) h =
      length-append (s.w 13) _ ∙ (let e = lev 13 (omega arith) in omega arith)
  after_row-IsLevel s k x0 x1 x2 x3 x4 x5 x6 x7 lev
        (suc (suc (suc (suc (suc (suc (suc (suc (suc (suc (suc (suc (suc (suc zero)))))))))))))) h =
      length-append (s.w 14) _ ∙ (let e = lev 14 (omega arith) in omega arith)
  after_row-IsLevel s k x0 x1 x2 x3 x4 x5 x6 x7 lev
        (suc (suc (suc (suc (suc (suc (suc (suc (suc (suc (suc (suc (suc (suc (suc j)))))))))))))))
        h =
      absurd (omega arith)

  -- The cells of the new row.
  cells_row :
      (s : Scan F) (k : ℕ) (x0 x1 x2 x3 x4 x5 x6 x7 : Crumb)
      → IsLevel k s.w
      → (let t = after_crumbs 0 (x0 ∷ x1 ∷ x2 ∷ x3 ∷ x4 ∷ x5 ∷ x6 ∷ x7 ∷ []) (before_crumbs s) in
          let w' = (after_row (x0 ∷ x1 ∷ x2 ∷ x3 ∷ x4 ∷ x5 ∷ x6 ∷ x7 ∷ []) s).w in
          (get_elem? (w' 0) k ≡ some s.n)
          × (get_elem? (w' 1) k ≡ some t.n)
          × (get_elem? (w' 2) k ≡ some s.a)
          × (get_elem? (w' 3) k ≡ some s.b)
          × (get_elem? (w' 4) k ≡ some t.a)
          × (get_elem? (w' 5) k ≡ some t.b)
          × (get_elem? (w' 6) k ≡ some (crumb x0))
          × (get_elem? (w' 7) k ≡ some (crumb x1))
          × (get_elem? (w' 8) k ≡ some (crumb x2))
          × (get_elem? (w' 9) k ≡ some (crumb x3))
          × (get_elem? (w' 10) k ≡ some (crumb x4))
          × (get_elem? (w' 11) k ≡ some (crumb x5))
          × (get_elem? (w' 12) k ≡ some (crumb x6))
          × (get_elem? (w' 13) k ≡ some (crumb x7)))
  unfolding after_row after_crumbs push
  cells_row s k x0 x1 x2 x3 x4 x5 x6 x7 level = (
    get_elem?-snoc (s.w 0) _ k (level 0 (omega arith)),
    get_elem?-snoc (s.w 1) _ k (level 1 (omega arith)),
    get_elem?-snoc (s.w 2) _ k (level 2 (omega arith)),
    get_elem?-snoc (s.w 3) _ k (level 3 (omega arith)),
    get_elem?-snoc (s.w 4) _ k (level 4 (omega arith)),
    get_elem?-snoc (s.w 5) _ k (level 5 (omega arith)),
    get_elem?-snoc (s.w 6) _ k (level 6 (omega arith)),
    get_elem?-snoc (s.w 7) _ k (level 7 (omega arith)),
    get_elem?-snoc (s.w 8) _ k (level 8 (omega arith)),
    get_elem?-snoc (s.w 9) _ k (level 9 (omega arith)),
    get_elem?-snoc (s.w 10) _ k (level 10 (omega arith)),
    get_elem?-snoc (s.w 11) _ k (level 11 (omega arith)),
    get_elem?-snoc (s.w 12) _ k (level 12 (omega arith)),
    get_elem?-snoc (s.w 13) _ k (level 13 (omega arith)),
  )

first_or_later : (k i : ℕ) → k ≤ i → (i ≡ k) ⊎ (suc k ≤ i)
first_or_later zero zero h = inl refl
first_or_later zero (suc i) h = inr (omega arith)
first_or_later (suc k) zero h = absurd (omega arith)
first_or_later (suc k) (suc i) h = elim (first_or_later k i (omega arith)) [
  | inl e ↦ inl (ap suc e)
  | inr later ↦ inr (omega arith)
]

module _ {F : Type 0} ⦃f : Field F⦄ (r : IsRing f) (c : IsCanonical f) where
  -- The new row of a witness verifies.
  verify_row :
      (s : Scan F) (k : ℕ) (x0 x1 x2 x3 x4 x5 x6 x7 : Crumb)
      → IsLevel k s.w
      → verify_endomul_scalar endo_mul_scalar k
          (after_row (x0 ∷ x1 ∷ x2 ∷ x3 ∷ x4 ∷ x5 ∷ x6 ∷ x7 ∷ []) s).w
        ≡ ok valid
  unfolding verify_endomul_scalar read_cells ensure
  verify_row s k x0 x1 x2 x3 x4 x5 x6 x7 level =
      let xs = x0 ∷ x1 ∷ x2 ∷ x3 ∷ x4 ∷ x5 ∷ x6 ∷ x7 ∷ [] in
      let t = after_crumbs 0 xs (before_crumbs s) in
      let (c0, c1, c2, c3, c4, c5, c6, c7, c8, c9, c10, c11, c12, c13) =
        cells_row s k x0 x1 x2 x3 x4 x5 x6 x7 level in
      rw (c0, c1, c2, c3, c4, c5, c6, c7, c8, c9, c10, c11, c12, c13)
        (rw
          (
            fold_with-c_func r c 0 xs (before_crumbs s),
            fold_with-d_func r c 0 xs (before_crumbs s),
            sym (after_crumbs-n r c 0 xs (before_crumbs s)),
          )
          (rw ((r.beq_iff t.a t.a).1 refl, (r.beq_iff t.b t.b).1 refl, (r.beq_iff t.n t.n).1 refl)
            refl))

  -- The verification of a row reads that row alone.
  verify_endomul_scalar-cong :
      (w w' : Columns F) (i : ℕ)
      → ((j : ℕ) → get_elem? (w' j) i ≡ get_elem? (w j) i)
      → verify_endomul_scalar endo_mul_scalar i w' ≡ verify_endomul_scalar endo_mul_scalar i w
  unfolding verify_endomul_scalar read_cells
  verify_endomul_scalar-cong w w' i same =
      rw
        (
          same 0,
          same 1,
          same 2,
          same 3,
          same 4,
          same 5,
          same 6,
          same 7,
          same 8,
          same 9,
          same 10,
          same 11,
          same 12,
          same 13,
        )
        refl

  verify_rows :
      (v n k : ℕ) (s : Scan F)
      → IsLevel k s.w
      → IsGrown k s.w (after_rows (rows v n) s).w
        × IsLevel (k + n) (after_rows (rows v n) s).w
        × ((i : ℕ)
            → k ≤ i
            → i < k + n
            → verify_endomul_scalar endo_mul_scalar i (after_rows (rows v n) s).w ≡ ok valid)
  unfolding rows after_rows part
  verify_rows v zero k s level = (
    λ j. (λ l. (let e = level j l in omega arith), λ i l. refl),
    λ j l. (let e = level j l in omega arith),
    λ i low high. absurd (omega arith),
  )
  verify_rows v (suc n) k s level =
      let s1 = after_row (part v (8 * n) 8) s in
      let level1 : IsLevel (suc k) s1.w = after_row-IsLevel s k _ _ _ _ _ _ _ _ level in
      let grown1 : IsGrown k s.w s1.w = row-IsGrown k (part v (8 * n) 8) s (omega arith) level in
      let (grown, level2, rest) = verify_rows v n (suc k) s1 level1 in
      (
        λ j. (
          λ l. (let room = (grown j).0 l in omega arith),
          λ i l. (grown j).1 i (omega arith) ∙ (grown1 j).1 i l,
        ),
        λ j l. (let e = level2 j l in omega arith),
        λ i low high. elim (first_or_later k i low) [
          | inl e ↦
              ap (λ t. verify_endomul_scalar endo_mul_scalar t (after_rows (rows v n) s1).w) e
              ∙ verify_endomul_scalar-cong s1.w (after_rows (rows v n) s1).w k
                  (λ j. (grown j).1 k (omega arith))
              ∙ verify_row s k _ _ _ _ _ _ _ _ level
          | inr later ↦ rest i later (omega arith)
        ],
      )

  -- The witness of a scalar of at most `16 * k` bits, for at most sixteen rows, keeps the rows of a
  -- witness whose columns are level, adds `k` rows to each column, and each of these verifies.
  pub gen_witness-verify :
      (q : IsRepr c) (w : Columns F) (before : ℕ) (scalar endo_scalar : F) (k : ℕ)
      → IsLevel before w
      → k ≤ 16
      → c.value scalar < 2 ^ (16 * k)
      → (x : F) × (w' : Columns F) × (gen_witness w scalar endo_scalar (16 * k) ≡ ok (x, w'))
        × IsLevel (before + k) w'
        × ((j i : ℕ) → i < before → get_elem? (w' j) i ≡ get_elem? (w j) i)
        × ((i : ℕ)
            → before ≤ i
            → i < before + k
            → verify_endomul_scalar endo_mul_scalar i w' ≡ ok valid)
  gen_witness-verify q w before scalar endo_scalar k level h small =
      let s = after_rows (rows (f.into_repr scalar) k) (start w) in
      let (grown, level', verified) = verify_rows (f.into_repr scalar) k before (start w) level in
      (
        s.a ⊗ endo_scalar ⊕ s.b,
        s.w,
        gen_witness-rows r c q w scalar endo_scalar k h small,
        level',
        λ j i. (grown j).1 i,
        verified,
      )
