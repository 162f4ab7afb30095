-- ===== src/Kimchi/PoseidonGate/Verify/Sound.antt =====
-- kimchi/src/circuits/polynomials/poseidon.rs: a row that verifies computes five rounds.
use proof_systems.Prelude.{
  ℕ, zero, suc, ◌+◌, ◌≤◌, ◌<◌, ◌≡◌, refl, sym, ap, ◌∙◌, some, List, [], ◌∷◌, ◌++◌, map, length,
  get_elem?, arith, Bool-cases, ltb, ltb→lt, inl, inr, ◌⊎◌, get_elem?-lt_length, get_elem?-append,
  get_elem?-snoc, get_elem?-eq_none,
}
use proof_systems.Outcome.{build, Outcome, ok, panic, ◌>>=◌, ok-injective}
use proof_systems.Field.{Field, ◌⊕◌, ◌⊗◌, IsRing}
use proof_systems.Oracle.Constants.{kimchi}
use proof_systems.Oracle.Permutation.{
  ArithmeticSpongeParams, at, sbox, dot, add_row, add_constants, apply_mds_matrix, full_round,
  full_rounds,
}
use proof_systems.Kimchi.Gates.{Columns, GateResult, valid, ensure, ensure-valid, poseidon}
use proof_systems.Kimchi.PoseidonGate.{round_to_cols}
use proof_systems.Kimchi.PoseidonGate.Verify.{
  read_state, rc, mix, check_cells, check_rounds, verify_poseidon,
}

-- A step that returned, taken apart for a proof of `C`.
pub returned :
    {A B C : Type 0} (m : Outcome A) (next : A → Outcome B) (y : B)
    → (m >>= next) ≡ ok y
    → ((x : A) → m ≡ ok x → next x ≡ ok y → C)
    → C
returned (ok x) next y h k = k x refl h
returned (panic e) next y h k = cc

at-some : {A : Type 0} (xs : List A) (i : ℕ) (x : A) → at xs i ≡ ok x → get_elem? xs i ≡ some x
at-some [] i x h = cc
at-some (y ∷ xs) zero x h = cc
at-some (y ∷ xs) (suc i) x h = at-some xs i x h

pub three :
    {A : Type 0} (xs : List A) → length xs ≡ 3 → (a : A) × (b : A) × (c : A) × (xs ≡ a ∷ b ∷ c ∷ [])
three [] h = absurd (omega (arith, h))
three (a ∷ []) h = absurd (omega (arith, h))
three (a ∷ b ∷ []) h = absurd (omega (arith, h))
three (a ∷ b ∷ c ∷ []) h = (a, b, c, refl)
three (a ∷ b ∷ c ∷ d ∷ xs) h = absurd (omega (arith, h))

pub length-build :
    {A : Type 0} (n i : ℕ) (g : ℕ → Outcome A) (xs : List A) → build n i g ≡ ok xs → length xs ≡ n
unfolding build
length-build zero i g xs h = sym (ap length (ok-injective h))
length-build (suc n) i g xs h = returned (g i) _ xs h λ x e h1.
    returned (build n (suc i) g) _ xs h1
      λ ys e' h2. sym (ap length (ok-injective h2)) ∙ ap suc (length-build n (suc i) g ys e')

pub get_elem?-build :
    {A : Type 0} (n i j : ℕ) (g : ℕ → Outcome A) (xs : List A) (x : A)
    → build n i g ≡ ok xs
    → get_elem? xs j ≡ some x
    → g (i + j) ≡ ok x
unfolding build
get_elem?-build zero i j g xs x h e = let bad = rw (sym (ok-injective h)) at e in cc
get_elem?-build (suc n) i zero g xs x h e = returned (g i) _ xs h λ y here h1.
    returned (build n (suc i) g) _ xs h1 λ ys rest h2.
      let first = rw (sym (ok-injective h2)) at e in
      ap g (omega arith) ∙ here ∙ (let same : y ≡ x = cc in ap ok same)
get_elem?-build (suc n) i (suc j) g xs x h e = returned (g i) _ xs h λ y here h1.
    returned (build n (suc i) g) _ xs h1 λ ys rest h2.
      let later = rw (sym (ok-injective h2)) at e in
      ap g (let shift : i + suc j ≡ suc i + j = omega arith in shift)
      ∙ get_elem?-build n (suc i) j g ys x rest later

get_elem?-snoc_cases :
    {A : Type 0} (xs : List A) (y : A) (j : ℕ) (x : A)
    → get_elem? (xs ++ y ∷ []) j ≡ some x
    → (get_elem? xs j ≡ some x) ⊎ (x ≡ y)
get_elem?-snoc_cases [] y zero x e = inr (cc)
get_elem?-snoc_cases [] y (suc j) x e = cc
get_elem?-snoc_cases (z ∷ xs) y zero x e = inl e
get_elem?-snoc_cases (z ∷ xs) y (suc j) x e = get_elem?-snoc_cases xs y j x e

length-read_state :
    {F : Type 0} (witness : Columns F) (row start : ℕ) (st : List F)
    → read_state witness row start ≡ ok st
    → length st ≡ 3
unfolding read_state
length-read_state witness row start st h = length-build 3 start _ st h

module _ {F : Type 0} ⦃f : Field F⦄ (r : IsRing f) where
  -- The sum starts with the constant here, and ends with it in the permutation.
  mix-dot :
      (state mds : List F) (x c : F)
      → mix (x ⊕ c) state mds ≡ dot x (map (sbox kimchi) state) mds ⊕ c
  unfolding mix dot
  mix-dot [] mds x c = refl
  mix-dot (s ∷ state) [] x c = refl
  mix-dot (s ∷ state) (m ∷ mds) x c =
      ap (λ t. mix t state mds)
        (r.add_comm (x ⊕ c) (sbox kimchi s ⊗ m)
          ∙ sym (r.add_assoc (sbox kimchi s ⊗ m) x c)
          ∙ ap (λ t. (t ⊕ x) ⊕ c) (r.mul_comm (sbox kimchi s) m))
      ∙ mix-dot state mds (m ⊗ sbox kimchi s ⊕ x) c

  -- A round that verifies, for a matrix of three rows.
  check_cells-valid :
      (m0 m1 m2 : List F) (state : List F) (c0 c1 c2 t0 t1 t2 : F) (rest : Outcome GateResult)
      → check_cells (m0 ∷ m1 ∷ m2 ∷ []) 0 (c0 ∷ c1 ∷ c2 ∷ []) state (t0 ∷ t1 ∷ t2 ∷ []) rest
        ≡ ok valid
      → (mix c0 state m0 ≡ t0) × (mix c1 state m1 ≡ t1) × (mix c2 state m2 ≡ t2) × (rest ≡ ok valid)
  unfolding check_cells
  check_cells-valid m0 m1 m2 state c0 c1 c2 t0 t1 t2 rest h =
      let (e0, h0) = ensure-valid _ _ _ h in
      let (e1, h1) = ensure-valid _ _ _ h0 in
      let (e2, h2) = ensure-valid _ _ _ h1 in
      ((r.beq_iff _ _).0 e0, (r.beq_iff _ _).0 e1, (r.beq_iff _ _).0 e2, h2)

  module _ (params : ArithmeticSpongeParams F) (m0 m1 m2 : List F)
      (matrix : params.mds ≡ m0 ∷ m1 ∷ m2 ∷ []) where
    full_round-cells :
        (k : ℕ) (state : List F) (c0 c1 c2 t0 t1 t2 : F)
        → get_elem? params.round_constants k ≡ some (c0 ∷ c1 ∷ c2 ∷ [])
        → mix c0 state m0 ≡ t0
        → mix c1 state m1 ≡ t1
        → mix c2 state m2 ≡ t2
        → full_round kimchi params state k ≡ ok (t0 ∷ t1 ∷ t2 ∷ [])
    unfolding full_round apply_mds_matrix add_constants add_row
    full_round-cells k state c0 c1 c2 t0 t1 t2 row e0 e1 e2 =
        rw (matrix, row) (rw (cell m0 c0 t0 e0, cell m1 c1 t1 e1, cell m2 c2 t2 e2) refl)
      where
        cell :
            (m : List F) (c t : F)
            → mix c state m ≡ t
            → dot f.zero (map (sbox kimchi) state) m ⊕ c ≡ t
        cell m c t e = sym (mix-dot state m f.zero c) ∙ ap (λ x. mix x state m) (r.zero-add c) ∙ e

    -- The rounds that verify are rounds of the permutation.
    check_rounds-full_rounds :
        (constants states : List (List F)) (k n round : ℕ) (st : List F)
        → ((j : ℕ) (c : List F)
            → get_elem? constants j ≡ some c
            → (get_elem? params.round_constants (k + j) ≡ some c) × (length c ≡ 3))
        → ((j : ℕ) (s : List F) → get_elem? states j ≡ some s → length s ≡ 3)
        → get_elem? states round ≡ some st
        → check_rounds (m0 ∷ m1 ∷ m2 ∷ []) constants states n round ≡ ok valid
        → (st' : List F) × (get_elem? states (round + n) ≡ some st')
          × (full_rounds kimchi params n (k + round) st ≡ ok st')
    unfolding check_rounds full_rounds
    check_rounds-full_rounds constants states k zero round st cs ss here h =
        (st, ap (get_elem? states) (let e : round + 0 ≡ round = omega arith in e) ∙ here, refl)
    check_rounds-full_rounds constants states k (suc n) round st cs ss here h =
        returned (at states round) _ valid h λ state e1 h1.
          returned (at states (round + 1)) _ valid h1 λ next e2 h2.
            returned (at constants round) _ valid h2 λ c e3 h3.
              let same : state ≡ st = (let there = at-some states round state e1 in cc) in
              let (row, wide) = cs round c (at-some constants round c e3) in
              let (c0, c1, c2, cells) = three c wide in
              let (t0, t1, t2, cells') =
                three next (ss (round + 1) next (at-some states (round + 1) next e2)) in
              let (f0, f1, f2, rest) =
                check_cells-valid m0 m1 m2 state c0 c1 c2 t0 t1 t2
                  (check_rounds (m0 ∷ m1 ∷ m2 ∷ []) constants states n (round + 1))
                  (rw (cells, cells') at h3) in
              let step : full_round kimchi params st (k + round) ≡ ok next =
                full_round-cells (k + round) st c0 c1 c2 t0 t1 t2 (row ∙ ap some cells)
                  (ap (λ s. mix c0 s m0) (sym same) ∙ f0) (ap (λ s. mix c1 s m1) (sym same) ∙ f1)
                  (ap (λ s. mix c2 s m2) (sym same) ∙ f2)
                ∙ ap ok (sym cells') in
              let (st', end, run) =
                check_rounds-full_rounds constants states k n (round + 1) next cs ss
                  (at-some states (round + 1) next e2) rest in
              (
                st',
                ap (get_elem? states) (let e : round + suc n ≡ round + 1 + n = omega arith in e)
                    ∙ end,
                rw step (
                    ap (λ t. full_rounds kimchi params n t next)
                      (let e : k + round + 1 ≡ k + (round + 1) = omega arith in e)
                    ∙ run),
              )

    constants_fit :
        (coeffs : List F) (constants : List (List F)) (k : ℕ)
        → rc poseidon coeffs ≡ ok constants
        → ((j : ℕ) → j < 5 → get_elem? params.round_constants (k + j) ≡ get_elem? constants j)
        → (j : ℕ) (c : List F) → get_elem? constants j ≡ some c
        → (get_elem? params.round_constants (k + j) ≡ some c) × (length c ≡ 3)
    unfolding rc
    constants_fit coeffs constants k made same j c e = elim (Bool-cases (ltb j 5)) [
      | inl small ↦ (
        same j (ltb→lt j 5 small) ∙ e,
        length-build 3 0 _ c (get_elem?-build 5 0 j _ constants c made e),
      )
      | inr large ↦
          let five = length-build 5 0 _ constants made in
          let beyond : 5 ≤ j = ground arith in
          let missing = get_elem?-eq_none constants j (omega arith) in absurd (cc)
    ]

    -- Where the matrix has three rows and the coefficients of a Poseidon gate are the constants of the
    -- five rounds from `k` on, a row that verifies holds, with the next row, a state and what these
    -- rounds make of it.
    pub verify_poseidon-full_rounds :
        (coeffs : List F) (constants : List (List F)) (k row : ℕ) (witness : Columns F)
        → rc poseidon coeffs ≡ ok constants
        → ((j : ℕ) → j < 5 → get_elem? params.round_constants (k + j) ≡ get_elem? constants j)
        → verify_poseidon poseidon coeffs row witness params.mds ≡ ok valid
        → (st : List F) × (st' : List F) × (read_state witness row 0 ≡ ok st)
          × (read_state witness (row + 1) 0 ≡ ok st')
          × (full_rounds kimchi params 5 k st ≡ ok st')
    unfolding verify_poseidon ensure
    verify_poseidon-full_rounds coeffs constants k row witness made same h =
        returned (build 5 0 (λ round. read_state witness row (round_to_cols round))) _ valid h
          λ states b1 h1. returned (read_state witness (row + 1) 0) _ valid h1 λ last b2 h2.
            returned (rc poseidon coeffs) _ valid h2 λ constants' b3 h3.
              let equal : constants' ≡ constants = cc in
              let five = length-build 5 0 _ states b1 in
              let (st, first) = get_elem?-lt_length states 0 (omega arith) in
              let read : read_state witness row 0 ≡ ok st =
                get_elem?-build 5 0 0 _ states st b1 first in
              let here = get_elem?-append states (last ∷ []) 0 (omega arith) ∙ first in
              let run = rw (matrix, equal) at h3 in
              let (st', end, rounds) =
                check_rounds-full_rounds constants (states ++ last ∷ []) k 5 0 st
                  (constants_fit coeffs constants k made same)
                  (λ j s e. elim (get_elem?-snoc_cases states last j s e) [
                    | inl inside ↦
                        length-read_state witness row (round_to_cols (0 + j)) s
                          (get_elem?-build 5 0 j _ states s b1 inside)
                    | inr same_last ↦
                        ap length same_last ∙ length-read_state witness (row + 1) 0 last b2
                  ])
                  here run in
              let last_state : st' ≡ last = (let there = get_elem?-snoc states last 5 five in cc) in
              (
                st,
                last,
                read,
                b2,
                ap (λ t. full_rounds kimchi params 5 t st) (omega arith)
                    ∙ rounds
                    ∙ ap ok last_state,
              )
