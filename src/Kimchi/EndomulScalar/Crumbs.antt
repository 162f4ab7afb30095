-- ===== src/Kimchi/EndomulScalar/Crumbs.antt =====
-- kimchi/src/circuits/polynomials/endomul_scalar.rs: what a pair of bits does, and the cut of the
-- bits of the scalar into pairs and rows.
pub mod Cut
use proof_systems.Prelude.{
  ℕ, zero, suc, ◌+◌, ◌*◌, ◌^◌, ◌%◌, ◌==◌, ◌≤◌, ◌<◌, ◌≡◌, refl, sym, ap, ◌∙◌, Bool, true, false,
  List, [], ◌∷◌, map, if◌then◌else◌, arith, Bool-ext, ==_iff,
}
use proof_systems.Outcome.{Outcome, ok, panic, guard, ◌>>=◌}
use proof_systems.Field.{Field, ◌⊕◌, ◌⊗◌, IsRing, IsCanonical}
use proof_systems.Field.Facts.{add-zero, from-zero}
use proof_systems.Oracle.Challenge.{double}
use proof_systems.Oracle.Challenge.Walk.{sign, to_a, to_b, accumulate}
use proof_systems.Kimchi.EndomulScalar.{
  Scan, push, c_func, d_func, of_bool, crumb_of, scan_crumb, scan_crumbs, fold_with, fold_crumbs,
}

abbrev pub Crumb : Type 0
Crumb = Bool × Bool

abbrev pub pair : Crumb → List Bool
pair c = c.0 ∷ c.1 ∷ []

abbrev pub crumb_number : Crumb → ℕ
crumb_number c = (if c.1 then 1 else 0) + ((if c.0 then 1 else 0) + (if c.0 then 1 else 0))

-- The number that crumbs stand for, after a number.
unfoldable pub number : List Crumb → ℕ → ℕ
number [] acc = acc
number (x ∷ xs) acc = number xs (4 * acc + crumb_number x)

module _ {F : Type 0} ⦃f : Field F⦄ where
  -- The state after a crumb, and after a list of crumbs.
  abbrev pub after_crumb : ℕ → Crumb → Scan F → Scan F
  after_crumb j x s = record {
    w = push s.w (6 + j) (crumb_of x.0 x.1);
    a = double s.a ⊕ to_a x.0 x.1;
    b = double s.b ⊕ to_b x.0 x.1;
    n = double (double s.n) ⊕ crumb_of x.0 x.1;
  }

  unfoldable pub after_crumbs : ℕ → List Crumb → Scan F → Scan F
  after_crumbs j [] s = s
  after_crumbs j (x ∷ xs) s = after_crumbs (suc j) xs (after_crumb j x s)

  abbrev pub crumb : Crumb → F
  crumb x = crumb_of x.0 x.1

module _ {F : Type 0} ⦃f : Field F⦄ (r : IsRing f) (c : IsCanonical f) where
  beq-from : (m n : ℕ) → m < 2 ^ 64 → n < 2 ^ 64 → f.beq (f.from_ℕ m) (f.from_ℕ n) ≡ (m == n)
  beq-from m n hm hn =
      Bool-ext _ _
        (λ e.
          (==_iff m n).1
            (sym (c.value-from m hm) ∙ ap c.value ((r.beq_iff _ _).0 e) ∙ c.value-from n hn))
        (λ e. (r.beq_iff _ _).1 (ap f.from_ℕ ((==_iff m n).0 e)))

  pub crumb_of-from : (x : Crumb) → crumb_of x.0 x.1 ≡ f.from_ℕ (crumb_number x)
  unfolding crumb_of double
  crumb_of-from x =
      ap (λ t. f.from_ℕ (if x.1 then 1 else 0) ⊕ t) (sym (r.from-add _ _)) ∙ sym (r.from-add _ _)

  c_func-from :
      (k : ℕ)
      → k < 2 ^ 64
      → c_func (f.from_ℕ k) ≡ (
          if k == 0
          then ok f.zero
          else (if k == 1
              then ok f.zero
              else (if k == 2
                  then ok (f.neg f.one)
                  else (if k == 3 then ok f.one else panic "c_func"))))
  unfolding c_func
  c_func-from k h =
      rw (sym (from-zero r), sym r.from-one)
        (rw
          (
            beq-from k 0 h (omega arith),
            beq-from k 1 h (omega arith),
            beq-from k 2 h (omega arith),
            beq-from k 3 h (omega arith),
          )
          refl)

  d_func-from :
      (k : ℕ)
      → k < 2 ^ 64
      → d_func (f.from_ℕ k) ≡ (
          if k == 0
          then ok (f.neg f.one)
          else (if k == 1
              then ok f.one
              else (if k == 2 then ok f.zero else (if k == 3 then ok f.zero else panic "d_func"))))
  unfolding d_func
  d_func-from k h =
      rw (sym (from-zero r), sym r.from-one)
        (rw
          (
            beq-from k 0 h (omega arith),
            beq-from k 1 h (omega arith),
            beq-from k 2 h (omega arith),
            beq-from k 3 h (omega arith),
          )
          refl)

  -- The functions of a crumb are what its bits add to the two sums.
  pub c_func-crumb_of : (b1 b0 : Bool) → c_func {F = F} (crumb_of b1 b0) ≡ ok (to_a b1 b0)
  unfolding to_a sign
  c_func-crumb_of b1 b0 = ap c_func (crumb_of-from (b1, b0)) ∙ at_bits b1 b0
    where
      at_bits : (b1 b0 : Bool) → c_func (f.from_ℕ (crumb_number (b1, b0))) ≡ ok (to_a b1 b0)
      at_bits true true = c_func-from 3 (omega arith)
      at_bits true false = c_func-from 2 (omega arith)
      at_bits false true = c_func-from 1 (omega arith)
      at_bits false false = c_func-from 0 (omega arith)

  pub d_func-crumb_of : (b1 b0 : Bool) → d_func {F = F} (crumb_of b1 b0) ≡ ok (to_b b1 b0)
  unfolding to_b sign
  d_func-crumb_of b1 b0 = ap d_func (crumb_of-from (b1, b0)) ∙ at_bits b1 b0
    where
      at_bits : (b1 b0 : Bool) → d_func (f.from_ℕ (crumb_number (b1, b0))) ≡ ok (to_b b1 b0)
      at_bits true true = d_func-from 3 (omega arith)
      at_bits true false = d_func-from 2 (omega arith)
      at_bits false true = d_func-from 1 (omega arith)
      at_bits false false = d_func-from 0 (omega arith)

  add_a :
      (b1 b0 : Bool) (x : F)
      → (if b1 then x ⊕ (if b0 then f.one else f.neg f.one) else x) ≡ x ⊕ to_a b1 b0
  unfolding to_a sign
  add_a true b0 x = refl
  add_a false b0 x = sym (add-zero r x)

  add_b :
      (b1 b0 : Bool) (x : F)
      → (if b1 then x else x ⊕ (if b0 then f.one else f.neg f.one)) ≡ x ⊕ to_b b1 b0
  unfolding to_b sign
  add_b true b0 x = sym (add-zero r x)
  add_b false b0 x = refl

  scan_crumb-pair :
      (j : ℕ) (x : Crumb) (s : Scan F) → scan_crumb j (pair x) s ≡ ok (after_crumb j x s)
  unfolding scan_crumb
  scan_crumb-pair j (b1, b0) s =
      rw (c_func-crumb_of b1 b0)
        (rw (add_a b1 b0 (double s.a), add_b b1 b0 (double s.b)) (rw ((r.beq_iff _ _).1 refl) refl))

  pub scan_crumbs-pairs :
      (j : ℕ) (xs : List Crumb) (s : Scan F)
      → scan_crumbs j (map pair xs) s ≡ ok (after_crumbs j xs s)
  unfolding scan_crumbs after_crumbs
  scan_crumbs-pairs j [] s = refl
  scan_crumbs-pairs j (x ∷ xs) s =
      rw (scan_crumb-pair j x s) (scan_crumbs-pairs (suc j) xs (after_crumb j x s))

  -- The sums after a list of crumbs are those of the challenge.
  pub after_crumbs-accumulate :
      (j : ℕ) (xs : List Crumb) (s : Scan F)
      → ◌≡◌ {A = F × F}
          ((after_crumbs j xs s).a, (after_crumbs j xs s).b)
          (accumulate xs (s.a, s.b))
  unfolding after_crumbs accumulate
  after_crumbs-accumulate j [] s = refl
  after_crumbs-accumulate j (x ∷ xs) s = after_crumbs-accumulate (suc j) xs (after_crumb j x s)

  pub after_crumbs-n :
      (j : ℕ) (xs : List Crumb) (s : Scan F)
      → (after_crumbs j xs s).n ≡ fold_crumbs (map crumb xs) s.n
  unfolding after_crumbs fold_crumbs
  after_crumbs-n j [] s = refl
  after_crumbs-n j (x ∷ xs) s = after_crumbs-n (suc j) xs (after_crumb j x s)

  -- The folds of the verification follow the scan.
  pub fold_with-c_func :
      (j : ℕ) (xs : List Crumb) (s : Scan F)
      → fold_with c_func (map crumb xs) s.a ≡ ok (after_crumbs j xs s).a
  unfolding fold_with after_crumbs
  fold_with-c_func j [] s = refl
  fold_with-c_func j (x ∷ xs) s =
      rw (c_func-crumb_of x.0 x.1) (fold_with-c_func (suc j) xs (after_crumb j x s))

  pub fold_with-d_func :
      (j : ℕ) (xs : List Crumb) (s : Scan F)
      → fold_with d_func (map crumb xs) s.b ≡ ok (after_crumbs j xs s).b
  unfolding fold_with after_crumbs
  fold_with-d_func j [] s = refl
  fold_with-d_func j (x ∷ xs) s =
      rw (d_func-crumb_of x.0 x.1) (fold_with-d_func (suc j) xs (after_crumb j x s))

  pub fold_crumbs-from :
      (xs : List Crumb) (acc : ℕ)
      → fold_crumbs (map crumb xs) (f.from_ℕ acc) ≡ f.from_ℕ (number xs acc)
  unfolding fold_crumbs number double
  fold_crumbs-from [] acc = refl
  fold_crumbs-from (x ∷ xs) acc =
      let next : double (double (f.from_ℕ acc)) ⊕ crumb x ≡ f.from_ℕ (4 * acc + crumb_number x) =
        rw
          (
            crumb_of-from x,
            sym (r.from-add acc acc),
            sym (r.from-add (acc + acc) (acc + acc)),
            sym (r.from-add ((acc + acc) + (acc + acc)) (crumb_number x)),
          )
          (ap f.from_ℕ (omega arith)) in
      ap (fold_crumbs (map crumb xs)) next ∙ fold_crumbs-from xs (4 * acc + crumb_number x)
