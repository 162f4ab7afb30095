-- ===== src/Kimchi/CompleteAdd/Sum.antt =====
-- kimchi/src/circuits/polynomials/complete_add.rs: what the constraints say of the points of a row.
use proof_systems.Prelude.{
  ◌≡◌, ◌≢◌, sym, ap, ◌∙◌, ◌⊎◌, inl, inr, false, Bool-cases, List, [], ◌∷◌, All,
}
use proof_systems.Field.{Field, ◌⊕◌, ◌⊖◌, ◌⊗◌, IsRing, IsDomain}
use proof_systems.Field.Facts.{add-zero, mul-zero, sub-zero, sub-eq-zero_iff, add-sub_swap}
use proof_systems.Kimchi.Expr.{ConstantExpr, Expr}
use proof_systems.Kimchi.Expr.Columns.{ProofEvaluations, ok, ok-injective}
use proof_systems.Kimchi.Expr.Evaluate.{Point, evaluate}
use proof_systems.Kimchi.Expr.Arith.Constraints.{Values}
use proof_systems.Kimchi.CompleteAdd.{Cells, constraints}
use proof_systems.Kimchi.CompleteAdd.Values.{row_of, values, Values-constraints}

-- The sum of the points at (x1, y1) and (x2, y2), by the slope of the chord, or of the tangent where
-- the abscissas agree; the sum is at infinity where only these agree.
pub record IsSum {F : Type 0} ⦃f : Field F⦄ (c : Cells F) : Type 0 where
  pub slope :
      ((c.x1 ≡ c.x2)
        × (c.same_x ≡ f.one)
        × ((c.s ⊕ c.s) ⊗ c.y1 ≡ c.x1 ⊗ c.x1 ⊕ c.x1 ⊗ c.x1 ⊕ c.x1 ⊗ c.x1))
      ⊎ ((c.x1 ≢ c.x2) × (c.same_x ≡ f.zero) × ((c.x2 ⊖ c.x1) ⊗ c.s ≡ c.y2 ⊖ c.y1))
  pub abscissa : c.s ⊗ c.s ≡ c.x1 ⊕ c.x2 ⊕ c.x3
  pub ordinate : c.y3 ≡ c.s ⊗ (c.x1 ⊖ c.x3) ⊖ c.y1
  pub infinity : ((c.y1 ≡ c.y2) × (c.inf ≡ f.zero)) ⊎ ((c.y1 ≢ c.y2) × (c.inf ≡ c.same_x))

vanished :
    {F : Type 0} ⦃f : Field F⦄ (p : Point F) (cs : List (Expr (ConstantExpr F))) (vs : List F)
    → Values p cs vs
    → All (λ c. evaluate p c ≡ ok f.zero) cs
    → All (λ v. v ≡ f.zero) vs
vanished p [] [] h z = tt
vanished p (c ∷ cs) [] h z = absurd h
vanished p [] (v ∷ vs) h z = absurd h
vanished p (c ∷ cs) (v ∷ vs) h z = (ok-injective (sym h.0 ∙ z.0), vanished p cs vs h.1 z.1)

module _ {F : Type 0} ⦃f : Field F⦄ (r : IsRing f) (d : IsDomain f) (c : Cells F) where
  equal_of : (a b : F) → a ⊖ b ≡ f.zero → a ≡ b
  equal_of a b = (sub-eq-zero_iff r a b).0

  unequal : (a b : F) → f.beq a b ≡ false → a ≢ b
  unequal a b e same = let yes_same = (r.beq_iff a b).1 same in cc

  abbrev dbl : F
  dbl = (c.s ⊕ c.s) ⊗ c.y1 ⊖ (c.x1 ⊗ c.x1 ⊕ c.x1 ⊗ c.x1) ⊖ c.x1 ⊗ c.x1

  abbrev chord : F
  chord = (c.x2 ⊖ c.x1) ⊗ c.s ⊖ (c.y2 ⊖ c.y1)

  with_one : c.same_x ≡ f.one → c.same_x ⊗ dbl ⊕ (f.one ⊖ c.same_x) ⊗ chord ≡ dbl
  with_one same =
      ap (λ t. c.same_x ⊗ dbl ⊕ t ⊗ chord) ((sub-eq-zero_iff r f.one c.same_x).1 (sym same))
      ∙ ap (λ t. c.same_x ⊗ dbl ⊕ t) (r.zero-mul chord)
      ∙ add-zero r _
      ∙ ap (λ t. t ⊗ dbl) same
      ∙ r.one-mul dbl

  with_zero : c.same_x ≡ f.zero → c.same_x ⊗ dbl ⊕ (f.one ⊖ c.same_x) ⊗ chord ≡ chord
  with_zero same =
      ap (λ t. t ⊗ dbl ⊕ (f.one ⊖ c.same_x) ⊗ chord) same
      ∙ ap (λ t. t ⊕ (f.one ⊖ c.same_x) ⊗ chord) (r.zero-mul dbl)
      ∙ r.zero-add _
      ∙ ap (λ t. (f.one ⊖ t) ⊗ chord) same
      ∙ ap (λ t. t ⊗ chord) (sub-zero r f.one)
      ∙ r.one-mul chord

  values-IsSum : All (λ v. v ≡ f.zero) (values c) → IsSum c
  values-IsSum (v1, (v2, (v3, (v4, (v5, (v6, (v7, t))))))) = record {
    slope = elim (Bool-cases (f.beq c.x1 c.x2)) [
      | inl e ↦
          let same_point = (r.beq_iff _ _).0 e in
          let none_left = (sub-eq-zero_iff r c.x2 c.x1).1 (sym same_point) in
          let same : c.same_x ≡ f.one = sym (
            equal_of f.one c.same_x
              (sym (equal_of _ _ v1) ∙ ap (λ z. c.x21_inv ⊗ z) none_left ∙ mul-zero r _)) in
          inl
            (same_point, same, equal_of _ _ (sym (add-sub_swap r _ _ _) ∙ sym (with_one same) ∙ v3))
      | inr e ↦
          let other = unequal c.x1 c.x2 e in
          let same : c.same_x ≡ f.zero = elim (d.no_divisors _ _ v2) [
            | inl z ↦ z
            | inr z ↦ absurd (other (sym (equal_of _ _ z)))
          ] in
          inr (other, same, equal_of _ _ (sym (with_zero same) ∙ v3))
    ];
    abscissa = sym (equal_of _ _ v4);
    ordinate = sym (equal_of _ _ v5);
    infinity = elim (Bool-cases (f.beq c.y1 c.y2)) [
      | inl e ↦
          let same_y = (r.beq_iff _ _).0 e in
          inl (
            same_y,
            sym (equal_of _ _ v7)
                ∙ ap (λ z. z ⊗ c.inf_z) ((sub-eq-zero_iff r c.y2 c.y1).1 (sym same_y))
                ∙ r.zero-mul _,
          )
      | inr e ↦
          let other = unequal c.y1 c.y2 e in
          inr (
            other,
            elim (d.no_divisors _ _ v6) [
              | inl z ↦ absurd (other (sym (equal_of _ _ z)))
              | inr z ↦ sym (equal_of _ _ z)
            ],
          )
    ];
  }

-- Where the constraints of the gate vanish at a point that shows the cells of a row, these hold the
-- sum of two points: the slope of the chord or of the tangent, the abscissa and the ordinate of the
-- sum, and whether it is at infinity; the field has no divisors of zero.
pub constraints-IsSum :
    {F : Type 0} ⦃f : Field F⦄ (r : IsRing f) (d : IsDomain f) (p : Point F)
    (e : ProofEvaluations F) (evals : List (ProofEvaluations F)) (c : Cells F) (more : List F)
    → p.evals ≡ e ∷ evals
    → e.w ≡ row_of c more
    → All (λ constraint. evaluate p constraint ≡ ok f.zero) constraints
    → IsSum c
constraints-IsSum r d p e evals c more shown cells h =
    values-IsSum r d c
      (vanished p constraints (values c) (Values-constraints r p e evals c more shown cells) h)
