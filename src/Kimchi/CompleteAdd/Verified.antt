-- ===== src/Kimchi/CompleteAdd/Verified.antt =====
-- kimchi/src/circuits/polynomials/complete_add.rs: the constraints vanish on a row that verifies.
use Prim.Native.String.{String}
use proof_systems.Prelude.{
  ℕ, ◌≡◌, ◌≢◌, sym, ap, ◌∙◌, ◌⊎◌, inl, inr, true, false, Bool-cases, Option, none, some, List, [],
  ◌∷◌, All,
}
use proof_systems.Outcome.{Outcome, ok, ok-injective, expect, >>=-eq-ok}
use proof_systems.Field.{Field, ◌⊕◌, ◌⊖◌, ◌⊗◌, IsRing, IsDomain}
use proof_systems.Field.Facts.{
  add-zero, mul-one, mul-zero, sub-zero, sub-eq-zero_iff, add-sub_swap, from-zero,
}
use proof_systems.Kimchi.Gates
use proof_systems.Kimchi.Gates.{GateResult, valid, ensure, ensure-valid}
use proof_systems.Kimchi.Expr.{ConstantExpr, Expr}
use proof_systems.Kimchi.Expr.Columns.{ProofEvaluations}
use proof_systems.Kimchi.Expr.Columns
use proof_systems.Kimchi.Expr.Evaluate.{Point, evaluate}
use proof_systems.Kimchi.Expr.Arith.Constraints.{Values}
use proof_systems.Kimchi.CompleteAdd.{
  Cells, read_cells, constraints, check_same_x, check_s, not_same_y, check_inf_z, check_x21_inv,
  verify_cells, verify_complete_add,
}
use proof_systems.Kimchi.CompleteAdd.Values.{row_of, values, Values-constraints}

expect-some : {A : Type 0} (o : Option A) (e : String) (a : A) → expect o e ≡ ok a → o ≡ some a
expect-some none e a h = cc
expect-some (some b) e a h = ap some (ok-injective h)

module _ {F : Type 0} ⦃f : Field F⦄ (r : IsRing f) (d : IsDomain f) (c : Cells F) where
  -- A test for an equation that leaves the rest
  tested :
      (a b : F) (e : String) (next : Outcome GateResult)
      → ensure (f.beq a b) e next ≡ ok valid
      → (a ≡ b) × (next ≡ ok valid)
  tested a b e next h =
      let (t, rest) = ensure-valid (f.beq a b) e next h in ((r.beq_iff a b).0 t, rest)

  same_x_cases :
      (next : Outcome GateResult)
      → check_same_x c next ≡ ok valid
      → (((f.beq c.x1 c.x2 ≡ true) × (c.same_x ≡ f.one))
          ⊎ ((f.beq c.x1 c.x2 ≡ false) × (c.same_x ≡ f.zero)))
        × (next ≡ ok valid)
  unfolding check_same_x
  same_x_cases next h = elim (Bool-cases (f.beq c.x1 c.x2)) [
    | inl e ↦ let (t, rest) = tested _ _ _ next (rw e at h) in (inl (e, t), rest)
    | inr e ↦ let (t, rest) = tested _ _ _ next (rw e at h) in (inr (e, t), rest)
  ]

  s_cases :
      (next : Outcome GateResult)
      → check_s c next ≡ ok valid
      → (((c.same_x ≡ f.one) × ((c.s ⊕ c.s) ⊗ c.y1 ≡ c.x1 ⊗ c.x1 ⊕ c.x1 ⊗ c.x1 ⊕ c.x1 ⊗ c.x1))
          ⊎ ((c.same_x ≢ f.one) × ((c.x2 ⊖ c.x1) ⊗ c.s ≡ c.y2 ⊖ c.y1)))
        × (next ≡ ok valid)
  unfolding check_s
  s_cases next h = elim (Bool-cases (f.beq c.same_x f.one)) [
    | inl e ↦ let (t, rest) = tested _ _ _ next (rw e at h) in (inl ((r.beq_iff _ _).0 e, t), rest)
    | inr e ↦
        let (t, rest) = tested _ _ _ next (rw e at h) in
        (inr ((λ same. (let yes_one = (r.beq_iff _ _).1 same in cc)), t), rest)
  ]

  inf_z_cases :
      (next : Outcome GateResult)
      → check_inf_z c next ≡ ok valid
      → (((c.y1 ≡ c.y2) × (not_same_y c ≡ f.zero) × (c.inf_z ≡ f.zero))
          ⊎ ((not_same_y c ≡ f.one)
              × (((c.same_x ≡ f.one) × (c.inf_z ⊗ (c.y2 ⊖ c.y1) ≡ f.one))
                  ⊎ ((c.same_x ≢ f.one) × (c.inf_z ≡ f.zero)))))
        × (next ≡ ok valid)
  unfolding check_inf_z not_same_y
  inf_z_cases next h = elim (Bool-cases (f.beq c.y1 c.y2)) [
    | inl e ↦
        let (t, rest) = tested _ _ _ next (rw e at h) in
        (inl ((r.beq_iff _ _).0 e, rw (e, not_same_y) (from-zero r), t), rest)
    | inr e ↦ elim (Bool-cases (f.beq c.same_x f.one)) [
      | inl same ↦
          let (a, inverse, h') =
            >>=-eq-ok (expect (f.inverse (c.y2 ⊖ c.y1)) _) _ (rw (e, same) at h) in
          let (t, rest) = tested _ _ _ next h' in
          (
            inr (
              rw (e, not_same_y) r.from-one,
              inl (
                (r.beq_iff _ _).0 same,
                ap (λ z. z ⊗ (c.y2 ⊖ c.y1)) t ∙ d.inverse-mul _ a (expect-some _ _ a inverse),
              ),
            ),
            rest,
          )
      | inr other ↦
          let (t, rest) = tested _ _ _ next (rw (e, other) at h) in
          (
            inr (
              rw (e, not_same_y) r.from-one,
              inr ((λ same. (let yes_one = (r.beq_iff _ _).1 same in cc)), t),
            ),
            rest,
          )
    ]
  ]

  x21_inv_cases :
      (next : Outcome GateResult)
      → check_x21_inv c next ≡ ok valid
      → ((f.beq c.x1 c.x2 ≡ true) × (c.x21_inv ≡ f.zero))
        ⊎ ((f.beq c.x1 c.x2 ≡ false) × (c.x21_inv ⊗ (c.x2 ⊖ c.x1) ≡ f.one))
  unfolding check_x21_inv
  x21_inv_cases next h = elim (Bool-cases (f.beq c.x1 c.x2)) [
    | inl e ↦ let (t, rest) = tested _ _ _ next (rw e at h) in inl (e, t)
    | inr e ↦
        let (a, inverse, h') = >>=-eq-ok (expect (f.inverse (c.x2 ⊖ c.x1)) _) _ (rw e at h) in
        let (t, rest) = tested _ _ _ next h' in
        inr (e, ap (λ z. z ⊗ (c.x2 ⊖ c.x1)) t ∙ d.inverse-mul _ a (expect-some _ _ a inverse))
  ]

  zero_of : (a b : F) → a ≡ b → a ⊖ b ≡ f.zero
  zero_of a b = (sub-eq-zero_iff r a b).1

  -- `same_x` and the inverse
  x_values :
      ((f.beq c.x1 c.x2 ≡ true) × (c.same_x ≡ f.one))
        ⊎ ((f.beq c.x1 c.x2 ≡ false) × (c.same_x ≡ f.zero))
      → ((f.beq c.x1 c.x2 ≡ true) × (c.x21_inv ≡ f.zero))
        ⊎ ((f.beq c.x1 c.x2 ≡ false) × (c.x21_inv ⊗ (c.x2 ⊖ c.x1) ≡ f.one))
      → (c.x21_inv ⊗ (c.x2 ⊖ c.x1) ⊖ (f.one ⊖ c.same_x) ≡ f.zero)
        × (c.same_x ⊗ (c.x2 ⊖ c.x1) ≡ f.zero)
  x_values (inl (e, same)) (inl (e', flat)) =
      let same_point = zero_of c.x2 c.x1 (sym ((r.beq_iff _ _).0 e)) in
      (
        zero_of _ _ (
            ap (λ z. c.x21_inv ⊗ z) same_point
            ∙ mul-zero r _
            ∙ sym (zero_of f.one c.same_x (sym same))),
        ap (λ z. c.same_x ⊗ z) same_point ∙ mul-zero r _,
      )
  x_values (inr (e, same)) (inr (e', inverse)) = (
    zero_of _ _ (inverse ∙ sym (ap (λ z. f.one ⊖ z) same ∙ sub-zero r f.one)),
    ap (λ z. z ⊗ (c.x2 ⊖ c.x1)) same ∙ r.zero-mul _,
  )
  x_values (inl (e, same)) (inr (e', inverse)) = cc
  x_values (inr (e, same)) (inl (e', flat)) = cc

  abbrev dbl : F
  dbl = (c.s ⊕ c.s) ⊗ c.y1 ⊖ (c.x1 ⊗ c.x1 ⊕ c.x1 ⊗ c.x1) ⊖ c.x1 ⊗ c.x1

  abbrev slope : F
  slope = (c.x2 ⊖ c.x1) ⊗ c.s ⊖ (c.y2 ⊖ c.y1)

  s_value :
      (c.same_x ≡ f.one) ⊎ (c.same_x ≡ f.zero)
      → ((c.same_x ≡ f.one) × ((c.s ⊕ c.s) ⊗ c.y1 ≡ c.x1 ⊗ c.x1 ⊕ c.x1 ⊗ c.x1 ⊕ c.x1 ⊗ c.x1))
        ⊎ ((c.same_x ≢ f.one) × ((c.x2 ⊖ c.x1) ⊗ c.s ≡ c.y2 ⊖ c.y1))
      → c.same_x ⊗ dbl ⊕ (f.one ⊖ c.same_x) ⊗ slope ≡ f.zero
  s_value flag (inl (same, h)) =
      ap (λ z. c.same_x ⊗ z ⊕ (f.one ⊖ c.same_x) ⊗ slope) (add-sub_swap r _ _ _ ∙ zero_of _ _ h)
      ∙ ap (λ z. z ⊕ (f.one ⊖ c.same_x) ⊗ slope) (mul-zero r _)
      ∙ r.zero-add _
      ∙ ap (λ z. z ⊗ slope) (zero_of f.one c.same_x (sym same))
      ∙ r.zero-mul _
  s_value (inl same) (inr (other, h)) = absurd (other same)
  s_value (inr same) (inr (other, h)) =
      ap (λ z. c.same_x ⊗ dbl ⊕ (f.one ⊖ c.same_x) ⊗ z) (zero_of _ _ h)
      ∙ ap (λ z. c.same_x ⊗ dbl ⊕ z) (mul-zero r _)
      ∙ add-zero r _
      ∙ ap (λ z. z ⊗ dbl) same
      ∙ r.zero-mul _

  inf_values :
      (c.same_x ≡ f.one) ⊎ (c.same_x ≡ f.zero)
      → c.inf ≡ c.same_x ⊗ not_same_y c
      → ((c.y1 ≡ c.y2) × (not_same_y c ≡ f.zero) × (c.inf_z ≡ f.zero))
        ⊎ ((not_same_y c ≡ f.one)
            × (((c.same_x ≡ f.one) × (c.inf_z ⊗ (c.y2 ⊖ c.y1) ≡ f.one))
                ⊎ ((c.same_x ≢ f.one) × (c.inf_z ≡ f.zero))))
      → ((c.y2 ⊖ c.y1) ⊗ (c.same_x ⊖ c.inf) ≡ f.zero) × ((c.y2 ⊖ c.y1) ⊗ c.inf_z ⊖ c.inf ≡ f.zero)
  inf_values flag i (inl (same_y, n, z)) =
      let y21 = zero_of c.y2 c.y1 (sym same_y) in
      let flat = i ∙ ap (λ t. c.same_x ⊗ t) n ∙ mul-zero r _ in
      (
        ap (λ t. t ⊗ (c.same_x ⊖ c.inf)) y21 ∙ r.zero-mul _,
        zero_of _ _ (ap (λ t. t ⊗ c.inf_z) y21 ∙ r.zero-mul _ ∙ sym flat),
      )
  inf_values flag i (inr (n, parts)) =
      let equal : c.inf ≡ c.same_x = i ∙ ap (λ t. c.same_x ⊗ t) n ∙ mul-one r _ in
      (
        ap (λ t. (c.y2 ⊖ c.y1) ⊗ t) (zero_of _ _ (sym equal)) ∙ mul-zero r _,
        zero_of _ _ (last parts flag ∙ sym equal),
      )
    where
      last :
          ((c.same_x ≡ f.one) × (c.inf_z ⊗ (c.y2 ⊖ c.y1) ≡ f.one))
            ⊎ ((c.same_x ≢ f.one) × (c.inf_z ≡ f.zero))
          → (c.same_x ≡ f.one) ⊎ (c.same_x ≡ f.zero)
          → (c.y2 ⊖ c.y1) ⊗ c.inf_z ≡ c.same_x
      last (inl (same, inverse)) flag = r.mul_comm _ _ ∙ inverse ∙ sym same
      last (inr (other, z)) (inl same) = absurd (other same)
      last (inr (other, z)) (inr same) = ap (λ t. (c.y2 ⊖ c.y1) ⊗ t) z ∙ mul-zero r _ ∙ sym same

  verify_cells-values : verify_cells c ≡ ok valid → All (λ v. v ≡ f.zero) (values c)
  unfolding verify_cells
  verify_cells-values h =
      let (same, h1) = same_x_cases _ h in
      let (slope, h2) = s_cases _ h1 in
      let (third, h3) = tested _ _ _ _ h2 in
      let (fourth, h4) = tested _ _ _ _ h3 in
      let (i, h5) = tested _ _ _ _ h4 in
      let (z, h6) = inf_z_cases _ h5 in
      let flag : (c.same_x ≡ f.one) ⊎ (c.same_x ≡ f.zero) = elim same [
        | inl (e, one) ↦ inl one
        | inr (e, zero) ↦ inr zero
      ] in
      let (v1, v2) = x_values same (x21_inv_cases _ h6) in
      let (v6, v7) = inf_values flag i z in
      (
        v1,
        (
          v2,
          (
            s_value flag slope,
            (zero_of _ _ (sym third), (zero_of _ _ (sym fourth), (v6, (v7, tt)))),
          ),
        ),
      )

vanishing :
    {F : Type 0} ⦃f : Field F⦄ (p : Point F) (cs : List (Expr (ConstantExpr F))) (vs : List F)
    → Values p cs vs
    → All (λ v. v ≡ f.zero) vs
    → All (λ c. evaluate p c ≡ Columns.ok f.zero) cs
vanishing p [] [] h z = tt
vanishing p (c ∷ cs) [] h z = absurd h
vanishing p [] (v ∷ vs) h z = absurd h
vanishing p (c ∷ cs) (v ∷ vs) h z = (h.0 ∙ ap Columns.ok z.0, vanishing p cs vs h.1 z.1)

-- Where a row of a witness verifies, all constraints of the gate vanish at a point that shows the cells
-- of the row; the field has no divisors of zero, and an inverse is one.
pub verify_complete_add-constraints :
    {F : Type 0} ⦃f : Field F⦄ (r : IsRing f) (d : IsDomain f) (p : Point F)
    (e : ProofEvaluations F) (evals : List (ProofEvaluations F)) (row : ℕ)
    (witness : Gates.Columns F) (c : Cells F) (more : List F)
    → read_cells witness row ≡ ok c
    → verify_complete_add row witness ≡ ok valid
    → p.evals ≡ e ∷ evals
    → e.w ≡ row_of c more
    → All (λ constraint. evaluate p constraint ≡ Columns.ok f.zero) constraints
unfolding verify_complete_add
verify_complete_add-constraints r d p e evals row witness c more read h shown cells =
    vanishing p constraints (values c) (Values-constraints r p e evals c more shown cells)
      (verify_cells-values r d c (rw read at h))
