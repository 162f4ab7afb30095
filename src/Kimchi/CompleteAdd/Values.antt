-- ===== src/Kimchi/CompleteAdd/Values.antt =====
-- kimchi/src/circuits/polynomials/complete_add.rs: the values of the constraints at a row.
use proof_systems.Prelude.{ℕ, ◌≡◌, refl, ap, ◌∙◌, some, get_elem?, List, [], ◌∷◌}
use proof_systems.Field.{Field, ◌⊕◌, ◌⊖◌, ◌⊗◌, IsRing}
use proof_systems.Kimchi.Expr.{ConstantExpr, Expr}
use proof_systems.Kimchi.Expr.Columns.{
  ok, unwrap, Attempt, ◌>>=◌, ProofEvaluations, evaluate_variable, evaluate_column,
}
use proof_systems.Kimchi.Expr.Evaluate.{Point, evaluate}
use proof_systems.Kimchi.Expr.Arith.{scalars}
use proof_systems.Kimchi.Expr.Arith
use proof_systems.Kimchi.Expr.Arith.Values.{
  IsEvaluation, ev-add, ev-sub, ev-mul, evaluate-IsEvaluation,
}
use proof_systems.Kimchi.Expr.Arith.Constraints.{Values}
use proof_systems.Kimchi.CompleteAdd.{
  Cells, witness_curr, zero_check, x21, y21, x1_squared, constraints,
}

module _ {F : Type 0} ⦃f : Field F⦄ where
  -- The columns of a row, and what is behind them
  abbrev pub row_of : Cells F → List F → List F
  row_of c more =
      c.x1 ∷ c.y1 ∷ c.x2 ∷ c.y2 ∷ c.x3 ∷ c.y3 ∷ c.inf ∷ c.same_x ∷ c.s ∷ c.inf_z ∷ c.x21_inv ∷ more

  abbrev pub values : Cells F → List F
  values c =
      (c.x21_inv ⊗ (c.x2 ⊖ c.x1) ⊖ (f.one ⊖ c.same_x))
      ∷ (c.same_x ⊗ (c.x2 ⊖ c.x1))
      ∷ (c.same_x ⊗ ((c.s ⊕ c.s) ⊗ c.y1 ⊖ (c.x1 ⊗ c.x1 ⊕ c.x1 ⊗ c.x1) ⊖ c.x1 ⊗ c.x1)
          ⊕ (f.one ⊖ c.same_x) ⊗ ((c.x2 ⊖ c.x1) ⊗ c.s ⊖ (c.y2 ⊖ c.y1)))
      ∷ (c.x1 ⊕ c.x2 ⊕ c.x3 ⊖ c.s ⊗ c.s)
      ∷ (c.s ⊗ (c.x1 ⊖ c.x3) ⊖ c.y1 ⊖ c.y3)
      ∷ ((c.y2 ⊖ c.y1) ⊗ (c.same_x ⊖ c.inf))
      ∷ ((c.y2 ⊖ c.y1) ⊗ c.inf_z ⊖ c.inf)
      ∷ []

  -- An expression has a value at a point.
  record Has (p : Point F) (x : Expr (ConstantExpr F)) (v : F) : Type 0 where
    value_ok : evaluate p x ≡ ok v

module _ {F : Type 0} ⦃f : Field F⦄ (r : IsRing f) (p : Point F) (e : ProofEvaluations F)
    (evals : List (ProofEvaluations F)) (c : Cells F) (more : List F) (shown : p.evals ≡ e ∷ evals)
    (cells : e.w ≡ row_of c more) where
  cell : (i : ℕ) (v : F) → get_elem? (row_of c more) i ≡ some v → Has p (witness_curr i) v
  unfolding evaluate witness_curr evaluate_variable evaluate_column
  cell i v h = record {
    value_ok =
        ap
          (λ (l : List (ProofEvaluations F)).
            unwrap (get_elem? l 0) >>= λ t. unwrap (get_elem? t.w i))
          shown
        ∙ ap (λ (l : List F). unwrap (get_elem? l i)) cells
        ∙ ap unwrap h;
  }

  evaluates : IsEvaluation (scalars f) (evaluate p)
  evaluates = evaluate-IsEvaluation r p

  minus :
      {x y : Expr (ConstantExpr F)} {v u : F}
      → Has p x v
      → Has p y u
      → Has p (Arith.sub (scalars f) x y) (v ⊖ u)
  minus {x} {y} {v} {u} a b = record { value_ok = ev-sub r evaluates x y v u a.value_ok b.value_ok }

  plus :
      {x y : Expr (ConstantExpr F)} {v u : F}
      → Has p x v
      → Has p y u
      → Has p (Arith.add (scalars f) x y) (v ⊕ u)
  plus {x} {y} {v} {u} a b = record { value_ok = ev-add r evaluates x y v u a.value_ok b.value_ok }

  times :
      {x y : Expr (ConstantExpr F)} {v u : F}
      → Has p x v
      → Has p y u
      → Has p (Arith.mul (scalars f) x y) (v ⊗ u)
  times {x} {y} {v} {u} a b = record { value_ok = ev-mul r evaluates x y v u a.value_ok b.value_ok }

  cached : {id : ℕ} {x : Expr (ConstantExpr F)} {v : F} → Has p x v → Has p (Expr.cache id x) v
  unfolding evaluate
  cached h = record { value_ok = h.value_ok }

  doubled : {x : Expr (ConstantExpr F)} {v : F} → Has p x v → Has p (Expr.double x) (v ⊕ v)
  unfolding evaluate
  doubled h = record { value_ok = ap (λ (m : Attempt F). m >>= λ t. ok (t ⊕ t)) h.value_ok }

  one_value : Has p (Arith.one (scalars f)) f.one
  one_value = record { value_ok = evaluates.one_ok }

  x21_value : Has p x21 (c.x2 ⊖ c.x1)
  x21_value = cached (minus (cell 2 c.x2 refl) (cell 0 c.x1 refl))

  y21_value : Has p y21 (c.y2 ⊖ c.y1)
  y21_value = cached (minus (cell 3 c.y2 refl) (cell 1 c.y1 refl))

  x1_squared_value : Has p x1_squared (c.x1 ⊗ c.x1)
  x1_squared_value = cached (times (cell 0 c.x1 refl) (cell 0 c.x1 refl))

  -- At a point that shows the cells of a row, the constraints have these values.
  pub Values-constraints : Values p constraints (values c)
  unfolding constraints zero_check
  Values-constraints =
      let same_x = cell 7 c.same_x refl in
      let s = cell 8 c.s refl in
      let x1 = cell 0 c.x1 refl in
      let y1 = cell 1 c.y1 refl in
      let x3 = cell 4 c.x3 refl in
      let inf = cell 6 c.inf refl in
      let v1 = minus (times (cell 10 c.x21_inv refl) x21_value) (minus one_value same_x) in
      let v2 = times same_x x21_value in
      let v3 =
        plus
          (times same_x
            (minus (minus (times (doubled s) y1) (doubled x1_squared_value)) x1_squared_value))
          (times (minus one_value same_x) (minus (times x21_value s) y21_value)) in
      let v4 = minus (plus (plus x1 (cell 2 c.x2 refl)) x3) (times s s) in
      let v5 = minus (minus (times s (minus x1 x3)) y1) (cell 5 c.y3 refl) in
      let v6 = times y21_value (minus same_x inf) in
      let v7 = minus (times y21_value (cell 9 c.inf_z refl)) inf in
      (
        v1.value_ok,
        (
          v2.value_ok,
          (v3.value_ok, (v4.value_ok, (v5.value_ok, (v6.value_ok, (v7.value_ok, tt))))),
        ),
      )
