-- ===== src/Kimchi/Argument/Combined.antt =====
-- kimchi/src/circuits/argument.rs: the value of combined constraints, and the powers in it.
use proof_systems.Prelude.{
  ℕ, zero, suc, ◌+◌, ◌==◌, ◌≡◌, refl, sym, ap, ◌∙◌, List, [], ◌∷◌, length, map, true, arith,
}
use proof_systems.Outcome
use proof_systems.Field.{Field, ◌⊕◌, ◌⊗◌, IsRing}
use proof_systems.Kimchi.Alphas.{Alphas, range, get_exponents, get_alphas, instantiate}
use proof_systems.Kimchi.Alphas.Ranges.{IsValid, get_exponents-ok}
use proof_systems.Kimchi.Alphas.Powers.{get_alphas-get_exponents}
use proof_systems.Kimchi.Expr.{ConstantExpr, Expr}
use proof_systems.Kimchi.Expr.Columns.{ok}
use proof_systems.Kimchi.Expr.Evaluate.{Point, evaluate}
use proof_systems.Kimchi.Expr.Arith.Constraints.{Values, weighted, combine_constraints-weighted}
use proof_systems.Kimchi.Argument.{Argument, attempt, filtered, combined_constraints}

length-range : (start n : ℕ) → length (range start n) ≡ n
length-range start zero = refl
length-range start (suc n) = ap suc (length-range (start + 1) n)

module _ {F : Type 0} ⦃f : Field F⦄ where
  -- The sum of products of two lists
  abbrev pub dot : List F → List F → F
  dot (a ∷ xs) (v ∷ vs) = a ⊗ v ⊕ dot xs vs
  dot _ _ = f.zero

  weighted-map :
      (alpha : F) (es : List ℕ) (vs : List F) → weighted alpha es vs ≡ dot (map (f.pow alpha) es) vs
  unfolding weighted
  weighted-map alpha [] vs = refl
  weighted-map alpha (e ∷ es) [] = refl
  weighted-map alpha (e ∷ es) (v ∷ vs) = ap (λ t. f.pow alpha e ⊗ v ⊕ t) (weighted-map alpha es vs)

  -- Where an argument has as many constraints as it says, each has a value at a point, and a valid
  -- registry hands out exponents for them, its combined constraint is made: for a gate it is filtered by the selector.
  -- Before that its value is the sum of the values of the constraints, each times the power that is
  -- handed out for it once alpha is known.
  pub combined_constraints-dot :
      (r : IsRing f) (p : Point F) (a : Argument F) (alphas : Alphas F) (es : List ℕ) (vs : List F)
      → IsValid alphas
      → length a.constraints ≡ a.count
      → get_exponents alphas a.argument_type a.count ≡ Outcome.ok es
      → Values p a.constraints vs
      → (c : Expr (ConstantExpr F)) × (powers : List F) × (combined_constraints a alphas
          ≡ ok (filtered a.argument_type c))
        × (get_alphas (instantiate alphas p.constants.alpha) a.argument_type a.count
            ≡ Outcome.ok powers)
        × (evaluate p c ≡ ok (dot powers vs))
  unfolding combined_constraints attempt
  combined_constraints-dot r p a alphas es vs v n handed h =
      let (start, count, reg, here, le, same) =
        get_exponents-ok alphas a.argument_type a.count es v handed in
      let many : length es ≡ length a.constraints =
        ap length same ∙ length-range start a.count ∙ sym n in
      let (c, made, has) = combine_constraints-weighted r p es a.constraints vs many h in
      let test : (length a.constraints == a.count) ≡ true = ground (arith, n) in
      (
        c,
        map (f.pow p.constants.alpha) es,
        rw (test, handed, made) refl,
        get_alphas-get_exponents r alphas p.constants.alpha a.argument_type a.count es v handed,
        has ∙ ap ok (weighted-map p.constants.alpha es vs),
      )
