-- ===== src/Kimchi/Expr/Tests.antt =====
-- The linearization of a constraint, and the constraint of pairs of bits, over the residues modulo five.
use proof_systems.Prelude.{◌≡◌, refl, ◌⊎◌, ◌↔◌, none, Bool, true, false, List, [], ◌∷◌, All, arith}
use mathlib.Core.List.{Permᴰ}
use mathlib.Core.List.Permᴰ
use proof_systems.Field.{◌⊕◌}
use proof_systems.Field.Residue.{residue, residues}
use proof_systems.Field.Five.{F5, five, el, five-IsRing, five-IsDomain}
use proof_systems.Kimchi.Gates.{GateType}
use proof_systems.Kimchi.Expr.{ConstantExpr, Op2, Expr}
use proof_systems.Kimchi.Expr.Columns.{Column, CurrOrNext, ok, evaluate_variable, evaluate_column}
use proof_systems.Kimchi.Expr.Evaluate.{Point, value, evaluate, apply}
use proof_systems.Kimchi.Expr.Scalar
use proof_systems.Kimchi.Expr.Arith.{
  scalars, combine_constraints, combine_from, crumb, evaluate_constants, evaluate_elements,
}
use proof_systems.Kimchi.Expr.Arith
use proof_systems.Kimchi.Expr.Arith.Folding.{evaluate_elements-evaluate_constants}
use proof_systems.Kimchi.Expr.Arith.Constraints.{crumb_iff}
use proof_systems.Kimchi.Expr.Linearize.{
  Linearization, Monomials, linearize, alter, partition, add_product, add_products, mul_loop,
  mul_monomials, is_constant, power_loop, add_terms, sub_terms, double_terms, monomials,
  times_cells, place_at, place, place_all,
}
use proof_systems.Kimchi.Expr.Linearize.Keys.{
  Column-discrete, Variables-discrete, precedes, insert, sort,
}
use proof_systems.Kimchi.Expr.Linearize.Sound.{current}
use proof_systems.Kimchi.Expr.Linearize.Evaluated.{IsConstant, IsTerm, linearize-IsConstant}
use proof_systems.Kimchi.Expr.Linearize.Linear.{
  IsLinear, constant, cell, plus, scaled_right, linearize-IsLinear,
}
use proof_systems.Kimchi.Expr.Linearize.AtPoint.{
  at_point, Coefficients, combination, linearize-evaluate,
}

abbrev cell_zero : Expr (ConstantExpr F5)
cell_zero = Expr.cell (record { col = Column.witness 0; row = CurrOrNext.curr })

abbrev selector : Expr (ConstantExpr F5)
selector = Expr.cell (record { col = Column.index GateType.generic; row = CurrOrNext.curr })

-- The selector times the sum of a cell and alpha, and the square of the cell.
abbrev constraint : Expr (ConstantExpr F5)
constraint =
    Expr.bin_op Op2.add
      (Expr.bin_op Op2.mul selector
        (Expr.bin_op Op2.add cell_zero (Expr.constant ConstantExpr.alpha)))
      (Expr.pow cell_zero 2)

abbrev evaluated : Column → Bool
evaluated (Column.witness i) = true
evaluated _ = false

abbrev point : Point F5
point = record {
  domain = record {
    group_gen = el 2;
    size = 4;
    inverse = λ x. none;
    div = λ x y. none;
    evaluate_vanishing_polynomial = λ x. x;
  };
  pt = el 3;
  evals =
      record {
        w = el 4 ∷ [];
        z = el 0;
        s = [];
        lookup = none;
        generic_selector = el 3;
        poseidon_selector = el 0;
      }
      ∷ [];
  constants = record {
    alpha = el 2;
    beta = el 0;
    gamma = el 0;
    joint_combiner = none;
    endo_coefficient = el 0;
    mds = [];
  };
}

-- Maps are iterated in the order of insertion.
abbrev same_order : Monomials (ConstantExpr F5) → Monomials (ConstantExpr F5)
same_order m = m

abbrev same_columns :
    List (Column × Expr (ConstantExpr F5)) → List (Column × Expr (ConstantExpr F5))
same_columns m = m

abbrev linearized : Linearization (Expr (ConstantExpr F5))
linearized = record {
  constant_term = Expr.pow cell_zero 2;
  index_terms =
      (
        Column.index GateType.generic,
        Expr.bin_op Op2.add cell_zero (Expr.constant ConstantExpr.alpha),
      )
      ∷ [];
}

constraint-linearize :
    linearize (scalars five) same_order same_columns evaluated constraint ≡ ok linearized
unfolding linearize alter partition add_product add_products mul_loop mul_monomials is_constant
    power_loop add_terms sub_terms double_terms monomials times_cells place_at place place_all
    Column-discrete Variables-discrete precedes insert sort Arith.add Arith.mul Arith.add_assign
    Arith.is_zero Arith.is_one Scalar.is_zero Scalar.is_one residues residue
constraint-linearize = refl

constraint-value : evaluate point constraint ≡ ok (el 4)
unfolding evaluate value apply evaluate_variable evaluate_column residues residue
constraint-value = refl

cell-value : evaluate point cell_zero ≡ ok (el 4)
unfolding evaluate evaluate_variable evaluate_column
cell-value = refl

constant_term-value : evaluate point linearized.constant_term ≡ ok (el 16)
unfolding evaluate evaluate_variable evaluate_column residues residue
constant_term-value = refl

coefficient-value : Coefficients point linearized.index_terms (el 6 ∷ [])
unfolding evaluate value apply evaluate_variable evaluate_column residues residue
coefficient-value = (refl, tt)

evaluate_elements-evaluate_constants_example :
    (e' : Expr F5) × (evaluate_constants point.constants constraint ≡ ok e')
    × (evaluate_elements point e' ≡ ok (el 4))
evaluate_elements-evaluate_constants_example =
    evaluate_elements-evaluate_constants five-IsRing point constraint (el 4) constraint-value

in_order : {A : Type 0} (m : List A) → Permᴰ m m
in_order m = Permᴰ.refl m

linearize-evaluate_example :
    el 4
    ≡ el 16
      ⊕ combination (current (at_point point (λ col. el 3))) linearized.index_terms (el 6 ∷ [])
linearize-evaluate_example =
    linearize-evaluate five-IsRing point (λ col. el 3) same_order in_order same_columns in_order
      evaluated constraint linearized (el 4) (el 16) (el 6 ∷ []) ((tt, (tt, tt)), (omega arith, tt))
      constraint-linearize constraint-value constant_term-value coefficient-value

linearize-IsConstant_example :
    IsConstant (scalars five) evaluated linearized.constant_term
    × All (IsTerm (scalars five) evaluated) linearized.index_terms
linearize-IsConstant_example =
    linearize-IsConstant (scalars five) evaluated same_order in_order same_columns in_order
      constraint linearized constraint-linearize

constraint-IsLinear : IsLinear evaluated constraint
unfolding is_constant
constraint-IsLinear = plus (scaled_right (cell refl) refl) (constant refl)

linearize-IsLinear_example :
    (l : Linearization (Expr (ConstantExpr F5))) × (linearize
        (scalars five)
        same_order
        same_columns
        evaluated
        constraint
      ≡ ok l)
linearize-IsLinear_example =
    linearize-IsLinear (scalars five) evaluated same_order in_order same_columns constraint
      constraint-IsLinear

crumb_iff_example :
    (evaluate point (crumb cell_zero) ≡ ok five.zero)
    ↔ ((el 4 ≡ five.zero) ⊎ (el 4 ≡ five.one) ⊎ (el 4 ≡ five.from_ℕ 2) ⊎ (el 4 ≡ five.from_ℕ 3))
crumb_iff_example =
    crumb_iff five-IsRing point cell_zero (el 4) cell-value five-IsDomain.no_divisors
