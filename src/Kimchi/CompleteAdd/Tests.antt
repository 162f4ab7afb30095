-- ===== src/Kimchi/CompleteAdd/Tests.antt =====
-- The sum of two points over the residues modulo five.
use proof_systems.Prelude.{List, ◌≡◌, refl, none, [], ◌∷◌, All, get_or}
use proof_systems.Outcome.{ok}
use proof_systems.Field.Residue.{residue, residues}
use proof_systems.Field.Five.{F5, five, el, five-IsRing, five-IsDomain}
use proof_systems.Kimchi.Gates
use proof_systems.Kimchi.Gates.{GateType, gate, permutation, valid, ensure}
use proof_systems.Kimchi.Expr.Columns
use proof_systems.Kimchi.Expr.Columns.{ProofEvaluations}
use proof_systems.Kimchi.Expr.Evaluate.{Point, evaluate}
use proof_systems.Kimchi.Expr.{ConstantExpr, Expr}
use proof_systems.Kimchi.Alphas.{
  Alphas, default, register, insert, range, registered, get_exponents, get_alphas, instantiate,
}
use proof_systems.Kimchi.Alphas.Ranges.{IsValid, default-IsValid, register-IsValid}
use proof_systems.Kimchi.Argument.{combined_constraints, filtered}
use proof_systems.Kimchi.Argument.Combined.{dot, combined_constraints-dot}
use proof_systems.Kimchi.CompleteAdd.{
  argument, zero_check, Cells, read_cells, constraints, verify_complete_add, verify_cells,
  check_same_x, check_s, not_same_y, check_inf_z, check_x21_inv,
}
use proof_systems.Kimchi.CompleteAdd.Values.{row_of, values, Values-constraints}
use proof_systems.Kimchi.CompleteAdd.Verified.{verify_complete_add-constraints}
use proof_systems.Kimchi.CompleteAdd.Sum.{IsSum, constraints-IsSum}

-- (1, 2) and (3, 1), whose chord has the slope 2, and their sum
abbrev cells : Cells F5
cells = record {
  x1 = el 1;
  y1 = el 2;
  x2 = el 3;
  y2 = el 1;
  x3 = el 0;
  y3 = el 0;
  inf = el 0;
  same_x = el 0;
  s = el 2;
  inf_z = el 0;
  x21_inv = el 3;
}

abbrev columns : Gates.Columns F5
columns = λ j. get_or (row_of cells []) j (el 0) ∷ []

abbrev shown : ProofEvaluations F5
shown = record {
  w = row_of cells [];
  z = el 0;
  s = [];
  lookup = none;
  generic_selector = el 0;
  poseidon_selector = el 0;
}

abbrev point : Point F5
point = record {
  domain = record {
    group_gen = el 2;
    size = 4;
    inverse = λ x. none;
    div = λ x y. none;
    evaluate_vanishing_polynomial = λ x. x;
  };
  pt = el 3;
  evals = shown ∷ [];
  constants = record {
    alpha = el 2;
    beta = el 0;
    gamma = el 0;
    joint_combiner = none;
    endo_coefficient = el 0;
    mds = [];
  };
}

columns-cells : read_cells columns 0 ≡ ok cells
unfolding read_cells
columns-cells = refl

columns-verify : verify_complete_add 0 columns ≡ ok valid
unfolding verify_complete_add read_cells verify_cells check_same_x check_s not_same_y check_inf_z
    check_x21_inv ensure residues residue
columns-verify = refl

verify_complete_add-constraints_example :
    All (λ constraint. evaluate point constraint ≡ Columns.ok five.zero) constraints
verify_complete_add-constraints_example =
    verify_complete_add-constraints five-IsRing five-IsDomain point shown [] 0 columns cells []
      columns-cells columns-verify refl refl

constraints-IsSum_example : IsSum cells
constraints-IsSum_example =
    constraints-IsSum five-IsRing five-IsDomain point shown [] cells [] refl refl
      verify_complete_add-constraints_example

-- Seven powers for the gates, behind three for the permutation
abbrev with_permutation : Alphas F5
with_permutation = record {
  next_power = 3;
  mapping = insert permutation (0, 3) (λ t. none);
  alphas = none;
}

abbrev registered_all : Alphas F5
registered_all = record {
  next_power = 10;
  mapping = insert (gate GateType.zero) (3, 7) with_permutation.mapping;
  alphas = none;
}

registered_all-IsValid : IsValid registered_all
unfolding default register
registered_all-IsValid =
    register-IsValid with_permutation registered_all (gate GateType.complete_add) 7
      (register-IsValid default with_permutation permutation 3 default-IsValid refl) refl

handed : get_exponents registered_all (gate GateType.complete_add) 7 ≡ ok (range 3 7)
unfolding get_exponents registered
handed = refl

combined_constraints-dot_example :
    (c : Expr (ConstantExpr F5)) × (powers : List F5) × (combined_constraints argument
        registered_all
      ≡ Columns.ok (filtered (gate GateType.complete_add) c))
    × (get_alphas (instantiate registered_all (el 2)) (gate GateType.complete_add) 7 ≡ ok powers)
    × (evaluate point c ≡ Columns.ok (dot powers (values cells)))
unfolding argument constraints zero_check
combined_constraints-dot_example =
    combined_constraints-dot five-IsRing point argument registered_all (range 3 7) (values cells)
      registered_all-IsValid refl handed
      (Values-constraints five-IsRing point shown [] cells [] refl refl)
