-- ===== src/Kimchi/Tests.antt =====
-- Runs of the model of kimchi/src, in the base field of Pallas.
use proof_systems.Prelude.{
  ℕ, ◌^◌, ◌<◌, ◌≤◌, get_elem?, ◌≡◌, refl, none, [], ◌∷◌, map, arith, inl, inr,
}
use proof_systems.Outcome.{Outcome, panic}
use proof_systems.Field.Pallas.{
  Fp, pallas, element, pallas-IsRing, pallas-IsCanonical, pallas-IsRepr,
}
use proof_systems.Kimchi.Gates.{GateType, gate, permutation}
use proof_systems.Kimchi.Expr.{ConstantExpr, Op2, Expr}
use proof_systems.Kimchi.Expr.Columns.{Column, CurrOrNext, ok, evaluate_variable, evaluate_column}
use proof_systems.Kimchi.Expr.Evaluate.{Point, value, evaluate, apply}
use proof_systems.Kimchi.Expr.Polish.{
  PolishToken, to_polish, compile, constant_to_polish, evaluate_polish,
}
use proof_systems.Kimchi.Expr.Polish.Correct.{Respects, evaluate_polish-to_polish}
use proof_systems.Field.Residue.{residue, residues}
use proof_systems.Kimchi.Alphas.{
  Alphas, default, register, registered, get_exponents, get_alphas, instantiate,
}
use proof_systems.Kimchi.Alphas.Ranges.{
  IsValid, Within, default-IsValid, register-IsValid, exponents_apart,
}
use proof_systems.Kimchi.Alphas.Powers.{get_alphas-get_exponents}
use proof_systems.Oracle.Challenge.{to_field_with_length}
use proof_systems.Kimchi.Gates.{endo_mul_scalar}
use proof_systems.Kimchi.Gates.{Columns, valid}
use proof_systems.Kimchi.EndomulScalar.{gen_witness, verify_endomul_scalar, c_func}
use proof_systems.Kimchi.EndomulScalar.Rows.{gen_witness-to_field}
use proof_systems.Kimchi.EndomulScalar.Rows.Verified.{IsLevel, gen_witness-verify}

-- The registration of the source's test: ten powers for a gate, and three for the permutation.
gates : Outcome (Alphas Fp)
gates = register default (gate GateType.poseidon) 10

value_of : {A : Type 0} → Outcome A → A → A
value_of (Outcome.ok a) b = a
value_of (panic e) b = b

with_gates : Alphas Fp
with_gates = value_of gates default

with_permutation : Alphas Fp
with_permutation = value_of (register with_gates permutation 3) with_gates

gates_registered : register default (gate GateType.poseidon) 10 ≡ Outcome.ok with_gates
unfolding with_gates gates value_of register default
gates_registered = refl

permutation_registered : register with_gates permutation 3 ≡ Outcome.ok with_permutation
unfolding with_permutation with_gates gates value_of register default
permutation_registered = refl

with_gates-IsValid : IsValid with_gates
with_gates-IsValid =
    register-IsValid default with_gates (gate GateType.poseidon) 10 default-IsValid gates_registered

register-IsValid_example : IsValid with_permutation
register-IsValid_example =
    register-IsValid with_gates with_permutation permutation 3 with_gates-IsValid
      permutation_registered

with_permutation-IsValid : IsValid with_permutation
with_permutation-IsValid =
    register-IsValid with_gates with_permutation permutation 3 with_gates-IsValid
      permutation_registered

gate_exponents :
    get_exponents with_permutation (gate GateType.generic) 3 ≡ Outcome.ok (0 ∷ 1 ∷ 2 ∷ [])
unfolding with_permutation with_gates gates value_of register default get_exponents registered
gate_exponents = refl

permutation_exponents : get_exponents with_permutation permutation 2 ≡ Outcome.ok (10 ∷ 11 ∷ [])
unfolding with_permutation with_gates gates value_of register default get_exponents registered
permutation_exponents = refl

exponents_apart_example : Within 2 (10 ∷ 11 ∷ []) → ⊥
exponents_apart_example =
    exponents_apart with_permutation (gate GateType.generic) permutation 3 2 (0 ∷ 1 ∷ 2 ∷ [])
      (10 ∷ 11 ∷ []) 2 with_permutation-IsValid refl gate_exponents permutation_exponents
      (inr (inr (inl refl)))

get_alphas-get_exponents_example :
    get_alphas (instantiate with_permutation (element 7)) permutation 2
    ≡ Outcome.ok (map (pallas.pow (element 7)) (10 ∷ 11 ∷ []))
get_alphas-get_exponents_example =
    get_alphas-get_exponents pallas-IsRing with_permutation (element 7) permutation 2 (10 ∷ 11 ∷ [])
      with_permutation-IsValid permutation_exponents

cell_zero : Expr (ConstantExpr Fp)
cell_zero = Expr.cell (record { col = Column.witness 0; row = CurrOrNext.curr })

-- The square of a cell, cached, and used twice: x ^ 2 + alpha * x ^ 2.
body : ℕ → Expr (ConstantExpr Fp)
body id = Expr.square cell_zero

shared : Expr (ConstantExpr Fp)
shared =
    Expr.bin_op Op2.add (Expr.cache 0 (body 0))
      (Expr.bin_op Op2.mul (Expr.constant ConstantExpr.alpha) (Expr.cache 0 (body 0)))

point : Point Fp
point = record {
  domain = record {
    group_gen = element 5;
    size = 8;
    inverse = λ x. none;
    div = λ x y. none;
    evaluate_vanishing_polynomial = λ x. x;
  };
  pt = element 3;
  evals =
      record {
        w = element 4 ∷ [];
        z = element 0;
        s = [];
        lookup = none;
        generic_selector = element 0;
        poseidon_selector = element 0;
      }
      ∷ [];
  constants = record {
    alpha = element 10;
    beta = element 0;
    gamma = element 0;
    joint_combiner = none;
    endo_coefficient = element 0;
    mds = [];
  };
}

shared_tokens :
    to_polish shared
    ≡ PolishToken.cell (record { col = Column.witness 0; row = CurrOrNext.curr })
      ∷ PolishToken.dup
      ∷ PolishToken.mul
      ∷ PolishToken.store
      ∷ PolishToken.alpha
      ∷ PolishToken.load 0
      ∷ PolishToken.mul
      ∷ PolishToken.add
      ∷ []
unfolding shared body cell_zero to_polish compile constant_to_polish
shared_tokens = refl

shared_value : evaluate point shared ≡ ok (element 176)
unfolding shared body cell_zero point evaluate value apply evaluate_variable evaluate_column
    residues residue
shared_value = refl

shared-Respects : Respects body 1 shared
unfolding shared body cell_zero
shared-Respects = ((omega arith, refl, tt), (tt, (omega arith, refl, tt)))

evaluate_polish-to_polish_example : evaluate_polish point (to_polish shared) ≡ evaluate point shared
evaluate_polish-to_polish_example = evaluate_polish-to_polish point body shared 1 shared-Respects

empty_columns : Columns Fp
empty_columns = λ j. []

scalar_lt : pallas-IsCanonical.value (pallas.from_ℕ 0x1b2c) < 2 ^ 16
scalar_lt = let v = pallas-IsCanonical.value-from 0x1b2c (omega arith) in omega arith

gen_witness-to_field_example :
    (x : Fp) × (w' : Columns Fp) × (gen_witness empty_columns (pallas.from_ℕ 0x1b2c) (element 5) 16
      ≡ Outcome.ok (x, w'))
    × (to_field_with_length (record { inner = pallas.from_ℕ 0x1b2c }) 16 (element 5) ≡ Outcome.ok x)
gen_witness-to_field_example =
    gen_witness-to_field pallas-IsRing pallas-IsCanonical pallas-IsRepr empty_columns
      (pallas.from_ℕ 0x1b2c) (element 5) 1 (omega arith) scalar_lt

empty_columns-IsLevel : IsLevel 0 empty_columns
unfolding empty_columns
empty_columns-IsLevel = λ j l. refl

gen_witness-verify_example :
    (x : Fp) × (w' : Columns Fp) × (gen_witness empty_columns (pallas.from_ℕ 0x1b2c) (element 5) 16
      ≡ Outcome.ok (x, w'))
    × IsLevel 1 w'
    × ((j i : ℕ) → i < 0 → get_elem? (w' j) i ≡ get_elem? (empty_columns j) i)
    × ((i : ℕ) → 0 ≤ i → i < 1 → verify_endomul_scalar endo_mul_scalar i w' ≡ Outcome.ok valid)
gen_witness-verify_example =
    gen_witness-verify pallas-IsRing pallas-IsCanonical pallas-IsRepr empty_columns 0
      (pallas.from_ℕ 0x1b2c) (element 5) 1 empty_columns-IsLevel (omega arith) scalar_lt

-- A crumb of 7 is refused by the verification, not by a panic of another kind.
c_func_seven : c_func (element 7) ≡ panic "c_func"
unfolding c_func residues residue
c_func_seven = refl
