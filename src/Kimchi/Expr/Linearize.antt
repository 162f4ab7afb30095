-- ===== src/Kimchi/Expr/Linearize.antt =====
-- kimchi/src/circuits/expr.rs: the monomials of an expression, and its linearization. A `HashMap` is
-- an association list, and the order in which it is iterated is a parameter; a `HashSet` is the test
-- of its members.
pub mod Keys
pub mod Meaning
pub mod Products
pub mod Exponents
pub mod Monomials
pub mod Sound
pub mod Entries
pub mod Evaluated
pub mod Linear
pub mod AtPoint
use proof_systems.Prelude.{
  ℕ, zero, suc, ◌+◌, ◌/◌, ◌%◌, ◌^◌, ◌==◌, ◌&&◌, Bool, true, false, List, [], ◌∷◌, ◌++◌, map,
  if◌then◌else◌,
}
use mathlib.Core.Logic.{ite}
use proof_systems.Kimchi.Expr.{Op2, Expr}
use proof_systems.Kimchi.Expr.Columns.{
  Column, CurrOrNext, curr, next, Variable, ExprError, missing_evaluation, failed_linearization,
  Attempt, ok, err, ◌>>=◌,
}
use proof_systems.Kimchi.Expr.Arith.{Coefficient}
use proof_systems.Kimchi.Expr.Arith
use proof_systems.Kimchi.Expr.Linearize.Keys.{Column-discrete, Variables-discrete, sort}

pub record Linearization (E : Type 0) : Type 0 where
  pub constant_term : E
  pub index_terms : List (Column × E)

abbrev pub Monomials : Type 0 → Type 0
Monomials C = List (List Variable × Expr C)

-- The constant term, and the coefficients of columns
abbrev pub Sums : Type 0 → Type 0
Sums C = Expr C × List (Column × Expr C)

-- The value of a key is taken out of the map and put back changed, or `new` is inserted.
unfoldable pub alter : {K V : Type 0} → Discrete K → K → V → (V → V) → List (K × V) → List (K × V)
alter d key new change [] = (key, new) ∷ []
alter d key new change ((j, v) ∷ m) =
    ite (d j key) ((j, change v) ∷ m) ((j, v) ∷ alter d key new change m)

-- The variables whose columns are evaluated, and the others
unfoldable pub partition : (Column → Bool) → List Variable → List Variable × List Variable
partition evaluated [] = ([], [])
partition evaluated (v ∷ m) =
    (let rest = partition evaluated m in
      if evaluated v.col then (v ∷ rest.0, rest.1) else (rest.0, v ∷ rest.1))

module _ {C : Type 0} where
  unfoldable pub is_constant : (Column → Bool) → Expr C → Bool
  is_constant evaluated (Expr.pow x d) = is_constant evaluated x
  is_constant evaluated (Expr.square x) = is_constant evaluated x
  is_constant evaluated (Expr.constant c) = true
  is_constant evaluated (Expr.cell v) = evaluated v.col
  is_constant evaluated (Expr.double x) = is_constant evaluated x
  is_constant evaluated (Expr.bin_op op x y) = is_constant evaluated x && is_constant evaluated y
  is_constant evaluated Expr.vanishes_on_last4_rows = true
  is_constant evaluated (Expr.unnormalized_lagrange_basis i) = true
  is_constant evaluated (Expr.cache id x) = is_constant evaluated x

  abbrev pub single : List Variable → Expr C → Monomials C
  single v c = (v, c) ∷ []

  unfoldable pub double_terms : Monomials C → Monomials C
  double_terms [] = []
  double_terms ((m, c) ∷ e) = (m, Expr.double c) ∷ double_terms e

module _ {C : Type 0} (k : Coefficient C) where
  -- The body of the inner loop of `mul_monomials`
  unfoldable pub add_product :
      List Variable × Expr C → Monomials C → List Variable × Expr C → Monomials C
  add_product (m1, c1) res (m2, c2) =
      (let c1c2 = Arith.mul k c1 c2 in
        alter Variables-discrete (sort (m1 ++ m2)) (Arith.add k (Arith.zero k) c1c2)
          (λ v. Arith.add k v c1c2) res)

  unfoldable pub add_products : List Variable × Expr C → Monomials C → Monomials C → Monomials C
  add_products t [] res = res
  add_products t (u ∷ e2) res = add_products t e2 (add_product t res u)

  unfoldable pub mul_loop : Monomials C → Monomials C → Monomials C → Monomials C
  mul_loop [] e2 res = res
  mul_loop (t ∷ e1) e2 res = mul_loop e1 e2 (add_products t e2 res)

  -- The loop over the terms of the second operand of a sum
  unfoldable pub add_terms : Monomials C → Monomials C → Monomials C
  add_terms [] res = res
  add_terms ((m, c) ∷ e2) res =
      add_terms e2 (alter Variables-discrete m c (λ v. Arith.add k v c) res)

  unfoldable pub sub_terms : Monomials C → Monomials C → Monomials C
  sub_terms [] res = res
  sub_terms ((m, c) ∷ e2) res =
      sub_terms e2 (alter Variables-discrete m (Arith.neg k c) (λ v. Arith.sub k v c) res)

  -- The product of a coefficient and the evaluated variables
  unfoldable pub times_cells : Expr C → List Variable → Expr C
  times_cells c [] = c
  times_cells c (v ∷ vs) = times_cells (Arith.mul k c (Expr.cell v)) vs

  unfoldable pub place_at : Column → CurrOrNext → Expr C → Sums C → Attempt (Sums C)
  place_at col next c (constant_term, res) = err (missing_evaluation col next)
  place_at col curr c (constant_term, res) =
      ok (constant_term, alter Column-discrete col c (λ v. Arith.add k v c) res)

  -- The body of the loop of `linearize`, by the unevaluated variables
  unfoldable pub place : List Variable → Expr C → Sums C → Attempt (Sums C)
  place [] c (constant_term, res) = ok (Arith.add_assign k constant_term c, res)
  place (v ∷ []) c sums = place_at v.col v.row c sums
  place (v ∷ w ∷ vs) c sums = err failed_linearization

  unfoldable pub place_all : (Column → Bool) → Monomials C → Sums C → Attempt (Sums C)
  place_all evaluated [] sums = ok sums
  place_all evaluated ((m, c) ∷ rest) sums = do
    let parts = partition evaluated m
    sums' ← place parts.1 (times_cells c parts.0) sums
    place_all evaluated rest sums'

module _ {C : Type 0} (k : Coefficient C) (order : Monomials C → Monomials C) where
  unfoldable pub mul_monomials : Monomials C → Monomials C → Monomials C
  mul_monomials e1 e2 = mul_loop k (order e1) (order e2) []

  -- The square and multiply loop over the bits below `i` of the exponent
  unfoldable pub power_loop : ℕ → ℕ → Monomials C → Monomials C → Bool → Monomials C
  power_loop zero d x acc acc_is_one = acc
  power_loop (suc i) d x acc acc_is_one =
      (let acc' = if acc_is_one then acc else mul_monomials acc acc in
        let bit = d / 2 ^ i % 2 == 1 in
        power_loop i d x (if bit then mul_monomials acc' x else acc')
          (if bit then false else acc_is_one))

  unfoldable pub monomials : (Column → Bool) → Expr C → Monomials C
  monomials ev (Expr.pow x d) =
      if is_constant ev x
      then single [] (Expr.pow x d)
      else power_loop 64 d (monomials ev x) (single [] (Arith.one k)) true
  monomials ev (Expr.double e) =
      if is_constant ev e then single [] (Expr.double e) else double_terms (order (monomials ev e))
  monomials ev (Expr.cache id e) =
      if is_constant ev e then single [] (Expr.cache id e) else monomials ev e
  monomials ev (Expr.unnormalized_lagrange_basis i) = single [] (Expr.unnormalized_lagrange_basis i)
  monomials ev Expr.vanishes_on_last4_rows = single [] Expr.vanishes_on_last4_rows
  monomials ev (Expr.constant c) = single [] (Expr.constant c)
  monomials ev (Expr.cell var) =
      if ev var.col then single [] (Expr.cell var) else single (var ∷ []) (Expr.constant k.one)
  monomials ev (Expr.bin_op Op2.add e1 e2) =
      if is_constant ev e1 && is_constant ev e2
      then single [] (Expr.bin_op Op2.add e1 e2)
      else add_terms k (order (monomials ev e2)) (monomials ev e1)
  monomials ev (Expr.bin_op Op2.sub e1 e2) =
      if is_constant ev e1 && is_constant ev e2
      then single [] (Expr.bin_op Op2.sub e1 e2)
      else sub_terms k (order (monomials ev e2)) (monomials ev e1)
  monomials ev (Expr.bin_op Op2.mul e1 e2) =
      if is_constant ev e1 && is_constant ev e2
      then single [] (Expr.bin_op Op2.mul e1 e2)
      else mul_monomials (monomials ev e1) (monomials ev e2)
  monomials ev (Expr.square x) =
      if is_constant ev x
      then single [] (Expr.square x)
      else (let m = monomials ev x in mul_monomials m m)

  unfoldable pub linearize :
      (List (Column × Expr C) → List (Column × Expr C))
      → (Column → Bool)
      → Expr C
      → Attempt (Linearization (Expr C))
  linearize collect evaluated e = do
    (constant_term, res) ← place_all k evaluated (order (monomials evaluated e)) (Arith.zero k, [])
    ok (record { constant_term = constant_term; index_terms = collect res })
