-- ===== src/Kimchi/Expr.antt =====
-- kimchi/src/circuits/expr.rs: the expressions of the constraints, their evaluation at a point, and
-- their compilation to Polish notation.
mod Tests
pub mod Scalar
pub mod Arith
pub mod Linearize
pub mod Columns
pub mod Evaluate
pub mod Polish
use proof_systems.Prelude.{ℕ, ◌+◌, ◌*◌, ◌%◌, ◌^◌, leb, if◌then◌else◌}
use proof_systems.Kimchi.Expr.Columns.{ℤ, Variable}

pub data ConstantExpr (F : Type 0) : Type 0 where
  alpha beta gamma joint_combiner endo_coefficient : ConstantExpr F
  mds : ℕ → ℕ → ConstantExpr F
  literal : F → ConstantExpr F
  pow : ConstantExpr F → ℕ → ConstantExpr F
  add mul sub : ConstantExpr F → ConstantExpr F → ConstantExpr F

pub data Op2 : Type 0 where
  add mul sub : Op2

-- A `CacheId` is its number.
pub data Expr (C : Type 0) : Type 0 where
  constant : C → Expr C
  cell : Variable → Expr C
  double square : Expr C → Expr C
  bin_op : Op2 → Expr C → Expr C → Expr C
  vanishes_on_last4_rows : Expr C
  unnormalized_lagrange_basis : ℤ → Expr C
  pow : Expr C → ℕ → Expr C
  cache : ℕ → Expr C → Expr C

-- `std::cmp::max`
abbrev max : ℕ → ℕ → ℕ
max a b = if leb a b then b else a

-- A bound of the degree, in `u64` arithmetic.
unfoldable pub degree : {C : Type 0} → Expr C → ℕ → ℕ
degree (constant c) d1_size = 0
degree (cell v) d1_size = d1_size
degree (double x) d1_size = degree x d1_size
degree (square x) d1_size = 2 * degree x d1_size % 2 ^ 64
degree (bin_op Op2.mul x y) d1_size = (degree x d1_size + degree y d1_size) % 2 ^ 64
degree (bin_op Op2.add x y) d1_size = max (degree x d1_size) (degree y d1_size)
degree (bin_op Op2.sub x y) d1_size = max (degree x d1_size) (degree y d1_size)
degree vanishes_on_last4_rows d1_size = 4
degree (unnormalized_lagrange_basis i) d1_size = d1_size
degree (pow x d) d1_size = d * degree x d1_size % 2 ^ 64
degree (cache id x) d1_size = degree x d1_size
