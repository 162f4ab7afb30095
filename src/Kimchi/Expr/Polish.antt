-- ===== src/Kimchi/Expr/Polish.antt =====
-- kimchi/src/circuits/expr.rs: the compilation of expressions to Polish notation, and the machine
-- that runs it. The top of the stack is the head of its list; the hash map from cached expressions
-- to positions is an association list.
pub mod Caches
pub mod Stops
pub mod Ends
pub mod Correct
use proof_systems.Prelude.{
  ℕ, ◌+◌, Option, none, some, List, [], ◌∷◌, ◌++◌, ◌==◌, length, get_elem?, if◌then◌else◌,
}
use proof_systems.Field.{Field, ◌⊕◌, ◌⊖◌, ◌⊗◌}
use proof_systems.Kimchi.Expr.{ConstantExpr, Op2, Expr}
use proof_systems.Kimchi.Expr.Columns.{
  ℤ, Variable, ExprError, empty_stack, Attempt, ok, err, panic, ◌>>=◌, unwrap, evaluate_variable,
}
use proof_systems.Kimchi.Expr.Evaluate
use proof_systems.Kimchi.Expr.Evaluate.{Point, mds_entry, eval_vanishes_on_last_4_rows}

pub data PolishToken (F : Type 0) : Type 0 where
  alpha beta gamma joint_combiner endo_coefficient : PolishToken F
  mds : ℕ → ℕ → PolishToken F
  literal : F → PolishToken F
  cell : Variable → PolishToken F
  dup : PolishToken F
  pow : ℕ → PolishToken F
  add mul sub vanishes_on_last4_rows : PolishToken F
  unnormalized_lagrange_basis : ℤ → PolishToken F
  store : PolishToken F
  load : ℕ → PolishToken F

-- The positions of the cached expressions.
abbrev pub Positions : Type 0
Positions = List (ℕ × ℕ)

abbrev pub get : Positions → ℕ → Option ℕ
get [] id = none
get ((i, pos) ∷ rest) id = let later = get rest id in if i == id then some pos else later

abbrev pub insert : Positions → ℕ → ℕ → Positions
insert [] id p = (id, p) ∷ []
insert ((i, pos) ∷ rest) id p =
    let later = insert rest id p in if i == id then (id, p) ∷ rest else (i, pos) ∷ later

abbrev pub Compiled : Type 0 → Type 0
Compiled F = Positions × List (PolishToken F)

module _ {F : Type 0} where
  abbrev pub op_token : Op2 → PolishToken F
  op_token Op2.add = PolishToken.add
  op_token Op2.mul = PolishToken.mul
  op_token Op2.sub = PolishToken.sub

  -- `ConstantExpr::to_polish_`, which appends to `res`.
  unfoldable pub constant_to_polish : ConstantExpr F → List (PolishToken F) → List (PolishToken F)
  constant_to_polish ConstantExpr.alpha res = res ++ PolishToken.alpha ∷ []
  constant_to_polish ConstantExpr.beta res = res ++ PolishToken.beta ∷ []
  constant_to_polish ConstantExpr.gamma res = res ++ PolishToken.gamma ∷ []
  constant_to_polish ConstantExpr.joint_combiner res = res ++ PolishToken.joint_combiner ∷ []
  constant_to_polish ConstantExpr.endo_coefficient res = res ++ PolishToken.endo_coefficient ∷ []
  constant_to_polish (ConstantExpr.mds row col) res = res ++ PolishToken.mds row col ∷ []
  constant_to_polish (ConstantExpr.literal x) res = res ++ PolishToken.literal x ∷ []
  constant_to_polish (ConstantExpr.pow x n) res = constant_to_polish x res ++ PolishToken.pow n ∷ []
  constant_to_polish (ConstantExpr.add x y) res =
      constant_to_polish y (constant_to_polish x res) ++ PolishToken.add ∷ []
  constant_to_polish (ConstantExpr.mul x y) res =
      constant_to_polish y (constant_to_polish x res) ++ PolishToken.mul ∷ []
  constant_to_polish (ConstantExpr.sub x y) res =
      constant_to_polish y (constant_to_polish x res) ++ PolishToken.sub ∷ []

  abbrev pub push : Compiled F → List (PolishToken F) → Compiled F
  push (cache, res) toks = (cache, res ++ toks)

  -- A cached expression that was compiled: store its value at the next position.
  abbrev pub stored : ℕ → Compiled F → Compiled F
  stored id (cache, res) = (insert cache id (length cache), res ++ PolishToken.store ∷ [])

  -- `to_polish_`
  unfoldable pub compile : Expr (ConstantExpr F) → Compiled F → Compiled F
  compile (Expr.double x) c = push (compile x c) (PolishToken.dup ∷ PolishToken.add ∷ [])
  compile (Expr.square x) c = push (compile x c) (PolishToken.dup ∷ PolishToken.mul ∷ [])
  compile (Expr.pow x d) c = push (compile x c) (PolishToken.pow d ∷ [])
  compile (Expr.constant k) c = (c.0, constant_to_polish k c.1)
  compile (Expr.cell v) c = push c (PolishToken.cell v ∷ [])
  compile Expr.vanishes_on_last4_rows c = push c (PolishToken.vanishes_on_last4_rows ∷ [])
  compile (Expr.unnormalized_lagrange_basis i) c =
      push c (PolishToken.unnormalized_lagrange_basis i ∷ [])
  compile (Expr.bin_op op x y) c = push (compile y (compile x c)) (op_token op ∷ [])
  compile (Expr.cache id x) c =
      let inner = compile x c in
      elim (get c.0 id) [ some pos ↦ push c (PolishToken.load pos ∷ []) | none ↦ stored id inner ]

  unfoldable pub to_polish : Expr (ConstantExpr F) → List (PolishToken F)
  to_polish e = (compile e ([], [])).1

-- The stack and the cache of the machine.
abbrev pub Machine : Type 0 → Type 0
Machine F = List F × List F

module _ {F : Type 0} ⦃f : Field F⦄ where
  -- `add`, `mul` and `sub`: two pops and a push.
  unfoldable pub binary : (F → F → F) → List F → Attempt (List F)
  binary op [] = err empty_stack
  binary op (y ∷ []) = err empty_stack
  binary op (y ∷ x ∷ stack) = ok (op x y ∷ stack)

  -- `stack[stack.len() - 1]`
  unfoldable pub top : List F → Attempt F
  top [] = panic
  top (x ∷ stack) = ok x

  unfoldable pub power : ℕ → List F → Attempt (List F)
  power n [] = panic
  power n (x ∷ stack) = ok (f.pow x n ∷ stack)

  -- The match on a token.
  unfoldable pub step : Point F → PolishToken F → Machine F → Attempt (Machine F)
  step p PolishToken.alpha (st, ca) = ok (p.constants.alpha ∷ st, ca)
  step p PolishToken.beta (st, ca) = ok (p.constants.beta ∷ st, ca)
  step p PolishToken.gamma (st, ca) = ok (p.constants.gamma ∷ st, ca)
  step p PolishToken.joint_combiner (st, ca) = do
    x ← unwrap p.constants.joint_combiner
    ok (x ∷ st, ca)
  step p PolishToken.endo_coefficient (st, ca) = ok (p.constants.endo_coefficient ∷ st, ca)
  step p (PolishToken.mds row col) (st, ca) = do x ← mds_entry p.constants row col; ok (x ∷ st, ca)
  step p PolishToken.vanishes_on_last4_rows (st, ca) = do
    x ← eval_vanishes_on_last_4_rows p.domain p.pt
    ok (x ∷ st, ca)
  step p (PolishToken.unnormalized_lagrange_basis i) (st, ca) = do
    x ← Evaluate.unnormalized_lagrange_basis p.domain i p.pt
    ok (x ∷ st, ca)
  step p (PolishToken.literal x) (st, ca) = ok (x ∷ st, ca)
  step p PolishToken.dup (st, ca) = do x ← top st; ok (x ∷ st, ca)
  step p (PolishToken.cell v) (st, ca) = do x ← evaluate_variable p.evals v; ok (x ∷ st, ca)
  step p (PolishToken.pow n) (st, ca) = do st' ← power n st; ok (st', ca)
  step p PolishToken.add (st, ca) = do st' ← binary (λ x y. x ⊕ y) st; ok (st', ca)
  step p PolishToken.mul (st, ca) = do st' ← binary (λ x y. x ⊗ y) st; ok (st', ca)
  step p PolishToken.sub (st, ca) = do st' ← binary (λ x y. x ⊖ y) st; ok (st', ca)
  step p PolishToken.store (st, ca) = do x ← top st; ok (st, ca ++ x ∷ [])
  step p (PolishToken.load i) (st, ca) = do x ← unwrap (get_elem? ca i); ok (x ∷ st, ca)

  unfoldable pub run : Point F → List (PolishToken F) → Machine F → Attempt (Machine F)
  run p [] m = ok m
  run p (t ∷ toks) m = step p t m >>= run p toks

  -- `assert_eq!(stack.len(), 1)`, and the element.
  unfoldable pub only : List F → Attempt F
  only [] = panic
  only (x ∷ []) = ok x
  only (x ∷ y ∷ stack) = panic

  -- `PolishToken::evaluate`
  unfoldable pub evaluate_polish : Point F → List (PolishToken F) → Attempt F
  evaluate_polish p toks = do (st, _) ← run p toks ([], []); only st
