-- ===== src/Kimchi/Expr/Polish/Stops.antt =====
-- kimchi/src/circuits/expr.rs: the machine on tokens that are appended, and a machine that failed.
use proof_systems.Prelude.{
  ℕ, ◌≡◌, refl, ap, ◌∙◌, none, some, List, [], ◌∷◌, ◌++◌, Option-cases, inl, inr,
}
use proof_systems.Field.{Field}
use proof_systems.Kimchi.Expr.{ConstantExpr, Expr}
use proof_systems.Kimchi.Expr.Columns.{Attempt, ok, err, panic, ◌>>=◌}
use proof_systems.Kimchi.Expr.Evaluate.{Point}
use proof_systems.Kimchi.Expr.Polish.{
  PolishToken, get, constant_to_polish, Compiled, push, stored, compile, Machine, step, run,
}

module _ {F : Type 0} ⦃f : Field F⦄ (p : Point F) where
  -- A machine that has failed: nothing that follows changes the outcome.
  abbrev pub Stops : Attempt (Machine F) → Type 0
  Stops m = (k : Machine F → Attempt (Machine F)) → (m >>= k) ≡ m

  bind-run :
      (r : Attempt (Machine F)) (a b : List (PolishToken F))
      → ((m : Machine F) → run p (a ++ b) m ≡ (run p a m >>= run p b))
      → (r >>= run p (a ++ b)) ≡ ((r >>= run p a) >>= run p b)
  bind-run (ok m) a b h = h m
  bind-run (err e) a b h = refl
  bind-run panic a b h = refl

  run-append :
      (a b : List (PolishToken F)) (m : Machine F) → run p (a ++ b) m ≡ (run p a m >>= run p b)
  unfolding run
  run-append [] b m = refl
  run-append (t ∷ a) b m = bind-run (step p t m) a b (run-append a b)

  -- The machine after the tokens of a compilation.
  abbrev pub outcome : List (PolishToken F) → Attempt (Machine F)
  outcome toks = run p toks ([], [])

  pub outcome-append :
      (res toks : List (PolishToken F)) (m : Attempt (Machine F))
      → outcome res ≡ m
      → outcome (res ++ toks) ≡ (m >>= run p toks)
  outcome-append res toks m h = run-append res toks ([], []) ∙ ap (λ r. r >>= run p toks) h

  pub constant-Stops :
      (k : ConstantExpr F) (c : List (PolishToken F)) (m : Attempt (Machine F))
      → Stops m
      → outcome c ≡ m
      → outcome (constant_to_polish k c) ≡ m
  unfolding constant_to_polish
  constant-Stops (ConstantExpr.pow x n) c m s h =
      outcome-append _ _ m (constant-Stops x c m s h) ∙ s _
  constant-Stops (ConstantExpr.add x y) c m s h =
      outcome-append _ _ m (constant-Stops y _ m s (constant-Stops x c m s h)) ∙ s _
  constant-Stops (ConstantExpr.mul x y) c m s h =
      outcome-append _ _ m (constant-Stops y _ m s (constant-Stops x c m s h)) ∙ s _
  constant-Stops (ConstantExpr.sub x y) c m s h =
      outcome-append _ _ m (constant-Stops y _ m s (constant-Stops x c m s h)) ∙ s _
  constant-Stops ConstantExpr.alpha c m s h = outcome-append c _ m h ∙ s _
  constant-Stops ConstantExpr.beta c m s h = outcome-append c _ m h ∙ s _
  constant-Stops ConstantExpr.gamma c m s h = outcome-append c _ m h ∙ s _
  constant-Stops ConstantExpr.joint_combiner c m s h = outcome-append c _ m h ∙ s _
  constant-Stops ConstantExpr.endo_coefficient c m s h = outcome-append c _ m h ∙ s _
  constant-Stops (ConstantExpr.mds row col) c m s h = outcome-append c _ m h ∙ s _
  constant-Stops (ConstantExpr.literal x) c m s h = outcome-append c _ m h ∙ s _

  pub compile_missing :
      (id : ℕ) (x : Expr (ConstantExpr F)) (c : Compiled F)
      → get c.0 id ≡ none
      → compile (Expr.cache id x) c ≡ stored id (compile x c)
  unfolding compile
  compile_missing id x c missing = rw (compile, missing) refl

  pub compile_found :
      (id : ℕ) (x : Expr (ConstantExpr F)) (c : Compiled F) (pos : ℕ)
      → get c.0 id ≡ some pos
      → compile (Expr.cache id x) c ≡ push c (PolishToken.load pos ∷ [])
  unfolding compile
  compile_found id x c pos found = rw (compile, found) refl

  pub compile-Stops :
      (e : Expr (ConstantExpr F)) (c : Compiled F) (m : Attempt (Machine F))
      → Stops m
      → outcome c.1 ≡ m
      → outcome (compile e c).1 ≡ m
  unfolding compile
  compile-Stops (Expr.constant k) c m s h = constant-Stops k c.1 m s h
  compile-Stops (Expr.cell v) c m s h = outcome-append c.1 _ m h ∙ s _
  compile-Stops (Expr.double x) c m s h = outcome-append _ _ m (compile-Stops x c m s h) ∙ s _
  compile-Stops (Expr.square x) c m s h = outcome-append _ _ m (compile-Stops x c m s h) ∙ s _
  compile-Stops (Expr.bin_op op x y) c m s h =
      outcome-append _ _ m (compile-Stops y _ m s (compile-Stops x c m s h)) ∙ s _
  compile-Stops Expr.vanishes_on_last4_rows c m s h = outcome-append c.1 _ m h ∙ s _
  compile-Stops (Expr.unnormalized_lagrange_basis i) c m s h = outcome-append c.1 _ m h ∙ s _
  compile-Stops (Expr.pow x n) c m s h = outcome-append _ _ m (compile-Stops x c m s h) ∙ s _
  compile-Stops (Expr.cache id x) c m s h = elim (Option-cases (get c.0 id)) [
    | inl missing ↦
        rw (compile_missing id x c missing)
          (outcome-append _ (PolishToken.store ∷ []) m (compile-Stops x c m s h) ∙ s _)
    | inr (pos, found) ↦
        rw (compile_found id x c pos found)
          (outcome-append c.1 (PolishToken.load pos ∷ []) m h ∙ s _)
  ]
