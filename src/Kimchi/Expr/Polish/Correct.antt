-- ===== src/Kimchi/Expr/Polish/Correct.antt =====
-- kimchi/src/circuits/expr.rs: the Polish notation of an expression against the expression.
use proof_systems.Prelude.{
  ℕ, ◌<◌, ◌≤◌, ◌≡◌, ◌≢◌, refl, ap, ◌∙◌, List, [], ◌∷◌, arith, Option-cases, inl, inr,
}
use proof_systems.Field.{Field, ◌⊕◌, ◌⊖◌, ◌⊗◌}
use proof_systems.Kimchi.Expr.{ConstantExpr, Op2, Expr}
use proof_systems.Kimchi.Expr.Columns.{Attempt, ok, err, panic}
use proof_systems.Kimchi.Expr.Evaluate.{Point, evaluate, apply}
use proof_systems.Kimchi.Expr.Polish.{
  PolishToken, get, Compiled, compile, to_polish, binary, top, power, step, run, only,
  evaluate_polish,
}
use proof_systems.Kimchi.Expr.Polish.Caches.{get-insert_ne}
use proof_systems.Kimchi.Expr.Polish.Stops.{compile_missing, compile_found, compile-Stops}
use proof_systems.Kimchi.Expr.Polish.Ends.{
  bind_ok, Reaches, Ends, Ends-leaf, Ends-unary, Ends-binary, constant-Ends, Ends-stored,
}

-- Every cached expression in `e` is the one that `body` gives for its id, and its id is below `n`
-- and above the ids inside it, as `Cache::next_id` numbers them.
abbrev pub Respects : {C : Type 0} → (ℕ → Expr C) → ℕ → Expr C → Type 0
Respects body n (Expr.constant c) = Unit
Respects body n (Expr.cell v) = Unit
Respects body n (Expr.double x) = Respects body n x
Respects body n (Expr.square x) = Respects body n x
Respects body n (Expr.bin_op op x y) = Respects body n x × Respects body n y
Respects body n Expr.vanishes_on_last4_rows = Unit
Respects body n (Expr.unnormalized_lagrange_basis i) = Unit
Respects body n (Expr.pow x k) = Respects body n x
Respects body n (Expr.cache id x) = (id < n) × (x ≡ body id) × Respects body id x

-- Compiling changes the position of no id that is not below the bound.
get-compile :
    {F : Type 0} (body : ℕ → Expr (ConstantExpr F)) (e : Expr (ConstantExpr F)) (n : ℕ)
    (c : Compiled F) (j : ℕ)
    → Respects body n e
    → n ≤ j
    → get (compile e c).0 j ≡ get c.0 j
unfolding compile
get-compile body (Expr.constant k) n c j r h = refl
get-compile body (Expr.cell v) n c j r h = refl
get-compile body (Expr.double x) n c j r h = get-compile body x n c j r h
get-compile body (Expr.square x) n c j r h = get-compile body x n c j r h
get-compile body (Expr.bin_op op x y) n c j r h =
    get-compile body y n (compile x c) j r.1 h ∙ get-compile body x n c j r.0 h
get-compile body Expr.vanishes_on_last4_rows n c j r h = refl
get-compile body (Expr.unnormalized_lagrange_basis i) n c j r h = refl
get-compile body (Expr.pow x k) n c j r h = get-compile body x n c j r h
get-compile body (Expr.cache id x) n c j r h = elim (Option-cases (get c.0 id)) [
  | inl missing ↦
      let below = r.0 in
      let other : id ≢ j = λ e. omega arith in
      rw (compile, missing)
        (get-insert_ne (compile x c).0 id _ j other ∙ get-compile body x id c j r.2 (omega arith))
  | inr (pos, found) ↦ rw (compile, found) refl
]

module _ {F : Type 0} ⦃f : Field F⦄ (p : Point F) (body : ℕ → Expr (ConstantExpr F)) where
  compile-Ends :
      (e : Expr (ConstantExpr F)) (n : ℕ) (c : Compiled F) (st ca : List F)
      → Respects body n e
      → Reaches p body c st ca
      → Ends p body (evaluate p e) (compile e c) st
  unfolding compile evaluate run step power binary top apply
  compile-Ends (Expr.constant k) n c st ca r h = constant-Ends p body k c st ca h
  compile-Ends (Expr.cell v) n c st ca r h =
      Ends-leaf p body _ (PolishToken.cell v) c st ca h (bind_ok _)
  compile-Ends (Expr.double x) n c st ca r h =
      Ends-unary p body _ (λ v. v ⊕ v) (PolishToken.dup ∷ PolishToken.add ∷ []) _ st
        (compile-Ends x n c st ca r h) (λ v ca'. refl)
  compile-Ends (Expr.square x) n c st ca r h =
      Ends-unary p body _ (λ v. v ⊗ v) (PolishToken.dup ∷ PolishToken.mul ∷ []) _ st
        (compile-Ends x n c st ca r h) (λ v ca'. refl)
  compile-Ends (Expr.bin_op Op2.add x y) n c st ca r h =
      Ends-binary p body _ _ (λ v u. v ⊕ u) PolishToken.add _ _ st (compile-Ends x n c st ca r.0 h)
        (λ v ca' h'. compile-Ends y n _ (v ∷ st) ca' r.1 h') (compile-Stops p y _) (λ v u ca'. refl)
  compile-Ends (Expr.bin_op Op2.mul x y) n c st ca r h =
      Ends-binary p body _ _ (λ v u. v ⊗ u) PolishToken.mul _ _ st (compile-Ends x n c st ca r.0 h)
        (λ v ca' h'. compile-Ends y n _ (v ∷ st) ca' r.1 h') (compile-Stops p y _) (λ v u ca'. refl)
  compile-Ends (Expr.bin_op Op2.sub x y) n c st ca r h =
      Ends-binary p body _ _ (λ v u. v ⊖ u) PolishToken.sub _ _ st (compile-Ends x n c st ca r.0 h)
        (λ v ca' h'. compile-Ends y n _ (v ∷ st) ca' r.1 h') (compile-Stops p y _) (λ v u ca'. refl)
  compile-Ends Expr.vanishes_on_last4_rows n c st ca r h =
      Ends-leaf p body _ PolishToken.vanishes_on_last4_rows c st ca h (bind_ok _)
  compile-Ends (Expr.unnormalized_lagrange_basis i) n c st ca r h =
      Ends-leaf p body _ (PolishToken.unnormalized_lagrange_basis i) c st ca h (bind_ok _)
  compile-Ends (Expr.pow x k) n c st ca r h =
      Ends-unary p body _ (λ v. f.pow v k) (PolishToken.pow k ∷ []) _ st
        (compile-Ends x n c st ca r h) (λ v ca'. refl)
  compile-Ends (Expr.cache id x) n c st ca r h = elim (Option-cases (get c.0 id)) [
    | inl missing ↦ rw (compile_missing p id x c missing) (
        Ends-stored p body (evaluate p x) id x (compile x c) st refl r.1
          (get-compile body x id c id r.2 (omega arith) ∙ missing)
          (compile-Ends x id c st ca r.2 h))
    | inr (pos, found) ↦
        let (v, here, value_of) = h.matches.held id pos found in
        let known : evaluate p x ≡ ok v = ap (evaluate p) r.1 ∙ value_of in
        rw (compile_found p id x c pos found, known)
          (Ends-leaf p body (ok v) (PolishToken.load pos) c st ca h (rw here refl))
  ]

  -- The Polish notation of an expression evaluates as the expression does, to the same value or
  -- error, or with a panic where it panics. The ids of cached expressions stand for one expression
  -- each, and are numbered from the inside out.
  pub evaluate_polish-to_polish :
      (e : Expr (ConstantExpr F)) (n : ℕ)
      → Respects body n e
      → evaluate_polish p (to_polish e) ≡ evaluate p e
  unfolding evaluate_polish to_polish
  evaluate_polish-to_polish e n r = finish (evaluate p e) (compile-Ends e n ([], []) [] [] r start)
    where
      start : Reaches p body ([], []) [] []
      start = record {
        reached = unfold run in refl;
        matches = record { same_length = refl; held = λ id pos found. cc };
      }

      finish :
          (r' : Attempt F)
          → Ends p body r' (compile e ([], [])) []
          → evaluate_polish p (to_polish e) ≡ r'
      finish (ok v) (ca, h) = unfold only in rw h.reached refl
      finish (err x) h = rw h refl
      finish panic h = rw h refl
