-- ===== src/Kimchi/Expr/Polish/Ends.antt =====
-- kimchi/src/circuits/expr.rs: how the machine ends on the tokens of an expression, against the
-- evaluation of the expression.
use proof_systems.Prelude.{
  ℕ, ◌≡◌, ◌≢◌, refl, sym, ap, ◌∙◌, Option, none, some, List, [], ◌∷◌, ◌++◌, ◌==◌, arith, length,
  length-append, get_elem?, Bool-cases, inl, inr, ==_iff,
}
use proof_systems.Field.{Field, ◌⊕◌, ◌⊖◌, ◌⊗◌}
use proof_systems.Kimchi.Expr.{ConstantExpr, Expr}
use proof_systems.Kimchi.Expr.Columns.{Attempt, ok, err, panic, ◌>>=◌}
use proof_systems.Kimchi.Expr.Evaluate.{Point, value, evaluate}
use proof_systems.Kimchi.Expr.Polish.{
  PolishToken, Positions, get, insert, constant_to_polish, Compiled, push, stored, Machine, binary,
  top, power, step, run,
}
use proof_systems.Kimchi.Expr.Polish.Caches.{
  get-insert_self, get-insert_ne, length-insert, get_elem?-append_left, get_elem?-append_last,
}
use proof_systems.Kimchi.Expr.Polish.Stops.{Stops, outcome, outcome-append, constant-Stops}

pub bind_ok : {A : Type 0} (m : Attempt A) → (m >>= λ x. ok x) ≡ m
bind_ok (ok x) = refl
bind_ok (err e) = refl
bind_ok panic = refl

module _ {F : Type 0} ⦃f : Field F⦄ (p : Point F) (body : ℕ → Expr (ConstantExpr F)) where
  -- The machine's cache holds the values of the cached expressions at their positions.
  pub record Matches (cc : Positions) (ca : List F) : Type 0 where
    pub same_length : length cc ≡ length ca
    pub held :
        (id pos : ℕ)
        → get cc id ≡ some pos
        → (v : F) × (get_elem? ca pos ≡ some v) × (evaluate p (body id) ≡ ok v)

  pub record Reaches (c : Compiled F) (st ca : List F) : Type 0 where
    pub reached : outcome p c.1 ≡ ok (st, ca)
    pub matches : Matches c.0 ca

  -- The machine ends as an evaluation does: with the value on its stack, the error or a panic.
  abbrev pub Ends : Attempt F → Compiled F → List F → Type 0
  Ends (ok v) c st = (ca : List F) × Reaches c (v ∷ st) ca
  Ends (err e) c st = outcome p c.1 ≡ err e
  Ends panic c st = outcome p c.1 ≡ panic

  -- A token that pushes a value.
  pub Ends-leaf :
      (r : Attempt F) (tok : PolishToken F) (c : Compiled F) (st ca : List F)
      → Reaches c st ca
      → run p (tok ∷ []) (st, ca) ≡ (r >>= λ x. ok (x ∷ st, ca))
      → Ends r (push c (tok ∷ [])) st
  Ends-leaf (ok v) tok c st ca h e =
      (ca, record { reached = outcome-append p c.1 _ _ h.reached ∙ e; matches = h.matches })
  Ends-leaf (err x) tok c st ca h e = outcome-append p c.1 _ _ h.reached ∙ e
  Ends-leaf panic tok c st ca h e = outcome-append p c.1 _ _ h.reached ∙ e

  -- Tokens that replace the top of the stack.
  pub Ends-unary :
      (r : Attempt F) (g : F → F) (toks : List (PolishToken F)) (c : Compiled F) (st : List F)
      → Ends r c st
      → ((v : F) (ca : List F) → run p toks (v ∷ st, ca) ≡ ok (g v ∷ st, ca))
      → Ends (r >>= λ v. ok (g v)) (push c toks) st
  Ends-unary (ok v) g toks c st (ca, h) e =
      (ca, record { reached = outcome-append p c.1 _ _ h.reached ∙ e v ca; matches = h.matches })
  Ends-unary (err x) g toks c st h e = outcome-append p c.1 _ _ h
  Ends-unary panic g toks c st h e = outcome-append p c.1 _ _ h

  -- A token that replaces the two top elements.
  pub Ends-binary :
      (r1 r2 : Attempt F) (g : F → F → F) (tok : PolishToken F) (c1 c2 : Compiled F) (st : List F)
      → Ends r1 c1 st
      → ((v : F) (ca : List F) → Reaches c1 (v ∷ st) ca → Ends r2 c2 (v ∷ st))
      → ((m : Attempt (Machine F)) → Stops p m → outcome p c1.1 ≡ m → outcome p c2.1 ≡ m)
      → ((v u : F) (ca : List F) → run p (tok ∷ []) (u ∷ v ∷ st, ca) ≡ ok (g v u ∷ st, ca))
      → Ends (r1 >>= λ v. r2 >>= λ u. ok (g v u)) (push c2 (tok ∷ [])) st
  Ends-binary (ok v) r2 g tok c1 c2 st (ca, h) next stops e = Ends-unary_below r2 (next v ca h)
    where
      Ends-unary_below :
          (r : Attempt F)
          → Ends r c2 (v ∷ st)
          → Ends (r >>= λ u. ok (g v u)) (push c2 (tok ∷ [])) st
      Ends-unary_below (ok u) (ca', h') = (
        ca',
        record { reached = outcome-append p c2.1 _ _ h'.reached ∙ e v u ca'; matches = h'.matches },
      )
      Ends-unary_below (err x) h' = outcome-append p c2.1 _ _ h'
      Ends-unary_below panic h' = outcome-append p c2.1 _ _ h'
  Ends-binary (err x) r2 g tok c1 c2 st h next stops e =
      outcome-append p c2.1 _ _ (stops (err x) (λ k. refl) h)
  Ends-binary panic r2 g tok c1 c2 st h next stops e =
      outcome-append p c2.1 _ _ (stops panic (λ k. refl) h)

  pub constant-Ends :
      (k : ConstantExpr F) (c : Compiled F) (st ca : List F)
      → Reaches c st ca
      → Ends (value p.constants k) (c.0, constant_to_polish k c.1) st
  unfolding constant_to_polish value run step power binary
  constant-Ends ConstantExpr.alpha c st ca h = Ends-leaf (ok _) PolishToken.alpha c st ca h refl
  constant-Ends ConstantExpr.beta c st ca h = Ends-leaf (ok _) PolishToken.beta c st ca h refl
  constant-Ends ConstantExpr.gamma c st ca h = Ends-leaf (ok _) PolishToken.gamma c st ca h refl
  constant-Ends ConstantExpr.joint_combiner c st ca h =
      Ends-leaf _ PolishToken.joint_combiner c st ca h (bind_ok _)
  constant-Ends ConstantExpr.endo_coefficient c st ca h =
      Ends-leaf (ok _) PolishToken.endo_coefficient c st ca h refl
  constant-Ends (ConstantExpr.mds row col) c st ca h =
      Ends-leaf _ (PolishToken.mds row col) c st ca h (bind_ok _)
  constant-Ends (ConstantExpr.literal x) c st ca h =
      Ends-leaf (ok x) (PolishToken.literal x) c st ca h refl
  constant-Ends (ConstantExpr.pow x n) c st ca h =
      Ends-unary _ (λ v. f.pow v n) (PolishToken.pow n ∷ []) _ st (constant-Ends x c st ca h)
        (λ v ca'. refl)
  constant-Ends (ConstantExpr.add x y) c st ca h =
      Ends-binary _ _ (λ v u. v ⊕ u) PolishToken.add _ _ st (constant-Ends x c st ca h)
        (λ v ca' h'. constant-Ends y _ (v ∷ st) ca' h') (constant-Stops p y _) (λ v u ca'. refl)
  constant-Ends (ConstantExpr.mul x y) c st ca h =
      Ends-binary _ _ (λ v u. v ⊗ u) PolishToken.mul _ _ st (constant-Ends x c st ca h)
        (λ v ca' h'. constant-Ends y _ (v ∷ st) ca' h') (constant-Stops p y _) (λ v u ca'. refl)
  constant-Ends (ConstantExpr.sub x y) c st ca h =
      Ends-binary _ _ (λ v u. v ⊖ u) PolishToken.sub _ _ st (constant-Ends x c st ca h)
        (λ v ca' h'. constant-Ends y _ (v ∷ st) ca' h') (constant-Stops p y _) (λ v u ca'. refl)

  -- After the value of a cached expression is stored, the cache holds it.
  pub Matches-stored :
      (cc : Positions) (ca : List F) (id : ℕ) (v : F)
      → Matches cc ca
      → get cc id ≡ none
      → evaluate p (body id) ≡ ok v
      → Matches (insert cc id (length cc)) (ca ++ v ∷ [])
  Matches-stored cc ca id v m missing e = record {
    same_length =
        length-insert cc id (length cc) missing
        ∙ (let same = m.same_length in let split = length-append ca (v ∷ []) in omega arith);
    held = λ j pos found. elim (Bool-cases (id == j)) [
      | inl same ↦
          let here : id ≡ j = (==_iff id j).0 same in
          let last : ◌≡◌ {A = Option ℕ} (some (length cc)) (some pos) =
            sym (get-insert_self cc id (length cc))
            ∙ ap (get (insert cc id (length cc))) here
            ∙ found in
          let at_end : pos ≡ length ca = let size = m.same_length in ground arith in
          (v, rw at_end (get_elem?-append_last ca v), rw (← here) e)
      | inr other ↦
          let apart : id ≢ j = ground arith in
          let (u, old, value_of) =
            m.held j pos (sym (get-insert_ne cc id (length cc) j apart) ∙ found) in
          (u, get_elem?-append_left ca (v ∷ []) pos old, value_of)
    ];
  }

  pub Ends-stored :
      (r : Attempt F) (id : ℕ) (x : Expr (ConstantExpr F)) (c : Compiled F) (st : List F)
      → evaluate p x ≡ r
      → x ≡ body id
      → get c.0 id ≡ none
      → Ends r c st
      → Ends r (stored id c) st
  unfolding run step top
  Ends-stored (ok v) id x c st e same missing (ca, h) = (
    ca ++ v ∷ [],
    record {
      reached = outcome-append p c.1 (PolishToken.store ∷ []) _ h.reached;
      matches = Matches-stored c.0 ca id v h.matches missing (ap (evaluate p) (sym same) ∙ e);
    },
  )
  Ends-stored (err y) id x c st e same missing h = outcome-append p c.1 (PolishToken.store ∷ []) _ h
  Ends-stored panic id x c st e same missing h = outcome-append p c.1 (PolishToken.store ∷ []) _ h
