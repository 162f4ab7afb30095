-- ===== src/Kimchi/Expr/Linearize/Evaluated.antt =====
-- kimchi/src/circuits/expr.rs: the coefficients of a linearization are made of evaluated columns.
use proof_systems.Prelude.{
  ◌≡◌, refl, ◌&&◌, Bool, true, false, List, [], ◌∷◌, All, All-perm, Bool-cases, inl, inr,
  if◌then◌else◌, ◌||◌,
}
use mathlib.Core.List.{Permᴰ}
use mathlib.Core.Path.{subst}
use proof_systems.Kimchi.Expr.{Op2, Expr}
use proof_systems.Kimchi.Expr.Columns.{
  Column, CurrOrNext, curr, next, Variable, ok, >>=-eq-ok, ok-injective,
}
use proof_systems.Kimchi.Expr.Arith.{Coefficient}
use proof_systems.Kimchi.Expr.Arith
use proof_systems.Kimchi.Expr.Linearize.Keys.{Column-discrete}
use proof_systems.Kimchi.Expr.Linearize.{
  Linearization, Monomials, Sums, partition, is_constant, single, times_cells, place_at, place,
  place_all, monomials, linearize,
}
use proof_systems.Kimchi.Expr.Linearize.Entries.{
  All-alter, Multiplies, All-mul_monomials, All-power_loop, All-add_terms, All-sub_terms,
  All-double_terms,
}

both : (a b : Bool) → a ≡ true → b ≡ true → (a && b) ≡ true
both a b p q = rw (p, q) refl

parts : (a b : Bool) → (a && b) ≡ true → (a ≡ true) × (b ≡ true)
parts true b h = (refl, h)
parts false b h = cc

module _ {C : Type 0} (k : Coefficient C) (ev : Column → Bool) where
  abbrev pub IsConstant : Expr C → Type 0
  IsConstant e = is_constant ev e ≡ true

  IsConstant-add : (x y : Expr C) → IsConstant x → IsConstant y → IsConstant (Arith.add k x y)
  unfolding Arith.add is_constant
  IsConstant-add x y p q = elim (Bool-cases (Arith.is_zero k x)) [
    | inl z ↦ rw z q
    | inr nz ↦ elim (Bool-cases (Arith.is_zero k y)) [
      | inl z ↦ rw (nz, z) p
      | inr nz' ↦ rw (nz, nz') (both _ _ p q)
    ]
  ]

  IsConstant-add_assign :
      (x y : Expr C) → IsConstant x → IsConstant y → IsConstant (Arith.add_assign k x y)
  unfolding Arith.add_assign Arith.add
  IsConstant-add_assign x y p q = IsConstant-add x y p q

  IsConstant-sub : (x y : Expr C) → IsConstant x → IsConstant y → IsConstant (Arith.sub k x y)
  unfolding Arith.sub is_constant
  IsConstant-sub x y p q = elim (Bool-cases (Arith.is_zero k y)) [
    | inl z ↦ rw z p
    | inr nz ↦ rw nz (both _ _ p q)
  ]

  IsConstant-neg : (x : Expr C) → IsConstant x → IsConstant (Arith.neg k x)
  unfolding Arith.neg is_constant
  IsConstant-neg (Expr.constant c) p = refl
  IsConstant-neg x p = p

  IsConstant-mul : (x y : Expr C) → IsConstant x → IsConstant y → IsConstant (Arith.mul k x y)
  unfolding Arith.mul is_constant
  IsConstant-mul x y p q = elim (Bool-cases (Arith.is_zero k x || Arith.is_zero k y)) [
    | inl z ↦ rw z refl
    | inr nz ↦ elim (Bool-cases (Arith.is_one k x)) [
      | inl z ↦ rw (nz, z) q
      | inr other ↦ elim (Bool-cases (Arith.is_one k y)) [
        | inl z ↦ rw (nz, other, z) p
        | inr other' ↦ rw (nz, other, other') (both _ _ p q)
      ]
    ]
  ]

  abbrev Constant : List Variable × Expr C → Type 0
  Constant t = IsConstant t.1

  Constant-Multiplies : Multiplies k Constant Constant Constant
  unfolding is_constant
  Constant-Multiplies = record {
    starts = λ t u p q. IsConstant-add _ _ refl (IsConstant-mul _ _ p q);
    grows = λ t u j v p q g. IsConstant-add _ _ g (IsConstant-mul _ _ p q);
  }

  either :
      (b : Bool) (e : Expr C) (m : Monomials C)
      → (b ≡ true → IsConstant e)
      → All Constant m
      → All Constant (if b then single [] e else m)
  either true e m c h = (c refl, tt)
  either false e m c h = h

  module _ (order : Monomials C → Monomials C)
      (reorders : (m : Monomials C) → Permᴰ (order m) m) where
    monomials-Constant : (e : Expr C) → All Constant (monomials k order ev e)
    unfolding monomials is_constant
    monomials-Constant (Expr.pow x d) =
        either (is_constant ev x) _ _ (λ h. h)
          (All-power_loop k Constant order reorders 64 d _ _ true Constant-Multiplies
            (monomials-Constant x) (refl, tt))
    monomials-Constant (Expr.double x) =
        either (is_constant ev x) _ _ (λ h. h)
          (All-double_terms k Constant (λ m c h. h) _
            (All-perm Constant (reorders _) (monomials-Constant x)))
    monomials-Constant (Expr.cache id x) =
        either (is_constant ev x) _ _ (λ h. h) (monomials-Constant x)
    monomials-Constant (Expr.unnormalized_lagrange_basis i) = (refl, tt)
    monomials-Constant Expr.vanishes_on_last4_rows = (refl, tt)
    monomials-Constant (Expr.constant c) = (refl, tt)
    monomials-Constant (Expr.cell v) = either (ev v.col) _ _ (λ h. h) (refl, tt)
    monomials-Constant (Expr.bin_op Op2.add x y) =
        either (is_constant ev x && is_constant ev y) _ _ (λ h. h)
          (All-add_terms k Constant (λ m j c v p q. IsConstant-add v c q p) _ _
            (All-perm Constant (reorders _) (monomials-Constant y)) (monomials-Constant x))
    monomials-Constant (Expr.bin_op Op2.sub x y) =
        either (is_constant ev x && is_constant ev y) _ _ (λ h. h)
          (All-sub_terms k Constant (λ m c h. IsConstant-neg c h)
            (λ m j c v p q. IsConstant-sub v c q p) _ _
            (All-perm Constant (reorders _) (monomials-Constant y)) (monomials-Constant x))
    monomials-Constant (Expr.bin_op Op2.mul x y) =
        either (is_constant ev x && is_constant ev y) _ _ (λ h. h)
          (All-mul_monomials k Constant Constant Constant Constant-Multiplies order reorders _ _
            (monomials-Constant x) (monomials-Constant y))
    monomials-Constant (Expr.square x) =
        either (is_constant ev x) _ _ (λ h. h)
          (All-mul_monomials k Constant Constant Constant Constant-Multiplies order reorders _ _
            (monomials-Constant x) (monomials-Constant x))

  -- A coefficient of an index term, and its column
  abbrev pub IsTerm : Column × Expr C → Type 0
  IsTerm t = (ev t.0 ≡ false) × IsConstant t.1

  abbrev IsPlaced : Sums C → Type 0
  IsPlaced sums = IsConstant sums.0 × All IsTerm sums.1

  partition-evaluated :
      (m : List Variable)
      → All (λ v. ev v.col ≡ true) (partition ev m).0
        × All (λ v. ev v.col ≡ false) (partition ev m).1
  unfolding partition
  partition-evaluated [] = (tt, tt)
  partition-evaluated (v ∷ m) =
      let (yes_rest, no_rest) = partition-evaluated m in
      elim (Bool-cases (ev v.col)) [
        | inl h ↦ rw h ((h, yes_rest), no_rest)
        | inr h ↦ rw h (yes_rest, (h, no_rest))
      ]

  times_cells-IsConstant :
      (c : Expr C) (vs : List Variable)
      → IsConstant c
      → All (λ v. ev v.col ≡ true) vs
      → IsConstant (times_cells k c vs)
  unfolding times_cells is_constant
  times_cells-IsConstant c [] p h = p
  times_cells-IsConstant c (v ∷ vs) p h =
      times_cells-IsConstant (Arith.mul k c (Expr.cell v)) vs (IsConstant-mul c (Expr.cell v) p h.0)
        h.1

  place-IsPlaced :
      (vs : List Variable) (c : Expr C) (sums sums' : Sums C)
      → All (λ v. ev v.col ≡ false) vs
      → IsConstant c
      → IsPlaced sums
      → place k vs c sums ≡ ok sums'
      → IsPlaced sums'
  unfolding place place_at
  place-IsPlaced [] c (t, res) sums' a p (q, g) h =
      subst IsPlaced (ok-injective h) (IsConstant-add_assign t c q p, g)
  place-IsPlaced (v ∷ []) c (t, res) sums' a p (q, g) h = at_row v.row h
    where
      at_row : (row : CurrOrNext) → place_at k v.col row c (t, res) ≡ ok sums' → IsPlaced sums'
      at_row next e = cc
      at_row curr e = subst IsPlaced (ok-injective e) (
        q,
        All-alter IsTerm Column-discrete v.col c _ res (a.0, p)
            (λ j u i. (i.0, IsConstant-add u c i.1 p)) g,
      )
  place-IsPlaced (v ∷ w ∷ vs) c sums sums' a p g h = cc

  place_all-IsPlaced :
      (m : Monomials C) (sums sums' : Sums C)
      → All Constant m
      → IsPlaced sums
      → place_all k ev m sums ≡ ok sums'
      → IsPlaced sums'
  unfolding place_all
  place_all-IsPlaced [] sums sums' a g h = subst IsPlaced (ok-injective h) g
  place_all-IsPlaced ((m, c) ∷ rest) sums sums' a g h =
      let (seen, unseen) = partition-evaluated m in
      let (mid, first, later) =
        >>=-eq-ok (place k (partition ev m).1 (times_cells k c (partition ev m).0) sums) _ h in
      place_all-IsPlaced rest mid sums' a.1
        (place-IsPlaced (partition ev m).1 (times_cells k c (partition ev m).0) sums mid unseen
          (times_cells-IsConstant c _ a.0 seen) g first)
        later

  -- Where a linearization is made, its constant term and its coefficients are made of evaluated
  -- columns only, and none of its columns is evaluated.
  pub linearize-IsConstant :
      (order : Monomials C → Monomials C) (reorders : (m : Monomials C) → Permᴰ (order m) m)
      (collect : List (Column × Expr C) → List (Column × Expr C))
      (collects : (m : List (Column × Expr C)) → Permᴰ (collect m) m) (e : Expr C)
      (l : Linearization (Expr C))
      → linearize k order collect ev e ≡ ok l
      → IsConstant l.constant_term × All IsTerm l.index_terms
  unfolding linearize is_constant
  linearize-IsConstant order reorders collect collects e l h =
      let ((t, res), placed, done) =
        >>=-eq-ok (place_all k ev (order (monomials k order ev e)) (Arith.zero k, [])) _ h in
      let all = All-perm Constant (reorders _) (monomials-Constant order reorders e) in
      let (p, g) = place_all-IsPlaced _ _ (t, res) all (refl, tt) placed in
      subst (λ (x : Linearization (Expr C)). IsConstant x.constant_term × All IsTerm x.index_terms)
        (ok-injective done) (p, All-perm IsTerm (collects res) g)
