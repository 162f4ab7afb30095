-- ===== src/Kimchi/Expr/Linearize/Meaning.antt =====
-- kimchi/src/circuits/expr.rs: expressions as polynomials, by their values under any valuation of the
-- variables, and sums over the entries of a map.
use proof_systems.Prelude.{
  ◌≡◌, refl, ap, sym, ◌∙◌, ◌^◌, ◌<◌, true, List, [], ◌∷◌, ◌++◌, Bool-cases, inl, inr,
}
use mathlib.Core.Logic.{if_pos, if_neg}
use mathlib.Core.List.{Permᴰ}
use proof_systems.Field.{Field, ◌⊕◌, ◌⊖◌, ◌⊗◌, IsRing}
use proof_systems.Field.Facts.{add-zero}
use proof_systems.Kimchi.Expr.{Expr}
use proof_systems.Kimchi.Expr.Columns.{ℤ, Variable, ok, ok-injective}
use proof_systems.Kimchi.Expr.Evaluate.{apply}
use proof_systems.Kimchi.Expr.Arith.{Coefficient}
use proof_systems.Kimchi.Expr.Arith
use proof_systems.Kimchi.Expr.Arith.Values.{
  IsEvaluation, ev-neg, ev-add, ev-add_assign, ev-sub, ev-mul,
}
use proof_systems.Kimchi.Expr.Linearize.Keys.{precedes, insert, sort}
use proof_systems.Kimchi.Expr.Linearize.{alter}

-- A value for each symbol of an expression
pub record Valuation (C F : Type 0) : Type 0 where
  pub coefficient : C → F
  pub cell : Variable → F
  pub vanishes : F
  pub lagrange : ℤ → F

pub record IsValuation {C F : Type 0} ⦃f : Field F⦄ (k : Coefficient C) (ρ : Valuation C F)
    : Type 0 where
  pub zero_value : ρ.coefficient k.zero ≡ f.zero
  pub one_value : ρ.coefficient k.one ≡ f.one
  pub is_zero_value : (c : C) → k.is_zero c ≡ true → ρ.coefficient c ≡ f.zero
  pub is_one_value : (c : C) → k.is_one c ≡ true → ρ.coefficient c ≡ f.one
  pub neg_value : (c : C) → ρ.coefficient (k.neg c) ≡ f.neg (ρ.coefficient c)

-- Every exponent is a `u64`.
abbrev pub Fits : {C : Type 0} → Expr C → Type 0
Fits (Expr.pow x d) = (d < 2 ^ 64) × Fits x
Fits (Expr.square x) = Fits x
Fits (Expr.constant c) = Unit
Fits (Expr.cell v) = Unit
Fits (Expr.double x) = Fits x
Fits (Expr.bin_op op x y) = Fits x × Fits y
Fits Expr.vanishes_on_last4_rows = Unit
Fits (Expr.unnormalized_lagrange_basis i) = Unit
Fits (Expr.cache id x) = Fits x

module _ {C F : Type 0} ⦃f : Field F⦄ (ρ : Valuation C F) where
  unfoldable pub meaning : Expr C → F
  meaning (Expr.constant c) = ρ.coefficient c
  meaning (Expr.cell v) = ρ.cell v
  meaning (Expr.double x) = meaning x ⊕ meaning x
  meaning (Expr.square x) = meaning x ⊗ meaning x
  meaning (Expr.bin_op op x y) = apply op (meaning x) (meaning y)
  meaning Expr.vanishes_on_last4_rows = ρ.vanishes
  meaning (Expr.unnormalized_lagrange_basis i) = ρ.lagrange i
  meaning (Expr.pow x n) = f.pow (meaning x) n
  meaning (Expr.cache id x) = meaning x

  -- The product of variables
  unfoldable pub product : List Variable → F
  product [] = f.one
  product (v ∷ vs) = ρ.cell v ⊗ product vs

  -- The sum of the entries of a map, each times the weight of its key
  unfoldable pub total : {K : Type 0} → (K → F) → List (K × Expr C) → F
  total w [] = f.zero
  total w ((k, c) ∷ m) = w k ⊗ meaning c ⊕ total w m

module _ {C F : Type 0} ⦃f : Field F⦄ (r : IsRing f) (ρ : Valuation C F) where
  product-append : (xs ys : List Variable) → product ρ (xs ++ ys) ≡ product ρ xs ⊗ product ρ ys
  unfolding product
  product-append [] ys = sym (r.one-mul _)
  product-append (x ∷ xs) ys =
      ap (λ t. ρ.cell x ⊗ t) (product-append xs ys) ∙ sym (r.mul_assoc (ρ.cell x) _ _)

  product-insert :
      (v : Variable) (vs : List Variable) → product ρ (insert v vs) ≡ ρ.cell v ⊗ product ρ vs
  unfolding product insert
  product-insert v [] = refl
  product-insert v (w ∷ vs) = elim (Bool-cases (precedes w v)) [
    | inl first ↦ rw first (
        ap (λ t. ρ.cell w ⊗ t) (product-insert v vs)
        ∙ sym (r.mul_assoc (ρ.cell w) (ρ.cell v) _)
        ∙ ap (λ t. t ⊗ product ρ vs) (r.mul_comm (ρ.cell w) (ρ.cell v))
        ∙ r.mul_assoc (ρ.cell v) (ρ.cell w) _)
    | inr later ↦ rw later refl
  ]

  product-sort : (vs : List Variable) → product ρ (sort vs) ≡ product ρ vs
  unfolding product sort
  product-sort [] = refl
  product-sort (v ∷ vs) = product-insert v (sort vs) ∙ ap (λ t. ρ.cell v ⊗ t) (product-sort vs)

  -- The key of a product
  pub product-sort-append :
      (xs ys : List Variable) → product ρ (sort (xs ++ ys)) ≡ product ρ xs ⊗ product ρ ys
  product-sort-append xs ys = product-sort (xs ++ ys) ∙ product-append xs ys

  module _ {K : Type 0} (w : K → F) where
    pub total-single : (key : K) (c : Expr C) → total ρ w ((key, c) ∷ []) ≡ w key ⊗ meaning ρ c
    unfolding total
    total-single key c = add-zero r _

    -- The order of the entries does not matter.
    pub total-perm : {m m' : List (K × Expr C)} → Permᴰ m m' → total ρ w m ≡ total ρ w m'
    unfolding total
    total-perm Permᴰ.nil = refl
    total-perm (Permᴰ.cons {a = a} {b = b} {l₁ = l} e p) =
        ap (λ t. w t.0 ⊗ meaning ρ t.1 ⊕ total ρ w l) e
        ∙ ap (λ t. w b.0 ⊗ meaning ρ b.1 ⊕ t) (total-perm p)
    total-perm (Permᴰ.swap {a = a} {b = b} {a' = a'} {l = l} e d) =
        sym (r.add_assoc _ _ _)
        ∙ ap (λ t. t ⊕ total ρ w l) (r.add_comm _ _)
        ∙ r.add_assoc _ _ _
        ∙ ap (λ t. w t.0 ⊗ meaning ρ t.1 ⊕ (w a.0 ⊗ meaning ρ a.1 ⊕ total ρ w l)) d
        ∙ ap (λ t. w a'.0 ⊗ meaning ρ a'.1 ⊕ (w t.0 ⊗ meaning ρ t.1 ⊕ total ρ w l)) e
    total-perm (Permᴰ.trans p q) = total-perm p ∙ total-perm q

    -- Changing the value of one key
    pub total-alter :
        (d : Discrete K) (key : K) (new : Expr C) (change : Expr C → Expr C) (a : F)
        (m : List (K × Expr C))
        → meaning ρ new ≡ a
        → ((v : Expr C) → meaning ρ (change v) ≡ meaning ρ v ⊕ a)
        → total ρ w (alter d key new change m) ≡ total ρ w m ⊕ w key ⊗ a
    unfolding total alter
    total-alter d key new change a [] n h = ap (λ t. w key ⊗ t ⊕ f.zero) n ∙ r.add_comm _ f.zero
    total-alter d key new change a ((j, v) ∷ m) n h = elim (d j key) [
      | yes same ↦ rw (if_pos _ same) (
          ap (λ t. w j ⊗ t ⊕ total ρ w m) (h v)
          ∙ ap (λ t. t ⊕ total ρ w m) (r.mul-add (w j) (meaning ρ v) a)
          ∙ r.add_assoc _ _ _
          ∙ ap (λ t. w j ⊗ meaning ρ v ⊕ t) (r.add_comm _ _)
          ∙ sym (r.add_assoc _ _ _)
          ∙ ap (λ t. (w j ⊗ meaning ρ v ⊕ total ρ w m) ⊕ w t ⊗ a) same)
      | no other ↦ rw (if_neg _ other) (
          ap (λ t. w j ⊗ meaning ρ v ⊕ t) (total-alter d key new change a m n h)
          ∙ sym (r.add_assoc _ _ _))
    ]

module _ {C F : Type 0} ⦃f : Field F⦄ (r : IsRing f) {k : Coefficient C} {ρ : Valuation C F}
    (s : IsValuation k ρ) where
  meaning-IsEvaluation : IsEvaluation k (λ e. ok (meaning ρ e))
  unfolding meaning
  meaning-IsEvaluation = record {
    zero_ok = ap ok s.zero_value;
    one_ok = ap ok s.one_value;
    is_zero_ok = λ c h. ap ok (s.is_zero_value c h);
    is_one_ok = λ c h. ap ok (s.is_one_value c h);
    neg_ok = λ c v h. ap ok (s.neg_value c ∙ ap f.neg (ok-injective h));
    bin_op_ok = λ op x y. refl;
  }

  pub meaning-zero : meaning ρ (Arith.zero k) ≡ f.zero
  meaning-zero = ok-injective meaning-IsEvaluation.zero_ok

  pub meaning-one : meaning ρ (Arith.one k) ≡ f.one
  meaning-one = ok-injective meaning-IsEvaluation.one_ok

  pub meaning-neg : (x : Expr C) → meaning ρ (Arith.neg k x) ≡ f.neg (meaning ρ x)
  meaning-neg x = ok-injective (ev-neg r meaning-IsEvaluation x _ refl)

  pub meaning-add : (x y : Expr C) → meaning ρ (Arith.add k x y) ≡ meaning ρ x ⊕ meaning ρ y
  meaning-add x y = ok-injective (ev-add r meaning-IsEvaluation x y _ _ refl refl)

  pub meaning-add_assign :
      (x y : Expr C) → meaning ρ (Arith.add_assign k x y) ≡ meaning ρ x ⊕ meaning ρ y
  meaning-add_assign x y = ok-injective (ev-add_assign r meaning-IsEvaluation x y _ _ refl refl)

  pub meaning-sub : (x y : Expr C) → meaning ρ (Arith.sub k x y) ≡ meaning ρ x ⊖ meaning ρ y
  meaning-sub x y = ok-injective (ev-sub r meaning-IsEvaluation x y _ _ refl refl)

  pub meaning-mul : (x y : Expr C) → meaning ρ (Arith.mul k x y) ≡ meaning ρ x ⊗ meaning ρ y
  meaning-mul x y = ok-injective (ev-mul r meaning-IsEvaluation x y _ _ refl refl)

  -- A value that starts from zero
  pub meaning-zero_add : (x : Expr C) → meaning ρ (Arith.add k (Arith.zero k) x) ≡ meaning ρ x
  meaning-zero_add x =
      meaning-add (Arith.zero k) x ∙ ap (λ t. t ⊕ meaning ρ x) meaning-zero ∙ r.zero-add _
