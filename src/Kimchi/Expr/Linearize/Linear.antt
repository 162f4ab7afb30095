-- ===== src/Kimchi/Expr/Linearize/Linear.antt =====
-- kimchi/src/circuits/expr.rs: the expressions that linearization accepts.
use proof_systems.Prelude.{
  ◌≡◌, refl, ap, ◌∙◌, ◌⊎◌, inl, inr, Bool-cases, ◌&&◌, Bool, true, false, List, [], ◌∷◌, All,
  All-perm, if◌then◌else◌,
}
use mathlib.Core.List.{Permᴰ}
use proof_systems.Kimchi.Expr.{Op2, Expr}
use proof_systems.Kimchi.Expr.Columns.{Column, curr, Variable, Attempt, ok, ◌>>=◌}
use proof_systems.Kimchi.Expr.Arith.{Coefficient}
use proof_systems.Kimchi.Expr.Arith
use proof_systems.Kimchi.Expr.Linearize.Keys.{insert, sort}
use proof_systems.Kimchi.Expr.Linearize.{
  Linearization, Monomials, Sums, partition, is_constant, single, times_cells, place_at, place,
  place_all, monomials, linearize,
}
use proof_systems.Kimchi.Expr.Linearize.Entries.{
  Multiplies, All-mul_monomials, All-add_terms, All-sub_terms, All-double_terms,
}

-- Combinations of variables of the current row, with coefficients of evaluated columns.
pub data IsLinear {C : Type 0} (ev : Column → Bool) : Expr C → Type 0 where
  constant : {e : Expr C} → is_constant ev e ≡ true → IsLinear ev e
  cell : {v : Variable} → v.row ≡ curr → IsLinear ev (Expr.cell v)
  double : {e : Expr C} → IsLinear ev e → IsLinear ev (Expr.double e)
  cache : {id : Prim.Native.Nat.ℕ} {e : Expr C} → IsLinear ev e → IsLinear ev (Expr.cache id e)
  plus : {x y : Expr C} → IsLinear ev x → IsLinear ev y → IsLinear ev (Expr.bin_op Op2.add x y)
  minus : {x y : Expr C} → IsLinear ev x → IsLinear ev y → IsLinear ev (Expr.bin_op Op2.sub x y)
  scaled :
      {x y : Expr C}
      → is_constant ev x ≡ true
      → IsLinear ev y
      → IsLinear ev (Expr.bin_op Op2.mul x y)
  scaled_right :
      {x y : Expr C}
      → IsLinear ev x
      → is_constant ev y ≡ true
      → IsLinear ev (Expr.bin_op Op2.mul x y)

module _ {C : Type 0} (k : Coefficient C) (ev : Column → Bool) where
  -- A monomial of no variable, and of at most one, which is of the current row
  abbrev Bare : List Variable × Expr C → Type 0
  Bare t = t.0 ≡ []

  abbrev Small : List Variable × Expr C → Type 0
  Small t = Bare t ⊎ ((v : Variable) × (t.0 ≡ v ∷ []) × (v.row ≡ curr))

  Bare-Small : Multiplies k Bare Small Small
  unfolding sort insert
  Bare-Small = record {
    starts = λ t u p q. elim q [
      | inl e ↦ inl (rw (p, e) refl)
      | inr (v, e, now) ↦ inr (v, rw (p, e) refl, now)
    ];
    grows = λ t u j v p q g. g;
  }

  Small-Bare : Multiplies k Small Bare Small
  unfolding sort insert
  Small-Bare = record {
    starts = λ t u p q. elim p [
      | inl e ↦ inl (rw (q, e) refl)
      | inr (v, e, now) ↦ inr (v, rw (q, e) refl, now)
    ];
    grows = λ t u j v p q g. g;
  }

  either :
      (b : Bool) (e : Expr C) (m : Monomials C)
      → All Small m
      → All Small (if b then single [] e else m)
  either true e m h = (inl refl, tt)
  either false e m h = h

  module _ (order : Monomials C → Monomials C)
      (reorders : (m : Monomials C) → Permᴰ (order m) m) where
    monomials-constant :
        (e : Expr C) → is_constant ev e ≡ true → monomials k order ev e ≡ single [] e
    unfolding monomials is_constant
    monomials-constant (Expr.pow x d) h = rw h refl
    monomials-constant (Expr.double x) h = rw h refl
    monomials-constant (Expr.cache id x) h = rw h refl
    monomials-constant (Expr.unnormalized_lagrange_basis i) h = refl
    monomials-constant Expr.vanishes_on_last4_rows h = refl
    monomials-constant (Expr.constant c) h = refl
    monomials-constant (Expr.cell v) h = rw h refl
    monomials-constant (Expr.bin_op Op2.add x y) h = rw h refl
    monomials-constant (Expr.bin_op Op2.sub x y) h = rw h refl
    monomials-constant (Expr.bin_op Op2.mul x y) h = rw h refl
    monomials-constant (Expr.square x) h = rw h refl

    constant-Bare : (e : Expr C) → is_constant ev e ≡ true → All Bare (monomials k order ev e)
    constant-Bare e h = rw (monomials-constant e h) (refl, tt)

    monomials-Small : (e : Expr C) → IsLinear ev e → All Small (monomials k order ev e)
    unfolding monomials
    monomials-Small e (constant h) = rw (monomials-constant e h) (inl refl, tt)
    monomials-Small (Expr.cell v) (cell now) =
        either (ev v.col) (Expr.cell v) _ (inr (v, refl, now), tt)
    monomials-Small (Expr.double x) (double l) = either (is_constant ev x) _ _ (
        All-double_terms k Small (λ m c h. h) _ (All-perm Small (reorders _) (monomials-Small x l)))
    monomials-Small (Expr.cache id x) (cache l) =
        either (is_constant ev x) _ _ (monomials-Small x l)
    monomials-Small (Expr.bin_op Op2.add x y) (plus l l') =
        either (is_constant ev x && is_constant ev y) _ _ (
          All-add_terms k Small (λ m j c v p q. q) _ _
            (All-perm Small (reorders _) (monomials-Small y l')) (monomials-Small x l))
    monomials-Small (Expr.bin_op Op2.sub x y) (minus l l') =
        either (is_constant ev x && is_constant ev y) _ _ (
          All-sub_terms k Small (λ m c h. h) (λ m j c v p q. q) _ _
            (All-perm Small (reorders _) (monomials-Small y l')) (monomials-Small x l))
    monomials-Small (Expr.bin_op Op2.mul x y) (scaled h l) =
        either (is_constant ev x && is_constant ev y) _ _ (
          All-mul_monomials k Bare Small Small Bare-Small order reorders _ _ (constant-Bare x h)
            (monomials-Small y l))
    monomials-Small (Expr.bin_op Op2.mul x y) (scaled_right l h) =
        either (is_constant ev x && is_constant ev y) _ _ (
          All-mul_monomials k Small Bare Small Small-Bare order reorders _ _ (monomials-Small x l)
            (constant-Bare y h))

    place-Small :
        (m : List Variable) (c : Expr C) (sums : Sums C)
        → Small (m, c)
        → (sums' : Sums C) × (place k (partition ev m).1 (times_cells k c (partition ev m).0) sums
            ≡ ok sums')
    unfolding partition place place_at
    place-Small m c (t, res) (inl e) = rw e (_, refl)
    place-Small m c (t, res) (inr (v, e, now)) = elim (Bool-cases (ev v.col)) [
      | inl h ↦ rw (e, h) (_, refl)
      | inr h ↦ rw (e, h, now) (_, refl)
    ]

    place_all-Small :
        (m : Monomials C) (sums : Sums C)
        → All Small m
        → (sums' : Sums C) × (place_all k ev m sums ≡ ok sums')
    unfolding place_all
    place_all-Small [] sums h = (sums, refl)
    place_all-Small ((m, c) ∷ rest) sums h =
        let (mid, first) = place-Small m c sums h.0 in
        let (sums', later) = place_all-Small rest mid h.1 in
        (sums', ap (λ (o : Attempt (Sums C)). o >>= place_all k ev rest) first ∙ later)

    -- A combination of variables of the current row with coefficients of evaluated columns has a
    -- linearization, in whichever order maps are iterated.
    pub linearize-IsLinear :
        (collect : List (Column × Expr C) → List (Column × Expr C)) (e : Expr C)
        → IsLinear ev e
        → (l : Linearization (Expr C)) × (linearize k order collect ev e ≡ ok l)
    unfolding linearize
    linearize-IsLinear collect e h =
        let (sums, placed) =
          place_all-Small (order (monomials k order ev e)) (Arith.zero k, [])
            (All-perm Small (reorders _) (monomials-Small e h)) in
        (record { constant_term = sums.0; index_terms = collect sums.1 }, rw placed refl)
