-- ===== src/Kimchi/Expr/Linearize/Entries.antt =====
-- kimchi/src/circuits/expr.rs: properties that every entry of the maps of monomials has.
use proof_systems.Prelude.{
  ℕ, zero, suc, ◌/◌, ◌%◌, ◌^◌, ◌==◌, Bool, true, false, List, [], ◌∷◌, ◌++◌, All, All-perm,
  if◌then◌else◌,
}
use mathlib.Core.Logic.{if_pos, if_neg}
use mathlib.Core.List.{Permᴰ}
use proof_systems.Kimchi.Expr.{Expr}
use proof_systems.Kimchi.Expr.Columns.{Variable}
use proof_systems.Kimchi.Expr.Arith.{Coefficient}
use proof_systems.Kimchi.Expr.Arith
use proof_systems.Kimchi.Expr.Linearize.Keys.{Variables-discrete, sort}
use proof_systems.Kimchi.Expr.Linearize.{
  Monomials, alter, add_product, add_products, mul_loop, mul_monomials, power_loop, add_terms,
  sub_terms, double_terms,
}

pub All-alter :
    {K V : Type 0} (P : K × V → Type 0) (d : Discrete K) (key : K) (new : V) (change : V → V)
    (m : List (K × V))
    → P (key, new)
    → ((j : K) (v : V) → P (j, v) → P (j, change v))
    → All P m
    → All P (alter d key new change m)
unfolding alter
All-alter P d key new change [] n c h = (n, tt)
All-alter P d key new change ((j, v) ∷ m) n c h = elim (d j key) [
  | yes same ↦ rw (if_pos _ same) (c j v h.0, h.1)
  | no other ↦ rw (if_neg _ other) (h.0, All-alter P d key new change m n c h.1)
]

abbrev pub Entries : Type 0 → Type 1
Entries C = List Variable × Expr C → Type 0

module _ {C : Type 0} (k : Coefficient C) where
  -- What a property of the entries of a product asks of its factors
  pub record Multiplies (P Q R : Entries C) : Type 0 where
    pub starts :
        (t u : List Variable × Expr C)
        → P t
        → Q u
        → R (sort (t.0 ++ u.0), Arith.add k (Arith.zero k) (Arith.mul k t.1 u.1))
    pub grows :
        (t u : List Variable × Expr C) (j : List Variable) (v : Expr C)
        → P t
        → Q u
        → R (j, v)
        → R (j, Arith.add k v (Arith.mul k t.1 u.1))

  module _ (P Q R : Entries C) (x : Multiplies P Q R) where
    All-add_products :
        (t : List Variable × Expr C) (e2 res : Monomials C)
        → P t
        → All Q e2
        → All R res
        → All R (add_products k t e2 res)
    unfolding add_products add_product
    All-add_products t [] res p q h = h
    All-add_products t (u ∷ e2) res p q h = All-add_products t e2 _ p q.1 (
        All-alter R Variables-discrete _ _ _ res (x.starts t u p q.0)
          (λ j v c. x.grows t u j v p q.0 c) h)

    All-mul_loop :
        (e1 e2 res : Monomials C) → All P e1 → All Q e2 → All R res → All R (mul_loop k e1 e2 res)
    unfolding mul_loop
    All-mul_loop [] e2 res p q h = h
    All-mul_loop (t ∷ e1) e2 res p q h =
        All-mul_loop e1 e2 _ p.1 q (All-add_products t e2 res p.0 q h)

    pub All-mul_monomials :
        (order : Monomials C → Monomials C) (reorders : (m : Monomials C) → Permᴰ (order m) m)
        (e1 e2 : Monomials C)
        → All P e1
        → All Q e2
        → All R (mul_monomials k order e1 e2)
    unfolding mul_monomials
    All-mul_monomials order reorders e1 e2 p q =
        All-mul_loop (order e1) (order e2) [] (All-perm P (reorders e1) p)
          (All-perm Q (reorders e2) q) tt

  module _ (P : Entries C) where
    pub All-power_loop :
        (order : Monomials C → Monomials C) (reorders : (m : Monomials C) → Permᴰ (order m) m)
        (i d : ℕ) (x acc : Monomials C) (is_one : Bool)
        → Multiplies P P P
        → All P x
        → All P acc
        → All P (power_loop k order i d x acc is_one)
    unfolding power_loop
    All-power_loop order reorders zero d x acc is_one ms h a = a
    All-power_loop order reorders (suc i) d x acc is_one ms h a =
        All-power_loop order reorders i d x _ _ ms h
          (multiplied (d / 2 ^ i % 2 == 1) _ (squared is_one))
      where
        Done : Monomials C → Type 0
        Done m = All P m

        squared : (b : Bool) → Done (if b then acc else mul_monomials k order acc acc)
        squared true = a
        squared false = All-mul_monomials P P P ms order reorders acc acc a a

        multiplied :
            (b : Bool) (m : Monomials C)
            → Done m
            → Done (if b then mul_monomials k order m x else m)
        multiplied true m g = All-mul_monomials P P P ms order reorders m x g h
        multiplied false m g = g

    module _
        (adds : (m j : List Variable) (c v : Expr C)
          → P (m, c)
          → P (j, v)
          → P (j, Arith.add k v c)) where
      pub All-add_terms : (e2 res : Monomials C) → All P e2 → All P res → All P (add_terms k e2 res)
      unfolding add_terms
      All-add_terms [] res q h = h
      All-add_terms ((m, c) ∷ e2) res q h =
          All-add_terms e2 _ q.1
            (All-alter P Variables-discrete m c _ res q.0 (λ j v g. adds m j c v q.0 g) h)

    module _ (negates : (m : List Variable) (c : Expr C) → P (m, c) → P (m, Arith.neg k c))
        (subtracts : (m j : List Variable) (c v : Expr C)
          → P (m, c)
          → P (j, v)
          → P (j, Arith.sub k v c)) where
      pub All-sub_terms : (e2 res : Monomials C) → All P e2 → All P res → All P (sub_terms k e2 res)
      unfolding sub_terms
      All-sub_terms [] res q h = h
      All-sub_terms ((m, c) ∷ e2) res q h = All-sub_terms e2 _ q.1 (
          All-alter P Variables-discrete m (Arith.neg k c) _ res (negates m c q.0)
            (λ j v g. subtracts m j c v q.0 g) h)

    pub All-double_terms :
        (doubles : (m : List Variable) (c : Expr C) → P (m, c) → P (m, Expr.double c))
        (m : Monomials C)
        → All P m
        → All P (double_terms m)
    unfolding double_terms
    All-double_terms doubles [] h = tt
    All-double_terms doubles ((m, c) ∷ e) h = (doubles m c h.0, All-double_terms doubles e h.1)
