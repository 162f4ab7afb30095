-- ===== src/Kimchi/Expr/Linearize/Exponents.antt =====
-- kimchi/src/circuits/expr.rs: the sum of the monomials of a power, by the square and multiply loop.
use proof_systems.Prelude.{
  ℕ, zero, suc, ◌+◌, ◌*◌, ◌/◌, ◌%◌, ◌^◌, ◌<◌, ◌==◌, ◌≡◌, refl, ap, sym, ◌∙◌, Bool, true, false, [],
  if◌then◌else◌, arith, mod-pow-suc,
}
use native.Mathlib.Nat.{mod-eq_of_lt, pow-suc}
use mathlib.Core.List.{Permᴰ}
use proof_systems.Field.{Field, ◌⊗◌, IsRing}
use proof_systems.Field.Facts.{mul-one}
use proof_systems.Field.Powers.{pow-add, pow-mul, pow-square, pow-one_base, pow-one}
use proof_systems.Kimchi.Expr.Arith.{Coefficient}
use proof_systems.Kimchi.Expr.Arith
use proof_systems.Kimchi.Expr.Linearize.{Monomials, mul_monomials, single, power_loop}
use proof_systems.Kimchi.Expr.Linearize.Meaning.{Valuation, IsValuation, meaning-one}
use proof_systems.Kimchi.Expr.Linearize.Products.{sum, sum-single, sum-mul_monomials}

module _ {C F : Type 0} ⦃f : Field F⦄ (r : IsRing f) {k : Coefficient C} {ρ : Valuation C F}
    (s : IsValuation k ρ) (order : Monomials C → Monomials C)
    (reorders : (m : Monomials C) → Permᴰ (order m) m) where
  sum-square :
      (acc : Monomials C) (is_one : Bool)
      → (is_one ≡ true → sum r s order reorders acc ≡ f.one)
      → sum r s order reorders (if is_one then acc else mul_monomials k order acc acc)
        ≡ sum r s order reorders acc ⊗ sum r s order reorders acc
  sum-square acc true h = h refl ∙ sym (ap (λ t. t ⊗ t) (h refl) ∙ r.one-mul f.one)
  sum-square acc false h = sum-mul_monomials r s order reorders acc acc

  sum-multiply :
      (acc x : Monomials C) (b : ℕ)
      → b < 2
      → sum r s order reorders (if b == 1 then mul_monomials k order acc x else acc)
        ≡ sum r s order reorders acc ⊗ f.pow (sum r s order reorders x) b
  sum-multiply acc x zero h =
      sym (ap (λ t. sum r s order reorders acc ⊗ t) (r.pow-zero _) ∙ mul-one r _)
  sum-multiply acc x (suc zero) h =
      sum-mul_monomials r s order reorders acc x
      ∙ ap (λ t. sum r s order reorders acc ⊗ t) (sym (pow-one r (sum r s order reorders x)))
  sum-multiply acc x (suc (suc b)) h = absurd (omega arith)

  one_kept :
      (bit is_one : Bool) (acc x : Monomials C)
      → (is_one ≡ true → sum r s order reorders acc ≡ f.one)
      → (if bit then false else is_one) ≡ true
      → (let acc' = if is_one then acc else mul_monomials k order acc acc in
          sum r s order reorders (if bit then mul_monomials k order acc' x else acc') ≡ f.one)
  one_kept true is_one acc x h e = cc
  one_kept false true acc x h e = h refl
  one_kept false false acc x h e = cc

  pow-pow_bit : (a : F) (p b : ℕ) → b < 2 → f.pow (f.pow a b) p ≡ f.pow a (p * b)
  pow-pow_bit a p zero h =
      ap (λ t. f.pow t p) (r.pow-zero a)
      ∙ pow-one_base r p
      ∙ sym (ap (f.pow a) (omega arith) ∙ r.pow-zero a)
  pow-pow_bit a p (suc zero) h =
      ap (λ t. f.pow t p) (pow-one r a) ∙ ap (f.pow a) (let e : p ≡ p * 1 = omega arith in e)
  pow-pow_bit a p (suc (suc b)) h = absurd (omega arith)

  -- One turn of the loop, in powers
  power_turn :
      (a x : F) (d i : ℕ)
      → f.pow (a ⊗ a ⊗ f.pow x (d / 2 ^ i % 2)) (2 ^ i) ⊗ f.pow x (d % 2 ^ i)
        ≡ f.pow a (2 ^ suc i) ⊗ f.pow x (d % 2 ^ suc i)
  power_turn a x d i =
      ap (λ t. t ⊗ f.pow x (d % 2 ^ i))
        (pow-mul r (a ⊗ a) _ (2 ^ i)
          ∙ ap (λ t. t ⊗ f.pow (f.pow x (d / 2 ^ i % 2)) (2 ^ i)) (pow-square r a (2 ^ i))
          ∙ ap (λ t. f.pow a (2 ^ i + 2 ^ i) ⊗ t)
              (pow-pow_bit x (2 ^ i) (d / 2 ^ i % 2) (omega arith)))
      ∙ r.mul_assoc _ _ _
      ∙ ap (λ t. f.pow a (2 ^ i + 2 ^ i) ⊗ t)
          (sym (pow-add r x (2 ^ i * (d / 2 ^ i % 2)) (d % 2 ^ i))
            ∙ ap (f.pow x) (let e = mod-pow-suc d i in omega arith))
      ∙ ap (λ t. f.pow a t ⊗ f.pow x (d % 2 ^ suc i)) (let e = pow-suc 2 i in omega arith)

  sum-power_loop :
      (i d : ℕ) (x acc : Monomials C) (is_one : Bool)
      → (is_one ≡ true → sum r s order reorders acc ≡ f.one)
      → sum r s order reorders (power_loop k order i d x acc is_one)
        ≡ f.pow (sum r s order reorders acc) (2 ^ i) ⊗ f.pow (sum r s order reorders x) (d % 2 ^ i)
  unfolding power_loop
  sum-power_loop zero d x acc is_one h = sym (
      ap (λ t. f.pow (sum r s order reorders acc) t ⊗ f.pow (sum r s order reorders x) (d % 2 ^ 0))
        (let e : 2 ^ 0 ≡ 1 = refl in e)
      ∙ ap (λ t. t ⊗ f.pow (sum r s order reorders x) (d % 2 ^ 0))
          (pow-one r (sum r s order reorders acc))
      ∙ ap (λ t. sum r s order reorders acc ⊗ f.pow (sum r s order reorders x) t)
          (let e : d % 2 ^ 0 ≡ 0 = omega arith in e)
      ∙ ap (λ t. sum r s order reorders acc ⊗ t) (r.pow-zero (sum r s order reorders x))
      ∙ mul-one r (sum r s order reorders acc))
  sum-power_loop (suc i) d x acc is_one h =
      let acc' = if is_one then acc else mul_monomials k order acc acc in
      let b = d / 2 ^ i % 2 in
      let acc'' = if b == 1 then mul_monomials k order acc' x else acc' in
      sum-power_loop i d x acc'' (if b == 1 then false else is_one)
        (one_kept (b == 1) is_one acc x h)
      ∙ ap (λ t. f.pow t (2 ^ i) ⊗ f.pow (sum r s order reorders x) (d % 2 ^ i))
          (sum-multiply acc' x b (omega arith)
            ∙ ap (λ t. t ⊗ f.pow (sum r s order reorders x) b) (sum-square acc is_one h))
      ∙ power_turn (sum r s order reorders acc) (sum r s order reorders x) d i

  pub sum-power :
      (d : ℕ) (x : Monomials C)
      → d < 2 ^ 64
      → sum r s order reorders (power_loop k order 64 d x (single [] (Arith.one k)) true)
        ≡ f.pow (sum r s order reorders x) d
  sum-power d x h =
      let start : sum r s order reorders (single [] (Arith.one k)) ≡ f.one =
        sum-single r s order reorders _ ∙ meaning-one r s in
      sum-power_loop 64 d x _ true (λ e. start)
      ∙ ap (λ t. f.pow t (2 ^ 64) ⊗ f.pow (sum r s order reorders x) (d % 2 ^ 64)) start
      ∙ ap (λ t. t ⊗ f.pow (sum r s order reorders x) (d % 2 ^ 64)) (pow-one_base r (2 ^ 64))
      ∙ r.one-mul _
      ∙ ap (f.pow (sum r s order reorders x)) (mod-eq_of_lt h)
