-- ===== src/Field/Five.antt =====
-- The residues modulo five, a field on which tests run.
use native.Mathlib.Bridge.{le_prop}
use mathlib.Core.HLevel.{Σ_prop_path}
use proof_systems.Prelude.{
  ℕ, zero, suc, ◌*◌, ◌%◌, ◌<◌, ◌≡◌, refl, ap, ◌⊎◌, inl, inr, Option, none, some, arith,
}
use proof_systems.Field.{Field, ◌⊗◌, IsRing, IsDomain}
use proof_systems.Field.Residue.{Residue, residue, residues, residues-IsRing}

abbrev pub F5 : Type 0
F5 = Residue 4

instance abbrev pub five : Field F5
five = residues 4 1

abbrev pub el : ℕ → F5
el = residue 4

pub five-IsRing : IsRing five
five-IsRing = residues-IsRing 4 1

value_zero : (n m : ℕ) → n < 5 → m < 5 → n * m % 5 ≡ 0 → (n ≡ 0) ⊎ (m ≡ 0)
value_zero zero m h k e = inl refl
value_zero (suc zero) m h k e = inr (omega arith)
value_zero (suc (suc zero)) m h k e = inr (omega arith)
value_zero (suc (suc (suc zero))) m h k e = inr (omega arith)
value_zero (suc (suc (suc (suc zero)))) m h k e = inr (omega arith)
value_zero (suc (suc (suc (suc (suc n))))) m h k e = absurd (omega arith)

five_domain : (a b : F5) → a ⊗ b ≡ five.zero → (a ≡ five.zero) ⊎ (b ≡ five.zero)
unfolding residues residue
five_domain (n, h) (m, k) e = elim (value_zero n m h k (ap (λ t. t.0) e)) [
  | inl z ↦ inl (Σ_prop_path (λ n. le_prop) z)
  | inr z ↦ inr (Σ_prop_path (λ n. le_prop) z)
]

number : Option F5 → ℕ
number none = 0
number (some a) = a.0

five_inverse : (a b : F5) → five.inverse a ≡ some b → b ⊗ a ≡ five.one
unfolding residues residue number
five_inverse (zero, h) b e = cc
five_inverse (suc zero, h) b e =
    let v : 1 ≡ b.0 = ap number e in Σ_prop_path (λ n. le_prop) (omega arith)
five_inverse (suc (suc zero), h) b e =
    let v : 3 ≡ b.0 = ap number e in Σ_prop_path (λ n. le_prop) (omega arith)
five_inverse (suc (suc (suc zero)), h) b e =
    let v : 2 ≡ b.0 = ap number e in Σ_prop_path (λ n. le_prop) (omega arith)
five_inverse (suc (suc (suc (suc zero))), h) b e =
    let v : 4 ≡ b.0 = ap number e in Σ_prop_path (λ n. le_prop) (omega arith)
five_inverse (suc (suc (suc (suc (suc n)))), h) b e = absurd (omega arith)

pub five-IsDomain : IsDomain five
unfolding residues residue
five-IsDomain = record {
  no_divisors = five_domain;
  one_ne_zero = λ e. absurd (omega (arith, ap (λ t. t.0) e));
  inverse-mul = five_inverse;
}
