-- ===== src/Kimchi/Alphas/Powers.antt =====
-- kimchi/src/alphas.rs: the powers that are handed out, and their exponents.
use mathlib.Core.List.{append-nil, append_assoc}
use proof_systems.Prelude.{
  ℕ, zero, suc, ◌+◌, ◌-◌, ◌≤◌, ◌≡◌, refl, sym, ap, ◌∙◌, some, List, [], ◌∷◌, ◌++◌, map, take, drop,
  arith,
}
use proof_systems.Outcome.{ok}
use proof_systems.Field.{Field, ◌⊗◌, IsRing}
use proof_systems.Kimchi.Gates.{ArgumentType}
use proof_systems.Kimchi.Alphas.{
  Alphas, canonical, range, registered, get_exponents, get_alphas, push_powers, instantiate,
}
use proof_systems.Kimchi.Alphas.Ranges.{IsValid, get_exponents-ok}

drop-map-range :
    {A : Type 0} (g : ℕ → A) (i start n : ℕ)
    → drop i (map g (range start (i + n))) ≡ map g (range (start + i) n)
drop-map-range g zero start n =
    let p : 0 + n ≡ n = omega arith in let q : start + 0 ≡ start = omega arith in rw (p, q)
drop-map-range g (suc i) start n =
    let p : suc i + n ≡ suc (i + n) = omega arith in
    let q : start + suc i ≡ start + 1 + i = omega arith in
    rw (p, q) (drop-map-range g i (start + 1) n)

take-map-range :
    {A : Type 0} (g : ℕ → A) (k start n : ℕ)
    → k ≤ n
    → take k (map g (range start n)) ≡ map g (range start k)
take-map-range g zero start n h = refl
take-map-range g (suc k) start zero h = absurd (omega arith)
take-map-range g (suc k) start (suc n) h =
    ap (λ t. g start ∷ t) (take-map-range g k (start + 1) n (omega arith))

module _ {F : Type 0} ⦃f : Field F⦄ (r : IsRing f) where
  push_powers_lem :
      (rounds : ℕ) (alpha : F) (e : ℕ) (acc : List F)
      → push_powers rounds alpha (f.pow alpha e) acc
        ≡ acc ++ map (f.pow alpha) (range (e + 1) rounds)
  unfolding push_powers
  push_powers_lem zero alpha e acc = sym (append-nil acc)
  push_powers_lem (suc rounds) alpha e acc =
      let next : f.pow alpha e ⊗ alpha ≡ f.pow alpha (e + 1) =
        sym (r.pow-suc alpha e) ∙ ap (f.pow alpha) (omega arith) in
      rw next (
        push_powers_lem rounds alpha (e + 1) (acc ++ f.pow alpha (e + 1) ∷ [])
        ∙ append_assoc acc (f.pow alpha (e + 1) ∷ []) _)

  -- The vector holds the powers from 0; there is one even where none was registered.
  instantiate_lem :
      (a : Alphas F) (alpha : F)
      → (instantiate a alpha).alphas ≡ some (map (f.pow alpha) (range 0 (suc (a.next_power - 1))))
  unfolding instantiate
  instantiate_lem a alpha = ap some (
      ap (λ t. push_powers (a.next_power - 1) alpha t (t ∷ [])) (sym (r.pow-zero alpha))
      ∙ push_powers_lem (a.next_power - 1) alpha 0 (f.pow alpha 0 ∷ []))

  -- Once alpha is known, the elements handed out for a request are the powers of alpha at the
  -- exponents handed out for it.
  pub get_alphas-get_exponents :
      (a : Alphas F) (alpha : F) (ty : ArgumentType) (num : ℕ) (es : List ℕ)
      → IsValid a
      → get_exponents a ty num ≡ ok es
      → get_alphas (instantiate a alpha) ty num ≡ ok (map (f.pow alpha) es)
  unfolding get_alphas
  get_alphas-get_exponents a alpha ty num es v h =
      let (start, count, reg, here, le, same) = get_exponents-ok a ty num es v h in
      let end = v.bounded (canonical ty) start count here in
      let rest = suc (a.next_power - 1) - start in
      let whole : suc (a.next_power - 1) ≡ start + rest = omega arith in
      let enough : num ≤ rest = omega arith in
      let reg' : registered (instantiate a alpha) ty num ≡ ok start =
        unfold registered instantiate in reg in
      rw (reg', instantiate_lem a alpha, same)
        (ap ok (
          ap (λ k. take num (drop start (map (f.pow alpha) (range 0 k)))) whole
          ∙ ap (take num) (drop-map-range (f.pow alpha) start 0 rest)
          ∙ take-map-range (f.pow alpha) num (0 + start) rest enough
          ∙ ap (λ k. map (f.pow alpha) (range k num)) (omega arith)))
