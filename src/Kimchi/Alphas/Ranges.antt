-- ===== src/Kimchi/Alphas/Ranges.antt =====
-- kimchi/src/alphas.rs: the ranges of exponents of different arguments.
use mathlib.Core.Bool.{true≢false}
use proof_systems.Prelude.{
  ℕ, zero, suc, ◌+◌, ◌-◌, ◌%◌, ◌^◌, ◌≤◌, ◌<◌, ◌≡◌, refl, true, false, Option, none, some, List, [],
  ◌∷◌, arith, ◌⊎◌, sym, ap, ◌∙◌, inl, inr, Bool-cases, Option-cases,
}
use proof_systems.Outcome.{>>=-eq-ok, ok-injective, ok}
use proof_systems.Kimchi.Gates.{ArgumentType, gate, permutation, lookup, same_type}
use proof_systems.Kimchi.Alphas.{
  Alphas, Mapping, insert, canonical, range, default, register, registered, get_exponents,
}

-- Every registered range ends at or before the next power, which is a `u32`, and two ranges that
-- are registered under different keys are apart.
pub record IsValid {F : Type 0} (a : Alphas F) : Type 0 where
  pub bounded :
      (t : ArgumentType) (start count : ℕ)
      → a.mapping t ≡ some (start, count)
      → start + count ≤ a.next_power
  pub apart :
      (t u : ArgumentType) (s1 c1 s2 c2 : ℕ)
      → same_type t u ≡ false
      → a.mapping t ≡ some (s1, c1)
      → a.mapping u ≡ some (s2, c2)
      → (s1 + c1 ≤ s2) ⊎ (s2 + c2 ≤ s1)
  pub u32 : a.next_power < 2 ^ 32

insert-bounded :
    (m : Mapping) (n p : ℕ) (k t : ArgumentType) (start count : ℕ)
    → ((u : ArgumentType) (s c : ℕ) → m u ≡ some (s, c) → s + c ≤ n)
    → insert k (n, p) m t ≡ some (start, count)
    → start + count ≤ n + p
insert-bounded m n p k t start count h e = elim (Bool-cases (same_type k t)) [
  | inl same ↦ let e' = rw same at e in ground arith
  | inr other ↦ let old = h t start count (rw other at e) in omega arith
]

same_type_trans :
    (k t u : ArgumentType) → same_type k t ≡ true → same_type k u ≡ true → same_type t u ≡ true
same_type_trans (gate a) (gate b) (gate c) h e = ground arith
same_type_trans permutation permutation permutation h e = refl
same_type_trans lookup lookup lookup h e = refl
same_type_trans _ _ _ h e = cc

insert-apart :
    (m : Mapping) (n p : ℕ) (k t u : ArgumentType) (s1 c1 s2 c2 : ℕ)
    → ((v : ArgumentType) (s c : ℕ) → m v ≡ some (s, c) → s + c ≤ n)
    → ((s1 c1 s2 c2 : ℕ)
        → m t ≡ some (s1, c1)
        → m u ≡ some (s2, c2)
        → (s1 + c1 ≤ s2) ⊎ (s2 + c2 ≤ s1))
    → same_type t u ≡ false
    → insert k (n, p) m t ≡ some (s1, c1)
    → insert k (n, p) m u ≡ some (s2, c2)
    → (s1 + c1 ≤ s2) ⊎ (s2 + c2 ≤ s1)
insert-apart m n p k t u s1 c1 s2 c2 h old d et eu = elim (Bool-cases (same_type k t)) [
  | inl kt ↦ elim (Bool-cases (same_type k u)) [
    | inl ku ↦ absurd (true≢false (sym (same_type_trans k t u kt ku) ∙ d))
    | inr nu ↦
        let new : ◌≡◌ {A = Option (ℕ × ℕ)} (some (n, p)) (some (s1, c1)) = rw kt at et in
        let below = h u s2 c2 (rw nu at eu) in inr (ground arith)
  ]
  | inr nt ↦ elim (Bool-cases (same_type k u)) [
    | inl ku ↦
        let new : ◌≡◌ {A = Option (ℕ × ℕ)} (some (n, p)) (some (s2, c2)) = rw ku at eu in
        let below = h t s1 c1 (rw nt at et) in inl (ground arith)
    | inr nu ↦ old s1 c1 s2 c2 (rw nt at et) (rw nu at eu)
  ]
]

same_type_refl : (ty : ArgumentType) → same_type (canonical ty) (canonical ty) ≡ true
same_type_refl (gate g) = refl
same_type_refl permutation = refl
same_type_refl lookup = refl

-- `e` is in the list.
abbrev pub Within : ℕ → List ℕ → Type 0
Within e [] = ⊥
Within e (x ∷ xs) = (e ≡ x) ⊎ Within e xs

Within-range :
    (e start count : ℕ) → Within e (range start count) → (start ≤ e) × (e < start + count)
Within-range e start zero h = absurd h
Within-range e start (suc count) (inl h) = omega arith
Within-range e start (suc count) (inr h) =
    let later = Within-range e (start + 1) count h in omega arith

module _ {F : Type 0} where
  pub default-IsValid : IsValid (default {F = F})
  unfolding default
  default-IsValid = record {
    bounded = λ t s c e. cc;
    apart = λ t u s1 c1 s2 c2 d e h. cc;
    u32 = omega arith;
  }

  -- What a successful registration does.
  register-ok :
      (a b : Alphas F) (ty : ArgumentType) (powers : ℕ)
      → register a ty powers ≡ ok b
      → (a.next_power + powers < 2 ^ 32)
        × (b.next_power ≡ a.next_power + powers)
        × (b.mapping ≡ insert (canonical ty) (a.next_power, powers) a.mapping)
        × (b.alphas ≡ a.alphas)
        × (a.mapping (canonical ty) ≡ none)
  unfolding register
  register-ok a b ty powers h = ground arith

  -- Registration keeps the invariant.
  pub register-IsValid :
      (a b : Alphas F) (ty : ArgumentType) (powers : ℕ)
      → IsValid a
      → register a ty powers ≡ ok b
      → IsValid b
  register-IsValid a b ty powers v h =
      let (room, next, mapping, _, _) = register-ok a b ty powers h in
      record {
        bounded = λ t s c e. rw next (
            insert-bounded a.mapping a.next_power powers (canonical ty) t s c v.bounded
              (rw mapping at e));
        apart = λ t u s1 c1 s2 c2 d et eu.
            insert-apart a.mapping a.next_power powers (canonical ty) t u s1 c1 s2 c2 v.bounded
              (λ s1' c1' s2' c2'. v.apart t u s1' c1' s2' c2' d) d (rw mapping at et)
              (rw mapping at eu);
        u32 = omega arith;
      }

  -- A registration gives the next `powers` exponents to its argument, and takes none from another.
  pub register_lem :
      (a b : Alphas F) (ty u : ArgumentType) (powers : ℕ)
      → register a ty powers ≡ ok b
      → (b.mapping (canonical ty) ≡ some (a.next_power, powers))
        × (same_type (canonical ty) u ≡ false → b.mapping u ≡ a.mapping u)
        × (b.next_power ≡ a.next_power + powers)
  register_lem a b ty u powers h =
      let (_, next, mapping, _, _) = register-ok a b ty powers h in
      (
        ap (λ m. m (canonical ty)) mapping ∙ rw (same_type_refl ty),
        λ d. ap (λ m. m u) mapping ∙ rw d,
        next,
      )

  pub registered-ok :
      (a : Alphas F) (ty : ArgumentType) (num start : ℕ)
      → registered a ty num ≡ ok start
      → (count : ℕ) × (a.mapping (canonical ty) ≡ some (start, count)) × (num ≤ count)
  unfolding registered
  registered-ok a ty num start h = elim (Option-cases (a.mapping (canonical ty))) [
    | inl missing ↦ let h' = rw missing at h in cc
    | inr (r, found) ↦ (r.1, ground arith, ground arith)
  ]

  pub get_exponents-ok :
      (a : Alphas F) (ty : ArgumentType) (num : ℕ) (es : List ℕ)
      → IsValid a
      → get_exponents a ty num ≡ ok es
      → (start : ℕ) × (count : ℕ) × (registered a ty num ≡ ok start)
        × (a.mapping (canonical ty) ≡ some (start, count))
        × (num ≤ count)
        × (es ≡ range start num)
  unfolding get_exponents
  get_exponents-ok a ty num es v h =
      let (start, reg, done) = >>=-eq-ok (registered a ty num) _ h in
      let (count, here, le) = registered-ok a ty num start reg in
      let end = v.bounded (canonical ty) start count here in
      let size : (start + num) % 2 ^ 32 - start ≡ num = omega arith in
      (start, count, reg, here, le, sym (ok-injective done) ∙ ap (range start) size)

  -- Two exponents that are handed out for different kinds of arguments differ.
  pub exponents_apart :
      (a : Alphas F) (t u : ArgumentType) (n m : ℕ) (es fs : List ℕ) (e : ℕ)
      → IsValid a
      → same_type (canonical t) (canonical u) ≡ false
      → get_exponents a t n ≡ ok es
      → get_exponents a u m ≡ ok fs
      → Within e es
      → Within e fs
      → ⊥
  exponents_apart a t u n m es fs e v d ht hu p q =
      let (s1, c1, _, m1, le1, r1) = get_exponents-ok a t n es v ht in
      let (s2, c2, _, m2, le2, r2) = get_exponents-ok a u m fs v hu in
      let in1 = Within-range e s1 n (rw r1 at p) in
      let in2 = Within-range e s2 m (rw r2 at q) in
      let split = v.apart (canonical t) (canonical u) s1 c1 s2 c2 d m1 m2 in omega arith
