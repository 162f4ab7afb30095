-- ===== src/Utils/Math.antt =====
-- utils/src/math.rs: the logarithm of a size, on a machine of 64 bits.
use native.Mathlib.Nat.{pow-suc, pow-le-pow_right}
use proof_systems.Prelude.{
  ℕ, zero, suc, ◌+◌, ◌*◌, ◌^◌, ◌≤◌, ◌<◌, ◌≡◌, refl, sym, ap, ◌∙◌, ltb, ltb→lt, lt→ltb, arith,
  if◌then◌else◌, Bool-cases, inl, inr,
}
use proof_systems.Outcome.{Outcome, ok, panic, guard, ◌>>◌}

-- The loop of `ceil_log2`, with one unit of fuel for each test.
unfoldable pub ceil_log2_loop : ℕ → ℕ → ℕ → ℕ → Outcome ℕ
ceil_log2_loop zero d pow2 ceil = panic "out of fuel"
ceil_log2_loop (suc fuel) d pow2 ceil =
    let next = ceil_log2_loop fuel d (pow2 * 2) (ceil + 1) in
    if ltb pow2 d then (if ltb (pow2 * 2) (2 ^ 64) then next else ok (ceil + 1)) else ok ceil

-- `pow2` is a `usize`, so the loop makes at most 65 tests.
unfoldable pub ceil_log2 : ℕ → Outcome ℕ
ceil_log2 d = guard (ltb 0 d) "assertion failed: d != 0" >> ceil_log2_loop 65 d 1 0

two_pow_lt : (a b : ℕ) → 2 ^ a < 2 ^ b → a < b
two_pow_lt a b h = elim (Bool-cases (ltb a b)) [
  | inl e ↦ ltb→lt a b e
  | inr e ↦
      let other : b ≤ a = ground arith in
      let le = pow-le-pow_right {n = 2} (omega arith) {i = b} {j = a} other in absurd (omega arith)
]

ceil_log2_loop_lem :
    (fuel d ceil : ℕ)
    → d < 2 ^ 64
    → 2 ^ ceil < 2 * d
    → ceil < 64
    → 64 < fuel + ceil
    → (c : ℕ) × (ceil_log2_loop fuel d (2 ^ ceil) ceil ≡ ok c)
      × (d ≤ 2 ^ c)
      × (2 ^ c < 2 * d)
      × (c ≤ 64)
unfolding ceil_log2_loop
ceil_log2_loop_lem zero d ceil h low bound enough = absurd (omega arith)
ceil_log2_loop_lem (suc fuel) d ceil h low bound enough =
    let double : 2 ^ ceil * 2 ≡ 2 ^ (ceil + 1) =
      sym (pow-suc 2 ceil) ∙ ap (λ t. 2 ^ t) (let e : suc ceil ≡ ceil + 1 = omega arith in e) in
    elim (Bool-cases (ltb (2 ^ ceil) d)) [
      | inl e ↦
          let more = ltb→lt (2 ^ ceil) d e in
          elim (Bool-cases (ltb (2 ^ ceil * 2) (2 ^ 64))) [
            | inl fits ↦
                let small = ltb→lt (2 ^ ceil * 2) (2 ^ 64) fits in
                let bound' : ceil + 1 < 64 = two_pow_lt (ceil + 1) 64 (omega arith) in
                let (c, run, above, least, top) =
                  ceil_log2_loop_lem fuel d (ceil + 1) h (omega arith) bound' (omega arith) in
                (c, rw (e, fits, double) run, above, least, top)
            | inr over ↦
                let large : 2 ^ 64 ≤ 2 ^ ceil * 2 = ground arith in
                (ceil + 1, rw (e, over) refl, omega arith, omega arith, omega arith)
          ]
      | inr e ↦ (ceil, rw e refl, ground arith, low, omega arith)
    ]

-- For a size of 64 bits that is not zero, `ceil_log2` returns the smallest exponent whose power of
-- two is not below the size; it is at most 64.
pub ceil_log2_lem :
    (d : ℕ)
    → 0 < d
    → d < 2 ^ 64
    → (c : ℕ) × (ceil_log2 d ≡ ok c) × (d ≤ 2 ^ c) × (2 ^ c < 2 * d) × (c ≤ 64)
unfolding ceil_log2
ceil_log2_lem d pos h =
    rw (lt→ltb 0 d pos) (ceil_log2_loop_lem 65 d 0 h (omega arith) (omega arith) (omega arith))
