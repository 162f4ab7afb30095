-- ===== src/Prelude/Numbers.antt =====
-- Facts on powers of two and remainders.
use native.Mathlib.Nat.{pow-suc, add-mul-mod_self_left, mod-eq_of_lt, div-add-mod, mod-lt}
use native.Mathlib.Nat.{
  mul-le-mul_left, mul_assoc, mul_comm, mul_right_comm, add-mul-div_left, mod-add-div,
}
use Prim.Native.Nat.{ℕ, zero, suc, ◌+◌, ◌-◌, ◌*◌, ◌/◌, ◌%◌, ◌^◌, ◌<◌, ◌≤◌}
use mathlib.Core.Path.{◌≡◌, sym, ap, ◌∙◌}
use native.Mathlib.Omega.{arith}

pub two_pow_pos : (k : ℕ) → 0 < 2 ^ k
two_pow_pos zero = omega arith
two_pow_pos (suc k) = rw pow-suc (let ih = two_pow_pos k in omega arith)

-- The low `k + 1` bits are the low `k` bits and bit `k`.
pub mod-pow-suc : (v k : ℕ) → v % 2 ^ suc k ≡ v % 2 ^ k + 2 ^ k * (v / 2 ^ k % 2)
mod-pow-suc v k =
    rw pow-suc
      (sym (ap (λ t. t % (p * 2)) parts) ∙ add-mul-mod_self_left _ _ _ ∙ mod-eq_of_lt small)
  where
    p : ℕ
    p = 2 ^ k

    parts : (v % p + p * (v / p % 2)) + (p * 2) * (v / p / 2) ≡ v
    parts =
        let halves : v / p % 2 + 2 * (v / p / 2) ≡ v / p = omega arith in
        omega (arith, div-add-mod v p, ap (λ (t : ℕ). p * t) halves, mul_assoc p 2 (v / p / 2))

    small : v % p + p * (v / p % 2) < p * 2
    small =
        let bit : v / p % 2 ≤ 1 = omega arith in
        omega (arith, mul-le-mul_left p bit, mod-lt v (two_pow_pos k))

pub two_pow-add : (m n : ℕ) → 2 ^ (m + n) ≡ 2 ^ m * 2 ^ n
two_pow-add zero n = let e : 2 ^ (0 + n) ≡ 2 ^ n = ap (λ t. 2 ^ t) (omega arith) in omega (arith, e)
two_pow-add (suc m) n =
    ap (λ t. 2 ^ t) (let e : suc m + n ≡ suc (m + n) = omega arith in e)
    ∙ pow-suc 2 (m + n)
    ∙ ap (λ t. t * 2) (two_pow-add m n)
    ∙ mul_right_comm (2 ^ m) (2 ^ n) 2
    ∙ ap (λ t. t * 2 ^ n) (sym (pow-suc 2 m))

-- A bit below the place where a number is cut.
pub bit-mod_pow : (x r w : ℕ) → r < w → x % 2 ^ w / 2 ^ r % 2 ≡ x / 2 ^ r % 2
bit-mod_pow x r w h =
    sym (add-mul-mod_self_left _ 2 (2 ^ d * (x / 2 ^ w)))
    ∙ ap (λ t. t % 2)
        (sym (add-mul-div_left (x % 2 ^ w) (2 * (2 ^ d * (x / 2 ^ w))) (two_pow_pos r))
          ∙ ap (λ t. t / 2 ^ r) whole)
  where
    d : ℕ
    d = w - suc r

    factors : 2 ^ w ≡ 2 ^ r * (2 * 2 ^ d)
    factors =
        ap (λ t. 2 ^ t) (let e : w ≡ r + suc d = omega arith in e)
        ∙ two_pow-add r (suc d)
        ∙ ap (λ t. 2 ^ r * t) (pow-suc 2 d ∙ mul_comm (2 ^ d) 2)

    whole : x % 2 ^ w + 2 ^ r * (2 * (2 ^ d * (x / 2 ^ w))) ≡ x
    whole =
        ap (λ t. x % 2 ^ w + t)
          (ap (λ t. 2 ^ r * t) (sym (mul_assoc 2 (2 ^ d) (x / 2 ^ w)))
            ∙ sym (mul_assoc (2 ^ r) (2 * 2 ^ d) (x / 2 ^ w))
            ∙ ap (λ t. t * (x / 2 ^ w)) (sym factors))
        ∙ mod-add-div x (2 ^ w)
