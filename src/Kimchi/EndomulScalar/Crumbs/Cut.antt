-- ===== src/Kimchi/EndomulScalar/Crumbs/Cut.antt =====
-- kimchi/src/circuits/polynomials/endomul_scalar.rs: the bits of a scalar, reversed and cut into
-- rows of sixteen and into pairs, are its crumbs.
use native.Mathlib.Nat.{pow-suc}
use mathlib.Core.List.{reverse, reverse-append}
use proof_systems.Prelude.{
  ℕ, zero, suc, ◌+◌, ◌*◌, ◌/◌, ◌^◌, ◌%◌, ◌==◌, ◌≤◌, ◌<◌, ◌≡◌, refl, ap, ◌∙◌, Bool, List, [], ◌∷◌,
  ◌++◌, map, length, take, drop, if◌then◌else◌, arith, take-append, drop-append, mod-pow-suc,
}
use proof_systems.Oracle.Challenge.Walk.{bit, crumbs}
use proof_systems.Hasher.Input.{chunks}
use proof_systems.Kimchi.EndomulScalar.{bits_le}
use proof_systems.Kimchi.EndomulScalar.Crumbs.{Crumb, pair, crumb_number, number}

abbrev pub flatten : List Crumb → List Bool
flatten [] = []
flatten (x ∷ xs) = x.0 ∷ x.1 ∷ flatten xs

flatten-append : (xs ys : List Crumb) → flatten (xs ++ ys) ≡ flatten xs ++ flatten ys
flatten-append [] ys = refl
flatten-append (x ∷ xs) ys = ap (λ t. x.0 ∷ x.1 ∷ t) (flatten-append xs ys)

-- `chunks(2)` of the bits of crumbs
pub chunks-flatten :
    (fuel : ℕ) (xs : List Crumb) → length xs ≤ fuel → chunks 2 fuel (flatten xs) ≡ map pair xs
unfolding chunks
chunks-flatten fuel [] h = refl
chunks-flatten zero (x ∷ xs) h = absurd (omega arith)
chunks-flatten (suc fuel) (x ∷ xs) h = ap (λ t. pair x ∷ t) (chunks-flatten fuel xs (omega arith))

-- The crumbs of `v` at the places from `m` to `m + n`, the highest first.
unfoldable pub part : ℕ → ℕ → ℕ → List Crumb
part v m zero = []
part v m (suc n) = (bit v (2 * (n + m) + 1), bit v (2 * (n + m))) ∷ part v m n

pub length-part : (v m n : ℕ) → length (part v m n) ≡ n
unfolding part
length-part v m zero = refl
length-part v m (suc n) = ap suc (length-part v m n)

pub length-flatten : (xs : List Crumb) → length (flatten xs) ≡ 2 * length xs
length-flatten [] = refl
length-flatten (x ∷ xs) = let ih = length-flatten xs in omega arith

crumbs-part : (v m n : ℕ) → crumbs v (n + m) ≡ part v m n ++ crumbs v m
unfolding part crumbs
crumbs-part v m zero = ap (crumbs v) (omega arith)
crumbs-part v m (suc n) =
    ap (crumbs v) (let e : suc n + m ≡ suc (n + m) = omega arith in e)
    ∙ ap (λ t. (bit v (2 * (n + m) + 1), bit v (2 * (n + m))) ∷ t) (crumbs-part v m n)

-- The rows of a scalar, the highest first.
unfoldable pub rows : ℕ → ℕ → List (List Crumb)
rows v zero = []
rows v (suc k) = part v (8 * k) 8 ∷ rows v k

chunks-append :
    {A : Type 0} (n fuel : ℕ) (xs ys : List A)
    → length xs ≡ suc n
    → chunks (suc n) (suc fuel) (xs ++ ys) ≡ xs ∷ chunks (suc n) fuel ys
unfolding chunks
chunks-append n fuel [] ys h = absurd (omega (arith, h))
chunks-append n fuel (x ∷ xs) ys h =
    ap (λ t. t ∷ chunks (suc n) fuel (drop (suc n) (x ∷ (xs ++ ys))))
      (take-append (suc n) (x ∷ xs) ys h)
    ∙ ap (λ t. (x ∷ xs) ∷ chunks (suc n) fuel t) (drop-append (suc n) (x ∷ xs) ys h)

pub chunks-crumbs :
    (v k fuel : ℕ) → k ≤ fuel → chunks 16 fuel (flatten (crumbs v (8 * k))) ≡ map flatten (rows v k)
unfolding rows crumbs chunks
chunks-crumbs v zero fuel h = refl
chunks-crumbs v (suc k) zero h = absurd (omega arith)
chunks-crumbs v (suc k) (suc fuel) h =
    ap (λ t. chunks 16 (suc fuel) (flatten t))
      (ap (crumbs v) (let e : 8 * suc k ≡ 8 + 8 * k = omega arith in e) ∙ crumbs-part v (8 * k) 8)
    ∙ ap (chunks 16 (suc fuel)) (flatten-append (part v (8 * k) 8) (crumbs v (8 * k)))
    ∙ chunks-append 15 fuel (flatten (part v (8 * k) 8)) _
        (length-flatten (part v (8 * k) 8) ∙ ap (λ t. 2 * t) (length-part v (8 * k) 8))
    ∙ ap (λ t. flatten (part v (8 * k) 8) ∷ t) (chunks-crumbs v k fuel (omega arith))

take-bits_le : (n m i v : ℕ) → n ≤ m → take n (bits_le m i v) ≡ bits_le n i v
unfolding bits_le
take-bits_le zero m i v h = refl
take-bits_le (suc n) zero i v h = absurd (omega arith)
take-bits_le (suc n) (suc m) i v h =
    ap (λ t. bit v i ∷ t) (take-bits_le n m (suc i) v (omega arith))

bits_le-snoc : (n i v : ℕ) → bits_le (suc n) i v ≡ bits_le n i v ++ bit v (i + n) ∷ []
unfolding bits_le
bits_le-snoc zero i v = ap (λ t. bit v t ∷ []) (omega arith)
bits_le-snoc (suc n) i v =
    ap (λ t. bit v i ∷ t)
      (bits_le-snoc n (suc i) v ∙ ap (λ t. bits_le n (suc i) v ++ bit v t ∷ []) (omega arith))

reverse-bits_le : (j v : ℕ) → reverse (bits_le (2 * j) 0 v) ≡ flatten (crumbs v j)
unfolding bits_le crumbs
reverse-bits_le zero v = refl
reverse-bits_le (suc j) v =
    ap reverse (
      ap (λ t. bits_le t 0 v) (let e : 2 * suc j ≡ suc (suc (2 * j)) = omega arith in e)
      ∙ bits_le-snoc (suc (2 * j)) 0 v
      ∙ ap (λ t. t ++ bit v (0 + suc (2 * j)) ∷ []) (bits_le-snoc (2 * j) 0 v))
    ∙ reverse-append (bits_le (2 * j) 0 v ++ bit v (0 + 2 * j) ∷ []) _
    ∙ ap (λ t. bit v (0 + suc (2 * j)) ∷ t) (reverse-append (bits_le (2 * j) 0 v) _)
    ∙ ap (λ t. bit v t ∷ bit v (0 + 2 * j) ∷ reverse (bits_le (2 * j) 0 v))
        (let e : 0 + suc (2 * j) ≡ 2 * j + 1 = omega arith in e)
    ∙ ap (λ t. bit v (2 * j + 1) ∷ bit v t ∷ reverse (bits_le (2 * j) 0 v))
        (let e : 0 + 2 * j ≡ 2 * j = omega arith in e)
    ∙ ap (λ t. bit v (2 * j + 1) ∷ bit v (2 * j) ∷ t) (reverse-bits_le j v)

pub bits_msb :
    (j v : ℕ) → 2 * j ≤ 256 → reverse (take (2 * j) (bits_le 256 0 v)) ≡ flatten (crumbs v j)
bits_msb j v h = ap reverse (take-bits_le (2 * j) 256 0 v h) ∙ reverse-bits_le j v

bit_number : (x : ℕ) → x < 2 → (if x == 1 then 1 else 0) ≡ x
bit_number zero h = refl
bit_number (suc zero) h = refl
bit_number (suc (suc x)) h = absurd (omega arith)

distribute :
    (p q a x y m : ℕ)
    → q ≡ p * 2
    → p * (4 * a + (x + (y + y))) + m ≡ q * 2 * a + (m + p * x + q * y)
distribute p q a x y m h = rw h (grind arith)

next_place :
    (v k acc : ℕ)
    → 2 ^ k * (4 * acc + crumb_number (bit v (k + 1), bit v k)) + v % 2 ^ k
      ≡ 2 ^ suc (suc k) * acc + v % 2 ^ suc (suc k)
next_place v k acc =
    let low : (if bit v k then 1 else 0) ≡ v / 2 ^ k % 2 = bit_number _ (omega arith) in
    let high : (if bit v (k + 1) then 1 else 0) ≡ v / 2 ^ suc k % 2 =
      bit_number _ (omega arith) ∙ ap (λ t. v / 2 ^ t % 2) (omega arith) in
    rw (low, high, mod-pow-suc v (suc k), mod-pow-suc v k, pow-suc 2 (suc k))
      (distribute _ _ acc _ _ _ (pow-suc 2 k))

-- The crumbs of the low bits are the number of these bits.
pub number-crumbs : (v j acc : ℕ) → number (crumbs v j) acc ≡ 2 ^ (2 * j) * acc + v % 2 ^ (2 * j)
unfolding number crumbs
number-crumbs v zero acc = omega arith
number-crumbs v (suc j) acc =
    number-crumbs v j (4 * acc + crumb_number (bit v (2 * j + 1), bit v (2 * j)))
    ∙ next_place v (2 * j) acc
    ∙ ap (λ t. 2 ^ t * acc + v % 2 ^ t) (let e : suc (suc (2 * j)) ≡ 2 * suc j = omega arith in e)

abbrev pub concat : List (List Crumb) → List Crumb
concat [] = []
concat (xs ∷ xss) = xs ++ concat xss

pub crumbs-rows : (v k : ℕ) → crumbs v (8 * k) ≡ concat (rows v k)
unfolding rows crumbs
crumbs-rows v zero = refl
crumbs-rows v (suc k) =
    ap (crumbs v) (let e : 8 * suc k ≡ 8 + 8 * k = omega arith in e)
    ∙ crumbs-part v (8 * k) 8
    ∙ ap (λ t. part v (8 * k) 8 ++ t) (crumbs-rows v k)

pub length-crumbs : (v n : ℕ) → length (crumbs v n) ≡ n
unfolding crumbs
length-crumbs v zero = refl
length-crumbs v (suc n) = ap suc (length-crumbs v n)
