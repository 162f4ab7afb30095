-- ===== src/Hasher/Input/Chunks.antt =====
-- hasher/src/roinput.rs: the chunks of the bits, each of which becomes a field element.
use proof_systems.Prelude.{
  ℕ, zero, suc, ◌-◌, ◌≤◌, ◌<◌, ◌≡◌, refl, ap, ◌∙◌, List, [], ◌∷◌, ◌++◌, arith, length, take, drop,
}
use proof_systems.Hasher.Input.{chunks}

abbrev pub join {ℓ} : {A : Type ℓ} → List (List A) → List A
join [] = []
join (c ∷ cs) = c ++ join cs

-- Every chunk has `n` elements, but the last, which has at least one.
abbrev pub AreChunks {ℓ} : {A : Type ℓ} → ℕ → List (List A) → Type 0
AreChunks n [] = Unit
AreChunks n (c ∷ []) = (0 < length c) × (length c ≤ n)
AreChunks n (c ∷ d ∷ cs) = (length c ≡ n) × AreChunks n (d ∷ cs)

take-append-drop {ℓ} : {A : Type ℓ} (n : ℕ) (xs : List A) → take n xs ++ drop n xs ≡ xs
take-append-drop zero xs = refl
take-append-drop (suc n) [] = refl
take-append-drop (suc n) (x ∷ xs) = ap (λ t. x ∷ t) (take-append-drop n xs)

length-drop {ℓ} : {A : Type ℓ} (n : ℕ) (xs : List A) → length (drop n xs) ≡ length xs - n
length-drop zero xs = omega arith
length-drop (suc n) [] = omega arith
length-drop (suc n) (x ∷ xs) = length-drop n xs ∙ omega arith

-- A list that is not longer than the fuel is the join of its chunks.
join-chunks {ℓ} :
    {A : Type ℓ} (n fuel : ℕ) (xs : List A)
    → 0 < n
    → length xs ≤ fuel
    → join (chunks n fuel xs) ≡ xs
unfolding chunks
join-chunks n fuel [] pos h = refl
join-chunks n zero (x ∷ xs) pos h = absurd (omega arith)
join-chunks n (suc fuel) (x ∷ xs) pos h =
    let rest = length-drop n (x ∷ xs) in
    ap (λ t. take n (x ∷ xs) ++ t) (join-chunks n fuel (drop n (x ∷ xs)) pos (omega arith))
    ∙ take-append-drop n (x ∷ xs)

length-take_short {ℓ} :
    {A : Type ℓ} (n : ℕ) (xs : List A)
    → (0 < n → 0 < length xs → 0 < length (take n xs)) × (length (take n xs) ≤ n)
length-take_short zero xs = (λ a b. absurd (omega arith), omega arith)
length-take_short (suc n) [] = (λ a b. absurd (omega arith), omega arith)
length-take_short (suc n) (x ∷ xs) =
    let le = (length-take_short n xs).1 in (λ a b. omega arith, omega arith)

length-take_long {ℓ} :
    {A : Type ℓ} (n : ℕ) (xs : List A) → 0 < length (drop n xs) → length (take n xs) ≡ n
length-take_long zero xs h = refl
length-take_long (suc n) [] h = absurd (omega arith)
length-take_long (suc n) (x ∷ xs) h = ap suc (length-take_long n xs h)

chunks-AreChunks {ℓ} :
    {A : Type ℓ} (n fuel : ℕ) (xs : List A) → 0 < n → AreChunks n (chunks n fuel xs)
unfolding chunks
chunks-AreChunks n fuel [] pos = tt
chunks-AreChunks n zero (x ∷ xs) pos = tt
chunks-AreChunks {A = A} n (suc fuel) (x ∷ xs) pos =
    cons fuel (drop n (x ∷ xs)) refl (chunks-AreChunks n fuel (drop n (x ∷ xs)) pos)
  where
    cons :
        (k : ℕ) (rest : List A)
        → drop n (x ∷ xs) ≡ rest
        → AreChunks n (chunks n k rest)
        → AreChunks n (take n (x ∷ xs) ∷ chunks n k rest)
    cons k [] e h = let short = length-take_short n (x ∷ xs) in (short.0 pos (omega arith), short.1)
    cons zero (y ∷ ys) e h =
        let short = length-take_short n (x ∷ xs) in (short.0 pos (omega arith), short.1)
    cons (suc k) (y ∷ ys) e h =
        let long : 0 < length (drop n (x ∷ xs)) = rw e (omega arith) in
        (length-take_long n (x ∷ xs) long, h)

-- With one unit of fuel for each element, the chunks of a list are, in order, the list, and each
-- has the given size, but the last, which is not empty and not larger.
pub chunks_lem {ℓ} :
    {A : Type ℓ} (n : ℕ) (xs : List A)
    → 0 < n
    → (join (chunks n (length xs) xs) ≡ xs) × AreChunks n (chunks n (length xs) xs)
chunks_lem n xs pos =
    (join-chunks n (length xs) xs pos (omega arith), chunks-AreChunks n (length xs) xs pos)
