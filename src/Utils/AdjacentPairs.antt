-- ===== src/Utils/AdjacentPairs.antt =====
-- utils/src/adjacent_pairs.rs: the iterator over the adjacent pairs of another one.
mod Tests
use proof_systems.Prelude.{ℕ, zero, suc, ◌≡◌, refl, Option, none, some, List, [], ◌∷◌, get_elem?}

-- An iterator is the list of what it still gives.
pub record AdjacentPairs (A : Type 0) : Type 0 where
  pub prev_second_component : Option A
  pub i : List A

module _ {A : Type 0} where
  unfoldable pub from : List A → AdjacentPairs A
  from i = record { prev_second_component = none; i = i }

  -- The match on `prev_second_component`: what `next` returns, and the iterator that it leaves
  unfoldable pub step : Option A → List A → Option (A × A) × AdjacentPairs A
  step (some x) [] = (none, record { prev_second_component = some x; i = [] })
  step (some x) (y ∷ i) = (some (x, y), record { prev_second_component = some y; i = i })
  step none (x ∷ y ∷ i) = (some (x, y), record { prev_second_component = some y; i = i })
  step none _ = (none, record { prev_second_component = none; i = [] })

  unfoldable pub next : AdjacentPairs A → Option (A × A) × AdjacentPairs A
  next a = step a.prev_second_component a.i

  -- What a call of `next` returns behind `n` others
  unfoldable pub nth : ℕ → AdjacentPairs A → Option (A × A)
  nth zero a = (next a).0
  nth (suc n) a = nth n (next a).1

  -- Each element with the one that follows it
  unfoldable pub pairs_from : A → List A → List (A × A)
  pairs_from x [] = []
  pairs_from x (y ∷ i) = (x, y) ∷ pairs_from y i

  unfoldable pub pairs : List A → List (A × A)
  pairs [] = []
  pairs (x ∷ i) = pairs_from x i

  nth-some :
      (n : ℕ) (x : A) (i : List A)
      → nth n (record { prev_second_component = some x; i = i }) ≡ get_elem? (pairs_from x i) n
  unfolding nth next step pairs_from
  nth-some zero x [] = refl
  nth-some zero x (y ∷ i) = refl
  nth-some (suc n) x [] = nth-some n x []
  nth-some (suc n) x (y ∷ i) = nth-some n y i

  nth-none : (n : ℕ) → nth n (from []) ≡ none
  unfolding nth next step from
  nth-none zero = refl
  nth-none (suc n) = nth-none n

  -- Behind any number of calls, and also past the end, `next` returns the pair of adjacent elements of
  -- that number, if there is one.
  pub nth-from : (xs : List A) (n : ℕ) → nth n (from xs) ≡ get_elem? (pairs xs) n
  unfolding nth next step from pairs pairs_from
  nth-from [] n = nth-none n
  nth-from (x ∷ []) zero = refl
  nth-from (x ∷ []) (suc n) = nth-none n
  nth-from (x ∷ y ∷ i) zero = refl
  nth-from (x ∷ y ∷ i) (suc n) = nth-some n y i
