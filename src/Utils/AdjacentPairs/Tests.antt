-- ===== src/Utils/AdjacentPairs/Tests.antt =====
-- The pairs of the example in the comment of the source.
use proof_systems.Prelude.{ℕ, ◌≡◌, refl, some, List, [], ◌∷◌, get_elem?}
use proof_systems.Utils.AdjacentPairs.{from, nth, pairs, pairs_from, nth-from}

abbrev numbers : List ℕ
numbers = 1 ∷ 2 ∷ 3 ∷ []

nth-from_example : nth 1 (from numbers) ≡ get_elem? (pairs numbers) 1
nth-from_example = nth-from numbers 1

second_pair : get_elem? (pairs numbers) 1 ≡ some (2, 3)
unfolding pairs pairs_from
second_pair = refl
