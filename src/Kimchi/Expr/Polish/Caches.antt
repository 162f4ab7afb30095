-- ===== src/Kimchi/Expr/Polish/Caches.antt =====
-- kimchi/src/circuits/expr.rs: the positions of cached expressions.
use proof_systems.Prelude.{
  ℕ, zero, suc, ◌≡◌, ◌≢◌, refl, ap, none, some, List, [], ◌∷◌, ◌++◌, ◌==◌, arith, length, get_elem?,
  Bool-cases, inl, inr,
}
use proof_systems.Kimchi.Expr.Polish.{Positions, get, insert}

pub get-insert_self : (cc : Positions) (id pos : ℕ) → get (insert cc id pos) id ≡ some pos
get-insert_self [] id pos = ground arith
get-insert_self ((i, old) ∷ rest) id pos = elim (Bool-cases (i == id)) [
  | inl same ↦ rw same (ground arith)
  | inr other ↦ rw other (rw other (get-insert_self rest id pos))
]

pub get-insert_ne : (cc : Positions) (id pos j : ℕ) → id ≢ j → get (insert cc id pos) j ≡ get cc j
get-insert_ne [] id pos j h = ground arith
get-insert_ne ((i, old) ∷ rest) id pos j h = elim (Bool-cases (i == id)) [
  | inl same ↦ rw same (ground arith)
  | inr other ↦ rw other (rw (get-insert_ne rest id pos j h))
]

pub length-insert :
    (cc : Positions) (id pos : ℕ) → get cc id ≡ none → length (insert cc id pos) ≡ suc (length cc)
length-insert [] id pos h = refl
length-insert ((i, old) ∷ rest) id pos h = elim (Bool-cases (i == id)) [
  | inl same ↦ let h' = rw same at h in cc
  | inr other ↦ rw other (ap suc (length-insert rest id pos (rw other at h)))
]

pub get_elem?-append_left :
    {A : Type 0} (xs ys : List A) (i : ℕ) {x : A}
    → get_elem? xs i ≡ some x
    → get_elem? (xs ++ ys) i ≡ some x
get_elem?-append_left [] ys i h = cc
get_elem?-append_left (a ∷ xs) ys zero h = h
get_elem?-append_left (a ∷ xs) ys (suc i) h = get_elem?-append_left xs ys i h

pub get_elem?-append_last :
    {A : Type 0} (xs : List A) (x : A) → get_elem? (xs ++ x ∷ []) (length xs) ≡ some x
get_elem?-append_last [] x = refl
get_elem?-append_last (a ∷ xs) x = get_elem?-append_last xs x
