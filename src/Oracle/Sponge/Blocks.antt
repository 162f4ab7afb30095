-- ===== src/Oracle/Sponge/Blocks.antt =====
-- oracle/src/poseidon.rs: the absorption of whole blocks.
use native.Mathlib.Nat.{add-zero}
use proof_systems.Prelude.{
  ℕ, suc, ◌+◌, ◌≤◌, ◌<◌, ◌≡◌, refl, sym, ap, ◌∙◌, false, true, List, [], ◌∷◌, ◌++◌, arith, length,
  set, ◌==◌,
}
use proof_systems.Outcome.{Outcome, ok, ◌>>=◌, bind_assoc, bind_congr}
use proof_systems.Field.{Field, ◌⊕◌}
use proof_systems.Oracle.Constants.{SpongeConstants}
use proof_systems.Oracle.Permutation.{ArithmeticSpongeParams, at, add_row, poseidon_block_cipher}
use proof_systems.Oracle.Sponge.{absorbed, ArithmeticSponge, permute, absorb_one, absorb}

module _ {F : Type 0} ⦃f : Field F⦄ (sc : SpongeConstants) where
  -- Absorbing two inputs in turn is absorbing their concatenation.
  pub absorb-append :
      (xs ys : List F) (s : ArithmeticSponge F)
      → absorb sc (xs ++ ys) s ≡ (absorb sc xs s >>= absorb sc ys)
  unfolding absorb
  absorb-append [] ys s = refl
  absorb-append (x ∷ xs) ys s =
      bind_congr (absorb_one sc s.sponge_state x s) _ _ (absorb-append xs ys)
      ∙ sym (bind_assoc (absorb_one sc s.sponge_state x s) (absorb sc xs) (absorb sc ys))

  -- The sponge `s` with another state, `n` elements into its block.
  abbrev pub within : ArithmeticSponge F → List F → ℕ → ArithmeticSponge F
  within s st n = record s { state = st; sponge_state = absorbed n }

  -- Elements that fit in the rest of the block are added in place, without a permutation.
  absorb-within :
      (s : ArithmeticSponge F) (xs : List F) (n : ℕ) (st : List F)
      → n + length xs ≤ s.rate
      → absorb sc xs (within s st n)
        ≡ (add_row xs n st >>= λ st'. ok (within s st' (n + length xs)))
  unfolding absorb add_row absorb_one
  absorb-within s [] n st h = rw add-zero refl
  absorb-within s (x ∷ xs) n st h =
      let inside : (n == s.rate) ≡ false = ground arith in
      let next : n + 1 + length xs ≡ n + suc (length xs) = omega arith in
      rw inside (
        simp bind_assoc (
          bind_congr (at st n) _ _ λ a.
            absorb-within s xs (n + 1) (set st n (a ⊕ x)) (omega arith)
            ∙ ap (λ (k : ℕ). add_row xs (n + 1) (set st n (a ⊕ x)) >>= λ st'. ok (within s st' k))
                next))

  -- In a full block the next element permutes first.
  absorb_full :
      (s : ArithmeticSponge F) (x : F) (xs : List F) (st : List F)
      → suc (length xs) ≤ s.rate
      → absorb sc (x ∷ xs) (within s st s.rate)
        ≡ (poseidon_block_cipher sc s.params st >>= λ st'. absorb sc (x ∷ xs) (within s st' 0))
  unfolding absorb absorb_one permute
  absorb_full s x xs st h =
      let full : (s.rate == s.rate) ≡ true = ground arith in
      let start : (0 == s.rate) ≡ false = ground arith in rw full (simp (bind_assoc, start))

  -- The reference: permute, then add a block, for each block.
  pub absorb_blocks : ArithmeticSpongeParams F → List (List F) → List F → Outcome (List F)
  absorb_blocks params [] st = ok st
  absorb_blocks params (b ∷ bs) st = do
    mixed ← poseidon_block_cipher sc params st
    added ← add_row b 0 mixed
    absorb_blocks params bs added

  abbrev pub AreBlocks : ℕ → List (List F) → Type 0
  AreBlocks rate [] = Unit
  AreBlocks rate (b ∷ bs) = (length b ≡ rate) × AreBlocks rate bs

  abbrev pub concat : List (List F) → List F
  concat [] = []
  concat (b ∷ bs) = b ++ concat bs

  absorb_block :
      (s : ArithmeticSponge F) (b : List F) (st : List F)
      → length b ≡ s.rate
      → 0 < s.rate
      → absorb sc b (within s st s.rate) ≡ (
          poseidon_block_cipher sc s.params st >>= λ mixed.
          add_row b 0 mixed >>= λ st'. ok (within s st' s.rate))
  absorb_block s [] st e pos = absurd (omega arith)
  absorb_block s (x ∷ xs) st e pos =
      absorb_full s x xs st (omega arith)
      ∙ bind_congr (poseidon_block_cipher sc s.params st) _ _ λ mixed.
        absorb-within s (x ∷ xs) 0 mixed (omega arith)
        ∙ ap (λ (k : ℕ). add_row (x ∷ xs) 0 mixed >>= λ st'. ok (within s st' k))
            {x = 0 + length (x ∷ xs)} (omega arith)

  absorb_full_blocks :
      (s : ArithmeticSponge F) (bs : List (List F)) (st : List F)
      → 0 < s.rate
      → AreBlocks s.rate bs
      → absorb sc (concat bs) (within s st s.rate)
        ≡ (absorb_blocks s.params bs st >>= λ st'. ok (within s st' s.rate))
  unfolding absorb_blocks
  absorb_full_blocks s [] st pos h = unfold absorb in refl
  absorb_full_blocks s (b ∷ bs) st pos h =
      absorb-append b (concat bs) (within s st s.rate)
      ∙ ap (λ m. m >>= absorb sc (concat bs)) (absorb_block s b st h.0 pos)
      ∙ simp bind_assoc (
          bind_congr (poseidon_block_cipher sc s.params st) _ _ λ mixed.
            bind_congr (add_row b 0 mixed) _ _ λ added. absorb_full_blocks s bs added pos h.1)

  -- A sponge at the start of its first block that absorbs a sequence of whole blocks adds the first
  -- to its state, and for each other block permutes and then adds: the element by element loop is
  -- the sponge construction. It ends with a full block, and panics exactly where that does.
  pub absorb_blocks_lem :
      (s : ArithmeticSponge F) (b : List F) (bs : List (List F)) (st : List F)
      → 0 < s.rate
      → AreBlocks s.rate (b ∷ bs)
      → absorb sc (b ++ concat bs) (within s st 0) ≡ (
          add_row b 0 st >>= λ st1.
          absorb_blocks s.params bs st1 >>= λ st2. ok (within s st2 s.rate))
  absorb_blocks_lem s b bs st pos h =
      absorb-append b (concat bs) (within s st 0)
      ∙ ap (λ m. m >>= absorb sc (concat bs))
          (absorb-within s b 0 st (omega arith)
            ∙ ap (λ (k : ℕ). add_row b 0 st >>= λ st'. ok (within s st' k)) {x = 0 + length b}
                {y = s.rate} (omega arith))
      ∙ simp bind_assoc (bind_congr (add_row b 0 st) _ _ λ st1. absorb_full_blocks s bs st1 pos h.1)
