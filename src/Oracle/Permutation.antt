-- ===== src/Oracle/Permutation.antt =====
-- oracle/src/permutation.rs, and `sbox` and the parameters of oracle/src/poseidon.rs.
pub mod Total
pub mod HalfRounds
use proof_systems.Prelude.{
  ℕ, zero, suc, ◌+◌, List, [], ◌∷◌, map, ◌==◌, get_elem?, set, if◌then◌else◌,
}
use proof_systems.Outcome.{Outcome, ok, ◌>>=◌, expect}
use proof_systems.Field.{Field, ◌⊕◌, ◌⊗◌}
use proof_systems.Oracle.Constants.{SpongeConstants}

pub record ArithmeticSpongeParams (F : Type 0) : Type 0 where
  pub round_constants : List (List F)
  pub mds : List (List F)

-- `v[i]`
abbrev pub at {ℓ} : {A : Type ℓ} → List A → ℕ → Outcome A
at v i = expect (get_elem? v i) "index out of bounds"

module _ {F : Type 0} ⦃f : Field F⦄ where
  unfoldable pub sbox : SpongeConstants → F → F
  sbox sc x = f.pow x sc.sbox

  -- `state.iter().zip(m.iter()).fold(F::zero(), |x, (s, &m)| m * s + x)`, from `x`
  unfoldable pub dot : F → List F → List F → F
  dot x [] ms = x
  dot x (s ∷ ss) [] = x
  dot x (s ∷ ss) (m ∷ ms) = dot (m ⊗ s ⊕ x) ss ms

  unfoldable pub apply_mds_matrix :
      SpongeConstants → ArithmeticSpongeParams F → List F → Outcome (List F)
  apply_mds_matrix sc params state =
      if sc.full_mds then ok (map (λ m. dot f.zero state m) params.mds) else (do
        s0 ← at state 0
        s2 ← at state 2
        s1 ← at state 1
        ok ((s0 ⊕ s2) ∷ (s0 ⊕ s1) ∷ (s1 ⊕ s2) ∷ []))

  -- `for (i, x) in row.iter().enumerate() { state[i].add_assign(x); }`
  unfoldable pub add_row : List F → ℕ → List F → Outcome (List F)
  add_row [] i state = ok state
  add_row (x ∷ row) i state = do s ← at state i; add_row row (i + 1) (set state i (s ⊕ x))

  unfoldable pub add_constants : ArithmeticSpongeParams F → ℕ → List F → Outcome (List F)
  add_constants params r state = do row ← at params.round_constants r; add_row row 0 state

  unfoldable pub full_round :
      SpongeConstants → ArithmeticSpongeParams F → List F → ℕ → Outcome (List F)
  full_round sc params state r = do
    mixed ← apply_mds_matrix sc params (map (sbox sc) state)
    add_constants params r mixed

  -- The first and the last loop of `half_rounds`, from the constants of round `r`. The product of
  -- `apply_mds_matrix` is computed, which may panic, and dropped: the source does not assign it.
  unfoldable pub half_full :
      SpongeConstants → ArithmeticSpongeParams F → ℕ → ℕ → List F → Outcome (List F)
  half_full sc params zero r state = ok state
  half_full sc params (suc rounds) r state = do
    s ← add_constants params r state
    let s' = map (sbox sc) s
    _ ← apply_mds_matrix sc params s'
    half_full sc params rounds (r + 1) s'

  unfoldable pub half_partial :
      SpongeConstants → ArithmeticSpongeParams F → ℕ → ℕ → List F → Outcome (List F)
  half_partial sc params zero r state = ok state
  half_partial sc params (suc rounds) r state = do
    s ← add_constants params r state
    s0 ← at s 0
    let s' = set s 0 (sbox sc s0)
    _ ← apply_mds_matrix sc params s'
    half_partial sc params rounds (r + 1) s'

  unfoldable pub half_rounds :
      SpongeConstants → ArithmeticSpongeParams F → List F → Outcome (List F)
  half_rounds sc params state = do
    s1 ← half_full sc params sc.half_rounds_full 0 state
    s2 ← half_partial sc params sc.rounds_partial sc.half_rounds_full s1
    half_full sc params sc.half_rounds_full (sc.half_rounds_full + sc.rounds_partial) s2

  -- `for r in 0..rounds { full_round(params, state, r + offset) }`, from round `r`
  unfoldable pub full_rounds :
      SpongeConstants → ArithmeticSpongeParams F → ℕ → ℕ → List F → Outcome (List F)
  full_rounds sc params zero r state = ok state
  full_rounds sc params (suc rounds) r state = do
    s ← full_round sc params state r
    full_rounds sc params rounds (r + 1) s

  unfoldable pub poseidon_block_cipher :
      SpongeConstants → ArithmeticSpongeParams F → List F → Outcome (List F)
  poseidon_block_cipher sc params state =
      if sc.half_rounds_full == 0
      then (if sc.initial_ark
          then (do s ← add_constants params 0 state; full_rounds sc params sc.rounds_full 1 s)
          else full_rounds sc params sc.rounds_full 0 state)
      else half_rounds sc params state
