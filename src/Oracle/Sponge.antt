-- ===== src/Oracle/Sponge.antt =====
-- oracle/src/poseidon.rs: `ArithmeticSponge`, a sponge over the Poseidon permutation.
pub mod Valid
pub mod Blocks
use proof_systems.Prelude.{ℕ, ◌+◌, List, [], ◌∷◌, ◌==◌, length, set, replicate, if◌then◌else◌}
use proof_systems.Outcome.{Outcome, ok, ◌>>=◌}
use proof_systems.Field.{Field, ◌⊕◌}
use proof_systems.Oracle.Constants.{SpongeConstants}
use proof_systems.Oracle.Permutation.{ArithmeticSpongeParams, at, poseidon_block_cipher, full_round}

pub data SpongeState : Type 0 where
  absorbed : ℕ → SpongeState
  squeezed : ℕ → SpongeState

pub record ArithmeticSponge (F : Type 0) : Type 0 where
  pub sponge_state : SpongeState
  pub rate : ℕ
  pub state : List F
  pub params : ArithmeticSpongeParams F

module _ {F : Type 0} ⦃f : Field F⦄ (sc : SpongeConstants) where
  -- `state[i].add_assign(x)`
  abbrev pub add_at : List F → ℕ → F → Outcome (List F)
  add_at state i x = do s ← at state i; ok (set state i (s ⊕ x))

  unfoldable pub sponge_full_round : ArithmeticSponge F → ℕ → Outcome (ArithmeticSponge F)
  sponge_full_round s r = do st ← full_round sc s.params s.state r; ok (record s { state = st })

  unfoldable pub permute : ArithmeticSponge F → Outcome (ArithmeticSponge F)
  permute s = do st ← poseidon_block_cipher sc s.params s.state; ok (record s { state = st })

  unfoldable pub new : ArithmeticSpongeParams F → ArithmeticSponge F
  new params = record {
    sponge_state = absorbed 0;
    rate = sc.rate;
    state = replicate (sc.capacity + sc.rate) f.zero;
    params = params;
  }

  unfoldable pub absorb_one : SpongeState → F → ArithmeticSponge F → Outcome (ArithmeticSponge F)
  absorb_one (absorbed n) x s =
      if n == s.rate
      then (do
        s' ← permute s
        st ← add_at s'.state 0 x
        ok (record s' { state = st; sponge_state = absorbed 1 }))
      else (do
        st ← add_at s.state n x
        ok (record s { state = st; sponge_state = absorbed (n + 1) }))
  absorb_one (squeezed n) x s = do
    st ← add_at s.state 0 x
    ok (record s { state = st; sponge_state = absorbed 1 })

  unfoldable pub absorb : List F → ArithmeticSponge F → Outcome (ArithmeticSponge F)
  absorb [] s = ok s
  absorb (x ∷ xs) s = absorb_one s.sponge_state x s >>= absorb xs

  unfoldable pub squeeze_from : SpongeState → ArithmeticSponge F → Outcome (F × ArithmeticSponge F)
  squeeze_from (squeezed n) s =
      if n == s.rate
      then (do s' ← permute s; x ← at s'.state 0; ok (x, record s' { sponge_state = squeezed 1 }))
      else (do x ← at s.state n; ok (x, record s { sponge_state = squeezed (n + 1) }))
  squeeze_from (absorbed n) s = do
    s' ← permute s
    x ← at s'.state 0
    ok (x, record s' { sponge_state = squeezed 1 })

  unfoldable pub squeeze : ArithmeticSponge F → Outcome (F × ArithmeticSponge F)
  squeeze s = squeeze_from s.sponge_state s

  unfoldable pub reset : ArithmeticSponge F → ArithmeticSponge F
  reset s = record s { state = replicate (length s.state) f.zero; sponge_state = absorbed 0 }
