-- ===== src/Hasher/Poseidon.antt =====
-- hasher/src/lib.rs and hasher/src/poseidon.rs: the hasher, a sponge with a copy of its state after
-- the domain.
pub mod Reuse
use proof_systems.Prelude.{
  ℕ, ◌+◌, ◌-◌, ◌/◌, ◌%◌, Option, none, some, List, [], ◌∷◌, ◌++◌, length, take, replicate, leb,
  ◌==◌, if◌then◌else◌,
}
use proof_systems.Outcome.{Outcome, ok, panic, ◌>>=◌, ◌>>◌, expect, guard}
use proof_systems.Field.{Field}
use proof_systems.Oracle.Constants.{SpongeConstants}
use proof_systems.Oracle.Permutation.{ArithmeticSpongeParams}
use proof_systems.Oracle.Sponge
use proof_systems.Oracle.Sponge.{SpongeState, absorbed, ArithmeticSponge, absorb, squeeze}
use proof_systems.Hasher.Input.{BitOps, RoInput, to_fields}

-- A string is the list of its characters, each the bytes of its UTF-8 encoding.
abbrev pub Text : Type 0
Text = List (List ℕ)

abbrev pub as_bytes : Text → List ℕ
as_bytes [] = []
as_bytes (c ∷ cs) = c ++ as_bytes cs

pub record Hashable (F H D : Type 0) : Type 0 where
  pub to_roinput : H → RoInput F
  pub domain_string : D → Option Text

-- `sponge`, and the copy of its position and state that `reset` restores.
pub record Poseidon (F : Type 0) : Type 0 where
  pub sponge : ArithmeticSponge F
  pub sponge_state : SpongeState
  pub state : List F

-- `bytes.resize(n, 0)`
abbrev pub resize : ℕ → List ℕ → List ℕ
resize n bytes = take n bytes ++ replicate (n - length bytes) 0

-- The asterisk, which fills a domain string up to 20 characters.
abbrev pub asterisk : List ℕ
asterisk = 42 ∷ []

unfoldable pub size_in_bytes : BitOps → ℕ
size_in_bytes b = b.fp_bits / 8 + (if b.fp_bits % 8 == 0 then 0 else 1)

module _ {F : Type 0} ⦃f : Field F⦄ (b : BitOps) where
  unfoldable pub domain_prefix_to_field : Text → Outcome F
  domain_prefix_to_field text = do
    guard (leb (length (as_bytes text)) 20)
        "assertion failed: prefix.len() <= MAX_DOMAIN_STRING_LEN"
    let padded = text ++ replicate (20 - length text) asterisk
    expect (f.deserialize (resize (size_in_bytes b) (as_bytes padded))) "invalid domain bytes"

module _ {F H D : Type 0} ⦃f : Field F⦄ (sc : SpongeConstants) (b : BitOps)
    (h : Hashable F H D) where
  unfoldable pub reset : Poseidon F → Poseidon F
  reset p = record p { sponge = record p.sponge { sponge_state = p.sponge_state; state = p.state } }

  -- The sponge after the domain string, if there is one.
  unfoldable pub absorb_domain : Option Text → ArithmeticSponge F → Outcome (ArithmeticSponge F)
  absorb_domain none s = ok s
  absorb_domain (some text) s = do
    x ← domain_prefix_to_field b text
    s1 ← absorb sc (x ∷ []) s
    (_, s2) ← squeeze sc s1
    ok s2

  unfoldable pub init : Poseidon F → D → Outcome (Poseidon F)
  init p d = do
    s ← absorb_domain (h.domain_string d) (Sponge.reset sc p.sponge)
    ok (record { sponge = s; sponge_state = s.sponge_state; state = s.state })

  unfoldable pub update : Poseidon F → H → Outcome (Poseidon F)
  update p input = do
    xs ← to_fields b (h.to_roinput input)
    s ← absorb sc xs p.sponge
    ok (record p { sponge = s })

  unfoldable pub digest : Poseidon F → Outcome (F × Poseidon F)
  digest p = do
    (output, s) ← squeeze sc p.sponge
    ok (output, record p { sponge = Sponge.reset sc s })

  unfoldable pub hash : Poseidon F → H → Outcome (F × Poseidon F)
  hash p input = do p1 ← update (reset p) input; (output, p2) ← digest p1; ok (output, reset p2)

  unfoldable pub init_and_hash : Poseidon F → D → H → Outcome (F × Poseidon F)
  init_and_hash p d input = do
    p1 ← init p d
    p2 ← update p1 input
    (output, p3) ← digest p2
    ok (output, reset p3)

  unfoldable pub new : D → ArithmeticSpongeParams F → Outcome (Poseidon F)
  new d params =
      init (record { sponge = Sponge.new sc params; sponge_state = absorbed 0; state = [] }) d
