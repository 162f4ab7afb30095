-- ===== src/Hasher/Poseidon/Reuse.antt =====
-- Reuse of a hasher: what a hash leaves behind for the next one.
use proof_systems.Prelude.{◌≡◌, refl, ap, ◌∙◌, some, List, [], ◌∷◌, Option-cases, inl, inr}
use proof_systems.Outcome.{ok, ◌>>=◌, bind_assoc}
use proof_systems.Field.{Field}
use proof_systems.Oracle.Constants.{SpongeConstants}
use proof_systems.Oracle.Permutation.{ArithmeticSpongeParams}
use proof_systems.Oracle.Permutation.Total.{IsParams}
use proof_systems.Oracle.Sponge
use proof_systems.Oracle.Sponge.{SpongeState, absorbed, ArithmeticSponge, absorb, squeeze}
use proof_systems.Oracle.Sponge.Valid.{IsValid, new-IsValid, reset-new, absorb_total, squeeze_total}
use proof_systems.Hasher.Input.{BitOps, to_fields}
use proof_systems.Hasher.Poseidon.{
  Text, Hashable, Poseidon, domain_prefix_to_field, absorb_domain, init, update, digest, hash,
  init_and_hash,
}
use proof_systems.Hasher.Poseidon

-- The sponge with the saved position and state.
abbrev pub restored : {F : Type 0} → Poseidon F → ArithmeticSponge F
restored p = record p.sponge { sponge_state = p.sponge_state; state = p.state }

pub record IsReady {F : Type 0} (sc : SpongeConstants) (p : Poseidon F) : Type 0 where
  pub sponge_valid : IsValid sc p.sponge
  pub saved_valid : IsValid sc (restored p)

module _ {F H D : Type 0} ⦃f : Field F⦄ (sc : SpongeConstants) (b : BitOps)
    (h : Hashable F H D) where
  same_frame :
      (s s' : ArithmeticSponge F)
      → IsValid sc s
      → IsValid sc s'
      → s'.params ≡ s.params
      → (p : SpongeState) (st : List F)
      → record s' { sponge_state = p; state = st } ≡ record s { sponge_state = p; state = st }
  same_frame s s' v v' e p st = rw (v.same_rate, v'.same_rate, e) refl

  -- A digest of a valid sponge succeeds and leaves the sponge as a new one, before any domain
  -- string, and not as `init` left it.
  pub digest-new :
      (p : Poseidon F)
      → IsValid sc p.sponge
      → (y : F) × (p' : Poseidon F) × (digest sc b h p ≡ ok (y, p'))
        × (p'.sponge ≡ Sponge.new sc p.sponge.params)
        × (p'.sponge_state ≡ p.sponge_state)
        × (p'.state ≡ p.state)
  unfolding digest
  digest-new p v =
      let (y, s, run, v', same) = squeeze_total sc p.sponge v in
      (
        y,
        record p { sponge = Sponge.reset sc s },
        rw run refl,
        reset-new sc s v' ∙ ap (Sponge.new sc) same,
        refl,
        refl,
      )

  -- A hasher whose sponge and saved state are valid hashes any input whose field elements are
  -- defined. The hasher that it leaves is as ready, and hashes every input as before.
  pub hash_repeats :
      (p : Poseidon F) (x : H) (xs : List F)
      → IsReady sc p
      → to_fields b (h.to_roinput x) ≡ ok xs
      → (y : F) × (p' : Poseidon F) × (hash sc b h p x ≡ ok (y, p'))
        × IsReady sc p'
        × ((z : H) → hash sc b h p' z ≡ hash sc b h p z)
  unfolding hash update digest Poseidon.reset Sponge.new
  hash_repeats p x xs r e =
      let (s1, run1, v1, same1) = absorb_total sc xs (restored p) r.saved_valid in
      let (y, s2, run2, v2, same2) = squeeze_total sc s1 v1 in
      let fresh : Sponge.reset sc s2 ≡ Sponge.new sc p.sponge.params =
        reset-new sc s2 v2 ∙ ap (Sponge.new sc) (same2 ∙ same1) in
      let frame : restored (record p { sponge = Sponge.new sc p.sponge.params }) ≡ restored p =
        same_frame (restored p) (Sponge.new sc p.sponge.params) r.saved_valid
          (new-IsValid sc p.sponge.params r.saved_valid.params_fit) refl p.sponge_state p.state in
      (
        y,
        record p { sponge = restored p },
        rw (e, run1, run2, fresh, frame) refl,
        record { sponge_valid = r.saved_valid; saved_valid = r.saved_valid },
        λ z. refl,
      )

  -- `init_and_hash` on any hasher with a valid sponge, whatever it absorbed before and whatever its
  -- domain, has the outcome of `hash` on a new hasher with the same parameters.
  pub init_and_hash-new :
      (p : Poseidon F) (d : D) (x : H)
      → IsValid sc p.sponge
      → init_and_hash sc b h p d x
        ≡ (Poseidon.new sc b h d p.sponge.params >>= λ q. hash sc b h q x)
  unfolding init_and_hash hash init update digest Poseidon.reset Poseidon.new Sponge.new
  init_and_hash-new p d x v =
      let twice : Sponge.reset sc (Sponge.new sc p.sponge.params) ≡ Sponge.new sc p.sponge.params =
        reset-new sc _ (new-IsValid sc p.sponge.params v.params_fit) in
      rw (reset-new sc p.sponge v, twice) (simp bind_assoc)

  -- A new hasher is ready, with or without a domain string, where the field element of the string
  -- is defined.
  pub new-IsReady :
      (d : D) (params : ArithmeticSpongeParams F)
      → IsParams sc params
      → ((text : Text)
          → h.domain_string d ≡ some text
          → (x : F) × (domain_prefix_to_field b text ≡ ok x))
      → (p : Poseidon F) × (Poseidon.new sc b h d params ≡ ok p)
        × IsReady sc p
        × (p.sponge.params ≡ params)
  unfolding Poseidon.new init Sponge.new absorb_domain
  new-IsReady d params valid defined =
      let fresh = new-IsValid sc params valid in
      let start : Sponge.reset sc (Sponge.new sc params) ≡ Sponge.new sc params =
        reset-new sc _ fresh in
      elim (Option-cases (h.domain_string d)) [
        | inl no_domain ↦ (
          record {
            sponge = Sponge.new sc params;
            sponge_state = (Sponge.new sc params).sponge_state;
            state = (Sponge.new sc params).state;
          },
          rw (start, no_domain) refl,
          record { sponge_valid = fresh; saved_valid = fresh },
          refl,
        )
        | inr (text, domain) ↦
            let (x, element) = defined text domain in
            let (s1, run1, v1, same1) = absorb_total sc (x ∷ []) (Sponge.new sc params) fresh in
            let (y, s2, run2, v2, same2) = squeeze_total sc s1 v1 in
            (
              record { sponge = s2; sponge_state = s2.sponge_state; state = s2.state },
              rw (start, domain, element, run1, run2) refl,
              record { sponge_valid = v2; saved_valid = v2 },
              same2 ∙ same1,
            )
      ]
