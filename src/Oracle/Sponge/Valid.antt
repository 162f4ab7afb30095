-- ===== src/Oracle/Sponge/Valid.antt =====
-- oracle/src/poseidon.rs: the invariant of a sponge.
use proof_systems.Prelude.{
  ℕ, ◌+◌, ◌≤◌, ◌<◌, ◌≡◌, refl, ◌∙◌, List, [], ◌∷◌, arith, length, set, ◌≢◌, ◌==◌, length-set,
  get_elem?-lt_length, length-replicate, Bool-cases, inl, inr,
}
use proof_systems.Outcome.{ok}
use proof_systems.Field.{Field, ◌⊕◌}
use proof_systems.Oracle.Constants.{SpongeConstants}
use proof_systems.Oracle.Permutation.{ArithmeticSpongeParams}
use proof_systems.Oracle.Permutation.Total.{IsParams, width, poseidon_block_cipher_total}
use proof_systems.Oracle.Sponge.{
  SpongeState, absorbed, squeezed, ArithmeticSponge, permute, new, absorb_one, absorb, squeeze_from,
  squeeze, reset, add_at,
}

-- The position of a sponge in its rate.
abbrev pub position : SpongeState → ℕ
position (absorbed n) = n
position (squeezed n) = n

pub record IsValid {F : Type 0} (sc : SpongeConstants) (s : ArithmeticSponge F) : Type 0 where
  pub params_fit : IsParams sc s.params
  pub same_rate : s.rate ≡ sc.rate
  pub wide : length s.state ≡ width sc
  pub in_rate : position s.sponge_state ≤ s.rate

module _ {F : Type 0} ⦃f : Field F⦄ (sc : SpongeConstants) where
  pub new-IsValid :
      (params : ArithmeticSpongeParams F) → IsParams sc params → IsValid sc (new sc params)
  unfolding new
  new-IsValid params p = record {
    params_fit = p;
    same_rate = refl;
    wide = length-replicate (sc.capacity + sc.rate) f.zero;
    in_rate = omega arith;
  }

  -- `reset` takes a valid sponge back to a new one.
  pub reset-new : (s : ArithmeticSponge F) → IsValid sc s → reset sc s ≡ new sc s.params
  unfolding reset new
  reset-new s v = rw (v.wide, v.same_rate) refl

  add_at_total :
      (st : List F) (i : ℕ) (x : F)
      → i < length st
      → (st' : List F) × (add_at sc st i x ≡ ok st') × (length st' ≡ length st)
  add_at_total st i x h =
      let (s, here) = get_elem?-lt_length st i h in
      (set st i (s ⊕ x), rw here refl, length-set st i (s ⊕ x))

  permute_total :
      (s : ArithmeticSponge F)
      → IsValid sc s
      → (st : List F) × (permute sc s ≡ ok (record s { state = st })) × (length st ≡ width sc)
  unfolding permute
  permute_total s v =
      let (st, run, wide) = poseidon_block_cipher_total sc s.params v.params_fit s.state v.wide in
      (st, rw run refl, wide)

  with_state :
      (s : ArithmeticSponge F) (st : List F) (q : SpongeState)
      → IsValid sc s
      → length st ≡ width sc
      → position q ≤ s.rate
      → IsValid sc (record s { state = st; sponge_state = q })
  with_state s st q v wide h = record {
    params_fit = v.params_fit;
    same_rate = v.same_rate;
    wide = wide;
    in_rate = h;
  }

  absorb_one_total :
      (p : SpongeState) (x : F) (s : ArithmeticSponge F)
      → IsValid sc s
      → position p ≤ s.rate
      → (s' : ArithmeticSponge F) × (absorb_one sc p x s ≡ ok s')
        × IsValid sc s'
        × (s'.params ≡ s.params)
  unfolding absorb_one
  absorb_one_total (absorbed n) x s v h = elim (Bool-cases (n == s.rate)) [
    | inl full ↦
        let (st, run, wide) = permute_total s v in
        let room : 0 < length st = omega arith in
        let (st', add, wide') = add_at_total st 0 x room in
        (
          record s { state = st'; sponge_state = absorbed 1 },
          rw (full, run) (rw add refl),
          with_state s st' (absorbed 1) v (wide' ∙ wide) (omega arith),
          refl,
        )
    | inr partial ↦
        let inside : n ≢ s.rate = ground arith in
        let room : n < length s.state = omega arith in
        let (st', add, wide') = add_at_total s.state n x room in
        (
          record s { state = st'; sponge_state = absorbed (n + 1) },
          rw partial (rw add refl),
          with_state s st' (absorbed (n + 1)) v (wide' ∙ v.wide) (omega arith),
          refl,
        )
  ]
  absorb_one_total (squeezed n) x s v h =
      let room : 0 < length s.state = omega arith in
      let (st', add, wide') = add_at_total s.state 0 x room in
      (
        record s { state = st'; sponge_state = absorbed 1 },
        rw add refl,
        with_state s st' (absorbed 1) v (wide' ∙ v.wide) (omega arith),
        refl,
      )

  -- A valid sponge absorbs any input, and is valid afterwards, with the same parameters.
  pub absorb_total :
      (xs : List F) (s : ArithmeticSponge F)
      → IsValid sc s
      → (s' : ArithmeticSponge F) × (absorb sc xs s ≡ ok s')
        × IsValid sc s'
        × (s'.params ≡ s.params)
  unfolding absorb
  absorb_total [] s v = (s, refl, v, refl)
  absorb_total (x ∷ xs) s v =
      let (s1, run, v1, same) = absorb_one_total s.sponge_state x s v v.in_rate in
      let (s2, rest, v2, same') = absorb_total xs s1 v1 in (s2, rw run rest, v2, same' ∙ same)

  squeeze_from_total :
      (p : SpongeState) (s : ArithmeticSponge F)
      → IsValid sc s
      → position p ≤ s.rate
      → (x : F) × (s' : ArithmeticSponge F) × (squeeze_from sc p s ≡ ok (x, s'))
        × IsValid sc s'
        × (s'.params ≡ s.params)
  unfolding squeeze_from
  squeeze_from_total (squeezed n) s v h = elim (Bool-cases (n == s.rate)) [
    | inl full ↦
        let (st, run, wide) = permute_total s v in
        let (x, here) = get_elem?-lt_length st 0 (omega arith) in
        (
          x,
          record s { state = st; sponge_state = squeezed 1 },
          rw (full, run) (rw here refl),
          with_state s st (squeezed 1) v wide (omega arith),
          refl,
        )
    | inr partial ↦
        let inside : n ≢ s.rate = ground arith in
        let (x, here) = get_elem?-lt_length s.state n (omega arith) in
        (
          x,
          record s { sponge_state = squeezed (n + 1) },
          rw partial (rw here refl),
          with_state s s.state (squeezed (n + 1)) v v.wide (omega arith),
          refl,
        )
  ]
  squeeze_from_total (absorbed n) s v h =
      let (st, run, wide) = permute_total s v in
      let (x, here) = get_elem?-lt_length st 0 (omega arith) in
      (
        x,
        record s { state = st; sponge_state = squeezed 1 },
        rw run (rw here refl),
        with_state s st (squeezed 1) v wide (omega arith),
        refl,
      )

  -- A valid sponge can be squeezed, and is valid afterwards, with the same parameters.
  pub squeeze_total :
      (s : ArithmeticSponge F)
      → IsValid sc s
      → (x : F) × (s' : ArithmeticSponge F) × (squeeze sc s ≡ ok (x, s'))
        × IsValid sc s'
        × (s'.params ≡ s.params)
  unfolding squeeze
  squeeze_total s v = squeeze_from_total s.sponge_state s v v.in_rate
