-- ===== src/Oracle/FqSponge/Order.antt =====
-- oracle/src/sponge.rs: the limbs are handed out in order, whatever the sizes of the requests.
use Prim.Native.String.{String}
use proof_systems.Prelude.{
  ℕ, zero, suc, ◌+◌, ◌*◌, ◌≤◌, ◌≡◌, refl, sym, ap, ◌∙◌, true, false, List, [], ◌++◌, length, take,
  drop, leb, leb→le, le→leb, arith, Bool-cases, Bool-ext, ◌⊎◌, inl, inr, length-append, length-drop,
  take-take, drop-drop, take-append_le, drop-append_le,
}
use proof_systems.Outcome.{Outcome, ok, panic, ◌>>=◌, >>=-eq-ok, Outcome-cases}
use proof_systems.Field.{Field}
use proof_systems.Oracle.Constants.{SpongeConstants}
use proof_systems.Oracle.Sponge.{squeeze}
use proof_systems.Oracle.Challenge.{limbs, repr_limbs}
use proof_systems.Oracle.FqSponge.{
  DefaultFqSponge, refill, split_limbs, squeeze_limbs_loop, squeeze_limbs, high_entropy_limbs,
}

-- The state without its first `m` limbs.
abbrev without : {F : Type 0} → ℕ → DefaultFqSponge F → DefaultFqSponge F
without m s = record s { last_squeezed = drop m s.last_squeezed }

same_test :
    (m n : ℕ) (L : List ℕ) → m ≤ length L → leb (m + n) (length L) ≡ leb n (length (drop m L))
same_test m n L h =
    let cut = length-drop m L h in
    Bool-ext _ _ (λ e. le→leb n (length (drop m L)) (let l = leb→le _ _ e in omega arith))
      (λ e. le→leb (m + n) (length L) (let l = leb→le _ _ e in omega arith))

module _ {F : Type 0} ⦃f : Field F⦄ (sc : SpongeConstants) where
  abbrev new_limbs : F → List ℕ
  new_limbs x = take high_entropy_limbs (limbs repr_limbs (f.into_repr x))

  refill-longer :
      (s s' : DefaultFqSponge F)
      → refill sc s ≡ ok s'
      → length s'.last_squeezed ≡ length s.last_squeezed + 2
  unfolding refill limbs
  refill-longer s s' run =
      let ((x, sp), squeezed, e) = >>=-eq-ok (squeeze sc s.sponge) _ run in
      ap (λ t. length (last_of t)) (sym e) ∙ length-append s.last_squeezed (new_limbs x)
    where
      last_of : Outcome (DefaultFqSponge F) → List ℕ
      last_of (ok t) = t.last_squeezed
      last_of (panic e) = []

  -- Any two amounts of fuel that are enough give the same.
  loop-fuel :
      (a b num : ℕ) (s : DefaultFqSponge F)
      → num ≤ length s.last_squeezed + 2 * a
      → num ≤ length s.last_squeezed + 2 * b
      → squeeze_limbs_loop sc a num s ≡ squeeze_limbs_loop sc b num s
  unfolding squeeze_limbs_loop
  loop-fuel zero zero num s h k = refl
  loop-fuel zero (suc b) num s h k = rw (le→leb num (length s.last_squeezed) (omega arith)) refl
  loop-fuel (suc a) zero num s h k = rw (le→leb num (length s.last_squeezed) (omega arith)) refl
  loop-fuel (suc a) (suc b) num s h k = elim (Bool-cases (leb num (length s.last_squeezed))) [
    | inl enough ↦ rw enough refl
    | inr short ↦ elim (Outcome-cases (refill sc s)) [
      | inl (s', run) ↦
          let longer = refill-longer s s' run in
          rw (short, run) (loop-fuel a b num s' (omega arith) (omega arith))
      | inr (e, run) ↦ rw (short, run) refl
    ]
  ]

  -- A refill puts its limbs behind those that are there.
  refill-without :
      (m : ℕ) (s : DefaultFqSponge F)
      → m ≤ length s.last_squeezed
      → ((s' : DefaultFqSponge F) × (refill sc s ≡ ok s')
          × (refill sc (without m s) ≡ ok (without m s'))
          × (take m s'.last_squeezed ≡ take m s.last_squeezed)
          × (length s'.last_squeezed ≡ length s.last_squeezed + 2))
        ⊎ ((e : String) × (refill sc s ≡ panic e) × (refill sc (without m s) ≡ panic e))
  unfolding refill limbs
  refill-without m s h = elim (Outcome-cases (squeeze sc s.sponge)) [
    | inl ((x, sp), e) ↦ inl (
      record { sponge = sp; last_squeezed = s.last_squeezed ++ new_limbs x },
      rw e refl,
      rw e (
          ap (λ t. ok (record { sponge = sp; last_squeezed = t }))
            (sym (drop-append_le m s.last_squeezed (new_limbs x) h))),
      take-append_le m s.last_squeezed (new_limbs x) h,
      length-append s.last_squeezed (new_limbs x),
    )
    | inr (message, e) ↦ inr (message, rw e refl, rw e refl)
  ]

  split :
      (m n : ℕ) (s : DefaultFqSponge F)
      → m ≤ length s.last_squeezed
      → ◌≡◌ {A = Outcome (List ℕ × DefaultFqSponge F)}
          (ok (split_limbs (m + n) s))
          (ok (take m s.last_squeezed ++ take n (drop m s.last_squeezed), without n (without m s)))
  split m n s h =
      ap (λ t. ok (t, without (m + n) s)) (sym (take-take m n s.last_squeezed h))
      ∙ ap
          (λ t. ok (
            take m s.last_squeezed ++ take n (drop m s.last_squeezed),
            record s { last_squeezed = t },
          ))
          (sym (drop-drop m n s.last_squeezed h))

  -- Limbs that are there already, in front of the ones asked for.
  loop-without :
      (fuel m n : ℕ) (s : DefaultFqSponge F)
      → m ≤ length s.last_squeezed
      → squeeze_limbs_loop sc fuel (m + n) s ≡ (
          squeeze_limbs_loop sc fuel n (without m s) >>= λ r.
          ok (take m s.last_squeezed ++ r.0, r.1))
  unfolding squeeze_limbs_loop
  loop-without zero m n s h = elim (Bool-cases (leb n (length (drop m s.last_squeezed)))) [
    | inl enough ↦ rw (same_test m n s.last_squeezed h) (rw enough (split m n s h))
    | inr short ↦ rw (same_test m n s.last_squeezed h) (rw short refl)
  ]
  loop-without (suc fuel) m n s h = elim (Bool-cases (leb n (length (drop m s.last_squeezed)))) [
    | inl enough ↦ rw (same_test m n s.last_squeezed h) (rw enough (split m n s h))
    | inr short ↦ rw (same_test m n s.last_squeezed h) (
        rw short (elim (refill-without m s h) [
          | inl (s', run, run', same, longer) ↦
              rw (run, run')
                (loop-without fuel m n s' (omega arith)
                  ∙ ap
                      (λ t. squeeze_limbs_loop sc fuel n (without m s') >>= λ r. ok (t ++ r.0, r.1))
                      same)
          | inr (e, run, run') ↦ rw (run, run') refl
        ]))
  ]

  loop-here :
      (fuel m : ℕ) (s : DefaultFqSponge F)
      → leb m (length s.last_squeezed) ≡ true
      → squeeze_limbs_loop sc fuel m s ≡ ok (split_limbs m s)
  unfolding squeeze_limbs_loop
  loop-here zero m s e = rw e refl
  loop-here (suc fuel) m s e = rw e refl

  behind :
      (fuel more m n : ℕ) (s : DefaultFqSponge F)
      → m ≤ length s.last_squeezed
      → m + n ≤ length s.last_squeezed + 2 * fuel
      → n ≤ 2 * more
      → squeeze_limbs_loop sc fuel (m + n) s ≡ (
          squeeze_limbs_loop sc more n (without m s) >>= λ r.
          ok (take m s.last_squeezed ++ r.0, r.1))
  behind fuel more m n s inside h k =
      let cut = length-drop m s.last_squeezed inside in
      loop-without fuel m n s inside
      ∙ ap (λ o. o >>= λ r. ok (take m s.last_squeezed ++ r.0, r.1))
          (loop-fuel fuel more n (without m s) (omega arith) (omega arith))

  loop-append :
      (fuel more m n : ℕ) (s : DefaultFqSponge F)
      → m + n ≤ length s.last_squeezed + 2 * fuel
      → n ≤ 2 * more
      → squeeze_limbs_loop sc fuel (m + n) s ≡ (
          squeeze_limbs_loop sc fuel m s >>= λ r.
          squeeze_limbs_loop sc more n r.1 >>= λ t. ok (r.0 ++ t.0, t.1))
  unfolding squeeze_limbs_loop
  loop-append zero more m n s h k =
      rw (loop-here zero m s (le→leb m (length s.last_squeezed) (omega arith)))
        (behind zero more m n s (omega arith) h k)
  loop-append (suc fuel) more m n s h k = elim (Bool-cases (leb m (length s.last_squeezed))) [
    | inl enough ↦
        rw (loop-here (suc fuel) m s enough)
          (behind (suc fuel) more m n s (leb→le m (length s.last_squeezed) enough) h k)
    | inr short ↦
        let none_left : leb (m + n) (length s.last_squeezed) ≡ false = ground arith in
        elim (Outcome-cases (refill sc s)) [
          | inl (s', run) ↦
              let longer = refill-longer s s' run in
              rw (short, none_left, run) (loop-append fuel more m n s' (omega arith) k)
          | inr (e, run) ↦ rw (short, none_left, run) refl
        ]
  ]

  -- Limbs that are asked for in two requests are those of one request.
  pub squeeze_limbs-add :
      (m n : ℕ) (s : DefaultFqSponge F)
      → squeeze_limbs sc (m + n) s
        ≡ (squeeze_limbs sc m s >>= λ r. squeeze_limbs sc n r.1 >>= λ t. ok (r.0 ++ t.0, t.1))
  unfolding squeeze_limbs
  squeeze_limbs-add m n s =
      loop-append (m + n) n m n s (omega arith) (omega arith)
      ∙ ap (λ o. o >>= λ r. squeeze_limbs_loop sc n n r.1 >>= λ t. ok (r.0 ++ t.0, t.1))
          (loop-fuel (m + n) m m s (omega arith) (omega arith))
