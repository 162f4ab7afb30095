-- ===== src/Signer/Schnorr/Correct.antt =====
-- signer/src/schnorr.rs: a signature and its verification.
use proof_systems.Prelude.{
  ◌-◌, ◌≤◌, ◌<◌, ◌≡◌, refl, ap, ◌∙◌, true, false, List, [], ◌∷◌, ◌++◌, length, arith, Bool-cases,
  inl, inr,
}
use proof_systems.Outcome.{ok, ◌>>=◌, expect, >>=-eq-ok}
use proof_systems.Field.{Field, ◌⊕◌, ◌⊗◌, IsRing, IsCanonical, IsRepr}
use proof_systems.Oracle.Constants.{SpongeConstants}
use proof_systems.Hasher.Input.{BitOps, append_field, chunks, chunk_fields, to_fields}
use proof_systems.Hasher.Poseidon.{Hashable}
use proof_systems.Hasher.Poseidon.Reuse.{IsReady, hash_repeats}
use proof_systems.Signer.Keys.{Curve, IsCurve, is_even, PubKey, Keypair, Signature}
use proof_systems.Signer.Schnorr.{
  Schnorr, NonceOps, Message, message, derive_nonce, message_hash, sign, verify,
}

module _ {F : Type 0} ⦃f : Field F⦄ (c : IsCanonical f) (r : IsRepr c) where
  -- One of an element and its negative is even.
  is_even-neg : (y : F) → is_even y ≡ false → is_even (f.neg y) ≡ true
  unfolding is_even
  is_even-neg y h =
      let whole = r.value-neg y in
      let odd = r.modulus_odd in
      let v = r.into_repr_lem y in
      let w = r.into_repr_lem (f.neg y) in rw w (ground (arith, whole (ground arith)))

module _ {F S P : Type 0} ⦃f : Field F⦄ ⦃g : Field S⦄ (rg : IsRing g) (cv : Curve F S P)
    (law : IsCurve f g cv) where
  -- The verifier's point is the signer's: the public key's share cancels.
  cancel :
      (k e sk : S)
      → cv.add (cv.neg (cv.mul (cv.mul cv.generator sk) e)) (cv.mul cv.generator (k ⊕ e ⊗ sk))
        ≡ cv.mul cv.generator k
  cancel k e sk =
      ap (λ t. cv.add (cv.neg t) (cv.mul cv.generator (k ⊕ e ⊗ sk))) (law.mul-mul sk e)
      ∙ ap (cv.add (cv.neg (cv.mul cv.generator (e ⊗ sk)))) (law.mul-add k (e ⊗ sk))
      ∙ law.neg-add (cv.mul cv.generator k) (cv.mul cv.generator (e ⊗ sk))

message_fields :
    {F H D : Type 0} ⦃f : Field F⦄ (b : BitOps) (h : Hashable F H D) (m : Message H F) (xs : List F)
    → to_fields b (h.to_roinput m.input) ≡ ok xs
    → (ys : List F) × (to_fields b ((message h).to_roinput m) ≡ ok ys)
unfolding to_fields message append_field
message_fields b h m xs e =
    let (zs, run, done) =
      >>=-eq-ok
        (chunk_fields b
          (chunks (b.fp_bits - 1) (length (h.to_roinput m.input).bits) (h.to_roinput m.input).bits))
        _ e in
    (
      ((((h.to_roinput m.input).fields ++ m.pub_key_x ∷ []) ++ m.pub_key_y ∷ []) ++ m.rx ∷ [])
          ++ zs,
      rw run refl,
    )

module _ {F S P H D : Type 0} ⦃f : Field F⦄ ⦃g : Field S⦄ (sc : SpongeConstants) (b : BitOps)
    (h : Hashable F H D) (cv : Curve F S P) (no : NonceOps D S) {c : IsCanonical f}
    {cs : IsCanonical g} (r : IsRepr c) (rs : IsRepr cs) (fits : c.modulus ≤ cs.modulus) where
  -- The hash of a message is defined, and the context that is left hashes every message as before.
  message_hash_total :
      (self : Schnorr F D) (public : PubKey P) (rx : F) (input : H) (xs : List F)
      → IsReady sc self.hasher
      → to_fields b (h.to_roinput input) ≡ ok xs
      → (e : S) × (self' : Schnorr F D) × (message_hash sc b h cv no self public rx input
          ≡ ok (e, self'))
        × (message_hash sc b h cv no self' public rx input
            ≡ message_hash sc b h cv no self public rx input)
  unfolding message_hash
  message_hash_total self public rx input xs ready fields =
      let m : Message H F = record {
        input = input;
        pub_key_x = cv.x public.point;
        pub_key_y = cv.y public.point;
        rx = rx;
      } in
      let (ys, defined) = message_fields b h m xs fields in
      let (out, hasher, run, ready', same) =
        hash_repeats sc b (message h) self.hasher m ys ready defined in
      let small : f.into_repr out < cs.modulus =
        let v = r.into_repr_lem out in let lt = c.value-lt out in omega arith in
      let (e, repr, _) = rs.from_repr-some (f.into_repr out) small in
      (
        e,
        record self { hasher = hasher },
        rw (run, repr) refl,
        ap
            (λ o. o >>= λ t.
              expect (g.from_repr (f.into_repr t.0)) "failed to create scalar" >>= λ e'.
              ok (e', record self { hasher = t.1 }))
            (same m),
      )

  module _ (rf : IsRing f) (rg : IsRing g) (law : IsCurve f g cv) where
    -- The verification of a signature that was made with a nonce of an even point.
    verify-signed :
        (self self' : Schnorr F D) (sk k e : S) (rx : F) (public : PubKey P) (input : H)
        → public.point ≡ cv.mul cv.generator sk
        → cv.x (cv.mul cv.generator k) ≡ rx
        → cv.is_zero (cv.mul cv.generator k) ≡ false
        → is_even (cv.y (cv.mul cv.generator k)) ≡ true
        → message_hash sc b h cv no self public rx input ≡ ok (e, self')
        → verify sc b h cv no self (record { rx = rx; s = k ⊕ e ⊗ sk }) public input
          ≡ ok (true, self')
    unfolding verify
    verify-signed self self' sk k e rx public input key x nonzero even run =
        let point : cv.add (cv.neg (cv.mul public.point e)) (cv.mul cv.generator (k ⊕ e ⊗ sk))
            ≡ cv.mul cv.generator k =
          ap (λ t. cv.add (cv.neg (cv.mul t e)) (cv.mul cv.generator (k ⊕ e ⊗ sk))) key
          ∙ cancel rg cv law k e sk in
        rw run (rw (point, nonzero, even, (rf.beq_iff _ _).1 x) refl)

    -- A context whose hasher is ready signs an input with a keypair, where the nonce is defined and
    -- is not a multiple of the order, and the context that it leaves verifies the signature under the
    -- public key.
    pub verify-sign :
        (self : Schnorr F D) (kp : Keypair S P) (input : H) (xs : List F) (k : S)
        → IsReady sc self.hasher
        → to_fields b (h.to_roinput input) ≡ ok xs
        → kp.public.point ≡ cv.mul cv.generator kp.secret.scalar
        → derive_nonce sc b h cv no self kp input ≡ ok k
        → cv.is_zero (cv.mul cv.generator k) ≡ false
        → (sig : Signature F S) × (self' : Schnorr F D) × (sign sc b h cv no self kp input
            ≡ ok (sig, self'))
          × (verify sc b h cv no self' sig kp.public input ≡ ok (true, self'))
    unfolding sign
    verify-sign self kp input xs k ready fields key nonce nonzero =
        let rx = cv.x (cv.mul cv.generator k) in
        let (e, self', run, again) = message_hash_total self kp.public rx input xs ready fields in
        elim (Bool-cases (is_even (cv.y (cv.mul cv.generator k)))) [
          | inl even ↦ (
            record { rx = rx; s = k ⊕ e ⊗ kp.secret.scalar },
            self',
            rw nonce (rw (even, run) refl),
            verify-signed self' self' kp.secret.scalar k e rx kp.public input key refl nonzero even
                (again ∙ run),
          )
          | inr odd ↦ (
            record { rx = rx; s = g.neg k ⊕ e ⊗ kp.secret.scalar },
            self',
            rw nonce (rw (odd, run) refl),
            verify-signed self' self' kp.secret.scalar (g.neg k) e rx kp.public input key
                (ap cv.x (law.mul-neg k) ∙ law.x-neg _)
                (ap cv.is_zero (law.mul-neg k) ∙ law.is_zero-neg _ ∙ nonzero)
                (ap is_even (ap cv.y (law.mul-neg k) ∙ law.y-neg _ nonzero) ∙ is_even-neg c r _ odd)
                (again ∙ run),
          )
        ]
