-- ===== src/Kimchi/Generic/Satisfied.antt =====
-- kimchi/src/circuits/polynomials/generic.rs: what the verification of a generic gadget accepts.
use proof_systems.Prelude.{
  ℕ, ◌≡◌, ◌↔◌, refl, sym, ap, ◌∙◌, Bool-cases, inl, inr, Option, none, some, List, [], ◌∷◌, ◌++◌,
  get_or,
}
use Prim.Native.String.{String}
use mathlib.Core.Logic.Iff
use proof_systems.Outcome.{ok, ok-injective, >>=-eq-ok, build}
use proof_systems.Field.{Field, ◌⊕◌, ◌⊖◌, ◌⊗◌, IsRing}
use proof_systems.Field.Facts.{add-zero, sub-eq-zero_iff, neg_one-mul, add-neg}
use proof_systems.Oracle.Permutation.{at}
use proof_systems.Kimchi.Gates.{Columns, valid, ensure}
use proof_systems.Kimchi.Circuit.{columns, Wire, CircuitGate}
use proof_systems.Kimchi.Generic.{
  GenericGateSpec, add, mul, const, public_input, unwrap_or, create_generic, first_coeffs,
  second_coeffs, create_generic_gadget, check_single, verify_generic,
}

module _ {F : Type 0} ⦃f : Field F⦄ where
  -- A value times a coefficient, which is one by default
  abbrev pub scaled : Option F → F → F
  scaled none x = x
  scaled (some c) x = c ⊗ x

  -- A value against the output, whose coefficient is minus one by default, and the public input
  abbrev pub Balances : F → Option F → F → F → Type 0
  Balances x none o p = x ≡ o ⊕ p
  Balances x (some c) o p = x ⊕ c ⊗ o ≡ p

  -- What a gate says of its left operand, its right operand, its output and the public input
  abbrev pub Holds : GenericGateSpec F → F → F → F → F → Type 0
  Holds (add left right output) l r o p = Balances (scaled left l ⊕ scaled right r) output o p
  Holds (mul output product) l r o p = Balances (scaled product (l ⊗ r)) output o p
  Holds (const cst) l r o p = l ≡ cst ⊕ p
  Holds public_input l r o p = l ≡ p

  -- The second gate of a row, which may be absent and has no public input
  abbrev pub HoldsSecond : Option (GenericGateSpec F) → F → F → F → Type 0
  HoldsSecond none l r o = Unit
  HoldsSecond (some spec) l r o = Holds spec l r o f.zero

module _ {F : Type 0} ⦃f : Field F⦄ (r : IsRing f) where
  -- The value that is compared to zero, from five coefficients
  abbrev constraint : F → F → F → F → F → F → F → F → F → F
  constraint c0 c1 c2 c3 c4 x y o p = c0 ⊗ x ⊕ c1 ⊗ y ⊕ c2 ⊗ o ⊕ c3 ⊗ x ⊗ y ⊕ c4 ⊖ p

  zeros : (a x y : F) → a ⊕ f.zero ⊗ x ⊗ y ⊕ f.zero ≡ a
  zeros a x y =
      add-zero r _
      ∙ ap (λ t. a ⊕ t ⊗ y) (r.zero-mul x)
      ∙ ap (λ t. a ⊕ t) (r.zero-mul y)
      ∙ add-zero r a

  unwrap-scaled : (c : Option F) (x : F) → unwrap_or c f.one ⊗ x ≡ scaled c x
  unwrap-scaled none x = r.one-mul x
  unwrap-scaled (some c) x = refl

  -- A sum that is compared to the public input
  vanishes_iff : (a b p : F) → a ≡ b → (f.zero ≡ a ⊖ p) ↔ (b ≡ p)
  vanishes_iff a b p e =
      (λ h. sym e ∙ (sub-eq-zero_iff r a p).0 (sym h), λ h. sym ((sub-eq-zero_iff r a p).1 (e ∙ h)))

  Balances-iff :
      (output : Option F) (a x o p : F)
      → a ≡ x ⊕ unwrap_or output (f.neg f.one) ⊗ o
      → (f.zero ≡ a ⊖ p) ↔ Balances x output o p
  Balances-iff none a x o p e =
      Iff.trans (vanishes_iff a (x ⊖ o) p (e ∙ ap (λ t. x ⊕ t) (neg_one-mul r o) ∙ add-neg r x o)) (
        λ h. sym (r.sub-add x o) ∙ ap (λ t. t ⊕ o) h ∙ r.add_comm p o,
        λ h. ap (λ t. t ⊖ o) (h ∙ r.add_comm o p) ∙ r.add-sub p o,
      )
  Balances-iff (some c) a x o p e = vanishes_iff a (x ⊕ c ⊗ o) p e

  -- The five coefficients of a gate
  abbrev five : GenericGateSpec F → List F
  five (add left right output) =
      unwrap_or left f.one
      ∷ unwrap_or right f.one
      ∷ unwrap_or output (f.neg f.one)
      ∷ f.zero
      ∷ f.zero
      ∷ []
  five (mul output product) =
      f.zero ∷ f.zero ∷ unwrap_or output (f.neg f.one) ∷ unwrap_or product f.one ∷ f.zero ∷ []
  five (const cst) = f.one ∷ f.zero ∷ f.zero ∷ f.zero ∷ f.neg cst ∷ []
  five public_input = f.one ∷ f.zero ∷ f.zero ∷ f.zero ∷ f.zero ∷ []

  abbrev five_or_zeros : Option (GenericGateSpec F) → List F
  five_or_zeros none = f.zero ∷ f.zero ∷ f.zero ∷ f.zero ∷ f.zero ∷ []
  five_or_zeros (some spec) = five spec

  gadget_coeffs :
      (wires : List Wire) (gate1 : GenericGateSpec F) (gate2 : Option (GenericGateSpec F))
      (gate : CircuitGate F)
      → create_generic_gadget wires gate1 gate2 ≡ ok gate
      → gate ≡ create_generic wires (five gate1 ++ five_or_zeros gate2)
  unfolding create_generic_gadget second_coeffs first_coeffs
  gadget_coeffs wires gate1 gate2 gate h =
      let (coeffs, made, done) = >>=-eq-ok (second_coeffs gate2 (first_coeffs gate1 _)) _ h in
      sym (ok-injective done) ∙ ap (create_generic wires) (written gate1 gate2 coeffs made)
    where
      start : List F
      start =
          f.zero ∷ f.zero ∷ f.zero ∷ f.zero ∷ f.zero ∷ f.zero ∷ f.zero ∷ f.zero ∷ f.zero ∷ f.zero
          ∷ []

      second :
          (gate2 : Option (GenericGateSpec F)) (a b c d e : F) (coeffs : List F)
          → second_coeffs gate2
              (a ∷ b ∷ c ∷ d ∷ e ∷ f.zero ∷ f.zero ∷ f.zero ∷ f.zero ∷ f.zero ∷ [])
            ≡ ok coeffs
          → coeffs ≡ a ∷ b ∷ c ∷ d ∷ e ∷ five_or_zeros gate2
      second none a b c d e coeffs h = sym (ok-injective h)
      second (some (add left right output)) a b c d e coeffs h = sym (ok-injective h)
      second (some (mul output product)) a b c d e coeffs h = sym (ok-injective h)
      second (some (const cst)) a b c d e coeffs h = sym (ok-injective h)
      second (some public_input) a b c d e coeffs h = cc

      written :
          (gate1 : GenericGateSpec F) (gate2 : Option (GenericGateSpec F)) (coeffs : List F)
          → second_coeffs gate2 (first_coeffs gate1 start) ≡ ok coeffs
          → coeffs ≡ five gate1 ++ five_or_zeros gate2
      written (add left right output) gate2 coeffs h = second gate2 _ _ _ _ _ coeffs h
      written (mul output product) gate2 coeffs h = second gate2 _ _ _ _ _ coeffs h
      written (const cst) gate2 coeffs h = second gate2 _ _ _ _ _ coeffs h
      written public_input gate2 coeffs h = second gate2 _ _ _ _ _ coeffs h

  abbrev value : List F → F → F → F → F → F
  value (c0 ∷ c1 ∷ c2 ∷ c3 ∷ c4 ∷ []) x y o p = constraint c0 c1 c2 c3 c4 x y o p
  value _ x y o p = f.zero

  front_zeros : (x y c o : F) → f.zero ⊗ x ⊕ f.zero ⊗ y ⊕ c ⊗ o ≡ c ⊗ o
  front_zeros x y c o =
      ap (λ t. t ⊕ f.zero ⊗ y ⊕ c ⊗ o) (r.zero-mul x)
      ∙ ap (λ t. t ⊕ c ⊗ o) (r.zero-add _ ∙ r.zero-mul y)
      ∙ r.zero-add _

  single : (x y o : F) → f.one ⊗ x ⊕ f.zero ⊗ y ⊕ f.zero ⊗ o ⊕ f.zero ⊗ x ⊗ y ≡ x
  single x y o =
      ap (λ t. f.one ⊗ x ⊕ f.zero ⊗ y ⊕ f.zero ⊗ o ⊕ t ⊗ y) (r.zero-mul x)
      ∙ ap (λ t. f.one ⊗ x ⊕ f.zero ⊗ y ⊕ f.zero ⊗ o ⊕ t) (r.zero-mul y)
      ∙ add-zero r _
      ∙ ap (λ t. f.one ⊗ x ⊕ f.zero ⊗ y ⊕ t) (r.zero-mul o)
      ∙ add-zero r _
      ∙ ap (λ t. f.one ⊗ x ⊕ t) (r.zero-mul y)
      ∙ add-zero r _
      ∙ r.one-mul x

  value_iff :
      (spec : GenericGateSpec F) (x y o p : F)
      → (f.zero ≡ value (five spec) x y o p) ↔ Holds spec x y o p
  value_iff (add left right output) x y o p = Balances-iff output _ _ o p (
      zeros _ x y
      ∙ ap (λ t. t ⊕ unwrap_or right f.one ⊗ y ⊕ unwrap_or output (f.neg f.one) ⊗ o)
          (unwrap-scaled left x)
      ∙ ap (λ t. scaled left x ⊕ t ⊕ unwrap_or output (f.neg f.one) ⊗ o) (unwrap-scaled right y))
  value_iff (mul output product) x y o p = Balances-iff output _ _ o p (
      add-zero r _
      ∙ ap (λ t. t ⊕ unwrap_or product f.one ⊗ x ⊗ y) (front_zeros x y _ o)
      ∙ r.add_comm _ _
      ∙ ap (λ t. t ⊕ unwrap_or output (f.neg f.one) ⊗ o)
          (r.mul_assoc _ x y ∙ unwrap-scaled product (x ⊗ y)))
  value_iff (const cst) x y o p =
      Iff.trans
        (vanishes_iff _ (x ⊖ cst) p (ap (λ t. t ⊕ f.neg cst) (single x y o) ∙ add-neg r x cst))
        (
          λ h. sym (r.sub-add x cst) ∙ ap (λ t. t ⊕ cst) h ∙ r.add_comm p cst,
          λ h. ap (λ t. t ⊖ cst) (h ∙ r.add_comm cst p) ∙ r.add-sub p cst,
        )
  value_iff public_input x y o p = vanishes_iff _ x p (add-zero r _ ∙ single x y o)

  second_iff :
      (spec : Option (GenericGateSpec F)) (x y o : F)
      → (f.zero ≡ value (five_or_zeros spec) x y o f.zero) ↔ HoldsSecond spec x y o
  second_iff none x y o = (
    λ h. tt,
    λ h. sym ((sub-eq-zero_iff r _ _).1 (zeros _ x y ∙ front_zeros x y f.zero o ∙ r.zero-mul o)),
  )
  second_iff (some spec) x y o = value_iff spec x y o f.zero

  ensure_iff :
      (a b : F) (e e' : String)
      → (ensure (f.beq f.zero a) e (ensure (f.beq f.zero b) e' (ok valid)) ≡ ok valid)
        ↔ ((f.zero ≡ a) × (f.zero ≡ b))
  unfolding ensure
  ensure_iff a b e e' = (
    λ h. elim (Bool-cases (f.beq f.zero a)) [
      | inr no_a ↦ (let bad = rw no_a at h in cc)
      | inl yes_a ↦ elim (Bool-cases (f.beq f.zero b)) [
        | inr no_b ↦ (let bad = rw (yes_a, no_b) at h in cc)
        | inl yes_b ↦ ((r.beq_iff f.zero a).0 yes_a, (r.beq_iff f.zero b).0 yes_b)
      ]
    ],
    λ h. rw ((r.beq_iff f.zero a).1 h.0, (r.beq_iff f.zero b).1 h.1) refl,
  )

  data Five : List F → Type 0 where
    five_of : (a b c d e : F) → Five (a ∷ b ∷ c ∷ d ∷ e ∷ [])

  five-Five : (spec : GenericGateSpec F) → Five (five spec)
  five-Five (add left right output) = five_of _ _ _ _ _
  five-Five (mul output product) = five_of _ _ _ _ _
  five-Five (const cst) = five_of _ _ _ _ _
  five-Five public_input = five_of _ _ _ _ _

  five_or_zeros-Five : (spec : Option (GenericGateSpec F)) → Five (five_or_zeros spec)
  five_or_zeros-Five none = five_of _ _ _ _ _
  five_or_zeros-Five (some spec) = five-Five spec

  module _ (wires : List Wire) (row : ℕ) (witness : Columns F) (public : List F)
      (l1 r1 o1 l2 r2 o2 : F) (rest : List F)
      (read : build columns 0 (λ i. at (witness i) row)
        ≡ ok (l1 ∷ r1 ∷ o1 ∷ l2 ∷ r2 ∷ o2 ∷ rest)) where
    abbrev input : F
    input = get_or public row f.zero

    coeffs_iff :
        {cs ds : List F}
        → Five cs
        → Five ds
        → (verify_generic (create_generic wires (cs ++ ds)) row witness public ≡ ok valid)
          ↔ ((f.zero ≡ value cs l1 r1 o1 input) × (f.zero ≡ value ds l2 r2 o2 f.zero))
    unfolding verify_generic create_generic check_single ensure
    coeffs_iff (five_of a b c d e) (five_of a' b' c' d' e') = rw read (
        ensure_iff (constraint a b c d e l1 r1 o1 input) (constraint a' b' c' d' e' l2 r2 o2 f.zero)
          "generic: incorrect gate" "generic: incorrect gate")

    -- A gadget verifies on a row of the witness exactly where what its gates say holds of the first six
    -- cells: the first gate with the public input of the row, which is zero where there is none, and
    -- the second, if there is one, with zero.
    pub verify_generic_iff :
        (gate1 : GenericGateSpec F) (gate2 : Option (GenericGateSpec F)) (gate : CircuitGate F)
        → create_generic_gadget wires gate1 gate2 ≡ ok gate
        → (verify_generic gate row witness public ≡ ok valid)
          ↔ (Holds gate1 l1 r1 o1 (get_or public row f.zero) × HoldsSecond gate2 l2 r2 o2)
    verify_generic_iff gate1 gate2 gate made = rw (gadget_coeffs wires gate1 gate2 gate made) (
        Iff.trans (coeffs_iff (five-Five gate1) (five_or_zeros-Five gate2)) (
          λ h. ((value_iff gate1 l1 r1 o1 input).0 h.0, (second_iff gate2 l2 r2 o2).0 h.1),
          λ h. ((value_iff gate1 l1 r1 o1 input).1 h.0, (second_iff gate2 l2 r2 o2).1 h.1),
        ))
