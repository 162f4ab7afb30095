-- ===== src/Kimchi/Generic.antt =====
-- kimchi/src/circuits/polynomials/generic.rs: the generic gate, its gadget, its verification, and the
-- scalars of its constraints.
pub mod Satisfied
pub mod Scalars
mod Tests
use proof_systems.Prelude.{
  ℕ, ◌+◌, ◌==◌, Option, none, some, List, [], ◌∷◌, ◌++◌, replicate, set, get_or, if◌then◌else◌,
}
use proof_systems.Outcome.{Outcome, ok, panic, expect, build, ◌>>=◌}
use proof_systems.Field.{Field, ◌⊕◌, ◌⊖◌, ◌⊗◌}
use proof_systems.Oracle.Permutation.{at}
use proof_systems.Kimchi.Gates.{Columns, GateType, discriminant, GateResult, valid, ensure}
use proof_systems.Kimchi.Circuit.{columns, Wire, CircuitGate}

abbrev pub generic_registers : ℕ
generic_registers = 3

abbrev pub generic_coeffs : ℕ
generic_coeffs = 5

pub data GenericGateSpec (F : Type 0) : Type 0 where
  -- the coefficients of the left operand, of the right one, and of the output
  add : Option F → Option F → Option F → GenericGateSpec F
  -- the coefficients of the output and of the product
  mul : Option F → Option F → GenericGateSpec F
  const : F → GenericGateSpec F
  public_input : GenericGateSpec F

abbrev pub unwrap_or {ℓ} : {A : Type ℓ} → Option A → A → A
unwrap_or none d = d
unwrap_or (some x) d = x

module _ {F : Type 0} where
  unfoldable pub create_generic : List Wire → List F → CircuitGate F
  create_generic wires c = record { typ = GateType.generic; wires = wires; coeffs = c }

module _ {F : Type 0} ⦃f : Field F⦄ where
  -- The match on the first gate
  unfoldable pub first_coeffs : GenericGateSpec F → List F → List F
  first_coeffs (add left right output) c =
      set (set (set c 0 (unwrap_or left f.one)) 1 (unwrap_or right f.one)) 2
        (unwrap_or output (f.neg f.one))
  first_coeffs (mul output product) c =
      set (set c 2 (unwrap_or output (f.neg f.one))) 3 (unwrap_or product f.one)
  first_coeffs (const cst) c = set (set c 0 f.one) 4 (f.neg cst)
  first_coeffs public_input c = set c 0 f.one

  -- The match on the second gate
  unfoldable pub second_coeffs : Option (GenericGateSpec F) → List F → Outcome (List F)
  second_coeffs (some (add left right output)) c = ok (
      set (set (set c 5 (unwrap_or left f.one)) 6 (unwrap_or right f.one)) 7
        (unwrap_or output (f.neg f.one)))
  second_coeffs (some (mul output product)) c =
      ok (set (set c 7 (unwrap_or output (f.neg f.one))) 8 (unwrap_or product f.one))
  second_coeffs (some (const cst)) c = ok (set (set c 5 f.one) 9 (f.neg cst))
  second_coeffs (some public_input) c = panic "not implemented"
  second_coeffs none c = ok c

  unfoldable pub create_generic_gadget :
      List Wire → GenericGateSpec F → Option (GenericGateSpec F) → Outcome (CircuitGate F)
  create_generic_gadget wires gate1 gate2 = do
    coeffs ← second_coeffs gate2 (first_coeffs gate1 (replicate 10 f.zero))
    ok (create_generic wires coeffs)

  -- The closure `check_single`, before what follows
  unfoldable pub check_single :
      List F → List F → List F → ℕ → ℕ → ℕ → Outcome GateResult → Outcome GateResult
  check_single coeffs this public row coeffs_offset register_offset rest = do
    c0 ← at coeffs coeffs_offset
    w0 ← at this register_offset
    c1 ← at coeffs (coeffs_offset + 1)
    w1 ← at this (register_offset + 1)
    c2 ← at coeffs (coeffs_offset + 2)
    w2 ← at this (register_offset + 2)
    let sum = c0 ⊗ w0 ⊕ c1 ⊗ w1 ⊕ c2 ⊗ w2
    c3 ← at coeffs (coeffs_offset + 3)
    let product = c3 ⊗ w0 ⊗ w1
    let input = if coeffs_offset == 0 then get_or public row f.zero else f.zero
    c4 ← at coeffs (coeffs_offset + 4)
    ensure (f.beq f.zero (sum ⊕ product ⊕ c4 ⊖ input)) "generic: incorrect gate" rest

  unfoldable pub verify_generic : CircuitGate F → ℕ → Columns F → List F → Outcome GateResult
  verify_generic gate row witness public = do
    this ← build columns 0 (λ i. at (witness i) row)
    ensure (discriminant gate.typ == discriminant GateType.generic) "generic: incorrect gate" (
        check_single gate.coeffs this public row 0 0
          (check_single gate.coeffs this public row generic_coeffs generic_registers (ok valid)))

  -- The closure `generic_gate` of `gnrc_scalars`: what it pushes
  unfoldable pub gate_scalars : F → List F → F → ℕ → Outcome (List F)
  gate_scalars alpha_pow w_zeta generic_zeta register_offset = do
    let alpha_generic = alpha_pow ⊗ generic_zeta
    w0 ← at w_zeta register_offset
    w1 ← at w_zeta (register_offset + 1)
    w2 ← at w_zeta (register_offset + 2)
    ok (
        alpha_generic ⊗ w0
        ∷ alpha_generic ⊗ w1
        ∷ alpha_generic ⊗ w2
        ∷ alpha_generic ⊗ w0 ⊗ w1
        ∷ alpha_generic
        ∷ [])

  -- `alphas.next()`, and the rest of the iterator
  unfoldable pub next_alpha : List F → Outcome (F × List F)
  next_alpha [] = panic "not enough alpha powers for generic gate"
  next_alpha (a ∷ alphas) = ok (a, alphas)

  unfoldable pub gnrc_scalars : List F → List F → F → Outcome (List F)
  gnrc_scalars alphas w_zeta generic_zeta = do
    (alpha_pow1, alphas') ← next_alpha alphas
    first ← gate_scalars alpha_pow1 w_zeta generic_zeta 0
    (alpha_pow2, _) ← next_alpha alphas'
    second ← gate_scalars alpha_pow2 w_zeta generic_zeta generic_registers
    ok (first ++ second)
