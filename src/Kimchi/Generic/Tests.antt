-- ===== src/Kimchi/Generic/Tests.antt =====
-- A gadget of a sum and a constant, over the residues modulo five.
use proof_systems.Prelude.{◌≡◌, ◌↔◌, refl, none, some, List, [], ◌∷◌, get_or}
use proof_systems.Outcome.{ok, build}
use proof_systems.Field.Residue.{residues}
use proof_systems.Field.{◌⊕◌, ◌⊗◌}
use proof_systems.Field.Five.{F5, five, el, five-IsRing}
use proof_systems.Oracle.Permutation.{at}
use proof_systems.Kimchi.Gates.{Columns, valid}
use proof_systems.Kimchi.Circuit.{CircuitGate, new_wires}
use proof_systems.Kimchi.Generic.{
  GenericGateSpec, create_generic, create_generic_gadget, first_coeffs, second_coeffs,
  verify_generic, gnrc_scalars,
}
use proof_systems.Kimchi.Generic.Satisfied.{Holds, HoldsSecond, verify_generic_iff}
use proof_systems.Kimchi.Generic.Scalars.{scaled_sum, gate_constraint, gnrc_scalars-constraints}

-- left + 3 right = output + public input, and a cell that is 4
abbrev sum_gate : GenericGateSpec F5
sum_gate = GenericGateSpec.add none (some (el 3)) none

abbrev const_gate : GenericGateSpec F5
const_gate = GenericGateSpec.const (el 4)

abbrev gadget : CircuitGate F5
gadget = create_generic (new_wires 7) (
    el 1
    ∷ el 3
    ∷ five.neg five.one
    ∷ el 0
    ∷ el 0
    ∷ el 1
    ∷ el 0
    ∷ el 0
    ∷ el 0
    ∷ five.neg (el 4)
    ∷ [])

gadget-created : create_generic_gadget (new_wires 7) sum_gate (some const_gate) ≡ ok gadget
unfolding create_generic_gadget first_coeffs second_coeffs residues
gadget-created = refl

abbrev cells : List F5
cells =
    el 1
    ∷ el 2
    ∷ el 0
    ∷ el 4
    ∷ el 0
    ∷ el 0
    ∷ el 0
    ∷ el 0
    ∷ el 0
    ∷ el 0
    ∷ el 0
    ∷ el 0
    ∷ el 0
    ∷ el 0
    ∷ el 0
    ∷ []

abbrev columns : Columns F5
columns = λ j. get_or cells j (el 0) ∷ []

columns-cells : build 15 0 (λ i. at (columns i) 0) ≡ ok cells
unfolding build
columns-cells = refl

verify_generic_iff_example : (verify_generic gadget 0 columns (el 2 ∷ []) ≡ ok valid) ↔ (
    Holds sum_gate (el 1) (el 2) (el 0) (el 2) × HoldsSecond (some const_gate) (el 4) (el 0) (el 0))
verify_generic_iff_example =
    verify_generic_iff five-IsRing (new_wires 7) 0 columns (el 2 ∷ []) (el 1) (el 2) (el 0) (el 4)
      (el 0) (el 0) _ columns-cells sum_gate (some const_gate) gadget gadget-created

gnrc_scalars-constraints_example :
    (scalars : List F5) × (gnrc_scalars (el 2 ∷ el 3 ∷ []) cells (el 4) ≡ ok scalars)
    × (scaled_sum scalars gadget.coeffs
        ≡ el 2
            ⊗ el 4
            ⊗ gate_constraint (el 1) (el 3) (five.neg five.one) (el 0) (el 0) (el 1) (el 2) (el 0)
          ⊕ el 3
            ⊗ el 4
            ⊗ gate_constraint (el 1) (el 0) (el 0) (el 0) (five.neg (el 4)) (el 4) (el 0) (el 0))
unfolding create_generic
gnrc_scalars-constraints_example =
    gnrc_scalars-constraints five-IsRing (el 2) (el 3) (el 4) [] _ (el 1) (el 2) (el 0) (el 4)
      (el 0) (el 0) (el 1) (el 3) (five.neg five.one) (el 0) (el 0) (el 1) (el 0) (el 0) (el 0)
      (five.neg (el 4)) []
