-- ===== src/Kimchi/Circuit/Tests.antt =====
-- A wire and a gate, and their bytes.
use proof_systems.Prelude.{ℕ, ◌≡◌, refl, some, [], ◌∷◌, ◌++◌}
use proof_systems.Outcome.{panic}
use proof_systems.Field.{le_bytes}
use proof_systems.Kimchi.Gates.{GateType}
use proof_systems.Kimchi.Circuit.{
  Wire, CircuitGate, new_wires, wires_from, write_wire, read_wire, write_gate,
}
use proof_systems.Kimchi.Circuit.Bytes.{read_wire-write_wire, write_gate-panic}

abbrev wire : Wire
wire = record { row = 4294967303; col = 258 }

wire-bytes : write_wire wire ≡ 7 ∷ 0 ∷ 0 ∷ 0 ∷ 2 ∷ 1 ∷ 0 ∷ 0 ∷ []
unfolding write_wire le_bytes
wire-bytes = refl

read_wire-write_wire_example :
    read_wire (write_wire wire ++ 9 ∷ []) ≡ some (record { row = 7; col = 258 }, 9 ∷ [])
read_wire-write_wire_example = read_wire-write_wire wire (9 ∷ [])

abbrev gate : CircuitGate ℕ
gate = record { typ = GateType.zero; wires = new_wires 3; coeffs = 1 ∷ 2 ∷ [] }

write_gate-panic_example : write_gate (le_bytes 32) gate ≡ panic "index out of bounds"
unfolding new_wires wires_from
write_gate-panic_example = write_gate-panic (le_bytes 32) gate refl
