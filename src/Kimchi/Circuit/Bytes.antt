-- ===== src/Kimchi/Circuit/Bytes.antt =====
-- kimchi/src/circuits/wires.rs and gate.rs: what is written of wires and gates, and read again.
use proof_systems.Prelude.{
  ℕ, zero, suc, ◌+◌, ◌%◌, ◌^◌, ◌<◌, ◌≤◌, ◌≡◌, refl, ap, ◌∙◌, some, List, ◌++◌, length, arith,
  Bool-cases, ltb, ltb→lt, inl, inr, get_elem?-lt_length, get_elem?-eq_none,
}
use proof_systems.Outcome.{Outcome, ok, panic, ◌>>=◌}
use proof_systems.Field.{le_bytes}
use proof_systems.Kimchi.Circuit.{
  columns, permuts, Wire, write_wire, read_u32, read_wire, with_row, with_col, CircuitGate,
  write_wires, write_gate,
}

read_u32-le_bytes :
    (v : ℕ) (rest : List ℕ) → v < 2 ^ 32 → read_u32 (le_bytes 4 v ++ rest) ≡ some (v, rest)
unfolding read_u32 le_bytes
read_u32-le_bytes v rest h = ap (λ (n : ℕ). some (n, rest)) (omega arith)

-- A wire is read as it was written, its row and its column modulo the size of a `u32`, and what
-- follows it is left.
pub read_wire-write_wire :
    (w : Wire) (rest : List ℕ)
    → read_wire (write_wire w ++ rest)
      ≡ some (record { row = w.row % 2 ^ 32; col = w.col % 2 ^ 32 }, rest)
unfolding write_wire read_wire with_row with_col le_bytes
read_wire-write_wire w rest =
    ap with_row
      (read_u32-le_bytes (w.row % 2 ^ 32) (le_bytes 4 (w.col % 2 ^ 32) ++ rest) (omega arith))
    ∙ ap (with_col (w.row % 2 ^ 32)) (read_u32-le_bytes (w.col % 2 ^ 32) rest (omega arith))

write_wires-panic :
    {F : Type 0} (gate : CircuitGate F) (n i : ℕ)
    → length gate.wires < n + i
    → i ≤ length gate.wires
    → write_wires gate n i ≡ panic "index out of bounds"
unfolding write_wires
write_wires-panic gate zero i h k = absurd (omega arith)
write_wires-panic gate (suc n) i h k = elim (Bool-cases (ltb i (length gate.wires))) [
  | inl inside ↦
      let (w, found) = get_elem?-lt_length gate.wires i (ltb→lt _ _ inside) in
      rw found (
        ap (λ (m : Outcome (List ℕ)). m >>= λ bytes. ok (write_wire w ++ bytes))
          (write_wires-panic gate n (suc i) (omega arith)
            (let e = ltb→lt _ _ inside in omega arith)))
  | inr outside ↦ rw (get_elem?-eq_none gate.wires i (ground arith)) refl
]

-- A gate with its seven wires cannot be written: the loop over its wires goes on to the fifteenth, and
-- panics.
pub write_gate-panic :
    {F : Type 0} (write_element : F → List ℕ) (gate : CircuitGate F)
    → length gate.wires ≡ permuts
    → write_gate write_element gate ≡ panic "index out of bounds"
unfolding write_gate
write_gate-panic write_element gate h =
    rw (write_wires-panic gate columns 0 (omega (arith, h)) (omega arith)) refl
