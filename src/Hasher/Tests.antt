-- ===== src/Hasher/Tests.antt =====
-- Runs of the model of hasher/src with parameters for 55 rounds, in the base field of Pallas.
use proof_systems.Prelude.{ℕ, ◌≡◌, refl, Bool, true, false, some, List, [], ◌∷◌}
use proof_systems.Outcome.{ok}
use proof_systems.Field.Residue.{residue, residues}
use proof_systems.Field.Pallas.{Fp, pallas, element}
use proof_systems.Oracle.Sponge
use proof_systems.Oracle.Sponge.{ArithmeticSponge, absorbed}
use proof_systems.Oracle.Constants.{kimchi}
use proof_systems.Hasher.Input.{new, append_bool}
use proof_systems.Hasher.Poseidon.{
  Text, Poseidon, domain_prefix_to_field, size_in_bytes, digest, hash,
}
use proof_systems.Hasher.Poseidon.Reuse.{IsReady, digest-new, hash_repeats}
use proof_systems.Hasher.Sample.{ops, foo, numbers, number_fields, hasher, hasher-IsReady}

-- `append_five_bits` of the source's tests: the byte 0x12.
five_bits :
    ops.into_vec
      (append_bool
        (append_bool
          (append_bool (append_bool (append_bool (new {F = Fp}) false) true) false)
          false)
        true).bits
    ≡ 0x12 ∷ []
unfolding append_bool new
five_bits = refl

hash_repeats_example :
    (y : Fp) × (p' : Poseidon Fp) × (hash kimchi ops numbers hasher 7 ≡ ok (y, p'))
    × IsReady kimchi p'
    × ((z : ℕ) → hash kimchi ops numbers p' z ≡ hash kimchi ops numbers hasher z)
hash_repeats_example =
    hash_repeats kimchi ops numbers hasher 7 (element 7 ∷ []) hasher-IsReady number_fields

-- "Foo", 17 asterisks and 12 zeros.
foo_element : Fp
foo_element = element 0x2a2a2a2a2a2a2a2a2a2a2a2a2a2a2a2a2a6f6f46

foo_field : domain_prefix_to_field ops foo ≡ ok foo_element
unfolding foo_element domain_prefix_to_field size_in_bytes residues residue
foo_field = refl

foo_defined :
    (text : Text)
    → numbers.domain_string true ≡ some text
    → (x : Fp) × (domain_prefix_to_field ops text ≡ ok x)
foo_defined text e = (foo_element, rw (let same : foo ≡ text = cc in same) at foo_field)

bits : List Bool
bits = true ∷ false ∷ true ∷ true ∷ true ∷ []

digest-new_example :
    (y : Fp) × (p' : Poseidon Fp) × (digest kimchi ops numbers hasher ≡ ok (y, p'))
    × (p'.sponge ≡ Sponge.new kimchi hasher.sponge.params)
    × (p'.sponge_state ≡ hasher.sponge_state)
    × (p'.state ≡ hasher.state)
digest-new_example = digest-new kimchi ops numbers hasher hasher-IsReady.sponge_valid
