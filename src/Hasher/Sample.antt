-- ===== src/Hasher/Sample.antt =====
-- Parameters for 55 rounds, which have as many rows of constants, in the base field of Pallas, numbers to hash, and a hasher that is
-- ready.
use proof_systems.Prelude.{
  All, zero, suc, length, replicate, ◌≤◌, ℕ, ◌+◌, ◌*◌, ◌≡◌, refl, Bool, none, some, List, [], ◌∷◌,
  arith, if◌then◌else◌, ◌==◌,
}
use proof_systems.Outcome.{ok}
use proof_systems.Field.{le_bytes}
use proof_systems.Field.Residue.{residue, residues}
use proof_systems.Field.Pallas.{Fp, pallas, element}
use proof_systems.Cairo.Helper.{bits_of_bytes, byte_bits}
use proof_systems.Oracle.Constants.{kimchi}
use proof_systems.Oracle.Permutation.{ArithmeticSpongeParams}
use proof_systems.Oracle.Permutation.Total.{IsParams}
use proof_systems.Oracle.Sponge
use proof_systems.Oracle.Sponge.{ArithmeticSponge, absorbed}
use proof_systems.Oracle.Sponge.Valid.{IsValid, new-IsValid}
use proof_systems.Hasher.Input.{
  BitOps, new, append_bytes, append_u32, chunks, chunk_field, chunk_fields, to_fields,
}
use proof_systems.Hasher.Poseidon.{Text, Hashable, Poseidon}
use proof_systems.Hasher.Poseidon.Reuse.{IsReady}

-- Bits in bytes, the least significant bit first.
abbrev pub pack : ℕ → ℕ → List Bool → List ℕ
pack weight byte [] = if weight == 1 then [] else byte ∷ []
pack weight byte (x ∷ bits) =
    (let next = if x then byte + weight else byte in
      let one = pack (2 * weight) next bits in
      let whole = pack 1 0 bits in if weight == 128 then next ∷ whole else one)

abbrev pub ops : BitOps
ops = record { fp_bits = 255; fq_bits = 255; into_vec = pack 1 0 }

abbrev pub row : ℕ → ℕ → ℕ → List Fp
row a b c = element a ∷ element b ∷ element c ∷ []

abbrev pub params : ArithmeticSpongeParams Fp
params = record {
  round_constants = replicate 55 (row 1 2 3);
  mds = row 2 1 1 ∷ row 1 2 1 ∷ row 1 1 2 ∷ [];
}

fit : (n : ℕ) → All (λ cells. length cells ≤ 3) (replicate n (row 1 2 3))
fit zero = tt
fit (suc n) = (omega arith, fit n)

pub params-IsParams : IsParams kimchi params
params-IsParams = record {
  rate_pos = omega arith;
  full_mds = refl;
  full_rounds_only = refl;
  mds_rows = refl;
  enough = omega arith;
  rows_fit = fit 55;
}

-- A number, hashed as 32 bits under the domain "Foo".
abbrev pub foo : Text
foo = (70 ∷ []) ∷ (111 ∷ []) ∷ (111 ∷ []) ∷ []

abbrev pub numbers : Hashable Fp ℕ Bool
numbers = record {
  to_roinput = λ n. append_u32 new n;
  domain_string = λ d. if d then some foo else none;
}

pub number_fields : to_fields ops (numbers.to_roinput 7) ≡ ok (element 7 ∷ [])
unfolding append_u32 append_bytes new to_fields chunk_fields chunk_field chunks bits_of_bytes
    byte_bits le_bytes residues residue
number_fields = refl

abbrev pub fresh : ArithmeticSponge Fp
fresh = Sponge.new kimchi params

pub fresh-IsValid : IsValid kimchi fresh
fresh-IsValid = new-IsValid kimchi params params-IsParams

abbrev pub hasher : Poseidon Fp
hasher = record { sponge = fresh; sponge_state = absorbed 0; state = row 0 0 0 }

pub hasher-IsReady : IsReady kimchi hasher
unfolding Sponge.new residue residues
hasher-IsReady = record { sponge_valid = fresh-IsValid; saved_valid = fresh-IsValid }
