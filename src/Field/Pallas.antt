-- ===== src/Field/Pallas.antt =====
-- curves/src/pasta: the base field of Pallas, whose modulus the tests run with.
use Prim.Native.Nat.{ℕ}
use proof_systems.Prelude.{◌≡◌, arith}
use proof_systems.Field.{Field, IsRing, IsCanonical, IsRepr}
use proof_systems.Field.Residue.{
  Residue, residue, residues, residues-IsRing, residues-IsCanonical, residues-IsRepr,
  size-residues-IsCanonical, modulus-residues-IsCanonical,
}

abbrev order : ℕ
order = 28948022309329048855892746252171976963363056481941560715954676764349967630336

abbrev pub Fp : Type 0
Fp = Residue order

instance abbrev pub pallas : Field Fp
pallas = residues order 32

abbrev pub element : ℕ → Fp
element = residue order

pub pallas-IsRing : IsRing pallas
pallas-IsRing = residues-IsRing order 32

pub pallas-IsCanonical : IsCanonical pallas
pallas-IsCanonical = residues-IsCanonical order 32 (omega arith) (omega arith) (omega arith)

pub pallas-IsRepr : IsRepr pallas-IsCanonical
unfolding pallas-IsCanonical
pallas-IsRepr = residues-IsRepr order 32 (omega arith) (omega arith) (omega arith) (omega arith)

pub pallas-size : pallas-IsCanonical.size ≡ 32
unfolding pallas-IsCanonical
pallas-size = size-residues-IsCanonical order 32 (omega arith) (omega arith) (omega arith)

pub pallas-modulus :
    pallas-IsCanonical.modulus
    ≡ 28948022309329048855892746252171976963363056481941560715954676764349967630337
unfolding pallas-IsCanonical
pallas-modulus = modulus-residues-IsCanonical order 32 (omega arith) (omega arith) (omega arith)
