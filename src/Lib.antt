-- ===== src/Lib.antt =====
-- A model of parts of the Mina proof systems library. The code is Rust. A function of the code is a
-- function by clauses here, with the state that it mutates as an argument and as a part of its result;
-- one that may panic returns an `Outcome` (Outcome.antt), which is a value or the message of the
-- panic. Unsigned integers are natural numbers with the wrap-around of their width written out.
--
-- Prelude.antt and its children hold the shared notation and lemmas. Field.antt is the interface of
-- field elements (`ark_ff`, a third-party crate): a record of operations, which the code uses, and
-- four records of laws, which theorems take where they need them: those of a ring, those of a domain
-- with inverses, those of the canonical integer of an element, and those of `into_repr` and `from_repr`. Field/Residue.antt implements it with the
-- residues modulo a number, Field/Pallas.antt with those of the base field of Pallas, and
-- Field/Five.antt with those modulo five; the tests run on these fields.
--
-- Cairo.antt, the runner of Cairo programs:
--   cairo/src/flags.rs is Cairo/Flags.antt; cairo/src/helper.rs, with `to_bytes` and `to_bits` of
--   utils/src/field_helpers.rs, is Cairo/Helper.antt; cairo/src/word.rs is Cairo/Word.antt, one
--   function for each accessor, with the same names; cairo/src/memory.rs is Cairo/Memory.antt, where
--   `cells` is `data`. cairo/src/runner.rs is Cairo/Runner/State.antt (the structures, and the monad
--   of the methods of `CairoStep`, which take the step and return it), Step.antt (the methods;
--   `next_apfp` is split into `call_apfp`, `other_ap`, `assert_equal` and `other_fp`, `set_res` has its
--   inner match in `res_logic`), Instruction.antt (accessors) and Program.antt (`CairoProgram`). A step
--   takes its memory by an interface, `MemoryOps`, with two instances: the growing vector of the code,
--   and a total function (Contents.antt), its specification. A Cairo program may run for ever, so its
--   loop takes fuel, one unit for each step. Not modelled: `Display` and hexadecimal output.
--
-- Oracle.antt, the Poseidon sponge:
--   oracle/src/constants.rs is Oracle/Constants.antt, oracle/src/permutation.rs is
--   Oracle/Permutation.antt, and oracle/src/poseidon.rs is Oracle/Sponge.antt. The constants of a trait
--   are the fields of a record. The tables of oracle/src/pasta are data, and a parameter.
--   oracle/src/sponge.rs is Oracle/Challenge.antt (`ScalarChallenge`) and Oracle/FqSponge.antt
--   (`DefaultFqSponge`, and `DefaultFrSponge`, whose `squeeze` is `squeeze_fr`). A `BigInteger` is its
--   integer, and `limbs` are the 64-bit digits that `as_ref` shows. `squeeze_limbs` calls itself until
--   there are enough limbs, with one unit of fuel for each call; each gives two limbs, so one unit for
--   each limb is enough. The moduli that `absorb_fr` compares are arguments. `endo_coefficient` is not
--   modelled.
--
-- Hasher.antt, the hasher over the sponge:
--   hasher/src/roinput.rs is Hasher/Input.antt; hasher/src/lib.rs and hasher/src/poseidon.rs are
--   Hasher/Poseidon.antt. A bit vector is the list of its bits; `BitVec::into_vec` and the sizes of the
--   fields are parameters (`BitOps`). `chunks` takes one unit of fuel for each chunk and is given one
--   for each bit. A string is a list of characters, each the list of its bytes.
--
-- Signer.antt, Schnorr signatures:
--   seckey.rs, keypair.rs, signature.rs and the structures of pubkey.rs, all of signer/src, are
--   Signer/Keys.antt, the addresses of pubkey.rs are Signer/Keys/Addresses.antt (`PubKey::into_address`
--   is `address_of_key`, those of the compressed key are `address_of_compressed` and
--   `compressed_of_address`; `from_decoded` is the part of `from_address` behind the decoding), and
--   schnorr.rs is Signer/Schnorr.antt. The curve of `ark_ec`, with affine and projective points as one
--   type, the BLAKE2b hash, SHA-256 and Base58 are parameters, records of operations with records of
--   laws. Not modelled: random keys, hexadecimal digits, `Display`.
--
-- Utils.antt, helpers:
--   utils/src/adjacent_pairs.rs is Utils/AdjacentPairs.antt, with an iterator as the list of what it still
--   gives; utils/src/math.rs is Utils/Math.antt, on a machine of 64 bits; its loop takes one unit of fuel for
--   each test, and makes at most 65 of them.
--
-- Kimchi.antt, parts of the proof system:
--   kimchi/src/circuits/wires.rs and the gates of gate.rs, with their bytes, are Kimchi/Circuit.antt; the
--   bytes of an element of the field are a parameter, and a writer does not fail.
--   The trait of kimchi/src/circuits/argument.rs is the record `Argument` of Kimchi/Argument.antt, with
--   `combined_constraints`, which takes exponents from Kimchi/Alphas.antt and combines by
--   Kimchi/Expr/Arith.antt.
--   kimchi/src/circuits/polynomials/generic.rs is Kimchi/Generic.antt: the gadget, where `first_coeffs`
--   and `second_coeffs` are its two matches, `verify_generic` and `gnrc_scalars`, with the iterator over
--   powers of alpha as a list. kimchi/src/circuits/polynomials/complete_add.rs is
--   Kimchi/CompleteAdd.antt: the constraints, with the numbers that the cache gives the shared
--   expressions, and `verify_complete_add`, whose steps are functions on the cells of the row; the message
--   of a wrong `y3` is there without its values.
--   The kinds of gates and arguments of gate.rs and argument.rs are in
--   Kimchi/Gates.antt, and kimchi/src/alphas.rs is Kimchi/Alphas.antt. An iterator is the list of what
--   it still gives, and the hash map of `Alphas` is a function.
--   kimchi/src/circuits/expr.rs is in Kimchi/Expr.antt (expressions and their degree) and its children:
--   Columns.antt (variables and their values, with the evaluations of kimchi/src/proof.rs),
--   Evaluate.antt (`evaluate_`, as `evaluate`) and Polish.antt (`to_polish`, and
--   `PolishToken::evaluate` as `evaluate_polish`). The result there is an `Attempt`: a value, an
--   `ExprError`, or a panic, whose message is not modelled. The inverse, the quotient and the vanishing
--   polynomial are parameters.
--   kimchi/src/circuits/polynomials/endomul_scalar.rs is Kimchi/EndomulScalar.antt: `gen_witness`,
--   whose loops are `scan_rows` and `scan_crumbs`, and `verify_endomul_scalar`. The columns of a witness
--   are a function from their numbers to lists. The theorems are for at most sixteen rows, the 256 bits
--   that a scalar has; a scalar that does not fit the bits fails the assertion of the code.
--   kimchi/src/circuits/polynomials/poseidon.rs is Kimchi/PoseidonGate.antt: `generate_witness`, whose
--   loops are `witness_rows` and `witness_rounds`. Kimchi/PoseidonGate/Verify.antt is `verify_poseidon` of
--   the same file, with the loops `check_rounds` and `check_cells`; the message of a refused row is there
--   without its indices, and of the constraint system only the matrix is taken. Kimchi/PoseidonGate/Gadget.antt is
--   `create_poseidon_gadget`, whose loop is `gadget_rows`.
--   The arithmetic of kimchi/src/circuits/expr.rs is Kimchi/Expr/Scalar.antt, on constants, and
--   Kimchi/Expr/Arith.antt, on expressions, where the traits that it asks of constants are the record
--   `Coefficient`. The linearization is Kimchi/Expr/Linearize.antt: `monomials`, `mul_monomials` and
--   `linearize`, whose maps are association lists, with functions that order them as parameters for the
--   order in which a map is iterated; its loops are `power_loop`, which takes the 64 bits of an exponent,
--   `add_terms`, `sub_terms` and `place_all`.
--   Not modelled: the evaluation of expressions and of the generic gate over a domain, which takes the
--   polynomials of `ark_poly`; the scalar multiplications, range checks, ChaCha and the Cairo gate, the
--   constraints of the Poseidon gate and of the scalar gate, the lookup tables, the prover and the
--   verifier.
--
-- The polynomial commitment, the curves, the circuit builder and the OCaml generator are
-- not modelled.
pub mod Prelude
pub mod Outcome
pub mod Field
pub mod Cairo
pub mod Oracle
pub mod Hasher
pub mod Kimchi
pub mod Signer
pub mod Utils
