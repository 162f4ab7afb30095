-- ===== src/Oracle.antt =====
-- oracle/src: the Poseidon permutation and the sponge over it.
pub mod Constants
pub mod Permutation
pub mod Sponge
pub mod Challenge
pub mod FqSponge
mod Tests
