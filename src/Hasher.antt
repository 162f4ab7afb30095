-- ===== src/Hasher.antt =====
-- hasher/src: `Input` is the random oracle input and its serialisation, `Poseidon` the hasher that
-- absorbs it.
pub mod Input
pub mod Poseidon
pub mod Sample
mod Tests
