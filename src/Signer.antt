-- ===== src/Signer.antt =====
-- signer/src: Schnorr signatures over Pallas, with keys and addresses.
pub mod Keys
pub mod Schnorr
mod Tests
