-- ===== src/Oracle/Constants.antt =====
-- oracle/src/constants.rs: the parameters of a sponge, and the two sets that the program uses.
use proof_systems.Prelude.{ℕ, Bool, true, false}

pub record SpongeConstants : Type 0 where
  pub capacity : ℕ
  pub width : ℕ
  pub rate : ℕ
  pub rounds_full : ℕ
  pub rounds_partial : ℕ
  pub half_rounds_full : ℕ
  pub sbox : ℕ
  pub full_mds : Bool
  pub initial_ark : Bool

abbrev pub legacy : SpongeConstants
legacy = record {
  capacity = 1;
  width = 3;
  rate = 2;
  rounds_full = 63;
  rounds_partial = 0;
  half_rounds_full = 0;
  sbox = 5;
  full_mds = true;
  initial_ark = true;
}

abbrev pub kimchi : SpongeConstants
kimchi = record {
  capacity = 1;
  width = 3;
  rate = 2;
  rounds_full = 55;
  rounds_partial = 0;
  half_rounds_full = 0;
  sbox = 7;
  full_mds = true;
  initial_ark = false;
}
