-- ===== src/Utils.antt =====
-- utils/src: small helpers that the other parts of the library use.
pub mod AdjacentPairs
pub mod Math
mod Tests
