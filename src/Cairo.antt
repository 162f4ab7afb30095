-- ===== src/Cairo.antt =====
-- cairo/src: a runner for Cairo programs. `Flags` and `Word` decode instructions, `Helper` reads the
-- bytes of field elements, `Memory` is the growing memory, `Runner` executes steps.
pub mod Flags
pub mod Helper
pub mod Word
pub mod Memory
pub mod Runner
mod Tests
