-- ===== src/Cairo/Runner.antt =====
-- cairo/src/runner.rs: execution of Cairo programs.
pub mod State
pub mod Step
pub mod Instruction
pub mod Contents
pub mod Refine
pub mod Calls
pub mod Asserts
pub mod Program
