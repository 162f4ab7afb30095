-- ===== src/Kimchi.antt =====
-- kimchi/src: the proof system. `Gates` names the gates and arguments, `Alphas` hands out the powers
-- of the challenge alpha, `Expr` are the expressions of the constraints and their compilation.
pub mod Gates
pub mod Argument
pub mod Alphas
pub mod Expr
pub mod EndomulScalar
pub mod PoseidonGate
pub mod Circuit
pub mod Generic
pub mod CompleteAdd
mod Tests
