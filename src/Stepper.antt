-- ===== src/Stepper.antt =====
-- The time steppers of source/simulation/stepper: the Runge-Kutta tables, the explicit and the
-- implicit stepper, and the Strang splitting of two of them.
pub mod Schemes
pub mod Coefficients
pub mod StageTimes
pub mod Consistency
pub mod Update
pub mod Strang
pub mod Implicit
pub mod Explicit
