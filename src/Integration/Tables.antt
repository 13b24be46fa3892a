-- ===== src/Integration/Tables.antt =====
-- The tables of the quadrature rules (source/integration).
pub mod DunavantTo10
pub mod DunavantTo16
pub mod DunavantTo20
pub mod GaussTo9
pub mod GaussTo14
pub mod GaussTo18
pub mod GaussTo22
pub mod GaussTo25
pub mod GaussTo28
pub mod GaussTo31
pub mod GaussTo33
