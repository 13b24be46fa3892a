-- ===== src/Stepper/Schemes.antt =====
-- The tables of source/simulation/stepper/explicit_ssp_rk_stepper.cpp, grouped by their order.
pub mod Table
pub mod Low
pub mod Order3
pub mod Order4
