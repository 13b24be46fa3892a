-- ===== src/Integration.antt =====
-- The quadrature rules of source/integration.
pub mod Signed
pub mod Data
pub mod Tables
pub mod Dunavant
pub mod Gauss
