-- ===== src/Swe.antt =====
-- The shallow water problem (source/problem/SWE).
pub mod Inputs
