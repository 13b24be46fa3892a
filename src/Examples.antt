-- ===== src/Examples.antt =====
-- Tests on concrete inputs, and the theorems at inputs that meet their hypotheses.
mod Steppers
mod Meshes
mod Quadrature
mod Metadata
mod Partitioner
mod Inputs
