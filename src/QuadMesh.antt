-- ===== src/QuadMesh.antt =====
-- The mesh generator mesh_generators/quad_mesh_generator.cpp.
pub mod Pattern
pub mod Cells
pub mod Cover
pub mod Patterns
pub mod Geometry
pub mod Sides
pub mod Input
