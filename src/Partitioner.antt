-- ===== src/Partitioner.antt =====
-- The mesh partitioner (partitioner).
pub mod Csr
pub mod Weights
pub mod Layout
pub mod Submeshes
pub mod Partition
