-- ===== src/Storage.antt =====
-- nexus-storage: how a partition's log finds its batches.
pub mod SparseIndex
mod Tests
