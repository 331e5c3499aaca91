-- ===== src/Raft.antt =====
-- nexus-consensus: Raft for one partition.
pub mod Types
pub mod Log
pub mod Node
pub mod Cluster
pub mod Rpc
pub mod Envelope
pub mod StateStore
pub mod Carrier
mod Tests
