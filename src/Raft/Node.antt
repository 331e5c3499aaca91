-- ===== src/Raft/Node.antt =====
-- consensus/raft_node.cpp: one replica as a synchronous state machine without input or output.
pub mod State
pub mod Replication
pub mod Election
pub mod Handlers
pub mod Step
pub mod Evolution
pub mod Roles
pub mod Campaign
pub mod Commit
pub mod Matching
pub mod Voting
