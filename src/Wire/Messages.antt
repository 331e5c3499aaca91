-- ===== src/Wire/Messages.antt =====
-- protocol/messages.hpp and .cpp: the requests and responses of the binary protocol.
pub mod Cluster
pub mod Data
pub mod Offsets
pub mod Group
