-- ===== src/Broker.antt =====
-- nexus-broker: what a partition keeps about its producers and their transactions.
pub mod Producer
pub mod Transactions
pub mod Coordinator
pub mod Group
mod Tests
