-- ===== src/Reactor.antt =====
-- nexus-core, the reactor: how the cores hand work to each other.
pub mod SpscQueue
mod Tests
