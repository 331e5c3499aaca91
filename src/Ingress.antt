-- ===== src/Ingress.antt =====
-- nexus-ingress: what guards a dependency.
pub mod CircuitBreaker
mod Tests
