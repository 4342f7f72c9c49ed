-- ===== src/Projection.antt =====
-- What a Workload and its claims are projected to: the placeholders (internal/projection), the
-- composition of values and the resolution of references (internal/reconcile).
pub mod Placeholder
pub mod Merge
pub mod Values
pub mod Resolver
mod Tests
