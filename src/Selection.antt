-- ===== src/Selection.antt =====
-- internal/selection/selector.go: the backend that serves a workload.
pub mod Quantity
pub mod Ranking
pub mod Features
pub mod Pipeline
pub mod Tests
