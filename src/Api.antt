-- ===== src/Api.antt =====
-- The API types of api/v1b1, a module for each file there.
pub mod Meta
pub mod Workload
pub mod Claim
pub mod Plan
pub mod Config
