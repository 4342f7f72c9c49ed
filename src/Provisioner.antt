-- ===== src/Provisioner.antt =====
-- The provisioner controller, which serves ResourceClaims: internal/controller/provisioner_lifecycle.go
-- and provisioner_controller.go, and internal/provisioner/.
pub mod Outputs
pub mod Lifecycle
pub mod Strategy
pub mod Secrets
pub mod Phases
pub mod Reconcile
pub mod Consistent
pub mod Supported
pub mod Custody
pub mod Converges
mod Tests
mod SecretWorld
mod CustodyTests
mod ConvergesTests
