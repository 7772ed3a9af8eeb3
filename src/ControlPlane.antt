-- ===== src/ControlPlane.antt =====
-- internal/controlplane: payment intents from submission to issuance. `Intent` validates a request,
-- `Memory` applies events, `Budget` counts exposure, `Lifecycle` has the operations.
pub mod Intent
pub mod Memory
pub mod Budget
pub mod Lifecycle
pub mod Journal
