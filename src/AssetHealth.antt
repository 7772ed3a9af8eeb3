-- ===== src/AssetHealth.antt =====
-- internal/ascpassethealth/health.go: the health of the configured asset on its chain.
pub mod Types
pub mod Evaluate
pub mod Store
pub mod Quorum
pub mod Recovery
