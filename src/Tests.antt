-- ===== src/Tests.antt =====
-- The theorems at concrete inputs.
pub mod Data
pub mod Payments
mod Wire
mod Budgets
mod Signing
mod Claims
mod Approvals
pub mod Governance
mod Proposals
mod Relaying
mod Events
mod Holdings
mod Health
