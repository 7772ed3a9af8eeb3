-- ===== src/Relay.antt =====
-- internal/ascpgovernancerelay: the relay between an approved workflow and its transaction.
pub mod Types
pub mod Kernel
pub mod Store
pub mod Service
pub mod Rounds
pub mod Observers
pub mod Retry
pub mod Recovery
