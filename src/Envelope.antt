-- ===== src/Envelope.antt =====
-- pkg/envelope/envelope.go: the signed authorization, its grammar, validation and signature.
pub mod Grammar
pub mod Types
pub mod Escrow
pub mod Validate
pub mod Sign
