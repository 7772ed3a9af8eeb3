-- ===== src/Signer.antt =====
-- pkg/referencesigner: the customer's signer. `Types` has the attempts, `Journal` their durable
-- store, `Executor` the one-way execution, `Verifier` the checks of an authorization.
pub mod Types
pub mod Journal
pub mod World
pub mod Executor
pub mod Nonces
pub mod Verifier
