-- ===== src/Policy.antt =====
-- internal/policy/policy.go: the authorization decision. `Types` has the records, `Compile` builds
-- an engine from a configuration, `Evaluate` decides; the proofs are in the modules behind them.
pub mod Types
pub mod Compile
pub mod Evaluate
