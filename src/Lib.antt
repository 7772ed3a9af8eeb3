-- ===== src/Lib.antt =====
-- FlowOps authorizes payments of software agents. The control plane decides on a payment intent by a
-- policy, asks a human where the policy says so, and issues a signed authorization; the customer's
-- own signer verifies the authorization against its own limits, claims its nonce, and broadcasts the
-- transaction at most once. Both keep an append-only journal, from which a restart rebuilds the
-- memory.
--
-- Prelude      tests on numbers, byte texts, results, maps as association lists
-- Strings      strings.TrimSpace and strings.ToLower on UTF-8 bytes, the lines of bufio.Scanner
-- Amount       parsePositive and parseNonNegative of internal/policy/policy.go, and math/big's text
-- Hex          encoding/hex
-- Envelope     pkg/envelope/envelope.go: Grammar (identifiers, addresses), Types, Escrow
--              (EscrowTerms.Validate, DeriveEscrowCallID), Validate (Authorization.Validate), Sign
--              (CanonicalBytes, Digest, Sign, Verify)
-- Policy       internal/policy/policy.go: Types, Compile, Evaluate
-- PilotLimits  pkg/pilotlimits/limits.go
-- Receipt      pkg/broadcastreceipt/receipt.go
-- Signer       pkg/referencesigner: Types (executor_types.go), Journal (attempt_journal.go), World and
--              Executor (executor.go), Nonces (nonces.go), Verifier (verifier.go)
-- ControlPlane internal/controlplane: Intent (types.go), Memory (applyEvent of lifecycle.go), Budget
--              (what is spent and outstanding), Lifecycle (Submit, Decide, Issue, SweepExpired),
--              Journal (journal.go)
-- Workflow     internal/ascpworkflow: Grammar, Types, Rules and the methods of the service of workflow.go
--              (Service for people, Boundary for the relayer and the observer), the store of memory.go
--              (Store for decisions, Chain for what became of a transaction, Pending for its pages); Steps
--              makes each call of the service a step of the store
-- Relay        internal/ascpgovernancerelay: Types, Kernel (kernel.go), Store (memory.go), Service and
--              Rounds (service.go: RelayOnce and ObserveOnce), over the workflows of Workflow
-- Reservation  internal/ascpreservation: Totals and Limits, what a store holds of a budget
-- AssetHealth  internal/ascpassethealth: Types and Evaluate (health.go), Store (the memory store and the
--              service of health.go, validateRecoveryProof of recovery.go)
-- Tests        the theorems at concrete inputs
--
-- A function has its Go name in this spelling: `validate_terms` is EscrowTerms.Validate. A Go string
-- is the list of its bytes, a map an association list, a big.Int a natural number. An error is a
-- constructor, in the order of the source's checks. A method on a mutex-guarded struct takes its
-- state and returns the new one. What the code calls outside the repository's own logic is a
-- parameter: the hashes, ed25519 and encoding/json are the records Crypto, Outside and Codec, with the
-- binding of a governance action to its call (pkg/governanceworkflow, not modelled) beside them; the
-- clock, the wallet, the gates, the identifier sources and the file's writes are answers that a
-- theorem quantifies over, failures and the death of the process among them. A pointer to escrow
-- terms has its address where Go compares it.
--
-- Timestamps and durations are natural numbers: times before 1970 and the overflow of time.Duration
-- are not modelled. All recursion is structural but the printing of a number, which recurses on
-- `Acc`; no function has fuel. Opening, locking and closing files, HTTP and SQL are not modelled, and
-- neither are the other packages of internal, pkg and cmd. In the lifecycle the journal
-- stands as what an append does to its file. The file of nonces and the control plane's journal are
-- bytes; the signer's journal of attempts is a list of lines, of which a torn one is unreadable.
pub mod Prelude
pub mod Strings
pub mod Amount
pub mod Hex
pub mod Envelope
pub mod Policy
pub mod PilotLimits
pub mod Receipt
pub mod Signer
pub mod ControlPlane
pub mod AssetHealth
pub mod Relay
pub mod Reservation
pub mod Workflow
pub mod Tests
