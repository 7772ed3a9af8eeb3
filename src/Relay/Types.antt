-- ===== src/Relay/Types.antt =====
-- internal/ascpgovernancerelay: the data of kernel.go and service.go. Times are nanoseconds, 0 being
-- the zero time, but for the Unix seconds of blocks and of a command's execution.
use flowops.Prelude.{ℕ, ◌==◌, Bool, List, Text}
use flowops.Workflow.Types.{TerminalReason, WorkflowError}

-- pkg/safegovernance's transaction: what the relay reads of it.
pub record Transaction : Type 0 where
  pub chain_id : ℕ
  pub safe : Text
  pub nonce : ℕ

-- ascpworkflow.GovernanceExecutionCommand: what the relay itself reads of it.
pub record Command : Type 0 where
  pub workflow_id : Text
  pub organization_id : Text
  pub chain_id : ℕ
  pub execute_after : ℕ

pub record Snapshot : Type 0 where
  pub chain_id : ℕ
  pub safe_address : Text
  pub safe_nonce : ℕ
  pub owners : List Text
  pub threshold : ℕ
  pub verified_payload_hash : Text
  pub block_number : ℕ
  pub block_hash : Text
  pub block_timestamp : ℕ
  pub confirmed_head : ℕ
  pub observers : List Text
  pub evidence_digest : Text
  pub observed_at : ℕ

-- Without the fields of the snapshot that Prepare copies for the audit.
pub record Prepared : Type 0 where
  pub workflow_id : Text
  pub organization_id : Text
  pub payload_hash : Text
  pub transaction : Transaction
  pub evidence_quorum : ℕ
  pub safe_tx_hash : Text
  pub exec_calldata_hash : Text
  pub owner_set_hash : Text

-- `no_outcome` is any other text, the empty one among them.
pub data Outcome : Type 0 where
  pending dropped reorged mined_revert finalized no_outcome : Outcome

abbrev pub outcome_code : Outcome → ℕ
outcome_code pending = 0
outcome_code dropped = 1
outcome_code reorged = 2
outcome_code mined_revert = 3
outcome_code finalized = 4
outcome_code no_outcome = 5

pub record OutcomeEvidence : Type 0 where
  pub workflow_id : Text
  pub outer_transaction_hash : Text
  pub outcome : Outcome
  pub previous_canonical : Bool
  pub chain_id : ℕ
  pub safe_address : Text
  pub current_safe_nonce : ℕ
  pub safe_tx_hash : Text
  pub exec_calldata_hash : Text
  pub verified_payload_hash : Text
  pub block_number : ℕ
  pub block_hash : Text
  pub confirmed_head : ℕ
  pub observers : List Text
  pub evidence_digest : Text
  pub observed_at : ℕ

-- DecisionResult: the reason stands where the decision is a reapproval.
pub data Decision : Type 0 where
  wait retry_exact finished : Decision
  reapprove : TerminalReason → Decision

pub data State : Type 0 where
  awaiting_signatures ready broadcasting submitted pending_observation : State
  retryable reapproval_required finalized_observed : State

abbrev pub state_code : State → ℕ
state_code awaiting_signatures = 0
state_code ready = 1
state_code broadcasting = 2
state_code submitted = 3
state_code pending_observation = 4
state_code retryable = 5
state_code reapproval_required = 6
state_code finalized_observed = 7

abbrev pub state_eq : State → State → Bool
state_eq s t = state_code s == state_code t

pub record OuterArtifact : Type 0 where
  pub handle : Text
  pub transaction_hash : Text
  pub safe_tx_hash : Text
  pub exec_calldata_hash : Text
  pub prepared_at : ℕ

-- Without what Authorize keeps for its own replays.
pub record Job : Type 0 where
  pub outbox_id : Text
  pub command : Command
  pub state : State
  pub prepared : Prepared
  pub artifact_handle : Text
  pub outer : OuterArtifact
  pub last_outcome : OutcomeEvidence
  pub attempt_count : ℕ
  pub lease_owner : Text
  pub lease_token : Text
  pub lease_expires_at : ℕ
  pub updated_at : ℕ

pub record Lease : Type 0 where
  pub job : Job
  pub token : Text

-- `outside_failed` is the error of a call that leaves the relay, `workflow_refused` one of the
-- workflow service.
pub data RelayError : Type 0 where
  invalid_command invalid_snapshot invalid_outcome insufficient_quorum : RelayError
  no_work state_conflict lease_lost outside_failed : RelayError
  workflow_refused : WorkflowError → RelayError
