-- ===== src/Workflow/Types.antt =====
-- internal/ascpworkflow/workflow.go: workflows, actors and receipts. Points of time of an actor's
-- step-up are nanoseconds, 0 being the zero time; all other times are Unix seconds.
use flowops.Prelude.{ℕ, ◌==◌, Bool, List, Text}

-- `unknown_kind` and `unknown_role` are any text that names none of the others.
pub data Kind : Type 0 where
  payout_change signer_caps verifier_governance production_gate break_glass role_admin : Kind
  module_governance directory_cancel unknown_kind : Kind

pub data State : Type 0 where
  proposed approved_pending_chain submitted confirmed finalized reverted reorged timed_out : State
  requires_reapproval cancelled expired : State

-- `no_reason` is the empty text.
pub data TerminalReason : Type 0 where
  no_reason receipt_rejected mined_revert reorg_detected submission_timeout : TerminalReason
  safe_nonce_conflict precondition_changed : TerminalReason

pub data Role : Type 0 where
  org_admin seller_admin signer_operator incident_responder unknown_role : Role

-- Go's == on the texts, by the place of each constructor.
abbrev pub kind_code : Kind → ℕ
kind_code payout_change = 0
kind_code signer_caps = 1
kind_code verifier_governance = 2
kind_code production_gate = 3
kind_code break_glass = 4
kind_code role_admin = 5
kind_code module_governance = 6
kind_code directory_cancel = 7
kind_code unknown_kind = 8

abbrev pub state_code : State → ℕ
state_code proposed = 0
state_code approved_pending_chain = 1
state_code submitted = 2
state_code confirmed = 3
state_code finalized = 4
state_code reverted = 5
state_code reorged = 6
state_code timed_out = 7
state_code requires_reapproval = 8
state_code cancelled = 9
state_code expired = 10

abbrev pub state_eq : State → State → Bool
state_eq s t = state_code s == state_code t

abbrev pub reason_code : TerminalReason → ℕ
reason_code no_reason = 0
reason_code receipt_rejected = 1
reason_code mined_revert = 2
reason_code reorg_detected = 3
reason_code submission_timeout = 4
reason_code safe_nonce_conflict = 5
reason_code precondition_changed = 6

pub record Actor : Type 0 where
  pub organization_id : Text
  pub principal_id : Text
  pub role : Role
  pub step_up_at : ℕ
  pub step_up_until : ℕ

-- Replayed, which only returned copies carry, is the Boolean beside a returned workflow.
pub record Workflow : Type 0 where
  pub workflow_id : Text
  pub organization_id : Text
  pub kind : Kind
  pub chain_action : Text
  pub payload_hash : Text
  pub chain_id : ℕ
  pub contract_address : Text
  pub function_selector : Text
  pub calldata : Text
  pub governance_action : Text
  pub proposed_by : Text
  pub proposer_role : Role
  pub state : State
  pub approved_by : Text
  pub approver_role : Role
  pub cancelled_by : Text
  pub proposer_step_up_at : ℕ
  pub proposer_step_up_until : ℕ
  pub approver_step_up_at : ℕ
  pub approver_step_up_until : ℕ
  pub proposed_at : ℕ
  pub approved_at : ℕ
  pub cancelled_at : ℕ
  pub expired_at : ℕ
  pub expires_at : ℕ
  pub submission_tx_hash : Text
  pub submitted_at : ℕ
  pub confirmed_at : ℕ
  pub completion_receipt : Text
  pub completion_digest : Text
  pub finalized_at : ℕ
  pub terminal_reason : TerminalReason
  pub terminal_at : ℕ

pub record AuthorityObservation : Type 0 where
  pub provider : Text
  pub chain_id : ℕ
  pub transaction_hash : Text
  pub block_number : ℕ
  pub block_hash : Text
  pub contract_address : Text
  pub contract_code_hash : Text
  pub on_chain_principal : Text
  pub relayer : Text
  pub function_selector : Text
  pub action_event_signature : Text
  pub secondary_action_event_signature : Text
  pub workflow_event_signature : Text
  pub workflow_id : Text
  pub payload_hash : Text
  pub action_log_index : ℕ
  pub secondary_action_log_index : ℕ
  pub workflow_log_index : ℕ
  pub observed_timelock_seconds : ℕ
  pub finality : Text

pub record CompletionReceipt : Type 0 where
  pub workflow_id : Text
  pub payload_hash : Text
  pub chain_action : Text
  pub chain_id : ℕ
  pub transaction_hash : Text
  pub block_number : ℕ
  pub block_hash : Text
  pub block_timestamp : ℕ
  pub confirmed_head : ℕ
  pub finalized_head : ℕ
  pub log_index : ℕ
  pub contract_address : Text
  pub event_signature : Text
  pub function_selector : Text
  pub action_event_signature : Text
  pub action_log_indexes : List ℕ
  pub observers : List Text
  pub evidence_digest : Text
  pub finality : Text
  pub authority_proof : List AuthorityObservation

pub record SafeRetryProof : Type 0 where
  pub workflow_id : Text
  pub previous_transaction_hash : Text
  pub retry_transaction_hash : Text
  pub outcome : Text
  pub previous_canonical : Bool
  pub safe_address : Text
  pub safe_nonce : ℕ
  pub safe_tx_hash : Text
  pub exec_calldata_hash : Text
  pub verified_payload_hash : Text
  pub observers : List Text
  pub evidence_digest : Text
  pub observed_at : ℕ

pub data WorkflowError : Type 0 where
  invalid_workflow forbidden_role step_up_required same_principal not_found : WorkflowError
  idempotency_conflict state_conflict completion_unavailable governance_unavailable : WorkflowError
  invalid_receipt receipt_owned no_workflow_id : WorkflowError
