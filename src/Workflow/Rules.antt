-- ===== src/Workflow/Rules.antt =====
-- internal/ascpworkflow/workflow.go: who may do what, and the checks of failures, proofs and receipts.
use flowops.Prelude.{
  ℕ, bool_eq, ◌+◌, ◌*◌, ltb, leb, ◌==◌, Bool, true, false, not, ◌||◌, ◌&&◌, List, [], ◌∷◌, Text,
  codes, text_eq, all, length, nat_in, is_empty, Result, ◌>>◌, fail_if,
}
use flowops.Workflow.Grammar.{identifier, hash, canonical_address, selector, distinct}
use flowops.Workflow.Types.{
  Kind, payout_change, signer_caps, verifier_governance, production_gate, break_glass, role_admin,
  module_governance, directory_cancel, State, reverted, reorged, timed_out, requires_reapproval,
  TerminalReason, receipt_rejected, mined_revert, reorg_detected, submission_timeout,
  safe_nonce_conflict, precondition_changed, Role, org_admin, seller_admin, signer_operator,
  incident_responder, unknown_role, Actor, Workflow, CompletionReceipt, SafeRetryProof,
  WorkflowError, invalid_workflow, step_up_required,
}

abbrev pub second : ℕ
second = 1000000000

abbrev pub proposal_ttl : ℕ
proposal_ttl = 24 * 60 * 60

unfoldable pub can_propose : Kind → Role → Bool
can_propose payout_change seller_admin = true
can_propose directory_cancel seller_admin = true
can_propose signer_caps signer_operator = true
can_propose verifier_governance signer_operator = true
can_propose module_governance signer_operator = true
can_propose production_gate org_admin = true
can_propose break_glass org_admin = true
can_propose role_admin org_admin = true
can_propose _ _ = false

unfoldable pub can_approve : Kind → Role → Bool
can_approve payout_change seller_admin = true
can_approve payout_change org_admin = true
can_approve signer_caps org_admin = true
can_approve verifier_governance org_admin = true
can_approve production_gate org_admin = true
can_approve role_admin org_admin = true
can_approve module_governance org_admin = true
can_approve directory_cancel org_admin = true
can_approve break_glass incident_responder = true
can_approve _ _ = false

abbrev pub is_org_admin : Role → Bool
is_org_admin org_admin = true
is_org_admin _ = false

unfoldable pub can_cancel : Workflow → Actor → Bool
can_cancel w actor =
    text_eq actor.principal_id w.proposed_by
    || is_org_admin actor.role
    || can_approve w.kind actor.role

unfoldable pub requires_chain_receipt : Kind → Bool
requires_chain_receipt production_gate = false
requires_chain_receipt role_admin = false
requires_chain_receipt _ = true

abbrev pub valid_role : Role → Bool
valid_role unknown_role = false
valid_role _ = true

-- `now` is in nanoseconds.
unfoldable pub validate_actor : Actor → ℕ → Bool → Result WorkflowError (Unit {0})
validate_actor actor now require_step_up = do
  fail_if
      (not (identifier actor.organization_id)
        || not (identifier actor.principal_id)
        || not (valid_role actor.role))
      invalid_workflow
  fail_if
      (require_step_up
        && (actor.step_up_at == 0
            || ltb now actor.step_up_at
            || ltb (actor.step_up_at + 300 * second) now
            || actor.step_up_until == 0
            || leb actor.step_up_until now))
      step_up_required

unfoldable pub valid_chain_failure : State → TerminalReason → Bool
valid_chain_failure reverted mined_revert = true
valid_chain_failure reorged reorg_detected = true
valid_chain_failure timed_out submission_timeout = true
valid_chain_failure requires_reapproval receipt_rejected = true
valid_chain_failure requires_reapproval safe_nonce_conflict = true
valid_chain_failure requires_reapproval precondition_changed = true
valid_chain_failure _ _ = false

-- Two to five observers, each named once.
abbrev pub valid_observers : List Text → Bool
valid_observers observers =
    not (ltb (length observers) 2)
    && not (ltb 5 (length observers))
    && all identifier observers
    && distinct observers

unfoldable pub valid_safe_retry_proof : (Text → Text) → Text → Text → SafeRetryProof → ℕ → Bool
valid_safe_retry_proof unicode_lower workflow_id transaction_hash p now =
    text_eq p.workflow_id workflow_id
    && text_eq p.retry_transaction_hash transaction_hash
    && hash unicode_lower p.previous_transaction_hash
    && hash unicode_lower p.retry_transaction_hash
    && not p.previous_canonical
    && (text_eq p.outcome (codes "DROPPED") || text_eq p.outcome (codes "REORGED"))
    && canonical_address unicode_lower p.safe_address
    && hash unicode_lower p.safe_tx_hash
    && hash unicode_lower p.exec_calldata_hash
    && hash unicode_lower p.verified_payload_hash
    && hash unicode_lower p.evidence_digest
    && ltb 0 p.observed_at
    && leb p.observed_at (now + 60)
    && leb now (p.observed_at + 60)
    && valid_observers p.observers

abbrev pub texts_eq : List Text → List Text → Bool
texts_eq [] [] = true
texts_eq [] (_ ∷ _) = false
texts_eq (_ ∷ _) [] = false
texts_eq (s ∷ ss) (t ∷ ts) = text_eq s t && texts_eq ss ts

unfoldable pub same_safe_retry_proof : SafeRetryProof → SafeRetryProof → Bool
same_safe_retry_proof p q =
    text_eq p.workflow_id q.workflow_id
    && text_eq p.previous_transaction_hash q.previous_transaction_hash
    && text_eq p.retry_transaction_hash q.retry_transaction_hash
    && text_eq p.outcome q.outcome
    && bool_eq p.previous_canonical q.previous_canonical
    && text_eq p.safe_address q.safe_address
    && p.safe_nonce == q.safe_nonce
    && text_eq p.safe_tx_hash q.safe_tx_hash
    && text_eq p.exec_calldata_hash q.exec_calldata_hash
    && text_eq p.verified_payload_hash q.verified_payload_hash
    && text_eq p.evidence_digest q.evidence_digest
    && p.observed_at == q.observed_at
    && texts_eq p.observers q.observers

abbrev pub distinct_numbers : List ℕ → Bool
distinct_numbers [] = true
distinct_numbers (n ∷ ns) = not (nat_in n ns) && distinct_numbers ns

abbrev pub governance_workflow_bound_topic : Text
governance_workflow_bound_topic =
    codes "0x71840a8df3cf7e14c302ff72b4fd1c651a2845389dfb0a4fdd884a2ffb104bfe"

unfoldable pub valid_receipt : (Text → Text) → CompletionReceipt → Bool
valid_receipt unicode_lower r =
    hash unicode_lower r.workflow_id
    && hash unicode_lower r.payload_hash
    && (r.chain_id == 8453 || r.chain_id == 84532)
    && hash unicode_lower r.transaction_hash
    && hash unicode_lower r.block_hash
    && not (r.block_number == 0)
    && canonical_address unicode_lower r.contract_address
    && not (r.block_timestamp == 0)
    && text_eq r.event_signature governance_workflow_bound_topic
    && text_eq r.finality (codes "FINALIZED")
    && leb r.block_number r.confirmed_head
    && leb r.block_number r.finalized_head
    && selector unicode_lower r.function_selector
    && hash unicode_lower r.action_event_signature
    && hash unicode_lower r.evidence_digest
    && not (is_empty r.action_log_indexes)
    && leb (length r.action_log_indexes) 100
    && all (λ i. ltb i r.log_index) r.action_log_indexes
    && distinct_numbers r.action_log_indexes
    && valid_observers r.observers
