-- ===== src/Workflow/Boundary.antt =====
-- internal/ascpworkflow/workflow.go: the methods of the service for the relayer, the reconciler and the
-- completion worker.
use flowops.Prelude.{
  ◌/◌, ltb, ◌==◌, Bool, true, not, ◌||◌, ◌&&◌, none, some, Text, text_eq, is_empty, ok, err,
  if◌then◌else◌,
}
use flowops.Workflow.Grammar.{identifier, hash}
use flowops.Workflow.Types.{
  State, finalized, requires_reapproval, state_eq, TerminalReason, Workflow, CompletionReceipt,
  SafeRetryProof, invalid_workflow, state_conflict, completion_unavailable, invalid_receipt,
  not_found,
}
use flowops.Workflow.Rules.{second, valid_chain_failure, valid_safe_retry_proof, valid_receipt}
use flowops.Workflow.Store.{MemoryStore, Answer, get}
use flowops.Workflow.Chain.{
  submit, retry_submission, confirm, complete, completion_candidate_state, fail_chain,
}
use flowops.Workflow.Binding.{Outside, Answers, completion_digest}

module _ (o : Outside) where
  abbrev pub well_named : Text → Text → Bool
  well_named organization_id workflow_id =
      identifier organization_id && hash o.unicode_lower workflow_id

  -- The method RecordSubmission.
  unfoldable pub record_submission :
      Answers → Text → Text → Text → MemoryStore → Answer × MemoryStore
  record_submission ans organization_id workflow_id transaction_hash s =
      if not (well_named organization_id workflow_id) || not (hash o.unicode_lower transaction_hash)
      then (err invalid_workflow, s)
      else submit organization_id workflow_id transaction_hash (ans.now / second) s

  -- The method RecordProvenRetry.
  unfoldable pub record_proven_retry :
      Answers → Text → Text → Text → SafeRetryProof → MemoryStore → Answer × MemoryStore
  record_proven_retry ans organization_id workflow_id transaction_hash proof s =
      if not (well_named organization_id workflow_id)
        || not (hash o.unicode_lower transaction_hash)
        || not (
            valid_safe_retry_proof o.unicode_lower workflow_id transaction_hash proof
              (ans.now / second))
      then (err invalid_workflow, s)
      else retry_submission o.unicode_lower organization_id workflow_id transaction_hash proof
          (ans.now / second) s

  -- The method RecordConfirmation.
  unfoldable pub record_confirmation :
      Answers → Text → Text → Text → MemoryStore → Answer × MemoryStore
  record_confirmation ans organization_id workflow_id transaction_hash s =
      if not (well_named organization_id workflow_id) || not (hash o.unicode_lower transaction_hash)
      then (err invalid_workflow, s)
      else confirm organization_id workflow_id transaction_hash (ans.now / second) s

  -- The receipt speaks of the workflow's own call, in a block behind the approval.
  unfoldable pub receipt_fits : Workflow → CompletionReceipt → Bool
  receipt_fits w r =
      valid_receipt o.unicode_lower r
      && text_eq w.workflow_id r.workflow_id
      && text_eq w.payload_hash r.payload_hash
      && text_eq w.chain_action r.chain_action
      && w.chain_id == r.chain_id
      && text_eq w.contract_address r.contract_address
      && text_eq w.function_selector r.function_selector
      && ltb 0 w.approved_at
      && ltb w.approved_at r.block_timestamp

  -- ObserveAndComplete behind the observer's answer.
  unfoldable pub complete_observed :
      Answers → Text → Text → Workflow → CompletionReceipt → MemoryStore → Answer × MemoryStore
  complete_observed ans organization_id workflow_id w r s =
      if not (receipt_fits w r)
      then (err invalid_receipt, s)
      else if not ans.authority_passes
      then (err invalid_receipt, s)
      else complete organization_id workflow_id r (completion_digest o r) (o.marshal_receipt r)
          (ans.now / second) s

  -- The method ObserveAndComplete.
  unfoldable pub observe_and_complete : Answers → Text → Text → MemoryStore → Answer × MemoryStore
  observe_and_complete ans organization_id workflow_id s =
      if not ans.has_observer
      then (err completion_unavailable, s)
      else if not (well_named organization_id workflow_id)
      then (err invalid_receipt, s)
      else elim (get organization_id workflow_id s) [
        | none ↦ (err not_found, s)
        | some w ↦
            if state_eq w.state finalized && not (is_empty w.completion_digest)
            then (ok (w, true), s)
            else if not (completion_candidate_state w.state)
            then (err state_conflict, s)
            else elim ans.observed [
              | none ↦ (err invalid_receipt, s)
              | some r ↦ complete_observed ans organization_id workflow_id w r s
            ]
      ]

  -- The method RecordChainFailure.
  unfoldable pub record_chain_failure :
      Answers → Text → Text → State → TerminalReason → MemoryStore → Answer × MemoryStore
  record_chain_failure ans organization_id workflow_id state reason s =
      if not (well_named organization_id workflow_id) || not (valid_chain_failure state reason)
      then (err invalid_workflow, s)
      else fail_chain organization_id workflow_id state reason (ans.now / second) s

  -- The method RequireReapproval.
  unfoldable pub require_reapproval :
      Answers → Text → Text → TerminalReason → MemoryStore → Answer × MemoryStore
  unfolding record_chain_failure
  require_reapproval ans organization_id workflow_id reason s =
      record_chain_failure ans organization_id workflow_id requires_reapproval reason s
