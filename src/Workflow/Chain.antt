-- ===== src/Workflow/Chain.antt =====
-- internal/ascpworkflow/memory.go: the methods that record what became of a workflow on the chain.
use flowops.Prelude.{
  ℕ, ltb, ◌==◌, Bool, true, false, not, ◌||◌, ◌&&◌, Option, none, some, List, [], ◌∷◌, ◌++◌, Text,
  text_eq, is_empty, lookup, insert, ok, err, if◌then◌else◌,
}
use flowops.Amount.{big_string}
use flowops.Workflow.Types.{
  State, approved_pending_chain, submitted, confirmed, finalized, reverted, reorged, timed_out,
  requires_reapproval, state_eq, TerminalReason, no_reason, reason_code, Workflow,
  CompletionReceipt, SafeRetryProof, WorkflowError, not_found, state_conflict, receipt_owned,
}
use flowops.Workflow.Rules.{same_safe_retry_proof, valid_safe_retry_proof}
use flowops.Workflow.Store.{MemoryStore, ReceiptOwner, Answer, get, put}

-- A workflow whose transaction has been sent.
abbrev pub sent : Text → ℕ → Workflow → Workflow
sent transaction_hash now w = record w {
  state = submitted;
  submission_tx_hash = transaction_hash;
  submitted_at = now;
  confirmed_at = 0;
  terminal_reason = no_reason;
  terminal_at = 0;
}

-- The method Submit.
unfoldable pub submit : Text → Text → Text → ℕ → MemoryStore → Answer × MemoryStore
submit organization_id workflow_id transaction_hash now s =
    elim (get organization_id workflow_id s) [
      | none ↦ (err not_found, s)
      | some w ↦
          if state_eq w.state submitted && text_eq w.submission_tx_hash transaction_hash
          then (ok (w, true), s)
          else if not (state_eq w.state approved_pending_chain)
          then (err state_conflict, s)
          else if ltb now w.approved_at
          then (err state_conflict, s)
          else (
            ok (sent transaction_hash now w, false),
            put workflow_id (sent transaction_hash now w) s,
          )
    ]

abbrev pub proofs_of : Text → MemoryStore → List SafeRetryProof
proofs_of workflow_id s = elim (lookup workflow_id s.retry_proofs) [ none ↦ [] | some ps ↦ ps ]

abbrev pub is_recorded : Text → SafeRetryProof → List SafeRetryProof → Bool
is_recorded transaction_hash proof [] = false
is_recorded transaction_hash proof (p ∷ ps) =
    text_eq p.retry_transaction_hash transaction_hash && same_safe_retry_proof p proof
    || is_recorded transaction_hash proof ps

module _ (unicode_lower : Text → Text) where
  abbrev pub can_retry : Text → Text → SafeRetryProof → ℕ → Workflow → Bool
  can_retry workflow_id transaction_hash proof now w =
      (state_eq w.state timed_out || state_eq w.state reorged)
      && text_eq proof.previous_transaction_hash w.submission_tx_hash
      && text_eq proof.verified_payload_hash w.payload_hash
      && valid_safe_retry_proof unicode_lower workflow_id transaction_hash proof now

  -- The method RetrySubmission.
  unfoldable pub retry_submission :
      Text → Text → Text → SafeRetryProof → ℕ → MemoryStore → Answer × MemoryStore
  retry_submission organization_id workflow_id transaction_hash proof now s =
      elim (get organization_id workflow_id s) [
        | none ↦ (err not_found, s)
        | some w ↦
            if state_eq w.state submitted && text_eq w.submission_tx_hash transaction_hash
            then (if is_recorded transaction_hash proof (proofs_of workflow_id s)
                then (ok (w, true), s)
                else (err state_conflict, s))
            else if not (can_retry workflow_id transaction_hash proof now w)
            then (err state_conflict, s)
            else (
              ok (sent transaction_hash now w, false),
              record (put workflow_id (sent transaction_hash now w) s) {
                retry_proofs =
                    insert workflow_id (proofs_of workflow_id s ++ proof ∷ []) s.retry_proofs;
              },
            )
      ]

abbrev pub confirmed_at_time : ℕ → Workflow → Workflow
confirmed_at_time now w = record w { state = confirmed; confirmed_at = now }

-- The method Confirm.
unfoldable pub confirm : Text → Text → Text → ℕ → MemoryStore → Answer × MemoryStore
confirm organization_id workflow_id transaction_hash now s =
    elim (get organization_id workflow_id s) [
      | none ↦ (err not_found, s)
      | some w ↦
          if state_eq w.state confirmed && text_eq w.submission_tx_hash transaction_hash
          then (ok (w, true), s)
          else if not (state_eq w.state submitted)
              || not (text_eq w.submission_tx_hash transaction_hash)
          then (err state_conflict, s)
          else if ltb now w.submitted_at
          then (err state_conflict, s)
          else (ok (confirmed_at_time now w, false), put workflow_id (confirmed_at_time now w) s)
    ]

unfoldable pub active_chain_state : State → Bool
active_chain_state s =
    state_eq s approved_pending_chain || state_eq s submitted || state_eq s confirmed

unfoldable pub chain_side_state : State → Bool
chain_side_state s =
    state_eq s reverted
    || state_eq s reorged
    || state_eq s timed_out
    || state_eq s requires_reapproval

unfoldable pub completion_candidate_state : State → Bool
unfolding active_chain_state chain_side_state
completion_candidate_state s = active_chain_state s || chain_side_state s

abbrev pub names_transaction : Text → List SafeRetryProof → Bool
names_transaction transaction_hash [] = false
names_transaction transaction_hash (p ∷ ps) =
    text_eq p.previous_transaction_hash transaction_hash
    || text_eq p.retry_transaction_hash transaction_hash
    || names_transaction transaction_hash ps

unfoldable pub authorized_receipt_attempt : Workflow → Text → MemoryStore → Bool
authorized_receipt_attempt w transaction_hash s =
    if is_empty w.submission_tx_hash
    then state_eq w.state approved_pending_chain
    else text_eq w.submission_tx_hash transaction_hash
      || names_transaction transaction_hash (proofs_of w.workflow_id s)

unfoldable pub receipt_key : CompletionReceipt → Text
receipt_key r = big_string r.chain_id ++ 0 ∷ (r.transaction_hash ++ 0 ∷ big_string r.log_index)

-- The clock stands before none of the workflow's own times.
abbrev pub in_order : ℕ → Workflow → Bool
in_order now w =
    not (ltb now w.approved_at) && not (ltb now w.submitted_at) && not (ltb now w.confirmed_at)

-- The two steps that Complete catches up on.
abbrev pub resubmitted : ℕ → Workflow → Workflow
resubmitted now w =
    if state_eq w.state approved_pending_chain || chain_side_state w.state
    then record w {
      state = submitted;
      submitted_at = now;
      confirmed_at = 0;
      terminal_reason = no_reason;
      terminal_at = 0;
    }
    else w

abbrev pub reconfirmed : ℕ → Workflow → Workflow
reconfirmed now w =
    if state_eq w.state submitted then record w { state = confirmed; confirmed_at = now } else w

unfoldable pub completed : CompletionReceipt → Text → Text → ℕ → Workflow → Workflow
completed r digest bytes now w =
    let v =
      reconfirmed now (resubmitted now (record w { submission_tx_hash = r.transaction_hash })) in
    record v {
      state = finalized;
      completion_digest = digest;
      completion_receipt = bytes;
      finalized_at = now;
    }

-- Another workflow or another completion has the receipt.
abbrev pub owner_conflict : Text → Text → Option ReceiptOwner → Option WorkflowError
owner_conflict workflow_id digest none = none
owner_conflict workflow_id digest (some owner) =
    if not (text_eq owner.workflow_id workflow_id)
    then some receipt_owned
    else if not (text_eq owner.digest digest)
    then some state_conflict
    else none

-- The method Complete.
unfoldable pub complete :
    Text → Text → CompletionReceipt → Text → Text → ℕ → MemoryStore → Answer × MemoryStore
complete organization_id workflow_id r digest bytes now s =
    elim (get organization_id workflow_id s) [
      | none ↦ (err not_found, s)
      | some w ↦
          if state_eq w.state finalized && text_eq w.completion_digest digest
          then (ok (w, true), s)
          else if not (completion_candidate_state w.state)
              || not (text_eq w.payload_hash r.payload_hash)
              || not (authorized_receipt_attempt w r.transaction_hash s)
          then (err state_conflict, s)
          else if not (in_order now w)
          then (err state_conflict, s)
          else elim (owner_conflict workflow_id digest (lookup (receipt_key r) s.receipts)) [
            | some e ↦ (err e, s)
            | none ↦ (
              ok (completed r digest bytes now w, false),
              record (put workflow_id (completed r digest bytes now w) s) {
                receipts =
                    insert (receipt_key r) (record { workflow_id = workflow_id; digest = digest })
                      s.receipts;
              },
            )
          ]
    ]

unfoldable pub valid_failure_transition : State → State → Bool
valid_failure_transition approved_pending_chain to =
    state_eq to timed_out || state_eq to requires_reapproval
valid_failure_transition submitted to =
    state_eq to reverted
    || state_eq to reorged
    || state_eq to timed_out
    || state_eq to requires_reapproval
valid_failure_transition confirmed to = state_eq to reorged || state_eq to requires_reapproval
valid_failure_transition reverted to = state_eq to requires_reapproval
valid_failure_transition reorged to = state_eq to requires_reapproval
valid_failure_transition timed_out to = state_eq to requires_reapproval
valid_failure_transition _ _ = false

-- The method FailChain.
unfoldable pub fail_chain :
    Text → Text → State → TerminalReason → ℕ → MemoryStore → Answer × MemoryStore
fail_chain organization_id workflow_id state reason now s =
    elim (get organization_id workflow_id s) [
      | none ↦ (err not_found, s)
      | some w ↦
          let failed = record w { state = state; terminal_reason = reason; terminal_at = now } in
          if state_eq w.state state && reason_code w.terminal_reason == reason_code reason
          then (ok (w, true), s)
          else if not (valid_failure_transition w.state state)
          then (err state_conflict, s)
          else if not (in_order now w)
          then (err state_conflict, s)
          else (ok (failed, false), put workflow_id failed s)
    ]
