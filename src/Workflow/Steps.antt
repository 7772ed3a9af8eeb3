-- ===== src/Workflow/Steps.antt =====
-- The calls of the service as steps of the store, and what one step does to the workflows.
pub mod Chain
pub mod Decisions
pub mod Methods
pub mod Records
pub mod Reached
pub mod Approval
pub mod Settles
pub mod Refine
pub mod Receipts
use flowops.Prelude.{
  ℕ, ◌+◌, ◌*◌, ◌/◌, ◌≤◌, ◌<◌, ◌≡◌, ◌≢◌, refl, Bool, true, false, not, ◌||◌, ◌&&◌, Option, none,
  some, List, [], ◌∷◌, ◌++◌, Text, text_eq, sym, subst, text_eq→eq, is_some, Table, lookup, insert,
  Result, ok, err, Result-cases, Option-cases, Bool-cases, inl, inr, ◌⊎◌, arith, if◌then◌else◌,
}
use flowops.Workflow.Types.{
  Kind, State, proposed, approved_pending_chain, submitted, confirmed, finalized, timed_out,
  reorged, state_eq, TerminalReason, Actor, Workflow, CompletionReceipt, SafeRetryProof,
  WorkflowError,
}
use flowops.Workflow.Rules.{
  second, proposal_ttl, can_propose, can_approve, can_cancel, requires_chain_receipt,
  validate_actor, valid_chain_failure,
}
use flowops.Workflow.Store.{
  MemoryStore, StoredAction, Answer, Action, create, approve, cancel, create_workflow, get,
  is_proposed, expired_at, approved_by, cancelled_by, refusal, decided, transition, expire,
}
use flowops.Workflow.Chain.{
  sent, submit, retry_submission, confirmed_at_time, confirm, completion_candidate_state, completed,
  complete, owner_conflict, receipt_key, valid_failure_transition, fail_chain,
}
use flowops.Workflow.Service.{
  new_workflow, with_bound, prepare_workflow, create_new, create_request, get_current,
  check_approval, check_cancel, decide, approve_workflow, cancel_workflow, read_request,
}
use flowops.Workflow.Binding.{Outside, Answers, CreateRequest, BoundAction, completion_digest}
use flowops.Workflow.Boundary.{
  record_submission, record_proven_retry, record_confirmation, complete_observed,
  observe_and_complete, record_chain_failure,
}

-- A second person with a role for the kind approves inside the window, with a fresh step-up.
pub record MayApprove (w : Workflow) (actor : Actor) (now : ℕ) : Type 0 where
  pub differs : text_eq actor.principal_id w.proposed_by ≡ false
  pub role : can_approve w.kind actor.role ≡ true
  pub window : now / second < w.expires_at
  pub stepped_up : actor.step_up_at ≤ now
  pub fresh : now ≤ actor.step_up_at + 300 * second
  pub lasting : now < actor.step_up_until

-- What becomes of one workflow.
pub data Change (w v : Workflow) : Type 0 where
  expires : (now : ℕ) → w.state ≡ proposed → v ≡ expired_at now w → Change w v
  approves :
      (actor : Actor) (now : ℕ)
      → w.state ≡ proposed
      → MayApprove w actor now
      → v ≡ approved_by actor (now / second) w
      → Change w v
  cancels :
      (actor : Actor) (now : ℕ)
      → w.state ≡ proposed
      → can_cancel w actor ≡ true
      → v ≡ cancelled_by actor now w
      → Change w v
  submits :
      (hash : Text) (now : ℕ) → w.state ≡ approved_pending_chain → v ≡ sent hash now w → Change w v
  retries :
      (hash : Text) (now : ℕ)
      → (w.state ≡ timed_out) ⊎ (w.state ≡ reorged)
      → v ≡ sent hash now w
      → Change w v
  confirms : (now : ℕ) → w.state ≡ submitted → v ≡ confirmed_at_time now w → Change w v
  fails :
      (state : State) (reason : TerminalReason) (now : ℕ)
      → valid_failure_transition w.state state ≡ true
      → v ≡ record w { state = state; terminal_reason = reason; terminal_at = now }
      → Change w v

-- What the store asks of a receipt that completes a workflow.
pub record Completes (w : Workflow) (r : CompletionReceipt) : Type 0 where
  pub candidate : completion_candidate_state w.state ≡ true
  pub payload : text_eq w.payload_hash r.payload_hash ≡ true

-- A proposal as Create stores it.
pub record IsNew (w : Workflow) : Type 0 where
  pub state : w.state ≡ proposed
  pub proposer : can_propose w.kind w.proposer_role ≡ true
  pub window : w.expires_at ≡ w.proposed_at + proposal_ttl

-- What a step does to the workflows and to the owners of the receipts.
pub data Effect (o : Outside) (s t : MemoryStore) : Type 0 where
  keeps : t.workflows ≡ s.workflows → t.receipts ≡ s.receipts → Effect o s t
  stores :
      (id : Text) (w : Workflow)
      → lookup id s.workflows ≡ none
      → IsNew w
      → t.workflows ≡ insert id w s.workflows
      → t.receipts ≡ s.receipts
      → Effect o s t
  changes :
      (id : Text) (w v : Workflow)
      → lookup id s.workflows ≡ some w
      → Change w v
      → t.workflows ≡ insert id v s.workflows
      → t.receipts ≡ s.receipts
      → Effect o s t
  finalizes :
      (id : Text) (w : Workflow) (r : CompletionReceipt) (now : ℕ)
      → lookup id s.workflows ≡ some w
      → Completes w r
      → t.workflows
        ≡ insert id (completed r (completion_digest o r) (o.marshal_receipt r) now w) s.workflows
      → owner_conflict id (completion_digest o r) (lookup (receipt_key r) s.receipts) ≡ none
      → t.receipts
        ≡ insert
            (receipt_key r)
            (record { workflow_id = id; digest = completion_digest o r })
            s.receipts
      → Effect o s t

pub same-Effect : {o : Outside} {s t u : MemoryStore} → Effect o s u → t ≡ u → Effect o s t
same-Effect {o} {s} {t} {u} e p = subst (λ m. Effect o s m) (sym p) e

pub get-lookup :
    (org id : Text) (s : MemoryStore) (w : Workflow)
    → get org id s ≡ some w
    → (lookup id s.workflows ≡ some w) × (text_eq w.organization_id org ≡ true)
unfolding get
get-lookup org id s w h = ground arith
