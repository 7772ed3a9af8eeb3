-- ===== src/Workflow/Steps/Reached.antt =====
-- What any sequence of calls of the service leads to from the empty store.
use flowops.Prelude.{
  ◌≡◌, Bool, true, false, ◌||◌, some, [], Text, text_eq_iff, lookup, lookup-insert, inl, inr, arith,
}
use flowops.Workflow.Types.{
  State, finalized, cancelled, expired, state_eq, TerminalReason, Actor, Workflow, SafeRetryProof,
}
use flowops.Workflow.Store.{MemoryStore}
use flowops.Workflow.Chain.{
  completed, active_chain_state, chain_side_state, completion_candidate_state,
  valid_failure_transition,
}
use flowops.Workflow.Service.{create_request, get_current, approve_workflow, cancel_workflow}
use flowops.Workflow.Binding.{Outside, completion_digest, Answers, CreateRequest}
use flowops.Workflow.Boundary.{
  record_submission, record_proven_retry, record_confirmation, observe_and_complete,
  record_chain_failure,
}
use flowops.Workflow.Steps.{
  Change, expires, approves, cancels, submits, retries, confirms, fails, Effect, keeps, stores,
  changes, finalizes,
}
use flowops.Workflow.Steps.Methods.{
  create_request-Effect, get_current-Effect, approve_workflow-Effect, cancel_workflow-Effect,
}
use flowops.Workflow.Steps.Records.{
  record_submission-Effect, record_proven_retry-Effect, record_confirmation-Effect,
  record_chain_failure-Effect, observe_and_complete-Effect,
}

abbrev pub empty_store : MemoryStore
empty_store = record { workflows = []; actions = []; receipts = []; retry_proofs = [] }

-- One call of the service, whatever the clock, the gate and the observer answer.
pub data Step (o : Outside) (s : MemoryStore) : MemoryStore → Type 0 where
  creates :
      (ans : Answers) (actor : Actor) (key : Text) (request : CreateRequest)
      → Step o s (create_request o ans actor key request s).1
  reads : (ans : Answers) (actor : Actor) (id : Text) → Step o s (get_current o ans actor id s).1
  approves_it :
      (ans : Answers) (actor : Actor) (id key : Text)
      → Step o s (approve_workflow o ans actor id key s).1
  cancels_it :
      (ans : Answers) (actor : Actor) (id key : Text)
      → Step o s (cancel_workflow o ans actor id key s).1
  records_submission :
      (ans : Answers) (org id hash : Text) → Step o s (record_submission o ans org id hash s).1
  records_retry :
      (ans : Answers) (org id hash : Text) (proof : SafeRetryProof)
      → Step o s (record_proven_retry o ans org id hash proof s).1
  records_confirmation :
      (ans : Answers) (org id hash : Text) → Step o s (record_confirmation o ans org id hash s).1
  completes_it : (ans : Answers) (org id : Text) → Step o s (observe_and_complete o ans org id s).1
  records_failure :
      (ans : Answers) (org id : Text) (state : State) (reason : TerminalReason)
      → Step o s (record_chain_failure o ans org id state reason s).1

pub data Reach (o : Outside) (s : MemoryStore) : MemoryStore → Type 0 where
  here : Reach o s s
  next : {t u : MemoryStore} → Reach o s t → Step o t u → Reach o s u

pub Step-Effect : (o : Outside) {s t : MemoryStore} → Step o s t → Effect o s t
Step-Effect o {s} (creates ans actor key request) = create_request-Effect o ans actor key request s
Step-Effect o {s} (reads ans actor id) = get_current-Effect o ans actor id s
Step-Effect o {s} (approves_it ans actor id key) = approve_workflow-Effect o ans actor id key s
Step-Effect o {s} (cancels_it ans actor id key) = cancel_workflow-Effect o ans actor id key s
Step-Effect o {s} (records_submission ans org id h) = record_submission-Effect o ans org id h s
Step-Effect o {s} (records_retry ans org id h p) = record_proven_retry-Effect o ans org id h p s
Step-Effect o {s} (records_confirmation ans org id h) = record_confirmation-Effect o ans org id h s
Step-Effect o {s} (completes_it ans org id) = observe_and_complete-Effect o ans org id s
Step-Effect o {s} (records_failure ans org id state why) =
    record_chain_failure-Effect o ans org id state why s

-- The states that no call leaves.
abbrev pub is_settled : State → Bool
is_settled s = state_eq s finalized || state_eq s cancelled || state_eq s expired

valid_failure-unsettled : (a b : State) → valid_failure_transition a b ≡ true → is_settled a ≡ false
unfolding valid_failure_transition
valid_failure-unsettled a b h = ground arith

Change-unsettled : (w v : Workflow) → Change w v → is_settled w.state ≡ false
unfolding valid_failure_transition
Change-unsettled w v (expires now p q) = ground arith
Change-unsettled w v (approves actor now p m q) = ground arith
Change-unsettled w v (cancels actor now p m q) = ground arith
Change-unsettled w v (submits h now p q) = ground arith
Change-unsettled w v (retries h now (inl p) q) = ground arith
Change-unsettled w v (retries h now (inr p) q) = ground arith
Change-unsettled w v (confirms now p q) = ground arith
Change-unsettled w v (fails state why now p q) = valid_failure-unsettled w.state state p

completion_candidate-unsettled :
    (w : Workflow) → completion_candidate_state w.state ≡ true → is_settled w.state ≡ false
unfolding completion_candidate_state active_chain_state chain_side_state
completion_candidate-unsettled w h = ground arith

Effect-settled :
    (o : Outside) (s t : MemoryStore) (id : Text) (w : Workflow)
    → Effect o s t
    → lookup id s.workflows ≡ some w
    → is_settled w.state ≡ true
    → lookup id t.workflows ≡ some w
unfolding completion_candidate_state
Effect-settled o s t id w (keeps p q) l h = ground arith
Effect-settled o s t id w (stores id' v n new p q) l h =
    ground (arith, lookup-insert id' id v s.workflows, text_eq_iff id' id)
Effect-settled o s t id w (changes id' v u m c p q) l h =
    ground (arith, lookup-insert id' id u s.workflows, text_eq_iff id' id, Change-unsettled v u c)
Effect-settled o s t id w (finalizes id' v r now m c p q e) l h =
    let d = completion_candidate-unsettled v c.candidate in
    ground (
      arith,
      text_eq_iff id' id,
      lookup-insert id' id (completed r (completion_digest o r) (o.marshal_receipt r) now v)
          s.workflows,
    )

-- A workflow that is finalized, cancelled or expired is never changed again, whatever calls follow.
pub settled_stays :
    (o : Outside) {s t : MemoryStore} (id : Text) (w : Workflow)
    → Reach o s t
    → lookup id s.workflows ≡ some w
    → is_settled w.state ≡ true
    → lookup id t.workflows ≡ some w
settled_stays o id w here l h = l
settled_stays o id w (next {t} {u} r st) l h =
    Effect-settled o t u id w (Step-Effect o st) (settled_stays o id w r l h) h
