-- ===== src/Workflow/Store.antt =====
-- internal/ascpworkflow/memory.go: the store of workflows. A context that is done makes every method
-- return its error before anything else, and is not modelled. `now` is in Unix seconds.
use flowops.Prelude.{
  ℕ, ◌/◌, leb, Bool, true, false, not, ◌&&◌, Option, none, some, List, ◌∷◌, ◌++◌, Text, codes,
  text_eq, is_some, Table, lookup, insert, Result, ok, err, if◌then◌else◌,
}
use flowops.Workflow.Types.{
  State, proposed, approved_pending_chain, finalized, cancelled, expired, state_eq, Actor, Workflow,
  SafeRetryProof, WorkflowError, forbidden_role, same_principal, not_found, idempotency_conflict,
  state_conflict,
}
use flowops.Workflow.Rules.{can_approve, can_cancel, requires_chain_receipt, second}

pub record StoredAction : Type 0 where
  pub hash : Text
  pub workflow_id : Text

pub record ReceiptOwner : Type 0 where
  pub workflow_id : Text
  pub digest : Text

pub record MemoryStore : Type 0 where
  pub workflows : Table Workflow
  pub actions : Table StoredAction
  pub receipts : Table ReceiptOwner
  pub retry_proofs : Table (List SafeRetryProof)

-- A workflow with `true` where the call repeats an earlier one, or the error.
abbrev pub Answer : Type 0
Answer = Result WorkflowError (Workflow × Bool)

pub data Action : Type 0 where
  create approve cancel : Action

abbrev pub action_name : Action → Text
action_name create = codes "CREATE"
action_name approve = codes "APPROVE"
action_name cancel = codes "CANCEL"

unfoldable pub action_scope : Text → Text → Action → Text → Text
action_scope org actor action key = org ++ 0 ∷ (actor ++ 0 ∷ (action_name action ++ 0 ∷ key))

-- The workflow that a stored action names; every action names a stored one.
abbrev pub replayed : StoredAction → Text → MemoryStore → Answer
replayed stored input_hash s =
    if not (text_eq stored.hash input_hash)
    then err idempotency_conflict
    else elim (lookup stored.workflow_id s.workflows) [
      | none ↦ err not_found
      | some w ↦ ok (w, true)
    ]

-- The method ReplayCreate; `none` where the action is not stored.
unfoldable pub replay_create : Actor → Text → Text → MemoryStore → Option Answer
replay_create actor key input_hash s =
    elim (lookup (action_scope actor.organization_id actor.principal_id create key) s.actions) [
      | none ↦ none
      | some stored ↦ some (replayed stored input_hash s)
    ]

-- The method Create.
unfoldable pub create_workflow : Workflow → Text → Text → MemoryStore → Answer × MemoryStore
create_workflow w key input_hash s =
    let scope = action_scope w.organization_id w.proposed_by create key in
    elim (lookup scope s.actions) [
      | some stored ↦ (replayed stored input_hash s, s)
      | none ↦ if is_some (lookup w.workflow_id s.workflows) then (err state_conflict, s) else (
        ok (w, false),
        record s {
          workflows = insert w.workflow_id w s.workflows;
          actions =
              insert scope (record { hash = input_hash; workflow_id = w.workflow_id }) s.actions;
        },
      )
    ]

-- The method Get.
unfoldable pub get : Text → Text → MemoryStore → Option Workflow
get organization_id workflow_id s = elim (lookup workflow_id s.workflows) [
  | none ↦ none
  | some w ↦ if text_eq w.organization_id organization_id then some w else none
]

abbrev pub put : Text → Workflow → MemoryStore → MemoryStore
put workflow_id w s = record s { workflows = insert workflow_id w s.workflows }

abbrev pub is_proposed : State → Bool
is_proposed s = state_eq s proposed

abbrev pub expired_at : ℕ → Workflow → Workflow
expired_at now w = record w { state = expired; expired_at = now }

abbrev pub approved_by : Actor → ℕ → Workflow → Workflow
approved_by actor now w = record w {
  state = if requires_chain_receipt w.kind then approved_pending_chain else finalized;
  finalized_at = if requires_chain_receipt w.kind then w.finalized_at else now;
  approved_by = actor.principal_id;
  approver_role = actor.role;
  approver_step_up_at = actor.step_up_at / second;
  approver_step_up_until = actor.step_up_until / second;
  approved_at = now;
}

abbrev pub cancelled_by : Actor → ℕ → Workflow → Workflow
cancelled_by actor now w = record w {
  state = cancelled;
  cancelled_by = actor.principal_id;
  cancelled_at = now;
}

-- The refusals of transition, none of which depends on the state.
abbrev pub refusal : Action → Actor → Workflow → Option WorkflowError
refusal create actor w = none
refusal approve actor w =
    if text_eq actor.principal_id w.proposed_by
    then some same_principal
    else if not (can_approve w.kind actor.role)
    then some forbidden_role
    else none
refusal cancel actor w = if not (can_cancel w actor) then some forbidden_role else none

-- The changed workflow; `none` where nothing changes.
unfoldable pub decided : Action → Actor → ℕ → Workflow → Option Workflow
decided action actor now w =
    if is_proposed w.state && leb w.expires_at now
    then some (expired_at now w)
    else if is_proposed w.state
    then elim action [
      | create ↦ none
      | approve ↦ some (approved_by actor now w)
      | cancel ↦ some (cancelled_by actor now w)
    ]
    else none

abbrev pub with_action : Text → Text → Text → MemoryStore → MemoryStore
with_action scope input_hash workflow_id s = record s {
  actions = insert scope (record { hash = input_hash; workflow_id = workflow_id }) s.actions;
}

-- The method transition, which Approve and Cancel call.
unfoldable pub transition :
    Actor → Text → Action → Text → Text → ℕ → MemoryStore → Answer × MemoryStore
transition actor workflow_id action key input_hash now s =
    let scope = action_scope actor.organization_id actor.principal_id action key in
    elim (lookup scope s.actions) [
      | some stored ↦ (replayed stored input_hash s, s)
      | none ↦ elim (get actor.organization_id workflow_id s) [
        | none ↦ (err not_found, s)
        | some w ↦ elim (refusal action actor w) [
          | some e ↦ (err e, s)
          | none ↦ elim (decided action actor now w) [
            | none ↦ (ok (w, true), with_action scope input_hash workflow_id s)
            | some w' ↦
                (ok (w', false), with_action scope input_hash workflow_id (put workflow_id w' s))
          ]
        ]
      ]
    ]

-- The method Expire.
unfoldable pub expire : Text → Text → ℕ → MemoryStore → Answer × MemoryStore
expire organization_id workflow_id now s = elim (get organization_id workflow_id s) [
  | none ↦ (err not_found, s)
  | some w ↦
      if is_proposed w.state && leb w.expires_at now
      then (ok (expired_at now w, true), put workflow_id (expired_at now w) s)
      else (ok (w, false), s)
]
