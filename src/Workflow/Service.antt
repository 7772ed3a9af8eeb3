-- ===== src/Workflow/Service.antt =====
-- internal/ascpworkflow/workflow.go: the methods of the service for people.
use flowops.Prelude.{
  ℕ, ◌+◌, ◌*◌, ◌/◌, true, false, not, ◌||◌, ◌&&◌, Option, none, some, [], Text, is_some, is_empty,
  Result, ok, err, if◌then◌else◌,
}
use flowops.Workflow.Grammar.{identifier, hash}
use flowops.Workflow.Types.{
  proposed, no_reason, unknown_role, Actor, Workflow, WorkflowError, invalid_workflow,
  forbidden_role, not_found, no_workflow_id,
}
use flowops.Workflow.Rules.{
  second, proposal_ttl, can_propose, requires_chain_receipt, validate_actor,
}
use flowops.Workflow.Store.{
  MemoryStore, Answer, Action, create, approve, cancel, replay_create, create_workflow, get,
  is_proposed, transition, expire,
}
use flowops.Workflow.Binding.{
  ActionInput, Answers, BoundAction, CreateRequest, Outside, action_hash, bound_action_for_workflow,
  bound_for_request, create_input, empty_input, gate,
}

module _ (o : Outside) where
  -- The form of a request; `none` is a kind without a receipt of the chain.
  unfoldable pub read_request : Text → CreateRequest → Result WorkflowError (Option BoundAction)
  read_request key request =
      let chain_backed = requires_chain_receipt request.kind in
      if not (identifier key)
        || (chain_backed
            && (not (hash o.unicode_lower request.workflow_id)
                || not (is_empty request.payload_hash)
                || not (is_some request.action)))
        || (not chain_backed
            && (not (is_empty request.workflow_id)
                || is_some request.action
                || not (hash o.unicode_lower request.payload_hash)))
      then err invalid_workflow
      else if not chain_backed
      then ok none
      else elim (bound_for_request o request) [
        | none ↦ err invalid_workflow
        | some bound ↦ ok (some bound)
      ]

  abbrev pub new_workflow : Actor → ℕ → CreateRequest → Text → Workflow
  new_workflow actor now request id = record {
    workflow_id = id;
    organization_id = actor.organization_id;
    kind = request.kind;
    chain_action = [];
    payload_hash = request.payload_hash;
    chain_id = 0;
    contract_address = [];
    function_selector = [];
    calldata = [];
    governance_action = [];
    proposed_by = actor.principal_id;
    proposer_role = actor.role;
    state = proposed;
    approved_by = [];
    approver_role = unknown_role;
    cancelled_by = [];
    proposer_step_up_at = actor.step_up_at / second;
    proposer_step_up_until = actor.step_up_until / second;
    approver_step_up_at = 0;
    approver_step_up_until = 0;
    proposed_at = now / second;
    approved_at = 0;
    cancelled_at = 0;
    expired_at = 0;
    expires_at = now / second + proposal_ttl;
    submission_tx_hash = [];
    submitted_at = 0;
    confirmed_at = 0;
    completion_receipt = [];
    completion_digest = [];
    finalized_at = 0;
    terminal_reason = no_reason;
    terminal_at = 0;
  }

  abbrev pub with_bound : BoundAction → Text → Workflow → Workflow
  with_bound bound chain_action w = record w {
    payload_hash = bound.payload_hash;
    chain_id = bound.chain_id;
    contract_address = bound.contract_address;
    function_selector = bound.function_selector;
    calldata = bound.calldata;
    governance_action = bound.canonical_action;
    chain_action = chain_action;
  }

  -- The workflow that Create stores, behind the checks of the actor's step-up and of the gate.
  unfoldable pub prepare_workflow :
      Answers → Actor → CreateRequest → Option BoundAction → Result WorkflowError Workflow
  prepare_workflow ans actor request none = elim ans.new_id [
    | none ↦ err no_workflow_id
    | some id ↦ ok (new_workflow actor ans.now request id)
  ]
  prepare_workflow ans actor request (some bound) = elim (gate o ans) [
    | err e ↦ err e
    | ok _ ↦ elim (o.chain_action bound) [
      | none ↦ err invalid_workflow
      | some chain_action ↦
          ok
            (with_bound bound chain_action (new_workflow actor ans.now request request.workflow_id))
    ]
  ]

  -- Create, from the lookup of the action on.
  unfoldable pub create_new :
      Answers
      → Actor
      → Text
      → Text
      → CreateRequest
      → Option BoundAction
      → MemoryStore
      → Answer × MemoryStore
  create_new ans actor key input_hash request bound s = elim (validate_actor actor ans.now true) [
    | err e ↦ (err e, s)
    | ok _ ↦ elim (prepare_workflow ans actor request bound) [
      | err e ↦ (err e, s)
      | ok w ↦ create_workflow w key input_hash s
    ]
  ]

  abbrev pub request_input : CreateRequest → Option BoundAction → ActionInput
  request_input request bound =
      create_input request.kind request.workflow_id request.payload_hash bound

  -- The method Create.
  unfoldable pub create_request :
      Answers → Actor → Text → CreateRequest → MemoryStore → Answer × MemoryStore
  create_request ans actor key request s = elim (validate_actor actor ans.now false) [
    | err e ↦ (err e, s)
    | ok _ ↦
        if not (can_propose request.kind actor.role)
        then (err forbidden_role, s)
        else elim (read_request key request) [
          | err e ↦ (err e, s)
          | ok bound ↦
              let input_hash = action_hash o create actor [] key (request_input request bound) in
              elim (replay_create actor key input_hash s) [
                | some answer ↦ (answer, s)
                | none ↦ create_new ans actor key input_hash request bound s
              ]
        ]
  ]

  -- The method Get.
  unfoldable pub get_current : Answers → Actor → Text → MemoryStore → Answer × MemoryStore
  get_current ans actor workflow_id s =
      elim (validate_actor actor (ans.now / second * second) false) [
        | err e ↦ (err invalid_workflow, s)
        | ok _ ↦
            if not (hash o.unicode_lower workflow_id)
            then (err invalid_workflow, s)
            else expire actor.organization_id workflow_id (ans.now / second) s
      ]

  -- What Approve asks of a proposal beyond the store's own checks.
  unfoldable pub check_approval : Answers → Actor → Workflow → Result WorkflowError (Unit {0})
  check_approval ans actor w = elim (validate_actor actor ans.now true) [
    | err e ↦ err e
    | ok _ ↦
        if not (requires_chain_receipt w.kind)
        then ok tt
        else elim (bound_action_for_workflow o w) [
          | none ↦ err invalid_workflow
          | some _ ↦ gate o ans
        ]
  ]

  -- What Cancel asks of a proposal.
  abbrev pub check_cancel : Answers → Actor → Workflow → Result WorkflowError (Unit {0})
  check_cancel ans actor w = validate_actor actor ans.now true

  -- The common course of Approve and Cancel, which differ in what they ask of a proposal.
  unfoldable pub decide :
      Action
      → (Workflow → Result WorkflowError (Unit {0}))
      → Answers
      → Actor
      → Text
      → Text
      → MemoryStore
      → Answer × MemoryStore
  decide action check ans actor workflow_id key s = elim (validate_actor actor ans.now false) [
    | err e ↦ (err e, s)
    | ok _ ↦
        let input_hash = action_hash o action actor workflow_id key empty_input in
        if not (hash o.unicode_lower workflow_id) || not (identifier key)
        then (err invalid_workflow, s)
        else elim (get actor.organization_id workflow_id s) [
          | none ↦ (err not_found, s)
          | some w ↦ elim (if is_proposed w.state then check w else ok tt) [
            | err e ↦ (err e, s)
            | ok _ ↦ transition actor workflow_id action key input_hash (ans.now / second) s
          ]
        ]
  ]

  -- The method Approve.
  unfoldable pub approve_workflow :
      Answers → Actor → Text → Text → MemoryStore → Answer × MemoryStore
  unfolding decide
  approve_workflow ans actor workflow_id key s =
      decide approve (check_approval ans actor) ans actor workflow_id key s

  -- The method Cancel.
  unfoldable pub cancel_workflow :
      Answers → Actor → Text → Text → MemoryStore → Answer × MemoryStore
  unfolding decide
  cancel_workflow ans actor workflow_id key s =
      decide cancel (check_cancel ans actor) ans actor workflow_id key s
