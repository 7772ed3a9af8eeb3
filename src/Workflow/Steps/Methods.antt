-- ===== src/Workflow/Steps/Methods.antt =====
-- The effects of the methods of the service for people.
use flowops.Prelude.{
  ◌*◌, ◌/◌, ◌≡◌, true, false, not, ◌||◌, Option, none, some, [], Text, is_ok, lookup, Result, ok,
  Result-cases, Option-cases, Bool-cases, inl, inr, arith, if◌then◌else◌,
}
use flowops.Workflow.Types.{proposed, Actor, Workflow, WorkflowError}
use flowops.Workflow.Rules.{second, can_propose, validate_actor}
use flowops.Workflow.Store.{
  MemoryStore, Action, create, approve, cancel, create_workflow, get, is_proposed, action_scope,
  refusal, decided,
}
use flowops.Workflow.Service.{
  new_workflow, with_bound, prepare_workflow, create_new, create_request, get_current,
  check_approval, check_cancel, decide, approve_workflow, cancel_workflow, read_request,
}
use flowops.Workflow.Binding.{Outside, Answers, CreateRequest, BoundAction}
use flowops.Workflow.Steps.{Change, IsNew, Effect, keeps, stores, same-Effect}
use flowops.Workflow.Service.{request_input}
use flowops.Workflow.Binding.{action_hash, empty_input, gate}
use flowops.Workflow.Grammar.{identifier, hash}
use flowops.Workflow.Store.{replay_create}
use flowops.Workflow.Steps.Decisions.{
  expire-Effect, transition-Effect, decided-cancel, decided-approve,
}

create_workflow-Effect :
    (o : Outside) (w : Workflow) (key input_hash : Text) (s : MemoryStore)
    → IsNew w
    → Effect o s (create_workflow w key input_hash s).1
unfolding create_workflow
create_workflow-Effect o w key input_hash s new =
    elim (Option-cases
      (lookup (action_scope w.organization_id w.proposed_by create key) s.actions)) [
        | inr (stored, a) ↦ keeps (ground arith) (ground arith)
        | inl a ↦ elim (Option-cases (lookup w.workflow_id s.workflows)) [
          | inr (v, b) ↦ keeps (ground arith) (ground arith)
          | inl b ↦ stores w.workflow_id w b new (ground arith) (ground arith)
        ]
      ]

module _ (o : Outside) where
  prepare_workflow-IsNew :
      (ans : Answers) (actor : Actor) (request : CreateRequest) (bound : Option BoundAction)
      (w : Workflow)
      → can_propose request.kind actor.role ≡ true
      → prepare_workflow o ans actor request bound ≡ ok w
      → IsNew w
  unfolding prepare_workflow
  prepare_workflow-IsNew ans actor request none w p h = elim (Option-cases ans.new_id) [
    | inl e ↦ absurd (ground arith)
    | inr (id, e) ↦
        let q : w ≡ new_workflow o actor ans.now request id = ground arith in
        record { state = ground arith; proposer = ground arith; window = ground arith }
  ]
  prepare_workflow-IsNew ans actor request (some bound) w p h = elim (Result-cases (gate o ans)) [
    | inr (e, a) ↦ absurd (ground arith)
    | inl (u, a) ↦ elim (Option-cases (o.chain_action bound)) [
      | inl b ↦ absurd (ground arith)
      | inr (c, b) ↦
          let q : w
              ≡ with_bound o bound c (new_workflow o actor ans.now request request.workflow_id) =
            ground arith in
          record { state = ground arith; proposer = ground arith; window = ground arith }
    ]
  ]

  create_new-Effect :
      (ans : Answers) (actor : Actor) (key input_hash : Text) (request : CreateRequest)
      (bound : Option BoundAction) (s : MemoryStore)
      → can_propose request.kind actor.role ≡ true
      → Effect o s (create_new o ans actor key input_hash request bound s).1
  unfolding create_new
  create_new-Effect ans actor key input_hash request bound s p =
      elim (Result-cases (validate_actor actor ans.now true)) [
        | inr (e, a) ↦ keeps (ground arith) (ground arith)
        | inl (u, a) ↦ elim (Result-cases (prepare_workflow o ans actor request bound)) [
          | inr (e, b) ↦ keeps (ground arith) (ground arith)
          | inl (w, b) ↦
              same-Effect
                (create_workflow-Effect o w key input_hash s
                  (prepare_workflow-IsNew ans actor request bound w p b))
                (ground arith)
        ]
      ]

  pub create_request-Effect :
      (ans : Answers) (actor : Actor) (key : Text) (request : CreateRequest) (s : MemoryStore)
      → Effect o s (create_request o ans actor key request s).1
  unfolding create_request
  create_request-Effect ans actor key request s =
      elim (Result-cases (validate_actor actor ans.now false)) [
        | inr (e, a) ↦ keeps (ground arith) (ground arith)
        | inl (u, a) ↦ elim (Bool-cases (can_propose request.kind actor.role)) [
          | inr p ↦ keeps (ground arith) (ground arith)
          | inl p ↦ elim (Result-cases (read_request o key request)) [
            | inr (e, b) ↦ keeps (ground arith) (ground arith)
            | inl (bound, b) ↦
                let input_hash =
                  action_hash o create actor [] key (request_input o request bound) in
                elim (Option-cases (replay_create actor key input_hash s)) [
                  | inr (answer, c) ↦ keeps (ground arith) (ground arith)
                  | inl c ↦
                      same-Effect (create_new-Effect ans actor key input_hash request bound s p)
                        (ground arith)
                ]
          ]
        ]
      ]

  pub get_current-Effect :
      (ans : Answers) (actor : Actor) (id : Text) (s : MemoryStore)
      → Effect o s (get_current o ans actor id s).1
  unfolding get_current
  get_current-Effect ans actor id s =
      elim (Result-cases (validate_actor actor (ans.now / second * second) false)) [
        | inr (e, a) ↦ keeps (ground arith) (ground arith)
        | inl (u, a) ↦ elim (Bool-cases (not (hash o.unicode_lower id))) [
          | inl b ↦ keeps (ground arith) (ground arith)
          | inr b ↦
              same-Effect (expire-Effect o actor.organization_id id (ans.now / second) s)
                (ground arith)
        ]
      ]

  decide-Effect :
      (action : Action) (check : Workflow → Result WorkflowError (Unit {0})) (ans : Answers)
      (actor : Actor) (id key : Text) (s : MemoryStore)
      → ((w v : Workflow)
          → (w.state ≡ proposed → is_ok (check w) ≡ true)
          → refusal action actor w ≡ none
          → decided action actor (ans.now / second) w ≡ some v
          → Change w v)
      → Effect o s (decide o action check ans actor id key s).1
  unfolding decide
  decide-Effect action check ans actor id key s change =
      elim (Result-cases (validate_actor actor ans.now false)) [
        | inr (e, a) ↦ keeps (ground arith) (ground arith)
        | inl (u, a) ↦ elim (Bool-cases (not (hash o.unicode_lower id) || not (identifier key))) [
          | inl b ↦ keeps (ground arith) (ground arith)
          | inr b ↦ elim (Option-cases (get actor.organization_id id s)) [
            | inl g ↦ keeps (ground arith) (ground arith)
            | inr (w, g) ↦ elim (Result-cases (if is_proposed w.state then check w else ok tt)) [
              | inr (e, c) ↦ keeps (ground arith) (ground arith)
              | inl (t, c) ↦
                  same-Effect
                    (transition-Effect o actor id action key
                      (action_hash o action actor id key empty_input) (ans.now / second) s
                      (λ w' v g' r d. change w' v (λ p. ground arith) r d))
                    (ground arith)
            ]
          ]
        ]
      ]

  check_approval-stepped :
      (ans : Answers) (actor : Actor) (w : Workflow)
      → is_ok (check_approval o ans actor w) ≡ true
      → is_ok (validate_actor actor ans.now true) ≡ true
  unfolding check_approval
  check_approval-stepped ans actor w h = elim (Result-cases (validate_actor actor ans.now true)) [
    | inr (e, a) ↦ ground arith
    | inl (u, a) ↦ ground arith
  ]

  pub approve_workflow-Effect :
      (ans : Answers) (actor : Actor) (id key : Text) (s : MemoryStore)
      → Effect o s (approve_workflow o ans actor id key s).1
  unfolding approve_workflow
  approve_workflow-Effect ans actor id key s =
      decide-Effect approve (check_approval o ans actor) ans actor id key s (λ w v p r d.
        decided-approve actor ans.now w v (λ q. check_approval-stepped ans actor w (p q)) r d)

  pub cancel_workflow-Effect :
      (ans : Answers) (actor : Actor) (id key : Text) (s : MemoryStore)
      → Effect o s (cancel_workflow o ans actor id key s).1
  unfolding cancel_workflow
  cancel_workflow-Effect ans actor id key s =
      decide-Effect cancel (check_cancel o ans actor) ans actor id key s
        (λ w v p r d. decided-cancel actor (ans.now / second) w v r d)
