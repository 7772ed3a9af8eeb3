-- ===== src/Workflow/Binding.antt =====
-- internal/ascpworkflow/workflow.go: what the service is given.
-- The record `Outside` stands for
-- encoding/json, crypto/sha256 and the binding of pkg/governanceworkflow, which derives the exact
-- call of an action; the record `Answers` for the clock, in nanoseconds, and what the service is
-- given: the action gate, the identifier source, the completion observer and its verifier.
use flowops.Prelude.{
  ℕ, ◌==◌, Bool, not, ◌||◌, ◌&&◌, Option, none, some, ◌∷◌, ◌++◌, Text, codes, text_eq, is_empty,
  Result, ◌>>◌, fail_if, if◌then◌else◌,
}
use flowops.Hex.{hex_encode}
use flowops.Workflow.Grammar.{hash}
use flowops.Workflow.Types.{
  Kind, kind_code, Actor, Workflow, CompletionReceipt, WorkflowError, invalid_workflow,
  governance_unavailable,
}
use flowops.Workflow.Store.{Action}

pub record BoundAction : Type 0 where
  pub workflow_kind : Kind
  pub payload_hash : Text
  pub chain_id : ℕ
  pub contract_address : Text
  pub function_selector : Text
  pub calldata : Text
  pub canonical_action : Text

-- An action is the text of its JSON.
pub record CreateRequest : Type 0 where
  pub kind : Kind
  pub workflow_id : Text
  pub payload_hash : Text
  pub action : Option Text

-- What is hashed of an action, behind its name, its actor and its key.
pub data ActionInput : Type 0 where
  create_input : Kind → Text → Text → Option BoundAction → ActionInput
  empty_input : ActionInput

pub record Outside : Type 0 where
  pub unicode_lower : Text → Text
  pub sha256 : Text → Text
  pub marshal_action : Action → Text → Text → Text → Text → ActionInput → Text
  pub marshal_completion : CompletionReceipt → Text
  pub marshal_receipt : CompletionReceipt → Text
  pub json_valid : Text → Bool
  pub bind_action : Text → Text → Option BoundAction
  pub rebind_action : Text → Text → Option BoundAction
  pub chain_action : BoundAction → Option Text

pub record Answers : Type 0 where
  pub now : ℕ
  pub has_action_gate : Bool
  pub gate_passes : Bool
  pub new_id : Option Text
  pub has_observer : Bool
  pub observed : Option CompletionReceipt
  pub authority_passes : Bool

module _ (o : Outside) where
  unfoldable pub action_hash : Action → Actor → Text → Text → ActionInput → Text
  action_hash action actor workflow_id key input =
      codes "0x"
      ++ hex_encode (
          o.sha256 (
            o.marshal_action action actor.organization_id actor.principal_id workflow_id key input))

  unfoldable pub completion_digest : CompletionReceipt → Text
  completion_digest r =
      codes "0x"
      ++ hex_encode (o.sha256 (codes "ASCP_WORKFLOW_COMPLETION_V1" ++ 10 ∷ o.marshal_completion r))

  -- The call of the action that a request or a stored workflow names.
  abbrev pub bound_for_request : CreateRequest → Option BoundAction
  bound_for_request request = elim request.action [
    | none ↦ none
    | some action ↦ elim (o.bind_action request.workflow_id action) [
      | none ↦ none
      | some bound ↦
          if kind_code bound.workflow_kind == kind_code request.kind then some bound else none
    ]
  ]

  abbrev pub matches_workflow : Workflow → BoundAction → Bool
  matches_workflow w bound =
      kind_code bound.workflow_kind == kind_code w.kind
      && text_eq bound.payload_hash w.payload_hash
      && bound.chain_id == w.chain_id
      && text_eq bound.contract_address w.contract_address
      && text_eq bound.function_selector w.function_selector
      && text_eq bound.calldata w.calldata

  unfoldable pub bound_action_for_workflow : Workflow → Option BoundAction
  bound_action_for_workflow w =
      if not (hash o.unicode_lower w.workflow_id)
        || is_empty w.governance_action
        || not (o.json_valid w.governance_action)
      then none
      else elim (o.rebind_action w.workflow_id w.governance_action) [
        | none ↦ none
        | some bound ↦ if matches_workflow w bound then some bound else none
      ]

  -- The gate over the call of an action, where the kind has one.
  abbrev pub gate : Answers → Result WorkflowError (Unit {0})
  gate ans = do
    fail_if (not ans.has_action_gate) governance_unavailable
    fail_if (not ans.gate_passes) invalid_workflow
