-- ===== src/Tests/Governance.antt =====
-- A workflow of the signer's caps: its people, its call, its receipt and its stores.
use flowops.Prelude.{ℕ, ◌*◌, true, none, some, [], ◌∷◌, ◌++◌, Text, codes}
use flowops.Workflow.Types.{signer_caps, signer_operator, org_admin, Actor, CompletionReceipt}
use flowops.Workflow.Rules.{second, governance_workflow_bound_topic}
use flowops.Workflow.Store.{MemoryStore}
use flowops.Workflow.Binding.{Answers, BoundAction, CreateRequest, Outside}
use flowops.Workflow.Service as Service
use flowops.Workflow.Boundary as Boundary
use flowops.Workflow.Steps.Reached.{empty_store}
use flowops.Tests.Data.{copies}

abbrev pub workflow_id : Text
workflow_id = codes "0x" ++ copies b'1' 64

abbrev pub payload : Text
payload = codes "0x" ++ copies b'2' 64

abbrev pub sent_hash : Text
sent_hash = codes "0x" ++ copies b'3' 64

abbrev pub contract : Text
contract = codes "0x" ++ copies b'4' 40

abbrev pub call_selector : Text
call_selector = codes "0x" ++ copies b'5' 8

abbrev bound : BoundAction
bound = record {
  workflow_kind = signer_caps;
  payload_hash = payload;
  chain_id = 8453;
  contract_address = contract;
  function_selector = call_selector;
  calldata = codes "0x";
  canonical_action = codes "{}";
}

abbrev pub outside : Outside
outside = record {
  unicode_lower = λ t. t;
  sha256 = λ t. copies b'd' 32;
  marshal_action = λ a org principal id key input. key;
  marshal_completion = λ r. r.transaction_hash;
  marshal_receipt = λ r. r.transaction_hash;
  json_valid = λ t. true;
  bind_action = λ id action. some bound;
  rebind_action = λ id action. some bound;
  chain_action = λ b. some (codes "SET_CAPS");
}

abbrev pub receipt : CompletionReceipt
receipt = record {
  workflow_id = workflow_id;
  payload_hash = payload;
  chain_action = codes "SET_CAPS";
  chain_id = 8453;
  transaction_hash = sent_hash;
  block_number = 7;
  block_hash = sent_hash;
  block_timestamp = 1100;
  confirmed_head = 9;
  finalized_head = 8;
  log_index = 3;
  contract_address = contract;
  event_signature = governance_workflow_bound_topic;
  function_selector = call_selector;
  action_event_signature = sent_hash;
  action_log_indexes = 2 ∷ [];
  observers = codes "one" ∷ codes "two" ∷ [];
  evidence_digest = sent_hash;
  finality = codes "FINALIZED";
  authority_proof = [];
}

abbrev pub at : ℕ → Answers
at now = record {
  now = now * second;
  has_action_gate = true;
  gate_passes = true;
  new_id = none;
  has_observer = true;
  observed = some receipt;
  authority_passes = true;
}

abbrev pub operator : Actor
operator = record {
  organization_id = codes "org-1";
  principal_id = codes "olga";
  role = signer_operator;
  step_up_at = 900 * second;
  step_up_until = 1200 * second;
}

abbrev pub admin : Actor
admin = record operator { principal_id = codes "ada"; role = org_admin }

abbrev pub request : CreateRequest
request = record {
  kind = signer_caps;
  workflow_id = workflow_id;
  payload_hash = [];
  action = some (codes "{}");
}

abbrev pub proposed_store : MemoryStore
proposed_store =
    (Service.create_request outside (at 1000) operator (codes "k1") request empty_store).1

abbrev pub approved_store : MemoryStore
approved_store =
    (Service.approve_workflow outside (at 1050) admin workflow_id (codes "k2") proposed_store).1

abbrev submitted_store : MemoryStore
submitted_store =
    (Boundary.record_submission outside (at 1060) (codes "org-1") workflow_id sent_hash
      approved_store).1

abbrev pub finalized_store : MemoryStore
finalized_store =
    (Boundary.observe_and_complete outside (at 1200) (codes "org-1") workflow_id submitted_store).1
