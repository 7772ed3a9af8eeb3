-- ===== src/Tests/Proposals.antt =====
-- Workflows: one call of the signer's caps from its proposal to its receipt.
use flowops.Prelude.{◌*◌, ◌≡◌, refl, true, some, [], ◌++◌, codes, text_eq, lookup, insert}
use flowops.Hex.{hex_digit, hex_encode, hex_decode}
use flowops.Amount.{big_string}
use flowops.Strings.{to_lower}
use flowops.Envelope.Grammar.{valid_identifier}
use flowops.Workflow.Grammar as Grammar
use flowops.Workflow.Types.{
  signer_caps, signer_operator, org_admin, proposed, finalized, unknown_role, no_reason, Workflow,
}
use flowops.Workflow.Rules.{second, can_propose, requires_chain_receipt}
use flowops.Workflow.Store.{MemoryStore, ReceiptOwner}
use flowops.Workflow.Binding.{action_hash, bound_action_for_workflow, completion_digest}
use flowops.Workflow.Service as Service
use flowops.Workflow.Chain.{receipt_key}
use flowops.Workflow.Boundary as Boundary
use flowops.Workflow.Steps.Reached.{
  empty_store, Step, creates, approves_it, records_submission, completes_it, Reach, here, next,
  settled_stays,
}
use flowops.Prelude.{is_ok, false, arith}
use flowops.Workflow.Store.{expired_at}
use flowops.Workflow.Steps.Settles.{proposal_settles}
use flowops.Workflow.Steps.Approval.{Approved, behind_two_people}
use flowops.Workflow.Steps.Refine.{AbstractStep, lives, Step-refines}
use flowops.Workflow.Steps.Receipts.{Proof, finalized_by_receipt, receipt_owner_stays}
use flowops.Tests.Data.{copies}
use flowops.Workflow.Store.{get, action_scope, create_workflow, decided, replay_create, transition}
use flowops.Workflow.Chain.{
  submit, active_chain_state, authorized_receipt_attempt, chain_side_state, complete, completed,
  completion_candidate_state,
}
use flowops.Workflow.Rules.{validate_actor, can_approve, can_cancel, valid_receipt}
use flowops.Hex.{from_hex_digit}
use flowops.Tests.Governance.{
  workflow_id, payload, sent_hash, contract, call_selector, outside, receipt, at, operator, admin,
  request, proposed_store, approved_store, finalized_store,
}

approval : Step outside proposed_store approved_store
approval = approves_it (at 1050) admin workflow_id (codes "k2")

four_calls : Reach outside empty_store finalized_store
four_calls =
    next
      (next (next (next here (creates (at 1000) operator (codes "k1") request)) approval)
        (records_submission (at 1060) (codes "org-1") workflow_id sent_hash))
      (completes_it (at 1200) (codes "org-1") workflow_id)

abbrev finalized_workflow : Workflow
finalized_workflow = record {
  workflow_id = workflow_id;
  organization_id = codes "org-1";
  kind = signer_caps;
  chain_action = codes "SET_CAPS";
  payload_hash = payload;
  chain_id = 8453;
  contract_address = contract;
  function_selector = call_selector;
  calldata = codes "0x";
  governance_action = codes "{}";
  proposed_by = codes "olga";
  proposer_role = signer_operator;
  state = finalized;
  approved_by = codes "ada";
  approver_role = org_admin;
  cancelled_by = [];
  proposer_step_up_at = 900;
  proposer_step_up_until = 1200;
  approver_step_up_at = 900;
  approver_step_up_until = 1200;
  proposed_at = 1000;
  approved_at = 1050;
  cancelled_at = 0;
  expired_at = 0;
  expires_at = 87400;
  submission_tx_hash = sent_hash;
  submitted_at = 1060;
  confirmed_at = 1200;
  completion_receipt = sent_hash;
  completion_digest = codes "0x" ++ hex_encode (copies b'd' 32);
  finalized_at = 1200;
  terminal_reason = no_reason;
  terminal_at = 0;
}

workflow_finalized : lookup workflow_id finalized_store.workflows ≡ some finalized_workflow
unfolding lookup Boundary.observe_and_complete Grammar.identifier valid_identifier Grammar.hash
    text_eq to_lower hex_decode get Boundary.record_submission submit Service.approve_workflow
    validate_actor Service.create_request can_propose Service.read_request requires_chain_receipt
    big_string from_hex_digit hex_digit hex_encode insert Boundary.complete_observed
    Boundary.receipt_fits active_chain_state authorized_receipt_attempt chain_side_state complete
    completed completion_candidate_state receipt_key Grammar.canonical_address Grammar.nonzero_bytes
    Grammar.selector can_approve can_cancel valid_receipt action_hash bound_action_for_workflow
    Service.check_approval completion_digest Service.create_new Service.decide
    Service.prepare_workflow action_scope create_workflow decided replay_create transition
workflow_finalized = refl

behind_two_people_example :
    (can_propose signer_caps signer_operator ≡ true) × Approved finalized_workflow
behind_two_people_example =
    behind_two_people outside workflow_id finalized_workflow four_calls workflow_finalized refl

signer_caps_on_chain : requires_chain_receipt signer_caps ≡ true
unfolding requires_chain_receipt
signer_caps_on_chain = refl

finalized_by_receipt_example : Proof outside finalized_store workflow_id finalized_workflow
finalized_by_receipt_example =
    finalized_by_receipt outside workflow_id finalized_workflow four_calls workflow_finalized refl
      signer_caps_on_chain

-- A second approval, after the end.
abbrev late_store : MemoryStore
late_store =
    (Service.approve_workflow outside (at 1300) admin workflow_id (codes "k3") finalized_store).1

late_approval : Reach outside finalized_store late_store
late_approval = next here (approves_it (at 1300) admin workflow_id (codes "k3"))

settled_stays_example : lookup workflow_id late_store.workflows ≡ some finalized_workflow
settled_stays_example =
    settled_stays outside workflow_id finalized_workflow late_approval workflow_finalized refl

Step-refines_example : AbstractStep (lives proposed_store) (lives approved_store)
Step-refines_example = Step-refines outside approval

abbrev owner : ReceiptOwner
owner = record { workflow_id = workflow_id; digest = codes "0x" ++ hex_encode (copies b'd' 32) }

receipt_owned : lookup (receipt_key receipt) finalized_store.receipts ≡ some owner
unfolding lookup Boundary.observe_and_complete Grammar.identifier valid_identifier Grammar.hash
    text_eq to_lower hex_decode get Boundary.record_submission submit Service.approve_workflow
    validate_actor Service.create_request can_propose Service.read_request requires_chain_receipt
    big_string from_hex_digit hex_digit hex_encode insert Boundary.complete_observed
    Boundary.receipt_fits active_chain_state authorized_receipt_attempt chain_side_state complete
    completed completion_candidate_state receipt_key Grammar.canonical_address Grammar.nonzero_bytes
    Grammar.selector can_approve can_cancel valid_receipt action_hash bound_action_for_workflow
    Service.check_approval completion_digest Service.create_new Service.decide
    Service.prepare_workflow action_scope create_workflow decided replay_create transition
receipt_owned = refl

receipt_owner_stays_example : lookup (receipt_key receipt) late_store.receipts ≡ some owner
receipt_owner_stays_example =
    receipt_owner_stays outside (receipt_key receipt) owner late_approval receipt_owned

-- The proposal of `olga`, a day later.
abbrev proposed_workflow : Workflow
proposed_workflow = record finalized_workflow {
  state = proposed;
  approved_by = [];
  approver_role = unknown_role;
  approver_step_up_at = 0;
  approver_step_up_until = 0;
  approved_at = 0;
  submission_tx_hash = [];
  submitted_at = 0;
  confirmed_at = 0;
  completion_receipt = [];
  completion_digest = [];
  finalized_at = 0;
}

one_call : Reach outside empty_store proposed_store
one_call = next here (creates (at 1000) operator (codes "k1") request)

workflow_proposed : lookup workflow_id proposed_store.workflows ≡ some proposed_workflow
unfolding lookup Boundary.observe_and_complete Grammar.identifier valid_identifier Grammar.hash
    text_eq to_lower hex_decode get Boundary.record_submission submit Service.approve_workflow
    validate_actor Service.create_request can_propose Service.read_request requires_chain_receipt
    big_string from_hex_digit hex_digit hex_encode insert Boundary.complete_observed
    Boundary.receipt_fits active_chain_state authorized_receipt_attempt chain_side_state complete
    completed completion_candidate_state receipt_key Grammar.canonical_address Grammar.nonzero_bytes
    Grammar.selector can_approve can_cancel valid_receipt action_hash bound_action_for_workflow
    Service.check_approval completion_digest Service.create_new Service.decide
    Service.prepare_workflow action_scope create_workflow decided replay_create transition
workflow_proposed = refl

same_organization : text_eq (codes "org-1") (codes "org-1") ≡ true
unfolding text_eq
same_organization = refl

named_by_hash : Grammar.hash (λ t. t) workflow_id ≡ true
unfolding Grammar.hash text_eq to_lower hex_decode
named_by_hash = refl

valid_reader : is_ok (validate_actor operator (87400 * second) false) ≡ true
unfolding validate_actor Grammar.identifier valid_identifier
valid_reader = refl

proposal_settles_example :
    lookup workflow_id
      (Service.get_current outside (at 87400) operator workflow_id proposed_store).1.workflows
    ≡ some (expired_at 87400 proposed_workflow)
proposal_settles_example =
    proposal_settles outside (at 87400) operator workflow_id proposed_workflow one_call
      workflow_proposed refl same_organization named_by_hash valid_reader (omega arith)
