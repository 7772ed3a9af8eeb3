-- ===== src/Tests/Payments.antt =====
-- A payment that a human approves: its records, its events and the control plane's state after each.
use flowops.Prelude.{ℕ, ◌*◌, true, false, none, some, [], ◌∷◌, ◌++◌, Text, codes}
use flowops.Envelope.Grammar.{rail_direct}
use flowops.Policy.Types.{Decision, require_approval, human_approval_threshold}
use flowops.PilotLimits as Pilot
use flowops.ControlPlane.Intent.{
  PaymentIntent, pending_approval, approved, issued, approve, Approval, Record, Outside,
}
use flowops.ControlPlane.Memory.{
  Event, submitted_payload, approval_payload, issued_payload, Memory, empty_memory,
  scoped_intent_key,
}
use flowops.ControlPlane.Budget.{second}
use flowops.ControlPlane.Lifecycle.{Plane, Config, kept, Answers}
use flowops.Tests.Data.{copies, crypto, no_lower, hash_of, payee, token, private_key, payment}

abbrev pub outside : Outside
outside = record {
  crypto = crypto;
  unicode_lower = no_lower;
  marshal_intent = λ i. i.intent_id;
  json_text = λ s. s;
  marshal_request = λ id _ _ _. id;
}

abbrev pub pilot : Pilot.Limits
pilot = record { max_per_action = 1000; max_outstanding = 5000 }

abbrev pub config : Config
config = record {
  approval_ttl = 900 * second;
  authorization_ttl = 60 * second;
  envelope_key_id = codes "key-1";
  envelope_private_key = private_key;
  pilot_limits = some pilot;
}

abbrev pub purchase : PaymentIntent
purchase = record {
  intent_id = codes "intent-1";
  organization_id = codes "org-1";
  customer_id = codes "customer-1";
  agent_id = codes "agent-1";
  task_id = codes "task-1";
  action_id = codes "action-1";
  rail = rail_direct;
  chain_id = 8453;
  recipient = payee;
  asset = token;
  amount_atomic = codes "250";
  resource = codes "https://example.com";
  category = codes "food";
  purpose = codes "lunch";
  escrow = none;
}

abbrev pub review : Decision
review = record {
  outcome = require_approval;
  reason = human_approval_threshold;
  policy_version = codes "policy-1";
}

abbrev pub answers_at : ℕ → Answers
answers_at now = record {
  now = now * second;
  freeze_passes = true;
  chain_passes = true;
  evaluate = some review;
  active_version = some (codes "policy-1");
  new_request_id = some (codes "request-1");
  new_authorization_id = some (codes "auth-1");
  new_nonce = some (hash_of b'4');
  new_pointer = 1;
  append = kept;
  outcomes = λ _. none;
}

abbrev pub sha_text : Text
sha_text = codes "0x" ++ copies b'2' 64

abbrev pub pending : Record
pending = record {
  request_id = codes "request-1";
  intent = purchase;
  intent_digest = sha_text;
  request_digest = sha_text;
  decision = review;
  state = pending_approval;
  submitted_at = 90;
  approval_expires_at = 990;
  approval = none;
  authorization = none;
}

abbrev pub consent : Approval
consent = record {
  action = approve;
  actor = codes "owner-1";
  note = codes "fine";
  request_digest = sha_text;
  decided_at = 95;
}

abbrev pub granted : Record
granted = record pending { state = approved; approval = some consent }

abbrev pub released : Record
released = record granted { state = issued; authorization = some payment }

abbrev pub submission : Event
submission = record { at = 90; request_id = codes "request-1"; payload = submitted_payload pending }

abbrev pub decision : Event
decision = record { at = 95; request_id = codes "request-1"; payload = approval_payload consent }

abbrev pub release : Event
release = record { at = 100; request_id = codes "request-1"; payload = issued_payload payment }

abbrev pub memory_with : Record → Memory
memory_with r = record empty_memory {
  records = (codes "request-1", r) ∷ [];
  request_by_intent =
      (scoped_intent_key (codes "org-1") (codes "intent-1"), codes "request-1") ∷ [];
}

abbrev pub new_plane : Plane
new_plane = record { memory = empty_memory; events = []; faulted = false }

abbrev pub submitted_plane : Plane
submitted_plane = record { memory = memory_with pending; events = submission ∷ []; faulted = false }

abbrev pub decided_plane : Plane
decided_plane = record {
  memory = memory_with granted;
  events = submission ∷ decision ∷ [];
  faulted = false;
}
