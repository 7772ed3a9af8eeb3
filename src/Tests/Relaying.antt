-- ===== src/Tests/Relaying.antt =====
-- The relay: evidence of an absent transaction, and a late recovery.
use flowops.Prelude.{
  ◌*◌, ◌≡◌, refl, true, false, none, some, [], ◌∷◌, ◌++◌, Text, codes, text_eq, ok, err, arith,
}
use flowops.Hex.{hex_decode}
use flowops.Strings.{to_lower}
use flowops.AssetHealth.Evaluate.{minute, canonical_hash}
use flowops.Relay.Types.{
  Prepared, dropped, finalized, OutcomeEvidence, retry_exact, finished, broadcasting, Job,
  RelayError,
}
use flowops.Relay.Kernel.{decide_retry, observer_quorum, validate_outcome}
use flowops.Relay.Retry.{IsAbsent, decide_retry-exact}
use flowops.Relay.Service.{Config, Answers, World}
use flowops.Relay.Rounds.{relay_leased}
use flowops.Relay.Recovery.{relay_leased-stale}
use flowops.Workflow.Steps.Reached.{empty_store}
use flowops.Tests.Data.{copies}
use flowops.Tests.Governance as Governance
use flowops.Strings.Sorted.{text_ltb}
use flowops.Workflow.Grammar.{identifier}
use flowops.Envelope.Grammar.{valid_identifier}

abbrev hash : Text
hash = codes "0x" ++ copies b'7' 64

abbrev safe : Text
safe = codes "0x" ++ copies b'8' 40

abbrev prepared : Prepared
prepared = record {
  workflow_id = hash;
  organization_id = codes "org-1";
  payload_hash = hash;
  transaction = record { chain_id = 8453; safe = safe; nonce = 5 };
  evidence_quorum = 2;
  safe_tx_hash = hash;
  exec_calldata_hash = hash;
  owner_set_hash = hash;
}

abbrev evidence : OutcomeEvidence
evidence = record {
  workflow_id = hash;
  outer_transaction_hash = hash;
  outcome = dropped;
  previous_canonical = false;
  chain_id = 8453;
  safe_address = safe;
  current_safe_nonce = 5;
  safe_tx_hash = hash;
  exec_calldata_hash = hash;
  verified_payload_hash = hash;
  block_number = 3;
  block_hash = hash;
  confirmed_head = 4;
  observers = codes "two" ∷ codes "one" ∷ [];
  evidence_digest = hash;
  observed_at = 2 * minute;
}

retry_allowed : decide_retry (λ t. t) prepared hash evidence 2 (2 * minute) ≡ ok retry_exact
unfolding decide_retry validate_outcome observer_quorum text_ltb identifier valid_identifier text_eq
    canonical_hash to_lower hex_decode
retry_allowed = refl

decide_retry-exact_example : IsAbsent prepared hash evidence 2 (2 * minute)
decide_retry-exact_example =
    decide_retry-exact (λ t. t) prepared hash evidence 2 (2 * minute) retry_allowed

-- Three minutes later the observers find the second transaction finalized.
abbrev finalized_evidence : OutcomeEvidence
finalized_evidence = record evidence {
  outcome = finalized;
  previous_canonical = true;
  current_safe_nonce = 6;
  observed_at = 5 * minute;
}

abbrev job : Job
job = record {
  outbox_id = hash;
  command = record {
    workflow_id = hash;
    organization_id = codes "org-1";
    chain_id = 8453;
    execute_after = 0;
  };
  state = broadcasting;
  prepared = prepared;
  artifact_handle = codes "handle-1";
  outer = record {
    handle = codes "outer-2";
    transaction_hash = hash;
    safe_tx_hash = hash;
    exec_calldata_hash = hash;
    prepared_at = 2 * minute;
  };
  last_outcome = evidence;
  attempt_count = 1;
  lease_owner = codes "worker";
  lease_token = codes "token";
  lease_expires_at = 6 * minute;
  updated_at = 5 * minute;
}

abbrev config : Config
config = record { worker_id = codes "worker"; quorum = 2; lease_duration = minute }

abbrev answers : Answers
answers = record {
  clock = λ m. 5 * minute;
  token = some (codes "token");
  safe = some safe;
  snapshot = none;
  evidence = some finalized_evidence;
  opened = true;
  outer = none;
  broadcast = none;
  workflow = Governance.at 300;
}

abbrev world : World
world = record { jobs = (hash, job) ∷ []; workflows = empty_store }

finality_decided :
    decide_retry (λ t. t) prepared hash finalized_evidence 2 (5 * minute) ≡ ok finished
unfolding decide_retry validate_outcome observer_quorum text_ltb identifier valid_identifier text_eq
    canonical_hash to_lower hex_decode
finality_decided = refl

relay_leased-stale_example :
    (error : RelayError) × (relay_leased Governance.outside
        (λ t. t)
        config
        answers
        (record { job = job; token = codes "token" })
        world
      ≡ (err error, world))
relay_leased-stale_example =
    relay_leased-stale Governance.outside (λ t. t) config answers
      (record { job = job; token = codes "token" }) world refl (λ e. omega arith) (omega arith)
      (λ e q h. ground (arith, finality_decided))
