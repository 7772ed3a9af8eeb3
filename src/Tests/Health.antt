-- ===== src/Tests/Health.antt =====
-- The health of an asset: a quorum of two, a pause and a recovery.
use flowops.Prelude.{
  ◌*◌, ◌≡◌, refl, false, some, List, [], ◌∷◌, ◌++◌, Text, codes, text_eq, lookup, insert, ok, arith,
}
use flowops.Hex.{hex_encode, hex_decode}
use flowops.Amount.{big_string}
use flowops.Strings.{to_lower}
use flowops.AssetHealth.Types.{
  normal, recovering, Config, Observation, Decision, Record, RecoveryProof, Outside,
}
use flowops.AssetHealth.Evaluate.{
  minute, decision_of, evaluate, canonical_address, canonical_hash, check_observation, merge,
  observed_state, same_observation, validate_config,
}
use flowops.AssetHealth.Store.{
  Store, record_key, recovered, complete_recovery, recovery_evidence_digest, complete,
  validate_recovery_proof,
}
use flowops.AssetHealth.Quorum.{Quorum, evaluate-normal}
use flowops.AssetHealth.Recovery.{
  Round, run, IsBlocked, run-IsBlocked, Recovers, complete_recovery_sound,
}
use flowops.Tests.Data.{copies}

abbrev outside : Outside
outside = record {
  unicode_lower = λ t. t;
  sha256 = λ t. copies b'd' 32;
  marshal_observation = λ o providers. o.asset;
  marshal_recovery = λ p. p.asset;
}

abbrev asset : Text
asset = codes "0x" ++ copies b'4' 40

abbrev code_hash : Text
code_hash = codes "0x" ++ copies b'6' 64

abbrev config : Config
config = record {
  chain_id = 8453;
  asset = asset;
  proxy_implementation = asset;
  runtime_code_hash = code_hash;
  quorum = 2;
  max_observation_age = minute;
}

abbrev observation : Observation
observation = record {
  provider = codes "one";
  chain_id = 8453;
  asset = asset;
  proxy_implementation = asset;
  runtime_code_hash = code_hash;
  paused = false;
  buyer_blacklisted = false;
  escrow_blacklisted = false;
  transfer_failure = false;
  finalized_block = 12;
  finalized_block_hash = code_hash;
  observed_at = 5 * minute;
}

abbrev observations : List Observation
observations =
    observation ∷ record observation { provider = codes "two"; observed_at = 4 * minute } ∷ []

abbrev decision : Decision
decision =
    decision_of outside config (record observation { observed_at = 4 * minute })
      (codes "two" ∷ codes "one" ∷ [])

decided_normal : evaluate outside config observations (5 * minute) ≡ ok decision
unfolding evaluate validate_config canonical_address text_eq to_lower hex_decode canonical_hash
    merge check_observation same_observation
decided_normal = refl

is_normal : decision.state ≡ normal
unfolding observed_state text_eq
is_normal = refl

evaluate-normal_example : Quorum config observations (5 * minute)
evaluate-normal_example =
    evaluate-normal outside config observations (5 * minute) decision decided_normal is_normal

abbrev recovering_record : Record
recovering_record = record {
  config = config;
  state = recovering;
  epoch = 2;
  evidence_digest = code_hash;
  providers = codes "one" ∷ codes "two" ∷ [];
  finalized_block = 12;
  observed_at = 4 * minute;
  updated_at = 5 * minute;
}

abbrev store : Store
store = (record_key 8453 asset, recovering_record) ∷ []

record_stored : lookup (record_key 8453 asset) store ≡ some recovering_record
unfolding lookup text_eq record_key big_string
record_stored = refl

store-IsBlocked : IsBlocked (record_key 8453 asset) 2 store
store-IsBlocked = record {
  record_of = recovering_record;
  stored = record_stored;
  state = λ e. ground arith;
  since = ground arith;
}

abbrev rounds : List Round
rounds = record { config = config; observations = observations; now = 5 * minute } ∷ []

run-IsBlocked_example : IsBlocked (record_key 8453 asset) 2 (run outside rounds store)
run-IsBlocked_example = run-IsBlocked outside rounds (record_key 8453 asset) 2 store store-IsBlocked

abbrev proof : RecoveryProof
proof = record {
  chain_id = 8453;
  asset = asset;
  health_epoch = 2;
  clean_evidence_digest = code_hash;
  clean_finalized_block = 12;
  reconciled_at = 6 * minute;
  evidence_digest = codes "0x" ++ hex_encode (copies b'd' 32);
}

abbrev recovered_record : Record
recovered_record = recovered outside proof (6 * minute) recovering_record

recovery_completes :
    complete_recovery outside config (some proof) (6 * minute) store store
    ≡ (ok recovered_record, insert (record_key 8453 asset) recovered_record store)
unfolding complete_recovery lookup text_eq record_key big_string validate_recovery_proof
    recovery_evidence_digest hex_encode complete
recovery_completes = refl

complete_recovery_sound_example :
    (p : RecoveryProof) × (r : Record) × (some proof ≡ some p)
    × (lookup (record_key 8453 asset) store ≡ some r)
    × Recovers outside r p (6 * minute)
    × (recovered_record ≡ recovered outside p (6 * minute) r)
    × (insert (record_key 8453 asset) recovered_record store
        ≡ insert (record_key 8453 asset) recovered_record store)
complete_recovery_sound_example =
    complete_recovery_sound outside config (some proof) (6 * minute) store store
      (insert (record_key 8453 asset) recovered_record store) recovered_record recovery_completes
