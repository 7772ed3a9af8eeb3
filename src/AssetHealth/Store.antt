-- ===== src/AssetHealth/Store.antt =====
-- internal/ascpassethealth/health.go and recovery.go: the store of the records, the service over it,
-- and the check of a proof of recovery. A context that is done is not modelled.
use flowops.Prelude.{
  ℕ, ◌+◌, ltb, ◌==◌, Bool, not, ◌&&◌, Option, none, some, List, [], ◌∷◌, ◌++◌, Text, codes, text_eq,
  Table, lookup, insert, Result, ok, err, if◌then◌else◌,
}
use flowops.Amount.{big_string}
use flowops.Hex.{hex_encode}
use flowops.AssetHealth.Types.{
  State, normal, recovering, state_eq, HealthError, recovery_incomplete, no_rows, verifier_failed,
  Config, Observation, Decision, Record, RecoveryProof, Outside,
}
use flowops.AssetHealth.Evaluate.{minute, evaluate}

-- The records of the store, by chain and asset.
abbrev pub Store : Type 0
Store = Table Record

unfoldable pub record_key : ℕ → Text → Text
record_key chain_id asset = big_string chain_id ++ 0 ∷ asset

-- The record of an asset, a new one where there is none.
abbrev pub current : Config → Store → Record
current config s = elim (lookup (record_key config.chain_id config.asset) s) [
  | some r ↦ r
  | none ↦ record {
    config = config;
    state = normal;
    epoch = 0;
    evidence_digest = [];
    providers = [];
    finalized_block = 0;
    observed_at = 0;
    updated_at = 0;
  }
]

abbrev pub target : State → State → State
target decided from =
    if state_eq decided normal && not (state_eq from normal) then recovering else decided

-- The record behind a decision.
abbrev pub decided : Decision → ℕ → Record → Record
decided d now r = record r {
  state = target d.state r.state;
  epoch = if state_eq (target d.state r.state) r.state then r.epoch else r.epoch + 1;
  evidence_digest = d.evidence_digest;
  providers = d.providers;
  finalized_block = d.finalized_block;
  observed_at = d.observed_at;
  updated_at = now;
}

-- The method Transition.
unfoldable pub transition : Config → Decision → ℕ → Store → Record × Store
transition config d now s =
    let r = current config s in
    if state_eq d.state normal && state_eq r.state recovering
    then (r, s)
    else (decided d now r, insert (record_key config.chain_id config.asset) (decided d now r) s)

module _ (out : Outside) where
  -- recoveryEvidenceDigest over counts of zero.
  unfoldable pub recovery_evidence_digest : RecoveryProof → Text
  recovery_evidence_digest p = codes "0x" ++ hex_encode (out.sha256 (out.marshal_recovery p))

  unfoldable pub validate_recovery_proof : Record → RecoveryProof → ℕ → Bool
  validate_recovery_proof r p now =
      state_eq r.state recovering
      && p.chain_id == r.config.chain_id
      && text_eq p.asset r.config.asset
      && p.health_epoch == r.epoch
      && text_eq p.clean_evidence_digest r.evidence_digest
      && p.clean_finalized_block == r.finalized_block
      && not (p.reconciled_at == 0)
      && not (ltb p.reconciled_at r.observed_at)
      && not (ltb (now + minute) p.reconciled_at)
      && not (ltb (p.reconciled_at + minute) now)
      && text_eq p.evidence_digest (recovery_evidence_digest p)

  abbrev pub recovered : RecoveryProof → ℕ → Record → Record
  recovered p now r = record r {
    state = normal;
    epoch = r.epoch + 1;
    evidence_digest = p.evidence_digest;
    updated_at = now;
  }

  -- The method CompleteRecovery of the store.
  unfoldable pub complete : Config → RecoveryProof → ℕ → Store → Result HealthError Record × Store
  complete config p now s = elim (lookup (record_key config.chain_id config.asset) s) [
    | none ↦ (err recovery_incomplete, s)
    | some r ↦
        if not (state_eq r.state recovering)
        then (err recovery_incomplete, s)
        else if not (validate_recovery_proof r p now)
        then (err recovery_incomplete, s)
        else (
          ok (recovered p now r),
          insert (record_key config.chain_id config.asset) (recovered p now r) s,
        )
  ]

  -- The method Observe.
  unfoldable pub observe : Config → List Observation → ℕ → Store → Result HealthError Record × Store
  observe config observations now s = elim (evaluate out config observations now) [
    | err e ↦ (err e, s)
    | ok d ↦ let (r, t) = transition config d now s in (ok r, t)
  ]

  -- The method CompleteRecovery of the service: it reads the record, lets the verifier answer, and
  -- calls the store, which may have changed to `s` since.
  unfoldable pub complete_recovery :
      Config → Option RecoveryProof → ℕ → Store → Store → Result HealthError Record × Store
  complete_recovery config answer now read s =
      elim (lookup (record_key config.chain_id config.asset) read) [
        | none ↦ (err no_rows, s)
        | some r ↦
            if not (state_eq r.state recovering)
            then (err recovery_incomplete, s)
            else elim answer [
              | none ↦ (err verifier_failed, s)
              | some p ↦
                  if not (validate_recovery_proof r p now)
                  then (err recovery_incomplete, s)
                  else complete config p now s
            ]
      ]
