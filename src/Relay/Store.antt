-- ===== src/Relay/Store.antt =====
-- internal/ascpgovernancerelay/memory.go: the jobs of the relay, their leases, and what is recorded of
-- them. The queue of commands and their authorization are not modelled.
use flowops.Prelude.{
  ℕ, ◌+◌, ltb, leb, ◌==◌, Bool, true, false, not, ◌||◌, ◌&&◌, Option, none, some, List, [], ◌∷◌,
  Text, text_eq, is_empty, Table, lookup, insert, Result, ok, err, if◌then◌else◌,
}
use flowops.Strings.Sorted.{sort_texts}
use flowops.Workflow.Grammar.{identifier}
use flowops.AssetHealth.Evaluate.{minute, canonical_hash}
use flowops.Relay.Types.{
  Prepared, OutcomeEvidence, Decision, wait, retry_exact, finished, reapprove, State, ready,
  broadcasting, submitted, pending_observation, retryable, reapproval_required, finalized_observed,
  state_eq, OuterArtifact, Job, Lease, RelayError, invalid_command, no_work, state_conflict,
  lease_lost, outside_failed,
}

abbrev pub second : ℕ
second = 1000000000

abbrev pub Jobs : Type 0
Jobs = Table Job

-- What the relay, and what the observation, takes up.
abbrev pub is_eligible : Bool → State → Bool
is_eligible true s = state_eq s ready || state_eq s retryable || state_eq s broadcasting
is_eligible false s = state_eq s submitted || state_eq s pending_observation

abbrev pub is_free : Bool → ℕ → Job → Bool
is_free relay now job =
    is_eligible relay job.state && (job.lease_expires_at == 0 || leb job.lease_expires_at now)

-- The first of the identifiers whose job is free.
abbrev pub first_free : Bool → ℕ → List Text → Jobs → Option (Text × Job)
first_free relay now [] s = none
first_free relay now (id ∷ ids) s =
    let rest = first_free relay now ids s in
    elim (lookup id s) [
      | none ↦ rest
      | some job ↦ if is_free relay now job then some (id, job) else rest
    ]

abbrev pub keys : Jobs → List Text
keys [] = []
keys ((id, _) ∷ s) = id ∷ keys s

abbrev pub leased : Text → Text → ℕ → ℕ → Job → Job
leased worker token duration now job = record job {
  lease_owner = worker;
  lease_token = token;
  lease_expires_at = now + duration;
  updated_at = now;
}

-- The method claim; `token` is what the random source answers.
unfoldable pub claim : Bool → Text → ℕ → ℕ → Option Text → Jobs → Result RelayError Lease × Jobs
claim relay worker duration now token s =
    if not (identifier worker) || ltb duration second || ltb minute duration
    then (err invalid_command, s)
    else elim (first_free relay now (sort_texts (keys s)) s) [
      | none ↦ (err no_work, s)
      | some (id, job) ↦ elim token [
        | none ↦ (err outside_failed, s)
        | some t ↦
            let j = leased worker t duration now job in
            (ok (record { job = j; token = t }), insert id j s)
      ]
    ]

-- The method withLease, for a change that may refuse.
unfoldable pub with_lease :
    Lease → ℕ → (Job → Result RelayError Job) → Jobs → Result RelayError Job × Jobs
with_lease lease now change s = elim (lookup lease.job.command.workflow_id s) [
  | none ↦ (err lease_lost, s)
  | some job ↦
      if not (text_eq job.lease_token lease.token) || ltb job.lease_expires_at now
      then (err lease_lost, s)
      else elim (change job) [
        | err e ↦ (err e, s)
        | ok j ↦ (
          ok (record j { updated_at = now }),
          insert lease.job.command.workflow_id (record j { updated_at = now }) s,
        )
      ]
]

unfoldable pub valid_outer : (Text → Text) → OuterArtifact → Prepared → ℕ → Bool
valid_outer unicode_lower o p now =
    identifier o.handle
    && canonical_hash unicode_lower o.transaction_hash
    && text_eq o.safe_tx_hash p.safe_tx_hash
    && text_eq o.exec_calldata_hash p.exec_calldata_hash
    && not (o.prepared_at == 0)
    && not (ltb (now + minute) o.prepared_at)
    && not (ltb (o.prepared_at + minute) now)

abbrev pub outer_eq : OuterArtifact → OuterArtifact → Bool
outer_eq o p =
    text_eq o.handle p.handle
    && text_eq o.transaction_hash p.transaction_hash
    && text_eq o.safe_tx_hash p.safe_tx_hash
    && text_eq o.exec_calldata_hash p.exec_calldata_hash
    && o.prepared_at == p.prepared_at

abbrev pub with_outer : (Text → Text) → OuterArtifact → ℕ → Job → Result RelayError Job
with_outer unicode_lower outer now job =
    if state_eq job.state broadcasting && outer_eq job.outer outer
    then ok job
    else if not (state_eq job.state ready) && not (state_eq job.state retryable)
        || not (valid_outer unicode_lower outer job.prepared now)
    then err state_conflict
    else ok (record job { outer = outer; state = broadcasting })

-- The method RecordOuterPrepared.
unfoldable pub record_outer_prepared :
    (Text → Text) → Lease → OuterArtifact → ℕ → Jobs → Result RelayError Job × Jobs
unfolding with_lease
record_outer_prepared unicode_lower lease outer now s =
    with_lease lease now (with_outer unicode_lower outer now) s

abbrev pub with_submission : Text → Job → Result RelayError Job
with_submission transaction_hash job =
    if state_eq job.state submitted && text_eq job.outer.transaction_hash transaction_hash
    then ok job
    else if not (state_eq job.state broadcasting)
        || not (text_eq job.outer.transaction_hash transaction_hash)
    then err state_conflict
    else ok (record job { state = submitted; attempt_count = job.attempt_count + 1 })

-- The method RecordSubmitted.
unfoldable pub record_submitted : Lease → Text → ℕ → Jobs → Result RelayError Job × Jobs
unfolding with_lease
record_submitted lease transaction_hash now s =
    with_lease lease now (with_submission transaction_hash) s

abbrev pub decided_state : Decision → State
decided_state wait = pending_observation
decided_state retry_exact = retryable
decided_state (reapprove _) = reapproval_required
decided_state finished = finalized_observed

abbrev pub is_reapproval : Decision → Bool
is_reapproval (reapprove _) = true
is_reapproval _ = false

abbrev pub refreshes : Decision → Bool
refreshes retry_exact = true
refreshes finished = true
refreshes _ = false

-- Evidence that names no workflow is none.
abbrev pub with_decision : OutcomeEvidence → Decision → Job → Result RelayError Job
with_decision evidence decision job =
    if not (state_eq job.state submitted)
      && not (state_eq job.state pending_observation)
      && not (state_eq job.state retryable && refreshes decision)
      && not (is_reapproval decision)
    then err state_conflict
    else ok (record job {
      state = decided_state decision;
      last_outcome = if is_empty evidence.workflow_id then job.last_outcome else evidence;
    })

-- The method ApplyDecision.
unfoldable pub apply_decision :
    Lease → OutcomeEvidence → Decision → ℕ → Jobs → Result RelayError Job × Jobs
unfolding with_lease
apply_decision lease evidence decision now s =
    with_lease lease now (with_decision evidence decision) s

-- The method ReleaseLease, whose error the service drops.
unfoldable pub release_lease : Lease → ℕ → Jobs → Jobs
release_lease lease now s = elim (lookup lease.job.command.workflow_id s) [
  | none ↦ s
  | some job ↦
      if not (text_eq job.lease_token lease.token)
      then s
      else insert job.command.workflow_id
          (record job {
            lease_owner = [];
            lease_token = [];
            lease_expires_at = 0;
            updated_at = now;
          })
          s
]
