-- ===== src/Relay/Service.antt =====
-- internal/ascpgovernancerelay/service.go: the parts of RelayOnce and ObserveOnce, over the relay's
-- jobs and the workflow service. `Answers` has what the calls that leave the process answer, `none`
-- for an error:
-- the directory of Safes, the chain's observers, the vault together with VerifyPrepared, the
-- broadcaster, and the clock at each reading.
use flowops.Prelude.{
  ℕ, ◌/◌, leb, ◌==◌, Bool, false, not, Option, none, some, [], Text, codes, text_eq, Result, ok,
  err, if◌then◌else◌,
}
use flowops.Workflow.Types.{
  TerminalReason, receipt_rejected, mined_revert, precondition_changed, SafeRetryProof,
  WorkflowError,
}
use flowops.Workflow.Store.{MemoryStore, Answer}
use flowops.Workflow.Binding.{Outside}
use flowops.Workflow.Binding as Binding
use flowops.Workflow.Boundary.{record_submission, record_proven_retry, require_reapproval}
use flowops.Relay.Types.{
  Snapshot, Outcome, pending, dropped, reorged, finalized, no_outcome, OutcomeEvidence, Decision,
  wait, retry_exact, finished, reapprove, State, ready, broadcasting, submitted,
  pending_observation, retryable, state_eq, OuterArtifact, Job, Lease, RelayError, invalid_outcome,
  outside_failed, workflow_refused,
}
use flowops.Relay.Types as Types
use flowops.Relay.Kernel.{decide_retry, validate_relay_snapshot}
use flowops.Relay.Store.{Jobs, second, record_submitted, apply_decision}

pub record Config : Type 0 where
  pub worker_id : Text
  pub quorum : ℕ
  pub lease_duration : ℕ

pub data Moment : Type 0 where
  claiming deciding checking preparing storing submitting applying releasing : Moment

pub record Answers : Type 0 where
  pub clock : Moment → ℕ
  pub token : Option Text
  pub safe : Option Text
  pub snapshot : Option Snapshot
  pub evidence : Option OutcomeEvidence
  pub opened : Bool
  pub outer : Option OuterArtifact
  pub broadcast : Option Text
  pub workflow : Binding.Answers

pub record World : Type 0 where
  pub jobs : Jobs
  pub workflows : MemoryStore

abbrev pub max_relay_attempts : ℕ
max_relay_attempts = 10

abbrev pub outcome_text : Outcome → Text
outcome_text pending = codes "PENDING"
outcome_text dropped = codes "DROPPED"
outcome_text reorged = codes "REORGED"
outcome_text Types.mined_revert = codes "MINED_REVERT"
outcome_text finalized = codes "FINALIZED"
outcome_text no_outcome = []

abbrev pub safe_retry_proof : Job → Text → SafeRetryProof
safe_retry_proof job retry_transaction_hash = record {
  workflow_id = job.command.workflow_id;
  previous_transaction_hash = job.last_outcome.outer_transaction_hash;
  retry_transaction_hash = retry_transaction_hash;
  outcome = outcome_text job.last_outcome.outcome;
  previous_canonical = job.last_outcome.previous_canonical;
  safe_address = job.prepared.transaction.safe;
  safe_nonce = job.prepared.transaction.nonce;
  safe_tx_hash = job.prepared.safe_tx_hash;
  exec_calldata_hash = job.prepared.exec_calldata_hash;
  verified_payload_hash = job.last_outcome.verified_payload_hash;
  observers = job.last_outcome.observers;
  evidence_digest = job.last_outcome.evidence_digest;
  observed_at = job.last_outcome.observed_at / second;
}

-- Whether the workflow service refused, and its store behind the call.
abbrev pub outcome_of : Answer × MemoryStore → Option WorkflowError × MemoryStore
outcome_of (err e, s) = (some e, s)
outcome_of (ok _, s) = (none, s)

abbrev pub Returned : Type 0
Returned = Result RelayError Job × World

-- The workflow service's call, and then `next` over the changed world.
abbrev pub behind : Option WorkflowError × MemoryStore → World → (World → Returned) → Returned
behind (some e, s) w next = (err (workflow_refused e), record w { workflows = s })
behind (none, s) w next = next (record w { workflows = s })

abbrev pub on_jobs : Result RelayError Job × Jobs → World → Returned
on_jobs (r, s) w = (r, record w { jobs = s })

-- The call of the jobs' store, and then `next` over its job.
abbrev pub behind_jobs : Result RelayError Job × Jobs → World → (Job → World → Returned) → Returned
behind_jobs (err e, s) w next = (err e, record w { jobs = s })
behind_jobs (ok job, s) w next = next job (record w { jobs = s })

abbrev pub no_evidence : OutcomeEvidence
no_evidence = record {
  workflow_id = [];
  outer_transaction_hash = [];
  outcome = no_outcome;
  previous_canonical = false;
  chain_id = 0;
  safe_address = [];
  current_safe_nonce = 0;
  safe_tx_hash = [];
  exec_calldata_hash = [];
  verified_payload_hash = [];
  block_number = 0;
  block_hash = [];
  confirmed_head = 0;
  observers = [];
  evidence_digest = [];
  observed_at = 0;
}

module _ (o : Outside) (hash_bytes : Text → Text) (cfg : Config) where
  unfoldable pub record_workflow_submission :
      Answers → Job → Text → MemoryStore → Option WorkflowError × MemoryStore
  record_workflow_submission ans job transaction_hash s =
      if job.attempt_count == 0
      then outcome_of (
          record_submission o ans.workflow job.command.organization_id job.command.workflow_id
            transaction_hash s)
      else outcome_of (
          record_proven_retry o ans.workflow job.command.organization_id job.command.workflow_id
            transaction_hash (safe_retry_proof job transaction_hash) s)

  abbrev pub reapproval_reason : TerminalReason → TerminalReason
  reapproval_reason mined_revert = receipt_rejected
  reapproval_reason reason = reason

  -- requireReapproval.
  unfoldable pub ask_reapproval :
      Answers → Lease → OutcomeEvidence → TerminalReason → World → Returned
  ask_reapproval ans lease evidence reason w =
      behind
        (outcome_of (
          require_reapproval o ans.workflow lease.job.command.organization_id
            lease.job.command.workflow_id (reapproval_reason reason) w.workflows))
        w
        (λ v.
          on_jobs (apply_decision lease evidence (reapprove reason) (ans.clock applying) v.jobs) v)

  unfoldable pub broadcast_prepared : Answers → Lease → World → Returned
  broadcast_prepared ans lease w = elim ans.broadcast [
    | none ↦ (err outside_failed, w)
    | some hash ↦
        if not (text_eq hash lease.job.outer.transaction_hash)
        then (err invalid_outcome, w)
        else behind (record_workflow_submission ans lease.job hash w.workflows) w
            (λ v. on_jobs (record_submitted lease hash (ans.clock submitting) v.jobs) v)
  ]

  -- The directory and the snapshot agree that the Safe is as it was prepared for; `next` goes on.
  abbrev pub revalidated : Answers → Lease → OutcomeEvidence → World → (World → Returned) → Returned
  revalidated ans lease evidence w next = elim ans.safe [
    | none ↦ (err outside_failed, w)
    | some safe ↦
        if not (text_eq safe lease.job.prepared.transaction.safe)
        then ask_reapproval ans lease evidence precondition_changed w
        else elim ans.snapshot [
          | none ↦ (err outside_failed, w)
          | some snapshot ↦
              elim (validate_relay_snapshot o.unicode_lower hash_bytes lease.job.command
                lease.job.prepared snapshot cfg.quorum (ans.clock checking)) [
                  | err e ↦ (err e, w)
                  | ok (reapprove reason) ↦ ask_reapproval ans lease evidence reason w
                  | ok _ ↦ next w
                ]
        ]
  ]

  -- What recoverBroadcasting does where the transaction may be on the chain.
  abbrev pub settle_submitted :
      Answers → Lease → OutcomeEvidence → Decision → Job → World → Returned
  settle_submitted ans lease evidence (reapprove reason) job w =
      ask_reapproval ans (record lease { job = job }) evidence reason w
  settle_submitted ans lease evidence finished job w =
      on_jobs
        (apply_decision (record lease { job = job }) evidence finished (ans.clock applying) w.jobs)
        w
  settle_submitted ans lease evidence _ job w = (ok job, w)

  abbrev pub record_crossed : Answers → Lease → OutcomeEvidence → Decision → World → Returned
  record_crossed ans lease evidence decision w =
      behind (record_workflow_submission ans lease.job lease.job.outer.transaction_hash w.workflows)
        w
        (λ v.
          behind_jobs
            (record_submitted lease lease.job.outer.transaction_hash (ans.clock submitting) v.jobs)
            v (λ job u. settle_submitted ans lease evidence decision job u))

  abbrev pub recover_decided : Answers → Lease → OutcomeEvidence → Decision → World → Returned
  recover_decided ans lease evidence retry_exact w =
      if leb max_relay_attempts lease.job.attempt_count
      then ask_reapproval ans lease evidence receipt_rejected w
      else revalidated ans lease evidence w (λ v. broadcast_prepared ans lease v)
  recover_decided ans lease evidence decision w = record_crossed ans lease evidence decision w

  unfoldable pub recover_broadcasting : Answers → Lease → World → Returned
  recover_broadcasting ans lease w = elim ans.evidence [
    | none ↦ (err outside_failed, w)
    | some evidence ↦
        elim (decide_retry o.unicode_lower lease.job.prepared lease.job.outer.transaction_hash
          evidence cfg.quorum (ans.clock deciding)) [
            | err e ↦ (err e, w)
            | ok decision ↦ recover_decided ans lease evidence decision w
          ]
  ]
