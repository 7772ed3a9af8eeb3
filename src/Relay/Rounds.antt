-- ===== src/Relay/Rounds.antt =====
-- internal/ascpgovernancerelay/service.go: RelayOnce and ObserveOnce, each under its lease.
use flowops.Prelude.{leb, true, false, not, none, some, Text, Result, ok, err, if◌then◌else◌}
use flowops.Workflow.Types.{
  TerminalReason, receipt_rejected, mined_revert, precondition_changed, submission_timeout,
  reorg_detected, SafeRetryProof, WorkflowError,
}
use flowops.Workflow.Types as Workflow
use flowops.Workflow.Binding.{Outside}
use flowops.Workflow.Boundary.{record_chain_failure}
use flowops.Relay.Types.{
  Outcome, reorged, OutcomeEvidence, Decision, wait, retry_exact, finished, reapprove, broadcasting,
  retryable, state_eq, Lease, RelayError, invalid_outcome, outside_failed,
}
use flowops.Relay.Kernel.{decide_retry}
use flowops.Relay.Store.{
  Jobs, claim, valid_outer, record_outer_prepared, apply_decision, release_lease,
}
use flowops.Relay.Service.{
  Config, Answers, World, claiming, deciding, preparing, storing, applying, releasing,
  max_relay_attempts, no_evidence, outcome_of, Returned, behind, behind_jobs, on_jobs,
  ask_reapproval, broadcast_prepared, revalidated, recover_broadcasting,
}

module _ (o : Outside) (hash_bytes : Text → Text) (cfg : Config) where
  -- From the opened artifact to the broadcast of a new outer transaction.
  unfoldable pub relay_prepared : Answers → Lease → World → Returned
  relay_prepared ans lease w = if not ans.opened then (err outside_failed, w) else elim ans.outer [
    | none ↦ (err invalid_outcome, w)
    | some outer ↦
        if not (valid_outer o.unicode_lower outer lease.job.prepared (ans.clock preparing))
        then (err invalid_outcome, w)
        else behind_jobs
            (record_outer_prepared o.unicode_lower lease outer (ans.clock storing) w.jobs) w
            (λ job v.
              broadcast_prepared o hash_bytes cfg ans
                (record lease { job = record lease.job { state = broadcasting; outer = outer } }) v)
  ]

  -- RelayOnce behind its branches for the state.
  unfoldable pub relay_ready : Answers → Lease → World → Returned
  relay_ready ans lease w =
      if leb max_relay_attempts lease.job.attempt_count
      then ask_reapproval o hash_bytes cfg ans lease no_evidence receipt_rejected w
      else revalidated o hash_bytes cfg ans lease no_evidence w (λ v. relay_prepared ans lease v)

  abbrev pub relay_decided : Answers → Lease → OutcomeEvidence → Decision → World → Returned
  relay_decided ans lease evidence (reapprove reason) w =
      ask_reapproval o hash_bytes cfg ans lease evidence reason w
  relay_decided ans lease evidence finished w =
      on_jobs (apply_decision lease evidence finished (ans.clock applying) w.jobs) w
  relay_decided ans lease evidence wait w = (ok lease.job, w)
  relay_decided ans lease evidence retry_exact w =
      if leb max_relay_attempts lease.job.attempt_count
      then ask_reapproval o hash_bytes cfg ans lease evidence receipt_rejected w
      else behind_jobs (apply_decision lease evidence retry_exact (ans.clock applying) w.jobs) w
          (λ job v. relay_ready ans (record lease { job = job }) v)

  -- RelayOnce for a job that may be tried again.
  unfoldable pub relay_retryable : Answers → Lease → World → Returned
  relay_retryable ans lease w = elim ans.evidence [
    | none ↦ (err outside_failed, w)
    | some evidence ↦
        elim (decide_retry o.unicode_lower lease.job.prepared lease.job.outer.transaction_hash
          evidence cfg.quorum (ans.clock deciding)) [
            | err e ↦ (err e, w)
            | ok decision ↦ relay_decided ans lease evidence decision w
          ]
  ]

  unfoldable pub relay_leased : Answers → Lease → World → Returned
  relay_leased ans lease w =
      if state_eq lease.job.state broadcasting
      then recover_broadcasting o hash_bytes cfg ans lease w
      else if state_eq lease.job.state retryable
      then relay_retryable ans lease w
      else relay_ready ans lease w

  -- `run` under a lease that is released at the end.
  abbrev pub under_lease :
      Answers → Result RelayError Lease × Jobs → World → (Lease → World → Returned) → Returned
  under_lease ans (err e, s) w run = (err e, record w { jobs = s })
  under_lease ans (ok lease, s) w run =
      let (r, v) = run lease (record w { jobs = s }) in
      (r, record v { jobs = release_lease lease (ans.clock releasing) v.jobs })

  -- The method RelayOnce.
  unfoldable pub relay_once : Answers → World → Returned
  relay_once ans w =
      under_lease ans
        (claim true cfg.worker_id cfg.lease_duration (ans.clock claiming) ans.token w.jobs) w
        (λ lease v. relay_leased ans lease v)

  abbrev pub absence_state : Outcome → Workflow.State × TerminalReason
  absence_state reorged = (Workflow.reorged, reorg_detected)
  absence_state _ = (Workflow.timed_out, submission_timeout)

  abbrev pub observe_decided : Answers → Lease → OutcomeEvidence → Decision → World → Returned
  observe_decided ans lease evidence (reapprove reason) w =
      ask_reapproval o hash_bytes cfg ans lease evidence reason w
  observe_decided ans lease evidence retry_exact w =
      let (state, reason) = absence_state evidence.outcome in
      behind
        (outcome_of (
          record_chain_failure o ans.workflow lease.job.command.organization_id
            lease.job.command.workflow_id state reason w.workflows))
        w (λ v. on_jobs (apply_decision lease evidence retry_exact (ans.clock applying) v.jobs) v)
  observe_decided ans lease evidence decision w =
      on_jobs (apply_decision lease evidence decision (ans.clock applying) w.jobs) w

  unfoldable pub observe_leased : Answers → Lease → World → Returned
  observe_leased ans lease w = elim ans.evidence [
    | none ↦ (err outside_failed, w)
    | some evidence ↦
        elim (decide_retry o.unicode_lower lease.job.prepared lease.job.outer.transaction_hash
          evidence cfg.quorum (ans.clock deciding)) [
            | err e ↦ (err e, w)
            | ok decision ↦ observe_decided ans lease evidence decision w
          ]
  ]

  -- The method ObserveOnce.
  unfoldable pub observe_once : Answers → World → Returned
  observe_once ans w =
      under_lease ans
        (claim false cfg.worker_id cfg.lease_duration (ans.clock claiming) ans.token w.jobs) w
        (λ lease v. observe_leased ans lease v)
