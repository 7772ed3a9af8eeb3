-- ===== src/Relay/Recovery.antt =====
-- The recovery of a later attempt whose submission was not recorded in time.
use flowops.Prelude.{
  ◌+◌, ◌/◌, ◌<◌, ◌≡◌, ◌≢◌, refl, ◌∙◌, ap, some, Text, ok, err, Option-cases, Result-cases, inl, inr,
  arith,
}
use flowops.Workflow.Binding.{Outside}
use flowops.Workflow.Binding as Binding
use flowops.Workflow.Types.{SafeRetryProof, invalid_workflow}
use flowops.Workflow.Rules.{valid_safe_retry_proof, second}
use flowops.Workflow.Store.{MemoryStore}
use flowops.Workflow.Boundary.{record_proven_retry}
use flowops.Relay.Types.{
  OutcomeEvidence, Decision, wait, retry_exact, finished, reapprove, broadcasting, Job, Lease,
  RelayError, outside_failed, workflow_refused,
}
use flowops.Relay.Kernel.{decide_retry}
use flowops.Relay.Service.{
  Config, Answers, deciding, World, safe_retry_proof, record_workflow_submission, record_crossed,
  recover_decided, recover_broadcasting,
}
use flowops.Relay.Rounds.{relay_leased}

stale-refused :
    (o : Outside) (ans : Binding.Answers) (org id hash : Text) (proof : SafeRetryProof)
    (s : MemoryStore)
    → proof.observed_at + 60 < ans.now / second
    → record_proven_retry o ans org id hash proof s ≡ (err invalid_workflow, s)
unfolding record_proven_retry valid_safe_retry_proof
stale-refused o ans org id hash proof s h = ground arith

submission-refused :
    (o : Outside) (hash_bytes : Text → Text) (cfg : Config) (ans : Answers) (job : Job)
    (hash : Text) (s : MemoryStore)
    → job.attempt_count ≢ 0
    → job.last_outcome.observed_at / second + 60 < ans.workflow.now / second
    → record_workflow_submission o hash_bytes cfg ans job hash s ≡ (some invalid_workflow, s)
unfolding record_workflow_submission
submission-refused o hash_bytes cfg ans job hash s n h =
    let e =
      stale-refused o ans.workflow job.command.organization_id job.command.workflow_id hash
        (safe_retry_proof job hash) s h in
    ground arith

record_crossed-refused :
    (o : Outside) (hash_bytes : Text → Text) (cfg : Config) (ans : Answers) (lease : Lease)
    (e : OutcomeEvidence) (d : Decision) (w : World)
    → lease.job.attempt_count ≢ 0
    → lease.job.last_outcome.observed_at / second + 60 < ans.workflow.now / second
    → record_crossed o hash_bytes cfg ans lease e d w ≡ (err (workflow_refused invalid_workflow), w)
record_crossed-refused o hash_bytes cfg ans lease e d w n h =
    let r =
      submission-refused o hash_bytes cfg ans lease.job lease.job.outer.transaction_hash w.workflows
        n h in
    rw r refl

recover_decided-refused :
    (o : Outside) (hash_bytes : Text → Text) (cfg : Config) (ans : Answers) (lease : Lease)
    (e : OutcomeEvidence) (d : Decision) (w : World)
    → lease.job.attempt_count ≢ 0
    → lease.job.last_outcome.observed_at / second + 60 < ans.workflow.now / second
    → d ≢ retry_exact
    → recover_decided o hash_bytes cfg ans lease e d w
      ≡ (err (workflow_refused invalid_workflow), w)
recover_decided-refused o hash_bytes cfg ans lease e retry_exact w n h x = absurd (x refl)
recover_decided-refused o hash_bytes cfg ans lease e wait w n h x =
    record_crossed-refused o hash_bytes cfg ans lease e wait w n h
recover_decided-refused o hash_bytes cfg ans lease e finished w n h x =
    record_crossed-refused o hash_bytes cfg ans lease e finished w n h
recover_decided-refused o hash_bytes cfg ans lease e (reapprove r) w n h x =
    record_crossed-refused o hash_bytes cfg ans lease e (reapprove r) w n h

-- An attempt after the first is left in BROADCASTING, and the evidence that allowed it is more than 60
-- seconds old. Then no evidence on the outer transaction but that of its absence lets the relay
-- record it: RelayOnce returns an error under its lease and leaves its jobs and the workflows as they
-- are, also where the observers report the transaction as pending or finalized.
pub relay_leased-stale :
    (o : Outside) (hash_bytes : Text → Text) (cfg : Config) (ans : Answers) (lease : Lease)
    (w : World)
    → lease.job.state ≡ broadcasting
    → lease.job.attempt_count ≢ 0
    → lease.job.last_outcome.observed_at / second + 60 < ans.workflow.now / second
    → ((e : OutcomeEvidence)
        → ans.evidence ≡ some e
        → decide_retry o.unicode_lower lease.job.prepared lease.job.outer.transaction_hash e
            cfg.quorum
            (ans.clock deciding)
          ≢ ok retry_exact)
    → (error : RelayError) × (relay_leased o hash_bytes cfg ans lease w ≡ (err error, w))
unfolding relay_leased recover_broadcasting
relay_leased-stale o hash_bytes cfg ans lease w s n h absent = elim (Option-cases ans.evidence) [
  | inl a ↦ (outside_failed, ground arith)
  | inr (e, a) ↦
      elim (Result-cases (
        decide_retry o.unicode_lower lease.job.prepared lease.job.outer.transaction_hash e
          cfg.quorum (ans.clock deciding))) [
            | inr (x, b) ↦ (x, ground arith)
            | inl (d, b) ↦
                let r =
                  recover_decided-refused o hash_bytes cfg ans lease e d w n h
                    (λ q. absent e a (b ∙ ap ok q)) in
                (workflow_refused invalid_workflow, ground arith)
          ]
]
