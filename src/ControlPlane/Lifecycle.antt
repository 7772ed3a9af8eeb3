-- ===== src/ControlPlane/Lifecycle.antt =====
-- internal/controlplane/lifecycle.go: the operations. Times are nanoseconds from the Unix epoch on.
-- A call of the policy provider, a gate, an identifier source or the journal is answered by
-- `Answers`; the mutex makes the operations one after another.
pub mod Decide
pub mod Issue
pub mod Consistency
pub mod Accepted
pub mod Exposure
pub mod Retry
use flowops.Prelude.{
  ℕ, suc, ◌+◌, ◌*◌, ◌/◌, ltb, leb, ◌==◌, Bool, true, false, not, ◌||◌, ◌&&◌, Option, none, some,
  List, [], ◌∷◌, ◌++◌, Text, codes, text_eq, is_some, length, lookup, Result, ok, err,
  if◌then◌else◌,
}
use flowops.Amount.{big_string}
use flowops.Envelope.Grammar.{valid_identifier}
use flowops.Envelope.Types.{EscrowTerms, Authorization, SignedAuthorization}
use flowops.Envelope.Validate.{ValidationError, authorization_version}
use flowops.Envelope.Sign.{sign}
use flowops.Policy.Types.{Outcome, deny, Decision, pilot_per_action_limit, pilot_outstanding_limit}
use flowops.PilotLimits.{Limits, LimitError, per_action_exceeded, outstanding_exceeded, check}
use flowops.ControlPlane.Intent.{
  PaymentIntent, State, ApprovalAction, approve, reject, unknown_action, Approval, Record,
  IntentError, Outside, read_record, intent_digest, request_digest, decision_state,
}
use flowops.ControlPlane.Memory.{
  Event, EventError, Payload, submitted_payload, approval_payload, issued_payload, expired_payload,
  unreadable, Memory, scoped_intent_key, is_pending, is_approved, apply_event,
}
use flowops.ControlPlane.Budget.{OutcomeSource, second, is_issued, pilot_outstanding}

-- The maps that New fills, the events in the journal's file, and the journal's `fault`.
pub record Plane : Type 0 where
  pub memory : Memory
  pub events : List Event
  pub faulted : Bool

pub record Config : Type 0 where
  pub approval_ttl : ℕ
  pub authorization_ttl : ℕ
  pub envelope_key_id : Text
  pub envelope_private_key : Text
  pub pilot_limits : Option Limits

-- What a call of Append does to the file: the line is kept; Append fails before it writes; the write
-- fails; the line is torn; the line is kept and Sync fails. The last three set `fault`.
pub data Appended : Type 0 where
  kept refused unwritten torn kept_unreported : Appended

pub record Answers : Type 0 where
  pub now : ℕ
  pub freeze_passes : Bool
  pub chain_passes : Bool
  pub evaluate : Option Decision
  pub active_version : Option Text
  pub new_request_id : Option Text
  pub new_authorization_id : Option Text
  pub new_nonce : Option Text
  pub new_pointer : ℕ  -- where the copy of the escrow terms is allocated
  pub append : Appended
  pub outcomes : OutcomeSource

pub data LifecycleError : Type 0 where
  unknown_request idempotency_conflict not_pending_approval not_approved approval_digest :
      LifecycleError
  approval_expired policy_changed policy_unavailable frozen chain_unavailable bad_action :
      LifecycleError
  bad_actor bad_version bad_outcome no_request_id bad_request_id request_id_exists : LifecycleError
  no_authorization_id no_nonce acknowledgement_elapsed authorization_exists nonce_exists :
      LifecycleError
  journal_failed : LifecycleError
  bad_intent : IntentError → LifecycleError
  pilot : LimitError → LifecycleError
  not_signed : ValidationError → LifecycleError
  not_applied : EventError → LifecycleError

module _ (o : Outside) where
  -- A journal without a fault writes the event, and applyEvent follows.
  unfoldable pub write_event : Appended → Event → Plane → Result LifecycleError (Unit {0}) × Plane
  write_event refused e w = (err journal_failed, w)
  write_event unwritten e w = (err journal_failed, record w { faulted = true })
  write_event torn e w = (
    err journal_failed,
    record w { events = w.events ++ record e { payload = unreadable } ∷ []; faulted = true },
  )
  write_event kept_unreported e w =
      (err journal_failed, record w { events = w.events ++ e ∷ []; faulted = true })
  write_event kept e w = elim (apply_event o e w.memory) [
    | err x ↦ (err (not_applied x), record w { events = w.events ++ e ∷ [] })
    | ok m ↦ (ok tt, record w { memory = m; events = w.events ++ e ∷ [] })
  ]

  -- journal.Append and then applyEvent.
  unfoldable pub append_event : Appended → Event → Plane → Result LifecycleError (Unit {0}) × Plane
  unfolding write_event
  append_event a e w = let r = write_event a e w in if w.faulted then (err journal_failed, w) else r

abbrev pub is_deny : Outcome → Bool
is_deny deny = true
is_deny _ = false

-- The pilot's limits turn a decision into a denial; `none` where they fail otherwise.
unfoldable pub limit_decision : Decision → Result LimitError (Unit {0}) → Result LimitError Decision
limit_decision d (ok _) = ok d
limit_decision d (err per_action_exceeded) =
    ok (record d { outcome = deny; reason = pilot_per_action_limit })
limit_decision d (err outstanding_exceeded) =
    ok (record d { outcome = deny; reason = pilot_outstanding_limit })
limit_decision d (err e) = err e

module _ (o : Outside) (cfg : Config) where
  unfoldable pub pilot_decision :
      Answers → PaymentIntent → Decision → Memory → Result LimitError Decision
  pilot_decision ans i d m =
      if is_deny d.outcome
      then ok d
      else limit_decision d (
          check cfg.pilot_limits i.amount_atomic
            (big_string (pilot_outstanding o ans.outcomes ans.now i m)))

  abbrev pub new_record : Answers → PaymentIntent → Text → Decision → State → Text → Record
  new_record ans i digest d state request_id =
      let expires_at = (ans.now + cfg.approval_ttl) / second in
      record {
        request_id = request_id;
        intent = i;
        intent_digest = digest;
        request_digest = request_digest o request_id digest d expires_at;
        decision = d;
        state = state;
        submitted_at = ans.now / second;
        approval_expires_at = expires_at;
        approval = none;
        authorization = none;
      }

  abbrev pub submitted_event : Answers → Record → Event
  submitted_event ans r = record {
    at = ans.now / second;
    request_id = r.request_id;
    payload = submitted_payload (read_record o r);
  }

  -- The end of Submit, from the generated request identifier on.
  unfoldable pub submit_record :
      Answers
      → PaymentIntent
      → Text
      → Decision
      → State
      → Plane
      → Result LifecycleError Record × Plane
  submit_record ans i digest d state w = elim ans.new_request_id [
    | none ↦ (err no_request_id, w)
    | some request_id ↦
        let r = new_record ans i digest d state request_id in
        let (result, w') = append_event o ans.append (submitted_event ans r) w in
        if not (valid_identifier request_id)
        then (err bad_request_id, w)
        else if is_some (lookup request_id w.memory.records)
        then (err request_id_exists, w)
        else (elim result [ err e ↦ err e | ok _ ↦ ok (read_record o r) ], w')
  ]

  -- Submit for an intent that no record names: `d` is the provider's decision.
  unfoldable pub submit_decision :
      Answers → PaymentIntent → Text → Decision → Plane → Result LifecycleError Record × Plane
  submit_decision ans i digest d w =
      if not (valid_identifier d.policy_version)
      then (err bad_version, w)
      else elim (pilot_decision ans i d w.memory) [
        | err e ↦ (err (pilot e), w)
        | ok d' ↦ elim (decision_state d'.outcome) [
          | none ↦ (err bad_outcome, w)
          | some state ↦ submit_record ans i digest d' state w
        ]
      ]

  -- The method Submit.
  unfoldable pub submit : Answers → PaymentIntent → Plane → Result LifecycleError Record × Plane
  submit ans i w = elim (intent_digest o i) [
    | err e ↦ (err (bad_intent e), w)
    | ok digest ↦
        elim (lookup (scoped_intent_key i.organization_id i.intent_id) w.memory.request_by_intent) [
          | some request_id ↦ elim (lookup request_id w.memory.records) [
            | none ↦ (err idempotency_conflict, w)
            | some existing ↦
                if not (text_eq existing.intent_digest digest)
                then (err idempotency_conflict, w)
                else (ok existing, w)
          ]
          | none ↦ if not ans.freeze_passes then (err frozen, w) else elim ans.evaluate [
            | none ↦ (err policy_unavailable, w)
            | some d ↦ submit_decision ans i digest d w
          ]
        ]
  ]

abbrev pub expired_event : Answers → Record → Text → Event
expired_event ans r reason = record {
  at = ans.now / second;
  request_id = r.request_id;
  payload = expired_payload reason;
}

-- expireLocked
unfoldable pub expire :
    Outside → Answers → Record → Text → Plane → Result LifecycleError (Unit {0}) × Plane
expire o ans r reason w = append_event o ans.append (expired_event ans r reason) w

abbrev pub has_expired : Answers → Record → Bool
has_expired ans r = leb (r.approval_expires_at * second) ans.now

-- What a call returns once the window has elapsed.
abbrev pub expired_result : Result LifecycleError (Unit {0}) → LifecycleError
expired_result (err e) = e
expired_result (ok _) = approval_expired
