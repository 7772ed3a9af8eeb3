-- ===== src/Signer/Executor.antt =====
-- pkg/referencesigner/executor.go: the one-way execution of an authorization. The mutex makes the
-- calls one after another.
pub mod Appends
pub mod Steps
pub mod AtMostOnce
pub mod Retry
use flowops.Prelude.{
  ℕ, suc, Bool, true, false, not, ◌&&◌, Option, none, some, List, [], ◌∷◌, text_eq, lookup, values,
  ok, err, if◌then◌else◌,
}
use flowops.Amount.{big_string}
use flowops.Envelope.Grammar.{rail_direct, rail_escrow}
use flowops.Envelope.Types.{SignedAuthorization, signed_eq}
use flowops.Receipt.{
  Receipt, SignedReceipt, Outcome, outcome_submitted, outcome_ambiguous, receipt_version,
  sign_receipt,
}
use flowops.PilotLimits.{check}
use flowops.Signer.Types.{
  Outside, AttemptState, prepared, broadcasting, submitted, ambiguous, registered, unknown,
  PreparedTransaction, Authorized, Attempt, id_of, validate_prepared,
}
use flowops.Signer.Journal.{Codec, sort_attempts}
use flowops.Signer.World.{
  World, CallAnswer, accepted, refused, died, Answers, ExecuteError, unsupported_rail,
  attempt_conflict, prepare_failed, broadcast_ambiguous, registration_pending, receipt_absent,
  unsupported_state, dead, pilot, refusal, invalid_prepared, journal_failed, receipt_failed,
  Executor, Returned, killed, outstanding, append,
}

module _ (o : Outside) (c : Codec) (x : Executor) where
  abbrev pub is_ambiguous : SignedReceipt → Bool
  is_ambiguous s = text_eq s.receipt.outcome outcome_ambiguous

  unfoldable pub register_receipt : Answers → Attempt → SignedReceipt → World → Returned
  register_receipt ans attempt s w =
      let registered_attempt = record attempt {
        state = registered;
        registered_at = ans.registered_now;
      } in
      let (r, w') = append o c false ans.write_registered ans.registered_at registered_attempt w in
      elim (ans.register) [
        | died ↦ (none, some dead, killed w)
        | refused ↦ (some attempt, some registration_pending, w)
        | accepted ↦ elim r [
          | err _ ↦ (some attempt, some registration_pending, w')
          | ok persisted ↦
              (some persisted, (if is_ambiguous s then some broadcast_ambiguous else none), w')
        ]
      ]

  -- The method register.
  unfoldable pub register_attempt : Answers → Attempt → World → Returned
  register_attempt ans attempt w = elim attempt.receipt [
    | none ↦ (none, some receipt_absent, w)
    | some s ↦ register_receipt ans attempt s w
  ]

  abbrev pub outcome_receipt : Attempt → Outcome → Receipt
  outcome_receipt attempt outcome =
      let a = attempt.authorized.authorization in
      record {
        version = receipt_version;
        organization_id = a.organization_id;
        customer_id = a.customer_id;
        authorization_id = a.authorization_id;
        authorization_digest = attempt.authorized.digest;
        transaction_hash = attempt.transaction.transaction_hash;
        sender = attempt.transaction.sender;
        outcome = outcome;
        broadcast_at = attempt.broadcast_at;
      }

  unfoldable pub persist_outcome_and_register :
      Answers → Attempt → AttemptState → Outcome → World → Returned
  persist_outcome_and_register ans attempt state outcome w =
      elim (sign_receipt o.crypto o.marshal_receipt (outcome_receipt attempt outcome)
        x.receipt_key_id x.receipt_private_key) [
          | err e ↦ (some attempt, some (receipt_failed e), w)
          | ok s ↦
              let concluded = record attempt {
                state = state;
                receipt = some s;
                receipt_public_key_b64 = o.base64_encode x.receipt_public_key;
              } in
              let (r, w') = append o c false ans.write_outcome ans.outcome_at concluded w in
              elim r [
                | err e ↦ (none, some (journal_failed e), w')
                | ok persisted ↦ register_attempt ans persisted w'
              ]
        ]

  -- What follows the call of Broadcast.
  unfoldable pub after_broadcast : CallAnswer → Answers → Attempt → World → Returned
  after_broadcast died ans attempt w = (none, some dead, killed w)
  after_broadcast accepted ans attempt w =
      persist_outcome_and_register ans attempt submitted outcome_submitted w
  after_broadcast refused ans attempt w =
      persist_outcome_and_register ans attempt ambiguous outcome_ambiguous w

  abbrev pub send : Attempt → World → World
  send attempt w = record w { sent = id_of attempt ∷ w.sent }

  unfoldable pub advance_prepared : Answers → Attempt → World → Returned
  advance_prepared ans attempt w =
      let attempt' = record attempt { state = broadcasting; broadcast_at = ans.broadcast_now } in
      let (r, w') =
        append o c ans.cancelled_broadcasting ans.write_broadcasting ans.broadcast_at attempt' w in
      elim ans.check_execution [
        | err code ↦ (some attempt, some (refusal code), w)
        | ok _ ↦ elim r [
          | err e ↦ (none, some (journal_failed e), w')
          | ok persisted ↦ after_broadcast ans.broadcast ans persisted (send persisted w')
        ]
      ]

  unfoldable pub advance_state : AttemptState → Answers → Attempt → World → Returned
  advance_state prepared ans attempt w = advance_prepared ans attempt w
  advance_state broadcasting ans attempt w =
      persist_outcome_and_register ans attempt ambiguous outcome_ambiguous w
  advance_state submitted ans attempt w = register_attempt ans attempt w
  advance_state ambiguous ans attempt w = register_attempt ans attempt w
  advance_state registered ans attempt w = elim attempt.receipt [
    | none ↦ (some attempt, none, w)
    | some s ↦ (some attempt, (if is_ambiguous s then some broadcast_ambiguous else none), w)
  ]
  advance_state unknown ans attempt w = (none, some unsupported_state, w)

  unfoldable pub advance : Answers → Attempt → World → Returned
  unfolding advance_state
  advance ans attempt w = advance_state attempt.state ans attempt w

  -- The part of Execute behind a successful Authorize and Prepare.
  unfoldable pub admit_attempt :
      Answers → SignedAuthorization → Authorized → PreparedTransaction → World → Returned
  admit_attempt ans signed authorized transaction w =
      let attempt : Attempt = record {
        authorization = signed;
        authorized = authorized;
        transaction = transaction;
        state = prepared;
        prepared_at = ans.prepared_now;
        broadcast_at = 0;
        receipt = none;
        receipt_public_key_b64 = [];
        registered_at = 0;
      } in
      let (r, w') =
        append o c ans.cancelled_prepared ans.write_prepared ans.prepared_at attempt w in
      elim (validate_prepared o transaction) [
        | err e ↦ (none, some (invalid_prepared e), w)
        | ok _ ↦ elim r [
          | err e ↦ (none, some (journal_failed e), w')
          | ok persisted ↦ advance ans persisted w'
        ]
      ]

  unfoldable pub execute_new : Answers → SignedAuthorization → World → Returned
  execute_new ans signed w =
      elim (check x.pilot_limits signed.authorization.amount_atomic
        (big_string (outstanding w.journal.attempts))) [
          | err e ↦ (none, some (pilot e), w)
          | ok _ ↦ elim ans.authorize [
            | err code ↦ (none, some (refusal code), w)
            | ok authorized ↦ elim ans.prepare [
              | none ↦ (none, some prepare_failed, w)
              | some transaction ↦ admit_attempt ans signed authorized transaction w
            ]
          ]
        ]

  -- The method Execute.
  unfoldable pub execute : Answers → SignedAuthorization → World → Returned
  execute ans signed w =
      if not (text_eq signed.authorization.rail rail_direct)
        && not (text_eq signed.authorization.rail rail_escrow)
      then (none, some unsupported_rail, w)
      else elim (lookup signed.authorization.authorization_id w.journal.attempts) [
        | none ↦ execute_new ans signed w
        | some existing ↦
            if not (signed_eq existing.authorization signed)
            then (none, some attempt_conflict, w)
            else advance ans existing w
      ]

  abbrev pub is_registered : AttemptState → Bool
  is_registered registered = true
  is_registered _ = false

  -- The loop of ResumePending; `answers n` is for its round n.
  unfoldable pub resume_from :
      (ℕ → Answers) → ℕ → List Attempt → World → List (Option Attempt × Option ExecuteError) × World
  resume_from answers n [] w = ([], w)
  resume_from answers n (attempt ∷ rest) w =
      let (a, e, w') = advance (answers n) attempt w in
      let (skipped, v) = resume_from answers n rest w in
      let (results, v') = resume_from answers (suc n) rest w' in
      if is_registered attempt.state
      then (skipped, v)
      else if not w'.alive
      then ((a, e) ∷ [], w')
      else ((a, e) ∷ results, v')

  -- The method ResumePending.
  unfoldable pub resume_pending :
      (ℕ → Answers) → World → List (Option Attempt × Option ExecuteError) × World
  resume_pending answers w = resume_from answers 0 (sort_attempts (values w.journal.attempts)) w
