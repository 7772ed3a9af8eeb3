-- ===== src/ControlPlane/Lifecycle/Consistency/Applies.antt =====
-- The event that a call writes is one that applyEvent takes.
use flowops.Prelude.{
  ℕ, ap, ◌∙◌, ◌*◌, ◌/◌, ◌≤◌, ltb, leb, ◌≡◌, ◌≢◌, refl, true, false, not, ◌||◌, Option, none, some,
  Text, text_eq, text_eq_refl, is_some, is_ok, length, is_empty, lookup, ok, Result-cases, inl, inr,
  arith,
}
use flowops.Strings.{trim_space}
use flowops.Envelope.Grammar.{valid_identifier}
use flowops.Envelope.Types.{EscrowTerms, Authorization, SignedAuthorization}
use flowops.Envelope.Validate.{validate}
use flowops.Envelope.Sign.{sign, digest, canonical_bytes}
use flowops.Policy.Types.{Decision}
use flowops.ControlPlane.Intent.{
  PaymentIntent, State, Record, Approval, Outside, read_intent, intent_digest, decision_state,
  state_eq,
}
use flowops.ControlPlane.Memory.{
  Event, Memory, scoped_intent_key, terms_eq, equal_escrow_terms, same_action,
  authorization_matches, is_pending, is_approved, apply_submitted, apply_approval, apply_issued,
  apply_expired, apply_payload, apply_event,
}
use flowops.ControlPlane.Budget.{second}
use flowops.ControlPlane.Lifecycle.{
  Plane, Appended, torn, append_event, Config, Answers, new_record, submitted_event, expired_event,
  has_expired,
}
use flowops.ControlPlane.Lifecycle.Consistency.{IsRecoverable, append_event-IsRecoverable}
use flowops.ControlPlane.Lifecycle.Decide.{approval_event, is_action}
use flowops.ControlPlane.Lifecycle.Issue.{
  earlier, escrow_expiry, copy_terms, new_authorization, issued_event,
}

state_eq_refl : (s : State) → state_eq s s ≡ true
state_eq_refl s = ground arith

equal_escrow_terms-copy :
    (address : ℕ) (t : Option EscrowTerms) → equal_escrow_terms (copy_terms address t) t ≡ true
unfolding equal_escrow_terms terms_eq
equal_escrow_terms-copy address none = refl
equal_escrow_terms-copy address (some t) = ground (
  arith,
  text_eq_refl t.contract,
  text_eq_refl t.buyer,
  text_eq_refl t.provider,
  text_eq_refl t.call_id,
  text_eq_refl t.task_digest,
  text_eq_refl t.request_digest,
)

-- The seconds of a time in nanoseconds, against a time in seconds.
pub seconds_before : (now t : ℕ) → leb (t * second) now ≡ false → ltb (now / second) t ≡ true
seconds_before now t h = ground arith

seconds_after : (now t : ℕ) → leb (t * second) now ≡ true → ltb (now / second) t ≡ false
seconds_after now t h = ground arith

abbrev pub Takes : Outside → Event → Memory → Type 0
Takes o e m = is_ok (apply_event o e m) ≡ true

module _ (o : Outside) where
  pub submitted_event-Takes :
      (cfg : Config) (ans : Answers) (i : PaymentIntent) (digest request_id : Text) (d : Decision)
      (state : State) (m : Memory)
      → read_intent o i ≡ i
      → intent_digest o i ≡ ok digest
      → lookup (scoped_intent_key i.organization_id i.intent_id) m.request_by_intent ≡ none
      → is_some (lookup request_id m.records) ≡ false
      → decision_state d.outcome ≡ some state
      → Takes o (submitted_event o cfg ans (new_record o cfg ans i digest d state request_id)) m
  unfolding apply_event apply_payload apply_submitted
  submitted_event-Takes cfg ans i digest request_id d state m same h k f s = ground (
    arith,
    ap (intent_digest o) same ∙ h,
    text_eq_refl request_id,
    text_eq_refl digest,
    text_eq_refl (new_record o cfg ans i digest d state request_id).request_digest,
    state_eq_refl state,
  )

  pub approval_event-Takes :
      (ans : Answers) (request_id : Text) (a : Approval) (m : Memory) (r : Record)
      → lookup request_id m.records ≡ some r
      → is_pending r.state ≡ true
      → text_eq a.request_digest r.request_digest ≡ true
      → a.decided_at ≡ ans.now / second
      → has_expired ans r ≡ false
      → is_action a.action ≡ true
      → (not (valid_identifier a.actor) || ltb 2048 (length a.note)) ≡ false
      → o.json_text a.note ≡ a.note
      → Takes o (approval_event o ans request_id a) m
  unfolding apply_event apply_payload apply_approval
  approval_event-Takes ans request_id a m r l p q d x t v same =
      ground (arith, same, seconds_before ans.now r.approval_expires_at)

  pub expired_event-Takes :
      (ans : Answers) (reason : Text) (m : Memory) (r : Record)
      → lookup r.request_id m.records ≡ some r
      → (is_pending r.state || is_approved r.state) ≡ true
      → is_empty (trim_space reason) ≡ false
      → has_expired ans r ≡ true
      → Takes o (expired_event ans r reason) m
  unfolding apply_event apply_payload apply_expired
  expired_event-Takes ans reason m r l p q x =
      ground (arith, seconds_after ans.now r.approval_expires_at)

  pub sign-validate :
      (a : Authorization) (key_id key : Text) (s : SignedAuthorization)
      → sign o.crypto a key_id key ≡ ok s
      → is_ok (validate o.crypto.keccak a) ≡ true
  unfolding sign digest canonical_bytes
  sign-validate a key_id key s h = ground arith

  new_authorization-same_action :
      (ans : Answers) (r : Record) (authorization_id nonce : Text) (t : ℕ)
      → same_action (new_authorization ans r authorization_id nonce t) r.intent ≡ true
  unfolding same_action
  new_authorization-same_action ans r authorization_id nonce t =
      let i = r.intent in
      ground (
        arith,
        text_eq_refl i.organization_id,
        text_eq_refl i.customer_id,
        text_eq_refl i.agent_id,
        text_eq_refl i.task_id,
        text_eq_refl i.action_id,
        text_eq_refl i.rail,
        text_eq_refl i.recipient,
        text_eq_refl i.asset,
        text_eq_refl i.amount_atomic,
        text_eq_refl i.resource,
        equal_escrow_terms-copy ans.new_pointer i.escrow,
      )

  escrow_expiry-bounded :
      (now t limit x : ℕ) (terms : Option EscrowTerms)
      → escrow_expiry now (earlier t (limit * second)) terms ≡ some x
      → leb (x / second) limit ≡ true
  escrow_expiry-bounded now t limit x terms h = ground arith

  pub new_authorization-matches :
      (cfg : Config) (ans : Answers) (r : Record) (authorization_id nonce : Text) (t x : ℕ)
      → is_ok (validate o.crypto.keccak (new_authorization ans r authorization_id nonce x)) ≡ true
      → escrow_expiry ans.now (earlier t (r.approval_expires_at * second)) r.intent.escrow ≡ some x
      → r.submitted_at * second ≤ ans.now
      → authorization_matches o r (new_authorization ans r authorization_id nonce x) ≡ true
  unfolding authorization_matches
  new_authorization-matches cfg ans r authorization_id nonce t x v b c = ground (
    arith,
    new_authorization-same_action ans r authorization_id nonce x,
    text_eq_refl r.decision.policy_version,
    escrow_expiry-bounded ans.now t r.approval_expires_at x r.intent.escrow b,
  )

  pub issued_event-Takes :
      (cfg : Config) (ans : Answers) (r : Record) (authorization_id nonce : Text) (x : ℕ)
      (m : Memory)
      → lookup r.request_id m.records ≡ some r
      → authorization_matches o r (new_authorization ans r authorization_id nonce x) ≡ true
      → is_approved r.state ≡ true
      → has_expired ans r ≡ false
      → is_some (lookup authorization_id m.request_by_authorization) ≡ false
      → is_some (lookup nonce m.request_by_nonce) ≡ false
      → Takes o (issued_event ans r (new_authorization ans r authorization_id nonce x)) m
  unfolding apply_event apply_payload apply_issued
  issued_event-Takes cfg ans r authorization_id nonce x m l a p h f g =
      ground (arith, seconds_before ans.now r.approval_expires_at)

  pub taken_event :
      (a : Appended) (e : Event) (w : Plane)
      → a ≢ torn
      → Takes o e w.memory
      → IsRecoverable o w
      → IsRecoverable o (append_event o a e w).1
  taken_event a e w n t good =
      append_event-IsRecoverable o a e w n
        (λ _. elim (Result-cases (apply_event o e w.memory)) [
          | inl (m, h) ↦ (m, h)
          | inr (x, h) ↦ absurd (ground arith)
        ])
        good
