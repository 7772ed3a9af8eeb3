-- ===== src/Signer/Types.antt =====
-- pkg/referencesigner/executor_types.go: prepared transactions and attempts. The record `Outside`
-- stands for encoding/json, encoding/base64 and the packages behind `Crypto`.
use flowops.Prelude.{
  ℕ, ◌*◌, ltb, ◌==◌, Bool, not, ◌||◌, ◌&&◌, Option, none, some, ◌++◌, Text, codes, text_eq,
  is_empty, length, Result, ok, err, ◌>>◌, map_err, fail_if, if◌then◌else◌, is_some,
}
use flowops.Hex.{hex_encode}
use flowops.Envelope.Grammar.{canonical_address, nonce_pattern}
use flowops.Envelope.Types.{Authorization, SignedAuthorization, authorization_eq}
use flowops.Envelope.Validate.{ValidationError, validate}
use flowops.Envelope.Sign.{Crypto, digest}
use flowops.Receipt.{
  ReceiptError, Receipt, SignedReceipt, outcome_submitted, outcome_ambiguous, verify_receipt,
}

pub record Outside : Type 0 where
  pub crypto : Crypto
  pub unicode_lower : Text → Text
  pub marshal_receipt : Receipt → Text
  pub base64_encode : Text → Text
  pub base64_decode : Text → Option Text

-- The codes of pkg/referencesigner/verifier.go.
pub data RefusalCode : Type 0 where
  unknown_trust_key bad_signature identity_not_allowed not_yet_valid expired ttl_too_long :
      RefusalCode
  chain_not_allowed rail_not_allowed asset_not_allowed recipient_not_allowed : RefusalCode
  amount_exceeds_local_cap chain_unhealthy frozen nonce_already_claimed nonce_store_failure :
      RefusalCode

-- `unknown` is any text that names none of the states.
pub data AttemptState : Type 0 where
  prepared broadcasting submitted ambiguous registered unknown : AttemptState

pub record PreparedTransaction : Type 0 where
  pub raw_transaction : Text
  pub transaction_hash : Text
  pub sender : Text

pub record Authorized : Type 0 where
  pub authorization : Authorization
  pub digest : Text
  pub key_id : Text
  pub claimed_at : ℕ

pub record Attempt : Type 0 where
  pub authorization : SignedAuthorization
  pub authorized : Authorized
  pub transaction : PreparedTransaction
  pub state : AttemptState
  pub prepared_at : ℕ
  pub broadcast_at : ℕ
  pub receipt : Option SignedReceipt
  pub receipt_public_key_b64 : Text
  pub registered_at : ℕ

pub data AttemptError : Type 0 where
  bad_raw_transaction bad_transaction_hash bad_sender wrong_transaction_hash : AttemptError
  capability_mismatch digest_mismatch bad_times later_evidence bad_broadcasting_fields :
      AttemptError
  bad_registration_time bad_state receipt_missing bad_receipt_key receipt_mismatch : AttemptError
  bad_authorization : ValidationError → AttemptError
  bad_receipt_signature : ReceiptError → AttemptError

-- The journal's key of an attempt.
abbrev pub id_of : Attempt → Text
id_of a = a.authorized.authorization.authorization_id

abbrev pub max_raw_transaction_bytes : ℕ
max_raw_transaction_bytes = 256 * 1024

module _ (o : Outside) where
  -- The method validate of PreparedTransaction.
  unfoldable pub validate_prepared : PreparedTransaction → Result AttemptError (Unit {0})
  validate_prepared p = do
    fail_if (is_empty p.raw_transaction || ltb max_raw_transaction_bytes (length p.raw_transaction))
        bad_raw_transaction
    fail_if (not (nonce_pattern p.transaction_hash)) bad_transaction_hash
    fail_if (not (is_some (canonical_address o.unicode_lower p.sender))) bad_sender
    fail_if
        (not (
          text_eq p.transaction_hash
            (codes "0x" ++ hex_encode (o.crypto.keccak p.raw_transaction))))
        wrong_transaction_hash

  -- The outcome that a receipt must state in the attempt's state.
  unfoldable pub wanted_outcome : AttemptState → Text → Text
  wanted_outcome ambiguous outcome = outcome_ambiguous
  wanted_outcome registered outcome =
      if text_eq outcome outcome_ambiguous then outcome_ambiguous else outcome_submitted
  wanted_outcome _ outcome = outcome_submitted

  unfoldable pub receipt_matches : Attempt → Receipt → Bool
  unfolding wanted_outcome
  receipt_matches a r =
      text_eq r.outcome (wanted_outcome a.state r.outcome)
      && text_eq r.organization_id a.authorized.authorization.organization_id
      && text_eq r.customer_id a.authorized.authorization.customer_id
      && text_eq r.authorization_id a.authorized.authorization.authorization_id
      && text_eq r.authorization_digest a.authorized.digest
      && text_eq r.transaction_hash a.transaction.transaction_hash
      && text_eq r.sender a.transaction.sender
      && r.broadcast_at == a.broadcast_at

  -- The method validateReceipt of Attempt.
  unfoldable pub validate_attempt_receipt : Attempt → Result AttemptError (Unit {0})
  unfolding receipt_matches
  validate_attempt_receipt a = elim a.receipt [
    | none ↦ err receipt_missing
    | some s ↦
        if ltb a.broadcast_at a.prepared_at
        then err receipt_missing
        else elim (o.base64_decode a.receipt_public_key_b64) [
          | none ↦ err bad_receipt_key
          | some public_key ↦ do
            fail_if
                (not (length public_key == 32)
                  || not (text_eq a.receipt_public_key_b64 (o.base64_encode public_key)))
                bad_receipt_key
            map_err bad_receipt_signature (verify_receipt o.crypto o.marshal_receipt s public_key)
            fail_if (not (receipt_matches a s.receipt)) receipt_mismatch
        ]
  ]

  -- No receipt, no receipt key and no registration time.
  abbrev pub has_later_evidence : Attempt → Bool
  has_later_evidence a =
      is_some a.receipt || not (is_empty a.receipt_public_key_b64) || not (a.registered_at == 0)

  -- The switch on the state in the method validate of Attempt.
  unfoldable pub validate_state : AttemptState → Attempt → Result AttemptError (Unit {0})
  unfolding validate_attempt_receipt
  validate_state prepared a =
      fail_if (not (a.broadcast_at == 0) || has_later_evidence a) later_evidence
  validate_state broadcasting a =
      fail_if (ltb a.broadcast_at a.prepared_at || has_later_evidence a) bad_broadcasting_fields
  validate_state submitted a =
      validate_attempt_receipt a >> fail_if (not (a.registered_at == 0)) bad_registration_time
  validate_state ambiguous a =
      validate_attempt_receipt a >> fail_if (not (a.registered_at == 0)) bad_registration_time
  validate_state registered a =
      validate_attempt_receipt a
      >> fail_if (ltb a.registered_at a.broadcast_at) bad_registration_time
  validate_state unknown a = err bad_state

  -- The method validate of Attempt.
  unfoldable pub validate_attempt : Attempt → Result AttemptError (Unit {0})
  validate_attempt a = do
    map_err bad_authorization (validate o.crypto.keccak a.authorization.authorization)
    fail_if
        (not (authorization_eq a.authorization.authorization a.authorized.authorization)
          || not (text_eq a.authorization.key_id a.authorized.key_id))
        capability_mismatch
    elim (digest o.crypto a.authorization.authorization) [
      | err _ ↦ err digest_mismatch
      | ok d ↦
          fail_if (not (text_eq a.authorized.digest (codes "0x" ++ hex_encode d))) digest_mismatch
    ]
    fail_if
        (a.authorized.claimed_at == 0
          || a.prepared_at == 0
          || ltb a.prepared_at a.authorized.claimed_at)
        bad_times
    validate_prepared a.transaction
    validate_state a.state a
