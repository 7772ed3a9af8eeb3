-- ===== src/ControlPlane/Intent.antt =====
-- internal/controlplane/types.go: intents, records and their digests. The record `Outside` stands
-- for encoding/json and the packages behind `Crypto`: `json_text` is what a text is after json.Marshal
-- and json.Unmarshal, which replace bytes that are no UTF-8. A payload of the journal is the value that
-- its JSON decodes to; escrow terms are compared by value in this package and stand without a pointer.
use flowops.Prelude.{
  ℕ, leb, ◌==◌, Bool, true, false, not, ◌||◌, ◌&&◌, Option, none, some, [], ◌∷◌, ◌++◌, Text, codes,
  text_eq, all, is_empty, length, Result, ok, err, ◌>>◌, map_err, fail_if, if◌then◌else◌,
}
use flowops.Strings.{trim_space}
use flowops.Hex.{hex_encode}
use flowops.Amount.{is_digit}
use flowops.Envelope.Grammar.{Rail, rail_escrow, known_rail, valid_identifier, normalize_address}
use flowops.Envelope.Types.{EscrowTerms, Authorization}
use flowops.Envelope.Escrow.{EscrowError, validate_terms}
use flowops.Envelope.Sign.{Crypto}
use flowops.Policy.Types.{Decision, Outcome, deny, require_approval, auto_approve, unsupported}

pub record PaymentIntent : Type 0 where
  pub intent_id : Text
  pub organization_id : Text
  pub customer_id : Text
  pub agent_id : Text
  pub task_id : Text
  pub action_id : Text
  pub rail : Rail
  pub chain_id : ℕ
  pub recipient : Text
  pub asset : Text
  pub amount_atomic : Text
  pub resource : Text
  pub category : Text
  pub purpose : Text
  pub escrow : Option EscrowTerms

pub data State : Type 0 where
  denied pending_approval approved rejected issued expired : State

pub data ApprovalAction : Type 0 where
  approve reject unknown_action : ApprovalAction

pub record Approval : Type 0 where
  pub action : ApprovalAction
  pub actor : Text
  pub note : Text
  pub request_digest : Text
  pub decided_at : ℕ

pub record Record : Type 0 where
  pub request_id : Text
  pub intent : PaymentIntent
  pub intent_digest : Text
  pub request_digest : Text
  pub decision : Decision
  pub state : State
  pub submitted_at : ℕ
  pub approval_expires_at : ℕ
  pub approval : Option Approval
  pub authorization : Option Authorization

pub data IntentError : Type 0 where
  bad_identifier unsupported_rail escrow_required escrow_forbidden zero_chain bad_address :
      IntentError
  bad_amount bad_resource bad_category bad_purpose : IntentError
  bad_escrow : EscrowError → IntentError

pub record Outside : Type 0 where
  pub crypto : Crypto
  pub unicode_lower : Text → Text
  pub json_text : Text → Text
  pub marshal_intent : PaymentIntent → Text
  pub marshal_request : Text → Text → Decision → ℕ → Text

-- Of an intent that is valid only these three texts can hold bytes other than ASCII.
abbrev pub read_intent : Outside → PaymentIntent → PaymentIntent
read_intent o i = record i {
  resource = o.json_text i.resource;
  category = o.json_text i.category;
  purpose = o.json_text i.purpose;
}

-- The record and the approval that decodePayload reads from what json.Marshal has written.
abbrev pub read_record : Outside → Record → Record
read_record o r = record r { intent = read_intent o r.intent }

abbrev pub read_approval : Outside → Approval → Approval
read_approval o a = record a { note = o.json_text a.note }

unfoldable pub canonical_positive_integer : Text → Bool
canonical_positive_integer [] = false
canonical_positive_integer (c ∷ s) = not (c == b'0') && all is_digit (c ∷ s)

-- One to `limit` bytes that are not all white space.
abbrev pub fits : ℕ → Text → Bool
fits limit s = not (is_empty (trim_space s)) && leb (length s) limit

module _ (o : Outside) where
  abbrev pub is_canonical_address : Text → Bool
  is_canonical_address v = elim (normalize_address o.unicode_lower v) [
    | none ↦ false
    | some normalized ↦ text_eq normalized v
  ]

  unfoldable pub validate_intent_escrow : PaymentIntent → Result IntentError (Unit {0})
  validate_intent_escrow i =
      if text_eq i.rail rail_escrow
      then elim i.escrow [
        | none ↦ err escrow_required
        | some t ↦ map_err bad_escrow (validate_terms o.crypto.keccak t i.chain_id i.recipient)
      ]
      else elim i.escrow [ none ↦ ok tt | some _ ↦ err escrow_forbidden ]

  -- The method Validate of PaymentIntent.
  unfoldable pub validate_intent : PaymentIntent → Result IntentError (Unit {0})
  validate_intent i = do
    fail_if
        (not (
          all valid_identifier (
            i.intent_id ∷ i.organization_id ∷ i.customer_id ∷ i.agent_id ∷ i.task_id ∷ i.action_id
            ∷ [])))
        bad_identifier
    fail_if (not (known_rail i.rail)) unsupported_rail
    validate_intent_escrow i
    fail_if (i.chain_id == 0) zero_chain
    fail_if (not (is_canonical_address i.recipient) || not (is_canonical_address i.asset))
        bad_address
    fail_if (not (canonical_positive_integer i.amount_atomic)) bad_amount
    fail_if (not (fits 2048 i.resource)) bad_resource
    fail_if (not (fits 128 i.category)) bad_category
    fail_if (not (fits 1024 i.purpose)) bad_purpose

  -- The method Digest of PaymentIntent.
  unfoldable pub intent_digest : PaymentIntent → Result IntentError Text
  intent_digest i =
      validate_intent i
      >> ok (
          codes "0x"
          ++ hex_encode
              (o.crypto.sha256 (codes "flowops:payment-intent:v1" ++ 10 ∷ o.marshal_intent i)))

  unfoldable pub request_digest : Text → Text → Decision → ℕ → Text
  request_digest request_id digest decision expires_at =
      codes "0x"
      ++ hex_encode (
          o.crypto.sha256 (
            codes "flowops:approval-request:v1"
            ++ 10 ∷ o.marshal_request request_id digest decision expires_at))

-- `none` is the error.
unfoldable pub decision_state : Outcome → Option State
decision_state deny = some denied
decision_state require_approval = some pending_approval
decision_state auto_approve = some approved
decision_state unsupported = none

abbrev pub state_eq : State → State → Bool
state_eq denied denied = true
state_eq pending_approval pending_approval = true
state_eq approved approved = true
state_eq rejected rejected = true
state_eq issued issued = true
state_eq expired expired = true
state_eq _ _ = false
