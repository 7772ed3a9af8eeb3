-- ===== src/Envelope/Validate.antt =====
-- pkg/envelope/envelope.go: the validation of an authorization. The loop over the identifiers is
-- over a Go map, so which of two bad ones the message names is left open there.
pub mod Laws
use flowops.Prelude.{
  ℕ, ltb, leb, ◌==◌, Bool, true, false, not, ◌||◌, ◌&&◌, Option, none, some, [], ◌∷◌, List, Text,
  codes, text_eq, all, is_empty, length, Result, ok, err, ◌>>=◌, ◌>>◌, map_err, fail_if,
  if◌then◌else◌,
}
use flowops.Strings.{trim_space}
use flowops.Amount.{
  AmountError, two_256, is_digit, set_string, leading_zero, not_digits, not_positive,
  outside_uint256,
}
use flowops.Envelope.Grammar.{
  rail_escrow, known_rail, valid_identifier, address_pattern, nonce_pattern,
}
use flowops.Envelope.Types.{EscrowPointer, Authorization}
use flowops.Envelope.Escrow.{EscrowError, validate_terms}

pub data ValidationError : Type 0 where
  bad_version bad_identifier unsupported_rail escrow_required escrow_forbidden zero_chain :
      ValidationError
  bad_recipient bad_asset bad_resource bad_nonce bad_issued_at bad_expires_at : ValidationError
  bad_acknowledge_window bad_key_id bad_key_length bad_signature wrong_signature : ValidationError
  bad_escrow : EscrowError → ValidationError
  bad_amount : AmountError → ValidationError

abbrev pub authorization_version : Text
authorization_version = codes "flowops.authorization.v1"

unfoldable pub validate_atomic_amount : Text → Result AmountError (Unit {0})
validate_atomic_amount [] = err leading_zero
validate_atomic_amount (c ∷ s) = do
  fail_if (c == b'0') leading_zero
  fail_if (not (all is_digit (c ∷ s))) not_digits
  elim (set_string (c ∷ s)) [
    | none ↦ err not_positive
    | some n ↦ fail_if (n == 0) not_positive >> fail_if (leb two_256 n) outside_uint256
  ]

-- Escrow terms stand on the escrow rail, and on no other.
unfoldable pub validate_escrow : (Text → Text) → Authorization → Result ValidationError (Unit {0})
validate_escrow keccak a =
    if text_eq a.rail rail_escrow
    then elim a.escrow [
      | none ↦ err escrow_required
      | some p ↦ map_err bad_escrow (validate_terms keccak p.terms a.chain_id a.recipient)
    ]
    else elim a.escrow [ none ↦ ok tt | some _ ↦ err escrow_forbidden ]

-- An escrow authorization ends by the acknowledgement deadline.
abbrev pub misses_acknowledgement : Authorization → Bool
misses_acknowledgement a = elim a.escrow [
  | none ↦ false
  | some p ↦ leb p.terms.acknowledge_by a.issued_at || ltb p.terms.acknowledge_by a.expires_at
]

-- The method Validate of Authorization.
unfoldable pub validate : (Text → Text) → Authorization → Result ValidationError (Unit {0})
validate keccak a = do
  fail_if (not (text_eq a.version authorization_version)) bad_version
  fail_if
      (not (
        all valid_identifier (
          a.authorization_id ∷ a.organization_id ∷ a.customer_id ∷ a.agent_id ∷ a.task_id
          ∷ a.action_id ∷ a.policy_version ∷ [])))
      bad_identifier
  fail_if (not (known_rail a.rail)) unsupported_rail
  validate_escrow keccak a
  fail_if (a.chain_id == 0) zero_chain
  fail_if (not (address_pattern a.recipient)) bad_recipient
  fail_if (not (address_pattern a.asset)) bad_asset
  map_err bad_amount (validate_atomic_amount a.amount_atomic)
  fail_if (is_empty (trim_space a.resource) || ltb 2048 (length a.resource)) bad_resource
  fail_if (not (nonce_pattern a.nonce)) bad_nonce
  fail_if (a.issued_at == 0) bad_issued_at
  fail_if (leb a.expires_at a.issued_at) bad_expires_at
  fail_if (misses_acknowledgement a) bad_acknowledge_window
