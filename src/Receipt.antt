-- ===== src/Receipt.antt =====
-- pkg/broadcastreceipt/receipt.go: the signer's signed statement that it submitted a transaction.
-- `marshal` stands for encoding/json on a receipt.
use flowops.Prelude.{
  ℕ, ◌==◌, Bool, not, ◌||◌, ◌&&◌, [], ◌∷◌, ◌++◌, Text, codes, text_eq, all, length, Result, ok,
  ◌>>=◌, ◌>>◌, map_err, fail_if,
}
use flowops.Hex.{hex_encode}
use flowops.Envelope.Grammar.{valid_identifier, address_pattern, nonce_pattern}
use flowops.Envelope.Validate.{ValidationError}
use flowops.Envelope.Sign.{Crypto, decode_signature}

pub data ReceiptError : Type 0 where
  bad_version bad_identifier bad_hash bad_sender bad_outcome bad_broadcast_at : ReceiptError
  bad_key_id bad_key_length wrong_signature : ReceiptError
  bad_signature : ValidationError → ReceiptError

abbrev pub Outcome : Type 0
Outcome = Text

abbrev pub outcome_submitted : Outcome
outcome_submitted = codes "SUBMITTED"

abbrev pub outcome_ambiguous : Outcome
outcome_ambiguous = codes "AMBIGUOUS"

abbrev pub receipt_version : Text
receipt_version = codes "flowops.broadcast-receipt.v1"

abbrev pub domain_prefix : Text
domain_prefix = codes "flowops:broadcast-receipt:v1" ++ 10 ∷ []

pub record Receipt : Type 0 where
  pub version : Text
  pub organization_id : Text
  pub customer_id : Text
  pub authorization_id : Text
  pub authorization_digest : Text
  pub transaction_hash : Text
  pub sender : Text
  pub outcome : Outcome
  pub broadcast_at : ℕ

pub record SignedReceipt : Type 0 where
  pub receipt : Receipt
  pub key_id : Text
  pub signature : Text

unfoldable pub receipt_eq : Receipt → Receipt → Bool
receipt_eq r s =
    text_eq r.version s.version
    && text_eq r.organization_id s.organization_id
    && text_eq r.customer_id s.customer_id
    && text_eq r.authorization_id s.authorization_id
    && text_eq r.authorization_digest s.authorization_digest
    && text_eq r.transaction_hash s.transaction_hash
    && text_eq r.sender s.sender
    && text_eq r.outcome s.outcome
    && r.broadcast_at == s.broadcast_at

-- Go's == on SignedReceipt.
unfoldable pub signed_receipt_eq : SignedReceipt → SignedReceipt → Bool
unfolding receipt_eq
signed_receipt_eq s t =
    receipt_eq s.receipt t.receipt && text_eq s.key_id t.key_id && text_eq s.signature t.signature

unfoldable pub validate_receipt : Receipt → Result ReceiptError (Unit {0})
validate_receipt r = do
  fail_if (not (text_eq r.version receipt_version)) bad_version
  fail_if (not (all valid_identifier (r.organization_id ∷ r.customer_id ∷ r.authorization_id ∷ [])))
      bad_identifier
  fail_if (not (nonce_pattern r.authorization_digest) || not (nonce_pattern r.transaction_hash))
      bad_hash
  fail_if (not (address_pattern r.sender)) bad_sender
  fail_if (not (text_eq r.outcome outcome_submitted) && not (text_eq r.outcome outcome_ambiguous))
      bad_outcome
  fail_if (r.broadcast_at == 0) bad_broadcast_at

module _ (c : Crypto) (marshal : Receipt → Text) where
  unfoldable pub signing_digest : Receipt → Text → Result ReceiptError Text
  signing_digest r key_id = do
    fail_if (not (valid_identifier key_id)) bad_key_id
    validate_receipt r
    ok (c.sha256 (domain_prefix ++ (key_id ++ (10 ∷ c.sha256 (domain_prefix ++ marshal r)))))

  unfoldable pub sign_receipt : Receipt → Text → Text → Result ReceiptError SignedReceipt
  sign_receipt r key_id private_key = do
    fail_if (not (valid_identifier key_id)) bad_key_id
    fail_if (not (length private_key == 64)) bad_key_length
    d ← signing_digest r key_id
    ok (record {
      receipt = r;
      key_id = key_id;
      signature = codes "0x" ++ hex_encode (c.ed25519_sign private_key d);
    })

  unfoldable pub verify_receipt : SignedReceipt → Text → Result ReceiptError (Unit {0})
  verify_receipt s public_key = do
    fail_if (not (valid_identifier s.key_id)) bad_key_id
    fail_if (not (length public_key == 32)) bad_key_length
    raw ← map_err bad_signature (decode_signature c s.signature)
    d ← signing_digest s.receipt s.key_id
    fail_if (not (c.ed25519_verify public_key d raw)) wrong_signature
