-- ===== src/Envelope/Sign.antt =====
-- pkg/envelope/envelope.go: canonical bytes, digest, signature and its verification. The record
-- `Crypto` stands for crypto/sha256, crypto/ed25519, golang.org/x/crypto/sha3 and encoding/json.
pub mod RoundTrip
use flowops.Prelude.{
  ℕ, ◌==◌, Bool, true, false, not, ◌||◌, Option, none, some, [], ◌∷◌, ◌++◌, Text, codes, text_eq,
  length, Result, ok, err, ◌>>=◌, ◌>>◌, fail_if, if◌then◌else◌,
}
use flowops.Hex.{hex_encode, hex_decode}
use flowops.Envelope.Grammar.{valid_identifier}
use flowops.Envelope.Types.{Authorization, SignedAuthorization}
use flowops.Envelope.Validate.{
  ValidationError, bad_key_id, bad_key_length, bad_signature, wrong_signature, validate,
}

pub record Crypto : Type 0 where
  pub keccak : Text → Text
  pub sha256 : Text → Text
  pub marshal : Authorization → Text
  -- ed25519.Sign key message, and ed25519.Verify key message signature
  pub ed25519_sign : Text → Text → Text
  pub ed25519_verify : Text → Text → Text → Bool

-- The bytes that a digest or an execution identifier is hashed behind.
abbrev pub domain_prefix : Text
domain_prefix = codes "flowops:authorization:v1" ++ 10 ∷ []

abbrev pub execution_prefix : Text
execution_prefix = codes "flowops:execution:v1" ++ 10 ∷ []

module _ (c : Crypto) where
  unfoldable pub execution_id : Text → Text
  execution_id authorization_id =
      codes "exec_" ++ hex_encode (c.sha256 (execution_prefix ++ authorization_id))

  unfoldable pub canonical_bytes : Authorization → Result ValidationError Text
  canonical_bytes a = validate c.keccak a >> ok (c.marshal a)

  unfoldable pub digest : Authorization → Result ValidationError Text
  unfolding canonical_bytes
  digest a = do canonical ← canonical_bytes a; ok (c.sha256 (domain_prefix ++ canonical))

  unfoldable pub sign : Authorization → Text → Text → Result ValidationError SignedAuthorization
  sign a key_id private_key = do
    fail_if (not (valid_identifier key_id)) bad_key_id
    fail_if (not (length private_key == 64)) bad_key_length
    d ← digest a
    ok (record {
      authorization = a;
      key_id = key_id;
      signature = codes "0x" ++ hex_encode (c.ed25519_sign private_key d);
    })

  -- strings.HasPrefix "0x" and TrimPrefix, with what follows
  abbrev behind_0x : Text → Option Text
  behind_0x [] = none
  behind_0x (a ∷ []) = none
  behind_0x (a ∷ b ∷ s) = if a == b'0' then (if b == b'x' then some s else none) else none

  -- The 64 bytes of a signature in its canonical text.
  unfoldable pub decode_signature : Text → Result ValidationError Text
  decode_signature signature = elim (behind_0x signature) [
    | none ↦ err bad_signature
    | some s ↦ elim (hex_decode s) [
      | none ↦ err bad_signature
      | some raw ↦
          if not (length raw == 64) || not (text_eq signature (codes "0x" ++ hex_encode raw))
          then err bad_signature
          else ok raw
    ]
  ]

  unfoldable pub verify : SignedAuthorization → Text → Result ValidationError (Unit {0})
  verify s public_key = do
    fail_if (not (valid_identifier s.key_id)) bad_key_id
    fail_if (not (length public_key == 32)) bad_key_length
    raw ← decode_signature s.signature
    d ← digest s.authorization
    fail_if (not (c.ed25519_verify public_key d raw)) wrong_signature
