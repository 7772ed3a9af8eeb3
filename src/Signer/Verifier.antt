-- ===== src/Signer/Verifier.antt =====
-- pkg/referencesigner/verifier.go: the checks of a signed authorization against the customer's own
-- limits. Times and durations are nanoseconds, the clock from the Unix epoch on; the answers of the
-- chain gate and of the freeze gate are arguments.
pub mod Laws
use flowops.Prelude.{
  ℕ, ◌+◌, ◌-◌, ◌*◌, ◌^◌, ◌/◌, ltb, leb, ◌==◌, Bool, true, false, not, ◌||◌, Option, none, some,
  List, [], ◌∷◌, ◌++◌, Text, codes, text_eq, text_in, nat_in, Table, lookup, insert, is_empty,
  length, is_some, all, Result, ok, err, ◌>>=◌, ◌>>◌, map_err, fail_if, if◌then◌else◌,
}
use flowops.Strings.{trim_space}
use flowops.Hex.{hex_encode}
use flowops.Amount.{two_256, is_digit, set_string}
use flowops.Envelope.Grammar.{Rail, valid_identifier, canonical_address}
use flowops.Envelope.Types.{Authorization, SignedAuthorization}
use flowops.Envelope.Sign.{Crypto, digest, verify}
use flowops.Signer.Nonces.{NonceStore, NonceError, already_claimed, LineWritten, claim}
use flowops.Signer.Types.{
  RefusalCode, unknown_trust_key, bad_signature, identity_not_allowed, not_yet_valid, expired,
  ttl_too_long, chain_not_allowed, rail_not_allowed, asset_not_allowed, recipient_not_allowed,
  amount_exceeds_local_cap, chain_unhealthy, frozen, nonce_already_claimed, nonce_store_failure,
  Authorized,
}

pub record Config : Type 0 where
  pub organization_id : Text
  pub customer_id : Text
  pub trust_keys : Table Text
  pub allowed_chain_ids : List ℕ
  pub allowed_rails : List Rail
  pub allowed_assets : List Text
  pub allowed_recipients : List Text
  pub max_amount_atomic : Text
  pub max_ttl : ℕ

pub record Verifier : Type 0 where
  pub organization_id : Text
  pub customer_id : Text
  pub trust_keys : Table Text
  pub chains : List ℕ
  pub rails : List Rail
  pub assets : List Text
  pub recipients : List Text
  pub max_amount : ℕ
  pub max_ttl : ℕ
  pub max_future_skew : ℕ

abbrev pub second : ℕ
second = 1000000000

-- time.Time.Sub, which stops at the largest duration.
abbrev pub sub_time : ℕ → ℕ → ℕ
sub_time t u = if ltb (2 ^ 63 - 1) (t - u) then 2 ^ 63 - 1 else t - u

-- The package's own parsePositive; `none` is the error.
unfoldable pub parse_positive : Text → Option ℕ
parse_positive [] = none
parse_positive (c ∷ s) =
    if c == b'0' || not (all is_digit (c ∷ s)) then none else elim (set_string (c ∷ s)) [
      | none ↦ none
      | some n ↦ if n == 0 || leb two_256 n then none else some n
    ]

-- The trust roots: each has a name and 32 bytes.
abbrev pub trust_keys_valid : Table Text → Bool
trust_keys_valid [] = true
trust_keys_valid ((key_id, key) ∷ keys) =
    if is_empty (trim_space key_id) || not (length key == 32) then false else trust_keys_valid keys

unfoldable pub canonical_all : (Text → Text) → List Text → Option (List Text)
canonical_all unicode_lower [] = some []
canonical_all unicode_lower (v ∷ vs) = elim (canonical_address unicode_lower v) [
  | none ↦ none
  | some a ↦ elim (canonical_all unicode_lower vs) [ none ↦ none | some rest ↦ some (a ∷ rest) ]
]

pub data ConfigError : Type 0 where
  identities_required keys_required ttl_not_positive bad_max_amount bad_trust_key zero_chain :
      ConfigError
  bad_asset bad_recipient nothing_allowed : ConfigError

abbrev pub or_fail {ℓ} : {E A : Type ℓ} → Option A → E → Result E A
or_fail none e = err e
or_fail (some a) e = ok a

-- New, behind its checks that the gates and the store are given and that the skew, which is a
-- natural number here, is not negative.
unfoldable pub new : (Text → Text) → Config → ℕ → Result ConfigError Verifier
new unicode_lower cfg max_future_skew = do
  fail_if (not (valid_identifier cfg.organization_id) || not (valid_identifier cfg.customer_id))
      identities_required
  fail_if (is_empty cfg.trust_keys) keys_required
  fail_if (cfg.max_ttl == 0) ttl_not_positive
  max_amount ← or_fail (parse_positive cfg.max_amount_atomic) bad_max_amount
  fail_if (not (trust_keys_valid cfg.trust_keys)) bad_trust_key
  fail_if (nat_in 0 cfg.allowed_chain_ids) zero_chain
  assets ← or_fail (canonical_all unicode_lower cfg.allowed_assets) bad_asset
  recipients ← or_fail (canonical_all unicode_lower cfg.allowed_recipients) bad_recipient
  fail_if
      (is_empty cfg.allowed_chain_ids
        || is_empty cfg.allowed_rails
        || is_empty assets
        || is_empty recipients)
      nothing_allowed
  ok (record {
    organization_id = cfg.organization_id;
    customer_id = cfg.customer_id;
    trust_keys = cfg.trust_keys;
    chains = cfg.allowed_chain_ids;
    rails = cfg.allowed_rails;
    assets = assets;
    recipients = recipients;
    max_amount = max_amount;
    max_ttl = cfg.max_ttl;
    max_future_skew = max_future_skew;
  })

-- What the interfaces answer during one check.
pub record Gates : Type 0 where
  pub now : ℕ
  pub chain_healthy : Bool
  pub is_frozen : Bool

unfoldable pub check_amount : Verifier → Text → Result RefusalCode (Unit {0})
check_amount v amount_atomic = elim (parse_positive amount_atomic) [
  | none ↦ err amount_exceeds_local_cap
  | some n ↦ fail_if (ltb v.max_amount n) amount_exceeds_local_cap
]

-- The method checkAuthorization.
unfoldable pub check_authorization :
    Verifier → Gates → Authorization → Result RefusalCode (Unit {0})
check_authorization v g a = do
  fail_if
      (not (text_eq a.organization_id v.organization_id)
        || not (text_eq a.customer_id v.customer_id))
      identity_not_allowed
  fail_if (ltb (g.now + v.max_future_skew) (a.issued_at * second)) not_yet_valid
  fail_if (leb (a.expires_at * second) g.now) expired
  fail_if (ltb v.max_ttl (sub_time (a.expires_at * second) (a.issued_at * second))) ttl_too_long
  fail_if (not (nat_in a.chain_id v.chains)) chain_not_allowed
  fail_if (not (text_in a.rail v.rails)) rail_not_allowed
  fail_if (not (text_in a.asset v.assets)) asset_not_allowed
  fail_if (not (text_in a.recipient v.recipients)) recipient_not_allowed
  check_amount v a.amount_atomic
  fail_if (not g.chain_healthy) chain_unhealthy
  fail_if g.is_frozen frozen

module _ (c : Crypto) (v : Verifier) where
  -- The method CheckExecution.
  unfoldable pub check_execution : Gates → SignedAuthorization → Result RefusalCode (Unit {0})
  check_execution g s = elim (lookup s.key_id v.trust_keys) [
    | none ↦ err unknown_trust_key
    | some public_key ↦ elim (verify c s public_key) [
      | err _ ↦ err bad_signature
      | ok _ ↦ check_authorization v g s.authorization
    ]
  ]

  unfoldable pub claim_key : Text → Authorization → Text
  claim_key key_id a =
      hex_encode
        (c.sha256 (key_id ++ 0 ∷ (a.organization_id ++ 0 ∷ (a.customer_id ++ 0 ∷ a.nonce))))

  -- The refusal that an error of the nonce store becomes.
  abbrev pub claim_refusal : NonceError → RefusalCode
  claim_refusal already_claimed = nonce_already_claimed
  claim_refusal _ = nonce_store_failure

  -- The method Authorize; `claimed_now` is its own reading of the clock.
  unfoldable pub authorize :
      Gates
      → ℕ
      → Bool
      → LineWritten
      → SignedAuthorization
      → NonceStore
      → Result RefusalCode Authorized × NonceStore
  authorize g claimed_now is_cancelled wr s store = elim (check_execution g s) [
    | err code ↦ (err code, store)
    | ok _ ↦ elim (digest c s.authorization) [
      | err _ ↦ (err bad_signature, store)
      | ok d ↦
          let (r, store') =
            claim is_cancelled wr (claim_key s.key_id s.authorization) (claimed_now / second)
              store in
          (
            elim r [
              | err e ↦ err (claim_refusal e)
              | ok _ ↦ ok (record {
                authorization = s.authorization;
                digest = codes "0x" ++ hex_encode d;
                key_id = s.key_id;
                claimed_at = claimed_now / second;
              })
            ],
            store',
          )
    ]
  ]
