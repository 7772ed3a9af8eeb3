-- ===== src/Tests/Data.antt =====
-- Inputs that the examples share: a toy cryptography, an authorization, and a journal's codec.
use flowops.Prelude.{ℕ, zero, suc, true, none, some, [], ◌∷◌, ◌++◌, Text, codes}
use flowops.Envelope.Grammar.{rail_direct, rail_escrow}
use flowops.Envelope.Types.{EscrowTerms, Authorization, SignedAuthorization}
use flowops.Envelope.Sign.{Crypto}
use flowops.Envelope.Validate.{authorization_version}

abbrev pub copies : ℕ → ℕ → Text
copies c zero = []
copies c (suc n) = c ∷ copies c n

-- Hashes of 32 equal bytes, and signatures of 64.
abbrev pub crypto : Crypto
crypto = record {
  keccak = λ _. copies 17 32;
  sha256 = λ _. copies 34 32;
  marshal = λ a. a.authorization_id;
  ed25519_sign = λ _ _. copies 51 64;
  ed25519_verify = λ _ _ _. true;
}

abbrev pub no_lower : Text → Text
no_lower s = s

abbrev pub address_of : ℕ → Text
address_of c = codes "0x" ++ copies c 40

abbrev pub hash_of : ℕ → Text
hash_of c = codes "0x" ++ copies c 64

abbrev pub payee : Text
payee = address_of b'a'

abbrev pub token : Text
token = address_of b'b'

abbrev pub private_key : Text
private_key = copies 7 64

abbrev pub public_key : Text
public_key = copies 8 32

abbrev pub terms : EscrowTerms
terms = record {
  contract = address_of b'c';
  buyer = address_of b'd';
  provider = payee;
  call_id = hash_of b'1';
  task_digest = hash_of b'2';
  request_digest = hash_of b'3';
  acknowledge_by = 200;
  deliver_by = 300;
  release_window = 3600;
}

-- A direct payment of 250 units on the chain 8453.
abbrev pub payment : Authorization
payment = record {
  version = authorization_version;
  authorization_id = codes "auth-1";
  organization_id = codes "org-1";
  customer_id = codes "customer-1";
  agent_id = codes "agent-1";
  task_id = codes "task-1";
  action_id = codes "action-1";
  rail = rail_direct;
  chain_id = 8453;
  recipient = payee;
  asset = token;
  amount_atomic = codes "250";
  resource = codes "https://example.com";
  policy_version = codes "policy-1";
  nonce = hash_of b'4';
  issued_at = 100;
  expires_at = 160;
  escrow = none;
}

abbrev pub escrow_payment : ℕ → Authorization
escrow_payment address = record payment {
  rail = rail_escrow;
  escrow = some (record { address = address; terms = terms });
}

abbrev pub signed_as : Authorization → SignedAuthorization
signed_as a = record {
  authorization = a;
  key_id = codes "key-1";
  signature = codes "0x" ++ copies b'3' 128;
}
