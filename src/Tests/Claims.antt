-- ===== src/Tests/Claims.antt =====
-- Nonces, the verifier, and escrow attempts of the customer's signer.
use flowops.Prelude.{
  ℕ, ◌*◌, ◌≤◌, ◌≡◌, ◌≢◌, refl, true, false, none, some, [], ◌∷◌, ◌++◌, Text, codes, text_eq,
  text_in, lookup, ok, arith,
}
use flowops.Strings.{trim_space}
use flowops.Amount.{value, set_string, parse_positive, big_string}
use flowops.Strings.Lines.{raw_lines, drop_cr}
use flowops.Hex.{hex_digit, hex_encode, hex_decode}
use flowops.Envelope.Grammar.{
  rail_direct, rail_escrow, valid_identifier, address_pattern, nonce_pattern,
}
use flowops.Envelope.Types.{EscrowPointer}
use flowops.Envelope.Validate.{validate_atomic_amount, validate_escrow, validate}
use flowops.Envelope.Sign.{canonical_bytes, digest, sign, decode_signature, verify}
use flowops.Signer.Types.{prepared, Authorized, Attempt}
use flowops.Signer.Journal.{AttemptEvent, Journal, replay, empty_journal, next_event}
use flowops.Signer.Journal.Restart.{Allocates, escrow_attempt-replay_refused}
use flowops.Signer.World.{World, attempt_conflict}
use flowops.Signer.Executor.{execute}
use flowops.Signer.Executor.Retry.{execute-escrow_retry}
use flowops.Signer.Nonces.{
  NonceStore, write_claim, claim, split_tabs, is_int64, claim_of, replay_claims,
}
use flowops.Signer.Nonces as Nonces
use flowops.Signer.Nonces.Once as Once
use flowops.Signer.Verifier as Verifier
use flowops.Signer.Verifier.Laws.{IsWithin, authorize_sound, authorize-replay}
use flowops.Tests.Data.{
  copies, crypto, payee, token, public_key, terms, payment, escrow_payment, signed_as,
}
use flowops.Tests.Signing.{outside, codec, executor, authorized_of, answers, fresh, transaction}

-- A claim of a nonce, a restart, and another claim of it.
abbrev claimed_once : Once.Claims
claimed_once = Once.after_claim (codes "n") Once.new_claims false Nonces.landed (codes "n") 7

claimed_once-replayed : replay_claims claimed_once.store.file ≡ ok (codes "n" ∷ [])
unfolding replay_claims claim write_claim big_string raw_lines claim_of split_tabs drop_cr is_int64
    value
claimed_once-replayed = refl

abbrev restarted : Once.Claims
restarted = record claimed_once { store = record (claimed_once.store) { claimed = codes "n" ∷ [] } }

abbrev claimed_again : Once.Claims
claimed_again = Once.after_claim (codes "n") restarted false Nonces.landed (codes "n") 9

two_claims : Once.Reach (codes "n") Once.new_claims claimed_again
two_claims =
    Once.next
      (Once.next
        (Once.next Once.here (Once.claims Once.new_claims false Nonces.landed (codes "n") 7))
        (Once.restarts claimed_once (codes "n" ∷ []) claimed_once-replayed))
      (Once.claims restarted false Nonces.landed (codes "n") 9)

claimed_again-whole : claimed_again.torn ≡ false
unfolding claim write_claim big_string text_eq
claimed_again-whole = refl

claimed_at_most_once_example : claimed_again.granted ≤ 1
claimed_at_most_once_example = Once.claimed_at_most_once (codes "n") two_claims claimed_again-whole

abbrev empty_store : NonceStore
empty_store = record { claimed = []; file = [] }

claim-unsynced_retry_example :
    let t = (claim false Nonces.unsynced (codes "n") 7 empty_store).1 in
    let (r, u) = claim false Nonces.landed (codes "n") 8 t in
    (r ≡ ok tt) × (replay_claims u.file ≢ ok [])
claim-unsynced_retry_example =
    Once.claim-unsynced_retry (codes "n") empty_store 7 8 [] refl refl refl

-- Behind the first byte of the record of `a`, the record of `b` is read as one of `ab`: `b` is free
-- for another claim behind a restart.
abbrev glued : NonceStore
glued =
    (claim false Nonces.landed (codes "b") 8
      (claim false (Nonces.stopped 1) (codes "a") 7 empty_store).1).1

glued_claimed : (glued.claimed ≡ codes "b" ∷ []) × (replay_claims glued.file ≡ ok (codes "ab" ∷ []))
unfolding replay_claims claim write_claim big_string raw_lines claim_of split_tabs drop_cr is_int64
    value
glued_claimed = (refl, refl)

abbrev verifier : Verifier.Verifier
verifier = record {
  organization_id = codes "org-1";
  customer_id = codes "customer-1";
  trust_keys = (codes "key-1", public_key) ∷ [];
  chains = 8453 ∷ [];
  rails = rail_direct ∷ [];
  assets = token ∷ [];
  recipients = payee ∷ [];
  max_amount = 1000;
  max_ttl = 300 * Verifier.second;
  max_future_skew = 5 * Verifier.second;
}

abbrev gates : Verifier.Gates
gates = record { now = 120 * Verifier.second; chain_healthy = true; is_frozen = false }

abbrev claimed_store : NonceStore
claimed_store = record { claimed = copies b'2' 64 ∷ []; file = copies b'2' 64 ++ codes "\t120\n" }

payment_authorized :
    Verifier.authorize crypto verifier gates
      (120 * Verifier.second)
      false
      Nonces.landed
      (signed_as payment)
      empty_store
    ≡ (ok (authorized_of payment), claimed_store)
unfolding Verifier.authorize Verifier.check_execution Verifier.check_authorization
    Verifier.check_amount Verifier.parse_positive Verifier.claim_key verify sign digest
    canonical_bytes validate validate_escrow validate_atomic_amount lookup text_eq valid_identifier
    decode_signature hex_decode hex_encode address_pattern set_string trim_space nonce_pattern claim
    write_claim big_string
payment_authorized = refl

authorize_sound_example :
    ((key : Text) × (lookup (codes "key-1") verifier.trust_keys ≡ some key)
      × (verify crypto (signed_as payment) key ≡ ok tt))
    × IsWithin verifier gates payment
    × ((n : ℕ) × (parse_positive (codes "250") ≡ ok n) × (n ≤ 1000))
    × (payment ≡ payment)
    × (text_in (Verifier.claim_key crypto verifier (codes "key-1") payment) [] ≡ false)
    × (claimed_store.claimed ≡ Verifier.claim_key crypto verifier (codes "key-1") payment ∷ [])
authorize_sound_example =
    authorize_sound crypto verifier gates (120 * Verifier.second) false Nonces.landed
      (signed_as payment) empty_store (authorized_of payment) claimed_store payment_authorized

payment_claimed :
    text_in (Verifier.claim_key crypto verifier (codes "key-1") payment) claimed_store.claimed
    ≡ true
unfolding Verifier.claim_key hex_encode hex_digit text_eq
payment_claimed = refl

authorize-replay_example :
    ((a : Authorized)
      → (Verifier.authorize crypto verifier gates
          (121 * Verifier.second)
          false
          Nonces.landed
          (signed_as payment)
          claimed_store).0
        ≢ ok a)
    × ((Verifier.authorize crypto verifier gates
          (121 * Verifier.second)
          false
          Nonces.landed
          (signed_as payment)
          claimed_store).1
        ≡ claimed_store)
authorize-replay_example =
    authorize-replay crypto verifier gates (121 * Verifier.second) false Nonces.landed
      (signed_as payment) claimed_store payment_claimed

codec-Allocates : Allocates codec
codec-Allocates = record {
  apart = λ a t u h k.
      (record t { address = 1 }, record u { address = 2 }, rw h refl, rw k refl, λ e. omega arith);
}

-- An attempt on the escrow rail, and the line that it is written to.
abbrev escrow_attempt : Attempt
escrow_attempt = record {
  authorization = signed_as (escrow_payment 9);
  authorized = authorized_of (escrow_payment 9);
  transaction = transaction;
  state = prepared;
  prepared_at = 121;
  broadcast_at = 0;
  receipt = none;
  receipt_public_key_b64 = [];
  registered_at = 0;
}

abbrev terms_at_9 : EscrowPointer
terms_at_9 = record { address = 9; terms = terms }

abbrev start : Journal
start = empty_journal outside codec

abbrev escrow_line : AttemptEvent
escrow_line = next_event outside codec start 121 escrow_attempt

escrow_attempt-replay_refused_example :
    replay outside codec start ([] ++ some escrow_line ∷ []) ≢ ok start
escrow_attempt-replay_refused_example =
    escrow_attempt-replay_refused outside codec codec-Allocates escrow_attempt terms_at_9 terms_at_9
      escrow_line refl refl refl [] [] start start

-- The signer has the attempt, and the request is decoded again to the address 10.
abbrev escrow_world : World
escrow_world = record fresh {
  journal = record start { attempts = (codes "auth-1", escrow_attempt) ∷ []; sequence = 1 };
}

escrow_attempt_found : lookup (codes "auth-1") escrow_world.journal.attempts ≡ some escrow_attempt
unfolding lookup text_eq
escrow_attempt_found = refl

escrow_rail_supported : text_eq rail_escrow rail_escrow ≡ true
unfolding text_eq
escrow_rail_supported = refl

execute-escrow_retry_example :
    execute outside codec executor answers (signed_as (escrow_payment 10)) escrow_world
    ≡ (none, some attempt_conflict, escrow_world)
execute-escrow_retry_example =
    execute-escrow_retry outside codec executor answers (signed_as (escrow_payment 10)) escrow_world
      escrow_attempt terms_at_9 (record { address = 10; terms = terms }) escrow_rail_supported
      escrow_attempt_found refl refl (λ e. omega arith)
