-- ===== src/Tests/Signing.antt =====
-- The customer's signer: broadcasts, nonces, the verifier, and escrow attempts.
use flowops.Prelude.{
  ℕ, ◌≤◌, ◌<◌, ◌≡◌, refl, true, false, Option, none, some, [], ◌∷◌, ◌++◌, codes, text_eq, lookup,
  insert, ok,
}
use flowops.Strings.{trim_space, to_lower}
use flowops.Amount.{value, set_string, big_string, parse_non_negative, parse_positive}
use flowops.Hex.{hex_digit, hex_encode, hex_decode}
use flowops.Envelope.Grammar.{
  valid_identifier, hex_pattern, address_pattern, nonce_pattern, normalize_address,
  canonical_address,
}
use flowops.Envelope.Types.{EscrowPointer, Authorization, pointer_eq, authorization_eq, signed_eq}
use flowops.Envelope.Validate.{validate_atomic_amount, validate_escrow, validate}
use flowops.Envelope.Sign.{canonical_bytes, digest, decode_signature}
use flowops.PilotLimits as Pilot
use flowops.Receipt.{
  signed_receipt_eq, validate_receipt, signing_digest, sign_receipt, verify_receipt,
}
use flowops.Signer.Types.{
  Outside, PreparedTransaction, Authorized, Attempt, validate_prepared, validate_state,
  validate_attempt,
}
use flowops.Signer.Journal.{
  Codec, landed, same_attempt_identity, authorized_eq, same_receipt, valid_transition,
  validate_transition, validate_attempt_event, apply, admit, commit,
}
use flowops.Signer.Journal.Late.{late_on}
use flowops.Signer.World.{World, accepted, died, Answers, Executor, write, append}
use flowops.Signer.Executor.{
  register_receipt, register_attempt, persist_outcome_and_register, after_broadcast,
  advance_prepared, advance_state, advance, admit_attempt, execute_new, execute,
}
use flowops.Signer.Executor.Appends.{count, KeepsState}
use flowops.Signer.Executor.AtMostOnce.{
  executes, Reach, here, next, new_world, broadcast_at_most_once,
}
use flowops.Tests.Data.{
  copies, crypto, no_lower, address_of, private_key, public_key, payment, signed_as,
}

abbrev pub outside : Outside
outside = record {
  crypto = crypto;
  unicode_lower = no_lower;
  marshal_receipt = λ r. r.authorization_id;
  base64_encode = λ s. s;
  base64_decode = λ s. some s;
}

-- A codec that keeps every attempt without escrow terms, and allocates the terms at 1 and 2.
abbrev pub moved : ℕ → Option EscrowPointer → Option EscrowPointer
moved address none = none
moved address (some p) = some (record p { address = address })

abbrev pub reloaded : Attempt → Attempt
reloaded a = record a {
  authorization = record (a.authorization) {
    authorization = record (a.authorization.authorization) {
      escrow = moved 1 a.authorization.authorization.escrow;
    };
  };
  authorized = record (a.authorized) {
    authorization = record (a.authorized.authorization) {
      escrow = moved 2 a.authorized.authorization.escrow;
    };
  };
}

abbrev pub codec : Codec
codec = record { reload = reloaded; size = λ _. 100; hash = λ _ _ _ _ _ _. copies 5 32 }

pub codec-KeepsState : KeepsState codec
codec-KeepsState = record { state = λ a. refl }

abbrev pub executor : Executor
executor = record {
  pilot_limits = some (record { max_per_action = 1000; max_outstanding = 5000 });
  receipt_key_id = codes "receipt-1";
  receipt_private_key = private_key;
  receipt_public_key = public_key;
}

abbrev pub authorized_of : Authorization → Authorized
authorized_of a = record {
  authorization = a;
  digest = codes "0x" ++ copies b'2' 64;
  key_id = codes "key-1";
  claimed_at = 120;
}

abbrev pub transaction : PreparedTransaction
transaction = record {
  raw_transaction = 1 ∷ 2 ∷ 3 ∷ [];
  transaction_hash = codes "0x" ++ copies b'1' 64;
  sender = address_of b'e';
}

-- All calls succeed.
abbrev pub answers : Answers
answers = record {
  cancelled_prepared = false;
  cancelled_broadcasting = false;
  authorize = ok (authorized_of payment);
  prepare = some transaction;
  check_execution = ok tt;
  broadcast = accepted;
  register = accepted;
  write_prepared = landed;
  write_broadcasting = landed;
  write_outcome = landed;
  write_registered = landed;
  prepared_now = 121;
  prepared_at = 121;
  broadcast_now = 122;
  broadcast_at = 122;
  outcome_at = 123;
  registered_now = 124;
  registered_at = 124;
}

abbrev pub fresh : World
fresh = new_world outside codec executor codec-KeepsState

abbrev first : World
first = (execute outside codec executor answers (signed_as payment) fresh).2

first_alive : first.alive ≡ true
unfolding Pilot.check Pilot.parse_positive Pilot.parse_non_negative set_string value big_string
    text_eq valid_identifier address_pattern nonce_pattern hex_pattern canonical_address
    normalize_address trim_space hex_encode hex_digit validate validate_escrow
    validate_atomic_amount parse_positive parse_non_negative digest canonical_bytes authorization_eq
    pointer_eq lookup insert execute execute_new admit_attempt advance advance_state
    advance_prepared after_broadcast persist_outcome_and_register register_attempt register_receipt
    append write admit commit apply validate_transition validate_attempt validate_prepared
    validate_state validate_attempt_event to_lower same_attempt_identity signed_eq authorized_eq
    same_receipt valid_transition sign_receipt signing_digest validate_receipt verify_receipt
    decode_signature hex_decode signed_receipt_eq
first_alive = refl

-- The second request, during which the process dies in Broadcast.
abbrev second_answers : Answers
second_answers = record answers { broadcast = died }

abbrev second : World
second = (execute outside codec executor second_answers (signed_as payment) first).2

two_requests : Reach outside codec executor codec-KeepsState fresh second
two_requests =
    next (next here (executes fresh answers (signed_as payment) refl))
      (executes first second_answers (signed_as payment) first_alive)

broadcast_at_most_once_example :
    (count (codes "auth-1") second.sent ≤ 1)
    × (0 < count (codes "auth-1") second.sent → late_on (codes "auth-1") second.disk ≡ true)
broadcast_at_most_once_example =
    broadcast_at_most_once outside codec executor codec-KeepsState (codes "auth-1") two_requests
