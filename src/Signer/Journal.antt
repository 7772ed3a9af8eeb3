-- ===== src/Signer/Journal.antt =====
-- pkg/referencesigner/attempt_journal.go: the append-only, hash-chained store of the attempts.
-- The file is the list of its lines, the last line last; a line that is no JSON event is `none`.
-- The payload of an event is the attempt that its bytes decode to: `reload` stands for
-- json.Marshal and then json.Unmarshal, `size` for the length of the bytes, and `hash` for the hash
-- of an event's content.
pub mod Late
pub mod Restart
use flowops.Prelude.{
  ℕ, ◌+◌, ◌*◌, ◌^◌, ◌-◌, ltb, ◌==◌, Bool, true, false, not, ◌||◌, ◌&&◌, Option, none, some, List,
  [], ◌∷◌, Text, text_eq, Table, lookup, insert, Result, ok, err, ◌>>=◌, ◌>>◌, map_err, fail_if,
  if◌then◌else◌,
}
use flowops.Strings.Sorted.{text_ltb}
use flowops.Envelope.Grammar.{valid_identifier}
use flowops.Envelope.Types.{authorization_eq, signed_eq}
use flowops.Receipt.{SignedReceipt, signed_receipt_eq}
use flowops.Signer.Types.{
  Outside, AttemptState, prepared, broadcasting, submitted, ambiguous, registered, Authorized,
  Attempt, AttemptError, id_of, validate_attempt,
}

pub record AttemptEvent : Type 0 where
  pub version : ℕ
  pub sequence : ℕ
  pub at : ℕ  -- 0 is the zero time
  pub authorization_id : Text
  pub previous_hash : Text
  pub payload : Attempt
  pub hash : Text

pub record Journal : Type 0 where
  pub is_open : Bool
  pub sequence : ℕ
  pub attempts : Table Attempt
  pub last_hash : Text
  pub fault : Bool

pub record Codec : Type 0 where
  pub reload : Attempt → Attempt
  pub size : Attempt → ℕ
  pub hash : ℕ → ℕ → ℕ → Text → Text → Attempt → Text

pub data JournalError : Type 0 where
  cancelled too_large closed faulted exhausted first_not_prepared conflict bad_transition :
      JournalError
  bad_event broken_chain wrong_hash bad_line id_mismatch write_failed sync_failed process_died :
      JournalError
  bad_attempt : AttemptError → JournalError

-- What became of writing one line: it was written and synchronized, nothing or a torn line was
-- written, the synchronization failed, or the process died before or after the line was durable.
pub data Written : Type 0 where
  landed unwritten torn unsynced died_before died_after : Written

abbrev pub max_uint64 : ℕ
max_uint64 = 2 ^ 64 - 1

-- Go's == on Authorized.
unfoldable pub authorized_eq : Authorized → Authorized → Bool
authorized_eq a b =
    authorization_eq a.authorization b.authorization
    && text_eq a.digest b.digest
    && text_eq a.key_id b.key_id
    && a.claimed_at == b.claimed_at

-- A receipt that is there stays, with its key.
unfoldable pub same_receipt : Option SignedReceipt → Attempt → Attempt → Bool
same_receipt none current next = true
same_receipt (some r) current next = elim next.receipt [
  | none ↦ false
  | some s ↦
      signed_receipt_eq r s && text_eq current.receipt_public_key_b64 next.receipt_public_key_b64
]

unfoldable pub same_attempt_identity : Attempt → Attempt → Bool
same_attempt_identity current next =
    signed_eq current.authorization next.authorization
    && authorized_eq current.authorized next.authorized
    && current.prepared_at == next.prepared_at
    && text_eq current.transaction.transaction_hash next.transaction.transaction_hash
    && text_eq current.transaction.sender next.transaction.sender
    && text_eq current.transaction.raw_transaction next.transaction.raw_transaction
    && (current.broadcast_at == 0 || current.broadcast_at == next.broadcast_at)
    && same_receipt current.receipt current next

-- The transitions between the states of one attempt.
unfoldable pub valid_transition : AttemptState → AttemptState → Bool
valid_transition prepared broadcasting = true
valid_transition broadcasting submitted = true
valid_transition broadcasting ambiguous = true
valid_transition submitted registered = true
valid_transition ambiguous registered = true
valid_transition _ _ = false

abbrev pub is_prepared : AttemptState → Bool
is_prepared prepared = true
is_prepared _ = false

unfoldable pub validate_transition : Table Attempt → Text → Attempt → Result JournalError (Unit {0})
validate_transition attempts authorization_id next = elim (lookup authorization_id attempts) [
  | none ↦ fail_if (not (is_prepared next.state)) first_not_prepared
  | some current ↦ do
    fail_if (not (same_attempt_identity current next)) conflict
    fail_if (not (valid_transition current.state next.state)) bad_transition
]

module _ (o : Outside) (c : Codec) where
  abbrev pub event_hash : AttemptEvent → Text
  event_hash e = c.hash e.version e.sequence e.at e.authorization_id e.previous_hash e.payload

  unfoldable pub validate_attempt_event : AttemptEvent → ℕ → Text → Result JournalError (Unit {0})
  validate_attempt_event e sequence previous_hash = do
    fail_if
        (not (e.version == 1)
          || not (e.sequence == sequence)
          || e.at == 0
          || not (valid_identifier e.authorization_id))
        bad_event
    fail_if (not (text_eq e.previous_hash previous_hash)) broken_chain
    fail_if (not (text_eq e.hash (event_hash e))) wrong_hash

  -- The method apply; the table of attempts that it leaves.
  unfoldable pub apply : Table Attempt → Text → Attempt → Result JournalError (Table Attempt)
  apply attempts authorization_id attempt = do
    map_err bad_attempt (validate_attempt o attempt)
    fail_if (not (text_eq (id_of attempt) authorization_id)) id_mismatch
    validate_transition attempts authorization_id attempt
    ok (insert authorization_id attempt attempts)

  -- One round of the loop in replay.
  unfoldable pub replay_line : Journal → AttemptEvent → Result JournalError Journal
  replay_line j e = do
    fail_if (j.sequence == max_uint64) exhausted
    validate_attempt_event e (j.sequence + 1) j.last_hash
    attempts ← apply j.attempts e.authorization_id e.payload
    ok (record j { attempts = attempts; sequence = e.sequence; last_hash = e.hash })

  unfoldable pub replay : Journal → List (Option AttemptEvent) → Result JournalError Journal
  replay j [] = ok j
  replay j (none ∷ lines) = err bad_line
  replay j (some e ∷ lines) = elim (replay_line j e) [ err x ↦ err x | ok j' ↦ replay j' lines ]

  -- The journal before its file is read; OpenAttemptJournal is `replay` of the file from it.
  abbrev pub empty_journal : Journal
  empty_journal = record {
    is_open = true;
    sequence = 0;
    attempts = [];
    last_hash = [];
    fault = false;
  }

  -- The event that Append writes.
  abbrev pub next_event : Journal → ℕ → Attempt → AttemptEvent
  next_event j at attempt =
      let payload = c.reload attempt in
      record {
        version = 1;
        sequence = j.sequence + 1;
        at = at;
        authorization_id = id_of attempt;
        previous_hash = j.last_hash;
        payload = payload;
        hash = c.hash 1 (j.sequence + 1) at (id_of attempt) j.last_hash payload;
      }

  -- The checks of Append before it writes.
  unfoldable pub admit : Journal → Bool → ℕ → Attempt → Result JournalError (Unit {0})
  admit j is_cancelled at attempt = do
    fail_if is_cancelled cancelled
    map_err bad_attempt (validate_attempt o attempt)
    fail_if (ltb (1024 * 1024) (c.size attempt)) too_large
    fail_if (not j.is_open) closed
    fail_if j.fault faulted
    fail_if (j.sequence == max_uint64) exhausted
    validate_transition j.attempts (id_of attempt) attempt
    validate_attempt_event (next_event j at attempt) (j.sequence + 1) j.last_hash

  -- The journal after the line is durable.
  unfoldable pub commit : Journal → ℕ → Attempt → Result JournalError (Unit {0}) × Journal
  commit j at attempt = elim (apply j.attempts (id_of attempt) attempt) [
    | err e ↦ (err e, record j { fault = true })
    | ok attempts ↦ (
      ok tt,
      record j {
        attempts = attempts;
        sequence = j.sequence + 1;
        last_hash = (next_event j at attempt).hash;
      },
    )
  ]

-- Attempts orders the attempts by their authorizations' identifiers.
unfoldable pub insert_sorted : Attempt → List Attempt → List Attempt
unfolding text_ltb
insert_sorted a [] = a ∷ []
insert_sorted a (b ∷ bs) =
    if text_ltb (id_of b) (id_of a) then b ∷ insert_sorted a bs else a ∷ b ∷ bs

unfoldable pub sort_attempts : List Attempt → List Attempt
unfolding insert_sorted
sort_attempts [] = []
sort_attempts (a ∷ rest) = insert_sorted a (sort_attempts rest)
