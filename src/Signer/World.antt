-- ===== src/Signer/World.antt =====
-- What the signer keeps and meets: the journal with its file, the broadcasts, and the answers of the
-- interfaces of pkg/referencesigner/executor.go. A call of the verifier, the wallet, the
-- registration sink, the clock or the journal's file is answered by `Answers`; an answer may be that
-- the process dies there, and then no code runs until a restart has read the file again.
use flowops.Prelude.{
  ℕ, Bool, true, false, Option, none, some, List, [], ◌∷◌, ◌++◌, map, sum, Text, Table, values,
  Result, ok, err,
}
use flowops.Amount.{set_string}
use flowops.Receipt.{ReceiptError}
use flowops.PilotLimits.{Limits, LimitError}
use flowops.Signer.Types.{
  Outside, RefusalCode, PreparedTransaction, Authorized, Attempt, AttemptError,
}
use flowops.Signer.Journal.{
  AttemptEvent, Journal, Codec, JournalError, write_failed, sync_failed, process_died, Written,
  landed, unwritten, torn, unsynced, died_before, died_after, next_event, admit, commit,
}

pub record World : Type 0 where
  pub journal : Journal
  pub disk : List (Option AttemptEvent)
  pub sent : List Text  -- the authorizations for which Broadcast was called, the last one first
  pub alive : Bool

pub data CallAnswer : Type 0 where
  accepted refused died : CallAnswer

pub record Answers : Type 0 where
  pub cancelled_prepared : Bool
  pub cancelled_broadcasting : Bool
  pub authorize : Result RefusalCode Authorized
  pub prepare : Option PreparedTransaction
  pub check_execution : Result RefusalCode (Unit {0})
  pub broadcast : CallAnswer
  pub register : CallAnswer
  pub write_prepared : Written
  pub write_broadcasting : Written
  pub write_outcome : Written
  pub write_registered : Written
  pub prepared_now : ℕ
  pub prepared_at : ℕ
  pub broadcast_now : ℕ
  pub broadcast_at : ℕ
  pub outcome_at : ℕ
  pub registered_now : ℕ
  pub registered_at : ℕ

pub data ExecuteError : Type 0 where
  unsupported_rail attempt_conflict prepare_failed broadcast_ambiguous : ExecuteError
  registration_pending receipt_absent unsupported_state dead : ExecuteError
  pilot : LimitError → ExecuteError
  refusal : RefusalCode → ExecuteError
  invalid_prepared : AttemptError → ExecuteError
  journal_failed : JournalError → ExecuteError
  receipt_failed : ReceiptError → ExecuteError

pub record Executor : Type 0 where
  pub pilot_limits : Option Limits
  pub receipt_key_id : Text
  pub receipt_private_key : Text
  pub receipt_public_key : Text

-- What a call returns, an attempt and an error, and the world that it leaves.
abbrev pub Returned : Type 0
Returned = Option Attempt × Option ExecuteError × World

abbrev pub fault_journal : World → World
fault_journal w = record w { journal = record (w.journal) { fault = true } }

abbrev pub killed : World → World
killed w = record w { alive = false }

-- Where amounts do not parse, they count for nothing.
abbrev pub amount_or_zero : Option ℕ → ℕ
amount_or_zero none = 0
amount_or_zero (some n) = n

abbrev pub amount_of : Attempt → ℕ
amount_of a = amount_or_zero (set_string a.authorized.authorization.amount_atomic)

-- The total of pilotOutstanding, before it is printed.
abbrev pub outstanding : Table Attempt → ℕ
outstanding attempts = sum (map amount_of (values attempts))

module _ (o : Outside) (c : Codec) where
  abbrev pub add_line : World → ℕ → Attempt → World
  add_line w at attempt = record w {
    disk = w.disk ++ some (next_event o c w.journal at attempt) ∷ [];
  }

  -- The write of an admitted event.
  unfoldable pub write : Written → ℕ → Attempt → World → Result JournalError Attempt × World
  write landed at attempt w =
      let (r, j) = commit o c w.journal at attempt in
      let w' = record (add_line w at attempt) { journal = j } in
      (elim r [ err e ↦ err e | ok _ ↦ ok attempt ], w')
  write unwritten at attempt w = (err write_failed, fault_journal w)
  write torn at attempt w =
      (err write_failed, fault_journal (record w { disk = w.disk ++ none ∷ [] }))
  write unsynced at attempt w = (err sync_failed, fault_journal (add_line w at attempt))
  write died_before at attempt w = (err process_died, killed w)
  write died_after at attempt w = (err process_died, killed (add_line w at attempt))

  -- AttemptJournal.Append
  unfoldable pub append : Bool → Written → ℕ → Attempt → World → Result JournalError Attempt × World
  append is_cancelled written at attempt w = elim (admit o c w.journal is_cancelled at attempt) [
    | err e ↦ (err e, w)
    | ok _ ↦ write written at attempt w
  ]
