-- ===== src/ControlPlane/Journal.antt =====
-- internal/controlplane/journal.go: the hash-chained file of events. The file is its bytes, read as
-- bufio.Scanner reads them: a line of 4 MiB or more ends the replay with an error. The record
-- `Outside` stands for encoding/json, which writes an event as the bytes of a line and reads a line
-- as an event, and for crypto/sha256.
pub mod Chain
pub mod Restart
use flowops.Prelude.{
  ℕ, suc, ◌+◌, ◌*◌, ◌/◌, ltb, leb, ◌==◌, Bool, true, false, not, ◌||◌, ◌&&◌, Option, none, some,
  List, [], ◌∷◌, ◌++◌, Text, text_eq, text_in, is_empty, length, Result, ok, err, ◌>>=◌, ◌>>◌,
  fail_if, if◌then◌else◌,
}
use flowops.Strings.Lines.{newline, raw_lines, drop_cr, take}
use flowops.Hex.{hex_encode}

pub record Event : Type 0 where
  pub version : ℕ
  pub sequence : ℕ
  pub at : ℕ
  pub kind : Text
  pub request_id : Text
  pub previous_hash : Text
  pub payload : Text
  pub hash : Text

-- eventHashInput
pub record HashInput : Type 0 where
  pub version : ℕ
  pub sequence : ℕ
  pub at : ℕ
  pub kind : Text
  pub request_id : Text
  pub previous_hash : Text
  pub payload : Text

pub record Outside : Type 0 where
  pub marshal_input : HashInput → Option Text
  pub sha256 : Text → Text
  pub marshal : Event → Option Text
  pub unmarshal : Text → Option Event

pub data JournalError : Type 0 where
  line_too_long invalid_json unsupported_version wrong_sequence missing_field broken_chain :
      JournalError
  unencodable wrong_hash invalid_name closed faulted write_failed : JournalError

abbrev pub journal_version : ℕ
journal_version = 1

abbrev pub input_of : Event → HashInput
input_of e = record {
  version = e.version;
  sequence = e.sequence;
  at = e.at;
  kind = e.kind;
  request_id = e.request_id;
  previous_hash = e.previous_hash;
  payload = e.payload;
}

pub record Journal : Type 0 where
  pub is_open : Bool
  pub events : List Event
  pub last_hash : Text
  pub fault : Bool
  pub file : Text

-- What became of the write of a line: an error behind its first bytes, the line without its
-- acknowledgement by Sync, or all of it.
pub data Written : Type 0 where
  torn : ℕ → Written
  unsynced landed : Written

-- The largest buffer of the scanner, which has to hold a line and its newline.
abbrev pub max_line : ℕ
max_line = 4 * 1024 * 1024

-- A control character that the journal refuses in a name.
abbrev pub breaks_line : Text → Bool
breaks_line [] = false
breaks_line (c ∷ s) = c == 13 || c == 10 || c == 9 || breaks_line s

module _ (o : Outside) where
  unfoldable pub hash_event : HashInput → Option Text
  hash_event i = elim (o.marshal_input i) [
    | none ↦ none
    | some encoded ↦ some (hex_encode (o.sha256 encoded))
  ]

  unfoldable pub validate_event : Event → ℕ → Text → Result JournalError (Unit {0})
  validate_event e expected_sequence previous_hash = do
    fail_if (not (e.version == journal_version)) unsupported_version
    fail_if (not (e.sequence == expected_sequence)) wrong_sequence
    fail_if (e.at == 0 || is_empty e.kind || is_empty e.request_id || is_empty e.payload)
        missing_field
    fail_if (not (text_eq e.previous_hash previous_hash)) broken_chain
    elim (hash_event (input_of e)) [
      | none ↦ err unencodable
      | some want ↦ fail_if (not (text_eq e.hash want)) wrong_hash
    ]

  -- The loop of replay behind `count` events, the last of which has the hash `previous`.
  unfoldable pub replay_from : ℕ → Text → List Text → Result JournalError (List Event × Text)
  replay_from count previous [] = ok ([], previous)
  replay_from count previous (line ∷ lines) =
      if leb max_line (length line) then err line_too_long else elim (o.unmarshal (drop_cr line)) [
        | none ↦ err invalid_json
        | some e ↦ elim (validate_event e (count + 1) previous) [
          | err x ↦ err x
          | ok _ ↦ elim (replay_from (count + 1) e.hash lines) [
            | err x ↦ err x
            | ok (es, last) ↦ ok (e ∷ es, last)
          ]
        ]
      ]

  -- The method replay on the bytes of the file.
  unfoldable pub replay : Text → Result JournalError (List Event × Text)
  unfolding replay_from
  replay file = replay_from 0 [] (raw_lines file)

  -- The event that Append writes, with its hash.
  abbrev pub next_event : ℕ → Text → Text → Text → Journal → Option Event
  next_event at kind request_id payload j =
      let i : HashInput = record {
        version = journal_version;
        sequence = length j.events + 1;
        at = at;
        kind = kind;
        request_id = request_id;
        previous_hash = j.last_hash;
        payload = payload;
      } in
      elim (hash_event i) [
        | none ↦ none
        | some h ↦ some (record {
          version = i.version;
          sequence = i.sequence;
          at = i.at;
          kind = i.kind;
          request_id = i.request_id;
          previous_hash = i.previous_hash;
          payload = i.payload;
          hash = h;
        })
      ]

  -- The write of the bytes of an event and of a newline.
  abbrev pub write_line : Written → Event → Text → Journal → Result JournalError Event × Journal
  write_line (torn n) e line j =
      (err write_failed, record j { fault = true; file = j.file ++ take n (line ++ newline ∷ []) })
  write_line unsynced e line j =
      (err write_failed, record j { fault = true; file = j.file ++ (line ++ newline ∷ []) })
  write_line landed e line j = (
    ok e,
    record j {
      events = j.events ++ e ∷ [];
      last_hash = e.hash;
      file = j.file ++ (line ++ newline ∷ []);
    },
  )

  -- The method Append; `payload` is `none` where json.Marshal fails on it.
  unfoldable pub append :
      Written → ℕ → Text → Text → Option Text → Journal → Result JournalError Event × Journal
  append w at kind request_id none j =
      if is_empty kind || is_empty request_id || breaks_line (kind ++ request_id)
      then (err invalid_name, j)
      else (err unencodable, j)
  append w at kind request_id (some payload) j =
      if is_empty kind || is_empty request_id || breaks_line (kind ++ request_id)
      then (err invalid_name, j)
      else if not j.is_open
      then (err closed, j)
      else if j.fault
      then (err faulted, j)
      else elim (next_event at kind request_id payload j) [
        | none ↦ (err unencodable, j)
        | some e ↦ elim (validate_event e e.sequence j.last_hash) [
          | err x ↦ (err x, j)
          | ok _ ↦ elim (o.marshal e) [
            | none ↦ (err unencodable, j)
            | some line ↦ write_line w e line j
          ]
        ]
      ]
