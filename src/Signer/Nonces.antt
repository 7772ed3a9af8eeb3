-- ===== src/Signer/Nonces.antt =====
-- pkg/referencesigner/nonces.go: the append-only store of claimed nonces. The file is its bytes, read
-- as bufio.Scanner reads them. Times are seconds from the Unix epoch on.
pub mod Lines
pub mod Once
use flowops.Prelude.{
  ℕ, ◌-◌, ◌^◌, ltb, leb, ◌*◌, ◌==◌, Bool, true, false, not, ◌||◌, ◌&&◌, Option, none, some, List,
  [], ◌∷◌, ◌++◌, Text, text_in, all, is_empty, length, Result, ok, err, if◌then◌else◌,
}
use flowops.Strings.Lines.{newline, raw_lines, drop_cr, cons_first, take}
use flowops.Amount.{is_digit, value, big_string}

pub record NonceStore : Type 0 where
  pub claimed : List Text
  pub file : Text

pub data NonceError : Type 0 where
  cancelled bad_key already_claimed write_failed sync_failed line_too_long malformed duplicate :
      NonceError

-- What became of the record: written and synchronized; an error or a short write behind its first
-- bytes; written and not synchronized.
pub data LineWritten : Type 0 where
  landed unsynced : LineWritten
  stopped : ℕ → LineWritten

abbrev pub tab : ℕ
tab = 9

-- strings.ContainsAny(key, "\t\r\n")
abbrev pub breaks_line : Text → Bool
breaks_line key = not (all (λ c. not (c == tab || c == 13 || c == newline)) key)

-- The record of a claim, up to its newline.
abbrev pub claim_line : Text → ℕ → Text
claim_line key claimed_at = key ++ tab ∷ big_string claimed_at

unfoldable pub write_claim :
    LineWritten → Text → ℕ → NonceStore → Result NonceError (Unit {0}) × NonceStore
write_claim landed key claimed_at s = (
  ok tt,
  record {
    claimed = key ∷ s.claimed;
    file = s.file ++ (claim_line key claimed_at ++ newline ∷ []);
  },
)
write_claim unsynced key claimed_at s =
    (err sync_failed, record s { file = s.file ++ (claim_line key claimed_at ++ newline ∷ []) })
write_claim (stopped n) key claimed_at s = (
  err write_failed,
  record s { file = s.file ++ take n (claim_line key claimed_at ++ newline ∷ []) },
)

-- The method Claim.
unfoldable pub claim :
    Bool → LineWritten → Text → ℕ → NonceStore → Result NonceError (Unit {0}) × NonceStore
claim is_cancelled wr key claimed_at s =
    if is_cancelled
    then (err cancelled, s)
    else if is_empty key || breaks_line key
    then (err bad_key, s)
    else if text_in key s.claimed
    then (err already_claimed, s)
    else write_claim wr key claimed_at s

-- strings.Split(line, "\t")
unfoldable pub split_tabs : Text → List Text
split_tabs [] = [] ∷ []
split_tabs (c ∷ s) = let rest = split_tabs s in if c == tab then [] ∷ rest else cons_first c rest

-- Digits whose value is at most the limit.
abbrev pub is_number : ℕ → Text → Bool
is_number limit s = not (is_empty s) && all is_digit s && leb (value 0 s) limit

-- strconv.ParseInt(s, 10, 64) returns no error.
unfoldable pub is_int64 : Text → Bool
is_int64 [] = false
is_int64 (c ∷ s) =
    if c == b'-'
    then is_number (2 ^ 63) s
    else if c == b'+'
    then is_number (2 ^ 63 - 1) s
    else is_number (2 ^ 63 - 1) (c ∷ s)

-- The key of a line of the file, with its timestamp; `none` is the error.
unfoldable pub claim_of : List Text → Option Text
claim_of (key ∷ stamp ∷ []) = if is_empty key || not (is_int64 stamp) then none else some key
claim_of _ = none

-- bufio.MaxScanTokenSize: the buffer has to hold a line and its newline.
abbrev pub max_line : ℕ
max_line = 64 * 1024

-- The loop of the method replay.
unfoldable pub replay_lines : List Text → List Text → Result NonceError (List Text)
replay_lines claimed [] = ok claimed
replay_lines claimed (line ∷ lines) =
    if leb max_line (length line)
    then err line_too_long
    else elim (claim_of (split_tabs (drop_cr line))) [
      | none ↦ err malformed
      | some key ↦ elim (text_in key claimed) [
        | true ↦ err duplicate
        | false ↦ replay_lines (key ∷ claimed) lines
      ]
    ]

-- The method replay on the bytes of the file.
unfoldable pub replay_claims : Text → Result NonceError (List Text)
unfolding replay_lines
replay_claims file = replay_lines [] (raw_lines file)
