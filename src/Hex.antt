-- ===== src/Hex.antt =====
-- What the program uses of the Go package encoding/hex, on bytes.
pub mod RoundTrip
use flowops.Prelude.{
  ℕ, ◌+◌, ◌-◌, ◌*◌, ◌/◌, ◌%◌, leb, ltb, Bool, ◌&&◌, Option, none, some, List, [], ◌∷◌, Text,
  if◌then◌else◌,
}

unfoldable pub hex_digit : ℕ → ℕ
hex_digit n = if ltb n 10 then b'0' + n else b'a' + n - 10

-- hex.EncodeToString
unfoldable pub hex_encode : Text → Text
unfolding hex_digit
hex_encode [] = []
hex_encode (b ∷ s) = hex_digit (b / 16) ∷ hex_digit (b % 16) ∷ hex_encode s

unfoldable pub from_hex_digit : ℕ → Option ℕ
from_hex_digit c =
    if leb b'0' c && leb c b'9'
    then some (c - b'0')
    else if leb b'a' c && leb c b'f'
    then some (c - b'a' + 10)
    else if leb b'A' c && leb c b'F'
    then some (c - b'A' + 10)
    else none

-- hex.DecodeString; `none` is the error.
unfoldable pub hex_decode : Text → Option Text
unfolding from_hex_digit
hex_decode [] = some []
hex_decode (c ∷ []) = none
hex_decode (c ∷ d ∷ s) = elim (from_hex_digit c) [
  | none ↦ none
  | some h ↦ elim (from_hex_digit d) [
    | none ↦ none
    | some l ↦ elim (hex_decode s) [ none ↦ none | some bytes ↦ some ((h * 16 + l) ∷ bytes) ]
  ]
]
