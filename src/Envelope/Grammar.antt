-- ===== src/Envelope/Grammar.antt =====
-- pkg/envelope/envelope.go: rails, the patterns of identifiers, addresses and hashes, and the
-- canonical form of an address.
pub mod Canonical
use flowops.Prelude.{
  ℕ, ◌==◌, leb, Bool, true, false, ◌&&◌, ◌||◌, [], ◌∷◌, Text, codes, text_eq, all, length, Option,
  none, some, if◌then◌else◌,
}
use flowops.Strings.{trim_space, to_lower}

abbrev pub Rail : Type 0
Rail = Text

abbrev pub rail_x402 : Rail
rail_x402 = codes "x402"

abbrev pub rail_direct : Rail
rail_direct = codes "direct_usdc"

abbrev pub rail_escrow : Rail
rail_escrow = codes "escrow"

-- The three rails that the program knows.
abbrev pub known_rail : Rail → Bool
known_rail rail = text_eq rail rail_x402 || text_eq rail rail_direct || text_eq rail rail_escrow

abbrev pub is_alphanumeric : ℕ → Bool
is_alphanumeric c = leb b'a' c && leb c b'z' || leb b'A' c && leb c b'Z' || leb b'0' c && leb c b'9'

abbrev pub is_identifier_char : ℕ → Bool
is_identifier_char c = is_alphanumeric c || c == b'.' || c == b'_' || c == b':' || c == b'-'

-- ^[a-zA-Z0-9][a-zA-Z0-9._:-]{0,127}$
unfoldable pub valid_identifier : Text → Bool
valid_identifier [] = false
valid_identifier (c ∷ s) = is_alphanumeric c && all is_identifier_char s && leb (length s) 127

abbrev pub is_lower_hex : ℕ → Bool
is_lower_hex c = leb b'0' c && leb c b'9' || leb b'a' c && leb c b'f'

-- `0x` and so many lowercase hexadecimal digits
unfoldable pub hex_pattern : ℕ → Text → Bool
hex_pattern width [] = false
hex_pattern width (c ∷ []) = false
hex_pattern width (c ∷ d ∷ s) = c == b'0' && d == b'x' && all is_lower_hex s && length s == width

-- ^0x[0-9a-f]{40}$
unfoldable pub address_pattern : Text → Bool
unfolding hex_pattern
address_pattern = hex_pattern 40

-- ^0x[0-9a-f]{64}$
unfoldable pub nonce_pattern : Text → Bool
unfolding hex_pattern
nonce_pattern = hex_pattern 64

-- `none` is the error.
unfoldable pub normalize_address : (Text → Text) → Text → Option Text
normalize_address unicode_lower v =
    let normalized = to_lower unicode_lower (trim_space v) in
    if address_pattern normalized then some normalized else none

-- canonicalAddress of internal/policy and pkg/referencesigner.
unfoldable pub canonical_address : (Text → Text) → Text → Option Text
unfolding normalize_address
canonical_address unicode_lower v = elim (normalize_address unicode_lower v) [
  | none ↦ none
  | some normalized ↦ if text_eq v normalized then some normalized else none
]
