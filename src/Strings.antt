-- ===== src/Strings.antt =====
-- What the program uses of the Go package strings: TrimSpace and ToLower, on UTF-8 bytes.
pub mod Plain
pub mod Sorted
pub mod Lines
use flowops.Prelude.{
  ℕ, zero, suc, ◌+◌, ◌-◌, ◌==◌, ltb, leb, Bool, ◌&&◌, ◌||◌, List, [], ◌∷◌, map, reverse, Text, all,
  if◌then◌else◌,
}

-- The white space of ASCII: tab to carriage return, and the blank.
abbrev pub is_ascii_space : ℕ → Bool
is_ascii_space c = leb 9 c && leb c 13 || c == 32

-- The bytes of the white-space rune with which a text begins, by Unicode's White_Space; 0 if none.
unfoldable pub space_width : Text → ℕ
space_width [] = 0
space_width (a ∷ []) = if is_ascii_space a then 1 else 0
space_width (a ∷ b ∷ []) =
    if is_ascii_space a then 1 else if a == 0xC2 && (b == 0x85 || b == 0xA0) then 2 else 0
space_width (a ∷ b ∷ c ∷ _) =
    if is_ascii_space a
    then 1
    else if a == 0xC2 && (b == 0x85 || b == 0xA0)
    then 2
    else if (a == 0xE1 && b == 0x9A && c == 0x80)
        || (a == 0xE2
            && b == 0x80
            && (leb 0x80 c && leb c 0x8A || c == 0xA8 || c == 0xA9 || c == 0xAF))
        || (a == 0xE2 && b == 0x81 && c == 0x9F)
        || (a == 0xE3 && b == 0x80 && c == 0x80)
    then 3
    else 0

-- The same on a text that is read from its end.
unfoldable pub back_space_width : Text → ℕ
back_space_width [] = 0
back_space_width (a ∷ []) = if is_ascii_space a then 1 else 0
back_space_width (b ∷ a ∷ []) =
    if is_ascii_space b then 1 else if a == 0xC2 && (b == 0x85 || b == 0xA0) then 2 else 0
back_space_width (c ∷ b ∷ a ∷ _) =
    if is_ascii_space c
    then 1
    else if b == 0xC2 && (c == 0x85 || c == 0xA0)
    then 2
    else if (a == 0xE1 && b == 0x9A && c == 0x80)
        || (a == 0xE2
            && b == 0x80
            && (leb 0x80 c && leb c 0x8A || c == 0xA8 || c == 0xA9 || c == 0xAF))
        || (a == 0xE2 && b == 0x81 && c == 0x9F)
        || (a == 0xE3 && b == 0x80 && c == 0x80)
    then 3
    else 0

-- Drops runes of white space while the text begins with one; `skip` bytes are still to be dropped.
unfoldable pub trim_front : (Text → ℕ) → ℕ → Text → Text
trim_front width skip [] = []
trim_front width zero (c ∷ s) =
    let rest = trim_front width (width (c ∷ s) - 1) s in if width (c ∷ s) == 0 then c ∷ s else rest
trim_front width (suc skip) (c ∷ s) = trim_front width skip s

-- strings.TrimSpace
unfoldable pub trim_space : Text → Text
unfolding trim_front space_width back_space_width
trim_space s = reverse (trim_front back_space_width 0 (reverse (trim_front space_width 0 s)))

abbrev pub lower_ascii : ℕ → ℕ
lower_ascii c = if leb b'A' c && leb c b'Z' then c + 32 else c

-- strings.ToLower: the fast path for ASCII; `unicode_lower` stands for the tables of the package
-- unicode on any other text.
unfoldable pub to_lower : (Text → Text) → Text → Text
to_lower unicode_lower s = if all (λ c. ltb c 128) s then map lower_ascii s else unicode_lower s
