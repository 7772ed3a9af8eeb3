-- ===== src/Workflow/Grammar.antt =====
-- internal/ascpworkflow/workflow.go: the grammar of identifiers, hashes and addresses.
use flowops.Prelude.{
  ℕ, ◌+◌, ◌*◌, leb, ◌==◌, Bool, true, false, not, ◌||◌, ◌&&◌, Option, none, some, List, [], ◌∷◌,
  Text, text_eq, text_in, all, length, if◌then◌else◌,
}
use flowops.Strings.{to_lower}
use flowops.Hex.{hex_decode}
use flowops.Envelope.Grammar.{valid_identifier}

unfoldable pub identifier : Text → Bool
identifier value = valid_identifier value && leb (length value) 128

-- value[2:] behind the prefix "0x"
abbrev pub after_0x : Text → Option Text
after_0x [] = none
after_0x (a ∷ []) = none
after_0x (a ∷ b ∷ s) = if a == b'0' && b == b'x' then some s else none

-- `0x` and `width` bytes in lowercase hexadecimal, not all of which are zero.
unfoldable pub nonzero_bytes : ℕ → (Text → Text) → Text → Bool
nonzero_bytes width unicode_lower value =
    if not (length value == 2 + 2 * width) || not (text_eq value (to_lower unicode_lower value))
    then false
    else elim (after_0x value) [
      | none ↦ false
      | some digits ↦ elim (hex_decode digits) [
        | none ↦ false
        | some decoded ↦ length decoded == width && not (all (λ b. b == 0) decoded)
      ]
    ]

unfoldable pub hash : (Text → Text) → Text → Bool
unfolding nonzero_bytes
hash = nonzero_bytes 32

unfoldable pub canonical_address : (Text → Text) → Text → Bool
unfolding nonzero_bytes
canonical_address = nonzero_bytes 20

unfoldable pub selector : (Text → Text) → Text → Bool
unfolding nonzero_bytes
selector = nonzero_bytes 4

-- No text occurs twice: the loops over `seen`.
abbrev pub distinct : List Text → Bool
distinct [] = true
distinct (x ∷ xs) = not (text_in x xs) && distinct xs
