-- ===== src/Envelope/Grammar/Canonical.antt =====
-- The canonical addresses are exactly the texts of the address pattern, whatever Unicode's case
-- tables say of other texts.
use flowops.Prelude.{
  ◌≡◌, ◌↔◌, refl, true, [], ◌∷◌, Text, text_eq_iff, all, some, arith, text_eq_refl,
}
use flowops.Strings.{trim_space, to_lower}
use flowops.Strings.Plain.{IsPlain, trim_space-plain, to_lower-plain}
use flowops.Envelope.Grammar.{is_lower_hex, address_pattern, normalize_address, canonical_address}

hex-IsPlain : (s : Text) → all is_lower_hex s ≡ true → IsPlain s
hex-IsPlain [] h = refl
hex-IsPlain (c ∷ s) h = ground (arith, hex-IsPlain s)

address-IsPlain : (v : Text) → address_pattern v ≡ true → IsPlain v
unfolding address_pattern
address-IsPlain [] h = ground arith
address-IsPlain (c ∷ []) h = ground arith
address-IsPlain (c ∷ d ∷ s) h = ground (arith, hex-IsPlain s)

normalize_of_pattern :
    (unicode_lower : Text → Text) (v : Text)
    → address_pattern v ≡ true
    → normalize_address unicode_lower v ≡ some v
unfolding normalize_address
normalize_of_pattern unicode_lower v h =
    let plain = address-IsPlain v h in
    ground (arith, trim_space-plain v plain, to_lower-plain unicode_lower v plain)

canonical_of_pattern :
    (unicode_lower : Text → Text) (v : Text)
    → address_pattern v ≡ true
    → canonical_address unicode_lower v ≡ some v
unfolding canonical_address
canonical_of_pattern unicode_lower v h =
    ground (arith, normalize_of_pattern unicode_lower v h, text_eq_refl v)

pattern_of_canonical :
    (unicode_lower : Text → Text) (v a : Text)
    → canonical_address unicode_lower v ≡ some a
    → (a ≡ v) × (address_pattern v ≡ true)
unfolding canonical_address normalize_address
pattern_of_canonical unicode_lower v a h =
    ground (arith, text_eq_iff v (to_lower unicode_lower (trim_space v)))

-- An address is canonical exactly when it is `0x` and 40 lowercase hexadecimal digits, and then it
-- is returned unchanged; this holds for every behaviour of Unicode's case tables.
pub canonical_address_iff :
    (unicode_lower : Text → Text) (v a : Text)
    → (canonical_address unicode_lower v ≡ some a) ↔ ((a ≡ v) × (address_pattern v ≡ true))
canonical_address_iff unicode_lower v a =
    (pattern_of_canonical unicode_lower v a, λ p. rw p.0 (canonical_of_pattern unicode_lower v p.1))
