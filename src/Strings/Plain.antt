-- ===== src/Strings/Plain.antt =====
-- Texts of visible ASCII with no capital letter, which TrimSpace and ToLower leave alone.
use mathlib.Core.List.{reverse-reverse, reverse-cons}
use flowops.Prelude.{
  ℕ, ◌≡◌, refl, ltb, leb, Bool, true, not, ◌&&◌, ◌∷◌, [], map, reverse, Text, all, all-append,
  arith,
}
use flowops.Strings.{space_width, back_space_width, trim_front, trim_space, lower_ascii, to_lower}

abbrev pub is_plain : ℕ → Bool
is_plain c = ltb 32 c && ltb c 127 && not (leb b'A' c && leb c b'Z')

abbrev pub IsPlain : Text → Type 0
IsPlain s = all is_plain s ≡ true

IsPlain-reverse : (s : Text) → IsPlain s → IsPlain (reverse s)
IsPlain-reverse [] h = refl
IsPlain-reverse (c ∷ s) h =
    rw (reverse-cons c s)
      (all-append is_plain (reverse s) (c ∷ []) (IsPlain-reverse s (ground arith)) (ground arith))

space_width-plain : (s : Text) → IsPlain s → space_width s ≡ 0
unfolding space_width
space_width-plain [] h = refl
space_width-plain (a ∷ []) h = ground arith
space_width-plain (a ∷ b ∷ []) h = ground arith
space_width-plain (a ∷ b ∷ c ∷ s) h = ground arith

back_space_width-plain : (s : Text) → IsPlain s → back_space_width s ≡ 0
unfolding back_space_width
back_space_width-plain [] h = refl
back_space_width-plain (a ∷ []) h = ground arith
back_space_width-plain (a ∷ b ∷ []) h = ground arith
back_space_width-plain (a ∷ b ∷ c ∷ s) h = ground arith

trim_front-none : (width : Text → ℕ) (s : Text) → width s ≡ 0 → trim_front width 0 s ≡ s
unfolding trim_front
trim_front-none width [] h = refl
trim_front-none width (c ∷ s) h = rw h

pub trim_space-plain : (s : Text) → IsPlain s → trim_space s ≡ s
unfolding trim_space
trim_space-plain s h =
    let front = trim_front-none space_width s (space_width-plain s h) in
    let back =
      trim_front-none back_space_width (reverse s)
        (back_space_width-plain (reverse s) (IsPlain-reverse s h)) in
    rw (front, back) (reverse-reverse s)

map-lower_ascii : (s : Text) → IsPlain s → map lower_ascii s ≡ s
map-lower_ascii [] h = refl
map-lower_ascii (c ∷ s) h = ground (arith, map-lower_ascii s)

plain-ascii : (s : Text) → IsPlain s → all (λ c. ltb c 128) s ≡ true
plain-ascii [] h = refl
plain-ascii (c ∷ s) h = ground (arith, plain-ascii s)

pub to_lower-plain :
    (unicode_lower : Text → Text) (s : Text) → IsPlain s → to_lower unicode_lower s ≡ s
unfolding to_lower
to_lower-plain unicode_lower s h = rw (plain-ascii s h) (map-lower_ascii s h)
