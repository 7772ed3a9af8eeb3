-- ===== src/Strings/Sorted.antt =====
-- The order of Go's strings, byte by byte, and sort.Strings.
use flowops.Prelude.{ltb, ◌==◌, Bool, true, false, ◌&&◌, ◌||◌, List, [], ◌∷◌, Text, if◌then◌else◌}

unfoldable pub text_ltb : Text → Text → Bool
text_ltb s [] = false
text_ltb [] (_ ∷ _) = true
text_ltb (c ∷ s) (d ∷ t) = ltb c d || c == d && text_ltb s t

abbrev pub insert_text : Text → List Text → List Text
insert_text s [] = s ∷ []
insert_text s (t ∷ ts) =
    let rest = insert_text s ts in if text_ltb t s then t ∷ rest else s ∷ t ∷ ts

abbrev pub sort_texts : List Text → List Text
sort_texts [] = []
sort_texts (s ∷ ts) = insert_text s (sort_texts ts)
