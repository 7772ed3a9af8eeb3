-- ===== src/Relay/Observers.antt =====
-- The observers of a quorum: sorted texts without two equal neighbours hold no text twice.
use flowops.Prelude.{
  ◌≡◌, refl, sym, ◌∙◌, Bool, true, false, not, ◌||◌, ◌&&◌, List, [], ◌∷◌, Text, text_eq, text_in,
  text_eq_iff, Bool-cases, inl, inr, arith,
}
use flowops.Workflow.Grammar.{distinct}
use flowops.Strings.Sorted.{text_ltb, insert_text, sort_texts}
use flowops.Relay.Kernel.{are_observers}

text_ltb_irrefl : (s : Text) → text_ltb s s ≡ false
unfolding text_ltb
text_ltb_irrefl [] = refl
text_ltb_irrefl (c ∷ s) = ground (arith, text_ltb_irrefl s)

-- Texts that neither stand before the other are equal.
text_ltb_antisym : (s t : Text) → text_ltb s t ≡ false → text_ltb t s ≡ false → text_eq s t ≡ true
unfolding text_ltb text_eq
text_ltb_antisym [] [] h k = refl
text_ltb_antisym [] (d ∷ t) h k = ground arith
text_ltb_antisym (c ∷ s) [] h k = ground arith
text_ltb_antisym (c ∷ s) (d ∷ t) h k = ground (arith, text_ltb_antisym s t)

-- The order is kept through a text in between.
text_ltb_trans : (s t u : Text) → text_ltb s t ≡ true → text_ltb t u ≡ true → text_ltb s u ≡ true
unfolding text_ltb
text_ltb_trans s t [] h k = ground arith
text_ltb_trans s [] (e ∷ u) h k = ground arith
text_ltb_trans [] (d ∷ t) (e ∷ u) h k = refl
text_ltb_trans (c ∷ s) (d ∷ t) (e ∷ u) h k = ground (arith, text_ltb_trans s t u)

-- Neither `t` before `s` nor `u` before `t`, so not `u` before `s`.
text_leb_trans : (s t u : Text) → text_ltb t s ≡ false → text_ltb u t ≡ false → text_ltb u s ≡ false
text_leb_trans s t u h k = elim (Bool-cases (text_ltb u s)) [
  | inr p ↦ p
  | inl p ↦ elim (Bool-cases (text_ltb s t)) [
    | inl q ↦ ground (arith, text_ltb_trans u s t p q)
    | inr q ↦ ground (arith, text_eq_iff s t, text_ltb_antisym s t q h)
  ]
]

text_ltb_asym : (s t : Text) → text_ltb s t ≡ true → text_ltb t s ≡ false
text_ltb_asym s t h = elim (Bool-cases (text_ltb t s)) [
  | inr p ↦ p
  | inl p ↦ ground (arith, text_ltb_trans s t s h p, text_ltb_irrefl s)
]

abbrev is_sorted : List Text → Bool
is_sorted [] = true
is_sorted (v ∷ []) = true
is_sorted (v ∷ w ∷ vs) = not (text_ltb w v) && is_sorted (w ∷ vs)

sorted_head :
    (x y : Text) (ys : List Text)
    → is_sorted (y ∷ ys) ≡ true
    → text_in x ys ≡ true
    → text_ltb x y ≡ false
sorted_head x y [] h k = ground arith
sorted_head x y (z ∷ ys) h k = elim (Bool-cases (text_eq x z)) [
  | inl p ↦ ground (arith, text_eq_iff x z)
  | inr p ↦ text_leb_trans y z x (ground arith) (sorted_head x z ys (ground arith) (ground arith))
]

insert_text-is_sorted :
    (s : Text) (ts : List Text) → is_sorted ts ≡ true → is_sorted (insert_text s ts) ≡ true
insert_text-is_sorted s [] h = refl
insert_text-is_sorted s (t ∷ []) h = ground (arith, text_ltb_asym t s)
insert_text-is_sorted s (t ∷ u ∷ ts) h =
    ground (arith, text_ltb_asym t s, insert_text-is_sorted s (u ∷ ts))

sort_texts-is_sorted : (ts : List Text) → is_sorted (sort_texts ts) ≡ true
sort_texts-is_sorted [] = refl
sort_texts-is_sorted (t ∷ ts) = insert_text-is_sorted t (sort_texts ts) (sort_texts-is_sorted ts)

are_observers-distinct :
    (vs : List Text) → is_sorted vs ≡ true → are_observers vs ≡ true → distinct vs ≡ true
are_observers-distinct [] s h = refl
are_observers-distinct (v ∷ []) s h = refl
are_observers-distinct (v ∷ w ∷ vs) s h =
    let rest = are_observers-distinct (w ∷ vs) (ground arith) (ground arith) in
    elim (Bool-cases (text_in v vs)) [
      | inr p ↦ ground arith
      | inl p ↦
          let after = sorted_head v w vs (ground arith) p in
          absurd (ground (arith, text_ltb_antisym v w))
    ]

text_in-insert_text :
    (x s : Text) (ts : List Text) → text_in x (insert_text s ts) ≡ (text_eq x s || text_in x ts)
text_in-insert_text x s [] = refl
text_in-insert_text x s (t ∷ ts) = ground (arith, text_in-insert_text x s ts)

text_in-sort_texts : (x : Text) (ts : List Text) → text_in x (sort_texts ts) ≡ text_in x ts
text_in-sort_texts x [] = refl
text_in-sort_texts x (t ∷ ts) =
    ground (arith, text_in-insert_text x t (sort_texts ts), text_in-sort_texts x ts)

insert_text-distinct :
    (s : Text) (ts : List Text) → distinct (insert_text s ts) ≡ (not (text_in s ts) && distinct ts)
insert_text-distinct s [] = refl
insert_text-distinct s (t ∷ ts) =
    ground (
      arith,
      text_in-insert_text t s ts,
      insert_text-distinct s ts,
      text_eq_iff s t,
      text_eq_iff t s,
    )

sort_texts-distinct : (ts : List Text) → distinct (sort_texts ts) ≡ distinct ts
sort_texts-distinct [] = refl
sort_texts-distinct (t ∷ ts) =
    ground (
      arith,
      insert_text-distinct t (sort_texts ts),
      text_in-sort_texts t ts,
      sort_texts-distinct ts,
    )

-- The texts that the check of a quorum accepts are pairwise different.
pub observers-distinct :
    (vs : List Text) → are_observers (sort_texts vs) ≡ true → distinct vs ≡ true
observers-distinct vs h =
    sym (sort_texts-distinct vs)
    ∙ are_observers-distinct (sort_texts vs) (sort_texts-is_sorted vs) h
