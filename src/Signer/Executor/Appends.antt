-- ===== src/Signer/Executor/Appends.antt =====
-- The invariant behind at most one broadcast, and that appending to the journal keeps it.
use flowops.Prelude.{
  ℕ, suc, ◌≤◌, ◌<◌, ◌≡◌, ◌⊎◌, Bool, true, false, ◌||◌, ◌&&◌, none, some, List, [], ◌∷◌, ◌++◌, Text,
  text_eq, text_eq_refl, ok, Result-cases, inl, inr, arith, if◌then◌else◌,
}
use flowops.Signer.Types.{Outside, broadcasting, Attempt, id_of}
use flowops.Signer.Journal.{
  Journal, Codec, Written, landed, unwritten, torn, unsynced, died_before, died_after, apply,
  validate_transition, admit, commit, next_event,
}
use flowops.Signer.Journal.Late.{
  is_late, late_in, late_on, late_on-append, validate_transition-broadcasting, insert-late,
}
use flowops.Signer.World.{World, write, append, killed}

-- How often Broadcast was called for an authorization.
abbrev pub count : Text → List Text → ℕ
count id [] = 0
count id (j ∷ sent) = let rest = count id sent in if text_eq j id then suc rest else rest

-- JSON keeps the state of an attempt.
pub record KeepsState (c : Codec) : Type 0 where
  pub state : (a : Attempt) → (c.reload a).state ≡ a.state

pub record Inv (id : Text) (w : World) : Type 0 where
  pub once : count id w.sent ≤ 1
  pub recorded : 0 < count id w.sent → late_on id w.disk ≡ true
  pub remembered :
      w.alive ≡ true
      → w.journal.fault ≡ false
      → late_on id w.disk ≡ true
      → late_in id w.journal.attempts ≡ true

module _ (o : Outside) (c : Codec) (keeps : KeepsState c) (id : Text) where
  commit_lem :
      (j : Journal) (at : ℕ) (a : Attempt)
      → validate_transition j.attempts (id_of a) a ≡ ok tt
      → (commit o c j at a).1.fault ≡ false
      → (late_in id j.attempts ≡ true) ⊎ ((text_eq (id_of a) id && is_late a.state) ≡ true)
      → late_in id (commit o c j at a).1.attempts ≡ true
  unfolding commit apply
  commit_lem j at a h f l = ground (arith, insert-late id (id_of a) a j.attempts)

  late_on-line :
      (w : World) (at : ℕ) (a : Attempt)
      → late_on id (w.disk ++ some (next_event o c w.journal at a) ∷ [])
        ≡ (late_on id w.disk || (text_eq (id_of a) id && is_late a.state))
  late_on-line w at a =
      ground
        (arith, late_on-append id w.disk (some (next_event o c w.journal at a) ∷ []), keeps.state a)

  write-Inv :
      (wr : Written) (at : ℕ) (a : Attempt) (w : World)
      → validate_transition w.journal.attempts (id_of a) a ≡ ok tt
      → w.alive ≡ true
      → w.journal.fault ≡ false
      → Inv id w
      → Inv id (write o c wr at a w).1
  unfolding write
  write-Inv landed at a w h l f inv =
      ground (arith, late_on-line w at a, commit_lem w.journal at a h)
  write-Inv unwritten at a w h l f inv = ground arith
  write-Inv torn at a w h l f inv = ground (arith, late_on-append id w.disk (none ∷ []))
  write-Inv unsynced at a w h l f inv = ground (arith, late_on-line w at a)
  write-Inv died_before at a w h l f inv = ground arith
  write-Inv died_after at a w h l f inv = ground (arith, late_on-line w at a)

-- The facts that an admitted event rests on.
admit_sound :
    (o : Outside) (c : Codec) (j : Journal) (x : Bool) (at : ℕ) (a : Attempt)
    → admit o c j x at a ≡ ok tt
    → (j.fault ≡ false) × (validate_transition j.attempts (id_of a) a ≡ ok tt)
unfolding admit
admit_sound o c j x at a h = elim (Result-cases (validate_transition j.attempts (id_of a) a)) [
  | inl (u, v) ↦ ground arith
  | inr (e, v) ↦ ground arith
]

-- What a successful write did.
write_ok :
    (o : Outside) (c : Codec) (wr : Written) (at : ℕ) (a b : Attempt) (w : World)
    → (write o c wr at a w).0 ≡ ok b
    → (b ≡ a)
      × ((write o c wr at a w).1.alive ≡ w.alive)
      × ((write o c wr at a w).1.sent ≡ w.sent)
      × ((write o c wr at a w).1.disk ≡ w.disk ++ some (next_event o c w.journal at a) ∷ [])
unfolding write
write_ok o c landed at a b w h = ground arith
write_ok o c unwritten at a b w h = ground arith
write_ok o c torn at a b w h = ground arith
write_ok o c unsynced at a b w h = ground arith
write_ok o c died_before at a b w h = ground arith
write_ok o c died_after at a b w h = ground arith

module _ (o : Outside) (c : Codec) (keeps : KeepsState c) (id : Text) (x : Bool) (wr : Written)
    (at : ℕ) (a : Attempt) (w : World) (live : w.alive ≡ true) (inv : Inv id w) where
  pub append-Inv : Inv id (append o c x wr at a w).1
  unfolding append
  append-Inv = elim (Result-cases (admit o c w.journal x at a)) [
    | inr (e, v) ↦ rw (v, append) inv
    | inl (u, v) ↦
        let (f, t) = admit_sound o c w.journal x at a v in
        rw (v, append) (write-Inv o c keeps id wr at a w t live f inv)
  ]

append_ok :
    (o : Outside) (c : Codec) (x : Bool) (wr : Written) (at : ℕ) (a b : Attempt) (w : World)
    → (append o c x wr at a w).0 ≡ ok b
    → (admit o c w.journal x at a ≡ ok tt) × (append o c x wr at a w ≡ write o c wr at a w)
unfolding append
append_ok o c x wr at a b w h = elim (Result-cases (admit o c w.journal x at a)) [
  | inr (e, v) ↦ absurd (ground arith)
  | inl (u, v) ↦ (v, ground arith)
]

pub append_ok_world :
    (o : Outside) (c : Codec) (x : Bool) (wr : Written) (at : ℕ) (a b : Attempt) (w : World)
    → (append o c x wr at a w).0 ≡ ok b
    → (b ≡ a)
      × ((append o c x wr at a w).1.alive ≡ w.alive)
      × ((append o c x wr at a w).1.sent ≡ w.sent)
      × ((append o c x wr at a w).1.disk ≡ w.disk ++ some (next_event o c w.journal at a) ∷ [])
append_ok_world o c x wr at a b w h =
    let (v, same) = append_ok o c x wr at a b w h in ground (arith, write_ok o c wr at a b w)

-- Once BROADCASTING is written, the authorization had not been sent before and is late on the file.
pub append_broadcasting :
    (o : Outside) (c : Codec) (keeps : KeepsState c) (x : Bool) (wr : Written) (at : ℕ)
    (a b : Attempt) (w : World)
    → w.alive ≡ true
    → Inv (id_of a) w
    → a.state ≡ broadcasting
    → (append o c x wr at a w).0 ≡ ok b
    → (count (id_of a) (append o c x wr at a w).1.sent ≡ 0)
      × (late_on (id_of a) (append o c x wr at a w).1.disk ≡ true)
append_broadcasting o c keeps x wr at a b w live inv s h =
    let (v, same) = append_ok o c x wr at a b w h in
    let (f, t) = admit_sound o c w.journal x at a v in
    ground (
      arith,
      append_ok_world o c x wr at a b w h,
      validate_transition-broadcasting w.journal.attempts (id_of a) a t s,
      late_on-line o c keeps (id_of a) w at a,
      text_eq_refl (id_of a),
    )

pub killed-Inv : (id : Text) (w : World) → Inv id w → Inv id (killed w)
killed-Inv id w inv = ground arith
