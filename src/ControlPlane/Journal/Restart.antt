-- ===== src/ControlPlane/Journal/Restart.antt =====
-- A restart reads back what Append acknowledged.
use flowops.Prelude.{
  ℕ, ◌+◌, ◌<◌, true, ◌≡◌, refl, ◌∙◌, ap, subst, not, ◌||◌, some, List, [], ◌∷◌, ◌++◌, Text,
  is_empty, length, ok, Result-cases, Option-cases, Bool-cases, inl, inr, arith,
}
use flowops.Strings.Lines.{
  newline, raw_lines, drop_cr, is_whole, is_line, raw_lines-append, raw_lines-line, is_whole-append,
}
use flowops.ControlPlane.Journal.{
  Event, Outside, Journal, Written, max_line, torn, unsynced, landed, breaks_line, hash_event,
  validate_event, replay_from, replay, journal_version, next_event, write_line, append,
}

-- One more line behind lines that replay accepts.
replay_from-snoc :
    (o : Outside) (count : ℕ) (previous : Text) (lines : List Text) (es : List Event) (last : Text)
    (line : Text) (e : Event)
    → replay_from o count previous lines ≡ ok (es, last)
    → length line < max_line
    → o.unmarshal (drop_cr line) ≡ some e
    → validate_event o e (count + length es + 1) last ≡ ok tt
    → replay_from o count previous (lines ++ line ∷ []) ≡ ok (es ++ e ∷ [], e.hash)
unfolding replay_from
replay_from-snoc o count previous [] es last line e h f u v =
    let p : es ≡ [] = ground arith in
    let q : last ≡ previous = ground arith in
    let n : count + length es + 1 ≡ count + 1 = ground arith in ground arith
replay_from-snoc o count previous (l ∷ lines) es last line e h f u v =
    elim (Option-cases (o.unmarshal (drop_cr l))) [
      | inl a ↦ absurd (ground arith)
      | inr (g, k) ↦ elim (Result-cases (validate_event o g (count + 1) previous)) [
        | inr (x, a) ↦ absurd (ground arith)
        | inl (t, a) ↦ elim (Result-cases (replay_from o (count + 1) g.hash lines)) [
          | inr (x, b) ↦ absurd (ground arith)
          | inl ((r, z), b) ↦
              let q : (es ≡ g ∷ r) × (last ≡ z) = (ground arith, ground arith) in
              let m : count + length es + 1 ≡ count + 1 + length r + 1 = ground arith in
              let w : validate_event o e (count + length es + 1) z ≡ ok tt = ground arith in
              let i =
                replay_from-snoc o (count + 1) g.hash lines r z line e b f u
                  (subst (λ n. validate_event o e n z ≡ ok tt) m w) in
              ground arith
        ]
      ]
    ]

-- The journal as a restart finds it: the file ends with a whole line, and replay reads the events in
-- memory.
pub record IsFaithful (o : Outside) (j : Journal) : Type 0 where
  pub whole : is_whole j.file ≡ true
  pub replays : replay o j.file ≡ ok (j.events, j.last_hash)

next_event-sequence :
    (o : Outside) (at : ℕ) (kind request_id payload : Text) (j : Journal) (e : Event)
    → next_event o at kind request_id payload j ≡ some e
    → e.sequence ≡ length j.events + 1
next_event-sequence o at kind request_id payload j e h =
    elim (Option-cases (
      hash_event o (record {
        version = journal_version;
        sequence = length j.events + 1;
        at = at;
        kind = kind;
        request_id = request_id;
        previous_hash = j.last_hash;
        payload = payload;
      }))) [ inl a ↦ absurd (ground arith) | inr (x, a) ↦ ground arith ]

-- What an acknowledged append did.
record Appends (o : Outside) (at : ℕ) (kind request_id payload line : Text) (j k : Journal)
    (e : Event) : Type 0 where
  next : next_event o at kind request_id payload j ≡ some e
  valid : validate_event o e e.sequence j.last_hash ≡ ok tt
  file : k.file ≡ j.file ++ (line ++ newline ∷ [])
  events : k.events ≡ j.events ++ e ∷ []
  last_hash : k.last_hash ≡ e.hash

record Writes (o : Outside) (w : Written) (e f : Event) (line : Text) (j : Journal) : Type 0 where
  same : e ≡ f
  file : (write_line o w e line j).1.file ≡ j.file ++ (line ++ newline ∷ [])
  events : (write_line o w e line j).1.events ≡ j.events ++ e ∷ []
  last_hash : (write_line o w e line j).1.last_hash ≡ e.hash

write_line-ok :
    (o : Outside) (w : Written) (e f : Event) (line : Text) (j : Journal)
    → (write_line o w e line j).0 ≡ ok f
    → Writes o w e f line j
write_line-ok o (torn n) e f line j h = absurd (ground arith)
write_line-ok o unsynced e f line j h = absurd (ground arith)
write_line-ok o landed e f line j h = record {
  same = ground arith;
  file = refl;
  events = refl;
  last_hash = refl;
}

append-Appends :
    (o : Outside) (w : Written) (at : ℕ) (kind request_id payload line : Text) (j : Journal)
    (e : Event)
    → (append o w at kind request_id (some payload) j).0 ≡ ok e
    → o.marshal e ≡ some line
    → Appends o at kind request_id payload line j
        (append o w at kind request_id (some payload) j).1
        e
unfolding append
append-Appends o w at kind request_id payload line j e h written =
    elim (Bool-cases (
      is_empty kind
      || is_empty request_id
      || breaks_line (kind ++ request_id)
      || not j.is_open
      || j.fault)) [
        | inl a ↦ absurd (ground arith)
        | inr a ↦ elim (Option-cases (next_event o at kind request_id payload j)) [
          | inl b ↦ absurd (ground arith)
          | inr (f, b) ↦ elim (Result-cases (validate_event o f f.sequence j.last_hash)) [
            | inr (x, c) ↦ absurd (ground arith)
            | inl (t, c) ↦ elim (Option-cases (o.marshal f)) [
              | inl d ↦ absurd (ground arith)
              | inr (l, d) ↦
                  let k = write_line-ok o w f e l j (ground arith) in
                  let p = k.same in
                  let q = k.file in
                  let r = k.events in
                  let s = k.last_hash in
                  record {
                    next = ground arith;
                    valid = ground arith;
                    file = ground arith;
                    events = ground arith;
                    last_hash = ground arith;
                  }
            ]
          ]
        ]
      ]

-- Append to a journal that a restart reads back, with any outcome of the write: where it returns an
-- event whose JSON is one line shorter than 4 MiB and is read back as the event, the journal behind
-- it is again one that a restart reads back, and the events that the restart reads are those before
-- and then this one, whose hash is the last.
pub append-restart :
    (o : Outside) (w : Written) (at : ℕ) (kind request_id payload line : Text) (j : Journal)
    (e : Event)
    → IsFaithful o j
    → (append o w at kind request_id (some payload) j).0 ≡ ok e
    → o.marshal e ≡ some line
    → is_line line ≡ true
    → length line < max_line
    → o.unmarshal (drop_cr line) ≡ some e
    → IsFaithful o (append o w at kind request_id (some payload) j).1
      × (replay o (append o w at kind request_id (some payload) j).1.file
          ≡ ok (j.events ++ e ∷ [], e.hash))
unfolding replay
append-restart o w at kind request_id payload line j e faithful h written single short back =
    let a = append-Appends o w at kind request_id payload line j e h written in
    let m = next_event-sequence o at kind request_id payload j e a.next in
    let n : e.sequence ≡ 0 + length j.events + 1 = omega arith in
    let v : validate_event o e (0 + length j.events + 1) j.last_hash ≡ ok tt =
      subst (λ k. validate_event o e k j.last_hash ≡ ok tt) n a.valid in
    let r =
      replay_from-snoc o 0 [] (raw_lines j.file) j.events j.last_hash line e faithful.replays short
        back v in
    let lines : raw_lines (append o w at kind request_id (some payload) j).1.file
        ≡ raw_lines j.file ++ line ∷ [] =
      ap raw_lines a.file
      ∙ raw_lines-append j.file (line ++ newline ∷ []) faithful.whole
      ∙ ap (λ x. raw_lines j.file ++ x) (raw_lines-line line single) in
    let q = ap (replay_from o 0 []) lines ∙ r in
    (
      record {
        whole = ap is_whole a.file ∙ is_whole-append j.file line;
        replays = ground (arith, q, a.events, a.last_hash);
      },
      q,
    )
