-- ===== src/ControlPlane/Lifecycle/Consistency.antt =====
-- What New rebuilds from the journal's file is what the process has in memory.
pub mod Applies
pub mod Submission
pub mod Decision
pub mod Issuance
pub mod ClockBehind
use flowops.Prelude.{
  ℕ, ◌≡◌, ◌≢◌, refl, Bool, true, false, not, ◌||◌, Option, none, some, List, [], ◌∷◌, ◌++◌, Text,
  text_eq, text_eq_iff, Table, lookup, insert, lookup-insert, Result, ok, err, Result-cases,
  Option-cases, Bool-cases, inl, inr, arith, if◌then◌else◌, ◌⊎◌,
}
use flowops.ControlPlane.Intent.{Record, Approval, Outside, issued, expired}
use flowops.Envelope.Types.{Authorization}
use flowops.ControlPlane.Memory.{
  Event, EventError, Payload, submitted_payload, approval_payload, issued_payload, expired_payload,
  unreadable, Memory, apply_submitted, apply_approval, apply_issued, apply_expired, apply_payload,
  apply_event, replay, decided_state, empty_memory,
}
use flowops.ControlPlane.Lifecycle.{
  Plane, journal_failed, Appended, kept, refused, unwritten, torn, kept_unreported, write_event,
  append_event,
}

-- A record is stored under its own identifier.
abbrev pub Keyed : Memory → Type 0
Keyed m = (k : Text) (r : Record) → lookup k m.records ≡ some r → r.request_id ≡ k

-- The file can be replayed, and, if no append has failed on the way to the disk, to the memory that
-- the process has.
pub record IsRecoverable (o : Outside) (w : Plane) : Type 0 where
  pub keyed : Keyed w.memory
  pub readable : (m : Memory) × (replay o empty_memory w.events ≡ ok m)
  pub current : w.faulted ≡ false → replay o empty_memory w.events ≡ ok w.memory

insert-Keyed :
    (m : Table Record) (k : Text) (r : Record)
    → r.request_id ≡ k
    → ((j : Text) (s : Record) → lookup j m ≡ some s → s.request_id ≡ j)
    → (j : Text) (s : Record) → lookup j (insert k r m) ≡ some s
    → s.request_id ≡ j
insert-Keyed m k r h keyed j s l = ground (arith, lookup-insert k j r m, keyed j s, text_eq_iff k j)

-- One record is written, and in a keyed memory under its own identifier.
abbrev Writes : Memory → Memory → Type 0
Writes m m' =
    (k : Text) × (r : Record) × (m'.records ≡ insert k r m.records) × (Keyed m → r.request_id ≡ k)

Writes-Keyed : (m m' : Memory) → Writes m m' → Keyed m → Keyed m'
Writes-Keyed m m' (k, r, p, h) keyed j s l =
    insert-Keyed m.records k r (h keyed) keyed j s (ground arith)

module _ (o : Outside) where
  apply_submitted-Writes :
      (e : Event) (r : Record) (m m' : Memory) → apply_submitted o e r m ≡ ok m' → Writes m m'
  unfolding apply_submitted
  apply_submitted-Writes e r m m' h = (r.request_id, r, ground arith, λ _. refl)

  apply_approval-Writes :
      (e : Event) (a : Approval) (m m' : Memory) → apply_approval o e a m ≡ ok m' → Writes m m'
  unfolding apply_approval
  apply_approval-Writes e a m m' h = elim (Option-cases (lookup e.request_id m.records)) [
    | inl p ↦ absurd (ground arith)
    | inr (r, p) ↦ elim (Option-cases (decided_state o a.action)) [
      | inl q ↦ absurd (ground arith)
      | inr (t, q) ↦ (
        e.request_id,
        record r { state = t; approval = some a },
        ground arith,
        λ keyed. keyed e.request_id r p,
      )
    ]
  ]

  apply_issued-Writes :
      (e : Event) (a : Authorization) (m m' : Memory) → apply_issued o e a m ≡ ok m' → Writes m m'
  unfolding apply_issued
  apply_issued-Writes e a m m' h = elim (Option-cases (lookup e.request_id m.records)) [
    | inl p ↦ absurd (ground arith)
    | inr (r, p) ↦ (
      e.request_id,
      record r { state = issued; authorization = some a },
      ground arith,
      λ keyed. keyed e.request_id r p,
    )
  ]

  apply_expired-Writes :
      (e : Event) (reason : Text) (m m' : Memory) → apply_expired o e reason m ≡ ok m' → Writes m m'
  unfolding apply_expired
  apply_expired-Writes e reason m m' h = elim (Option-cases (lookup e.request_id m.records)) [
    | inl p ↦ absurd (ground arith)
    | inr (r, p) ↦
        (e.request_id, record r { state = expired }, ground arith, λ keyed. keyed e.request_id r p)
  ]

  apply_payload-Writes :
      (p : Payload) (e : Event) (m m' : Memory) → apply_payload o p e m ≡ ok m' → Writes m m'
  unfolding apply_payload
  apply_payload-Writes (submitted_payload r) e m m' h = apply_submitted-Writes e r m m' h
  apply_payload-Writes (approval_payload a) e m m' h = apply_approval-Writes e a m m' h
  apply_payload-Writes (issued_payload a) e m m' h = apply_issued-Writes e a m m' h
  apply_payload-Writes (expired_payload reason) e m m' h = apply_expired-Writes e reason m m' h
  apply_payload-Writes unreadable e m m' h = absurd (ground arith)

  pub apply_event-Keyed :
      (e : Event) (m m' : Memory) → apply_event o e m ≡ ok m' → Keyed m → Keyed m'
  unfolding apply_event
  apply_event-Keyed e m m' h = Writes-Keyed m m' (apply_payload-Writes e.payload e m m' h)

  pub replay-append :
      (m m' : Memory) (es : List Event) (e : Event)
      → replay o m es ≡ ok m'
      → replay o m (es ++ e ∷ []) ≡ replay o m' (e ∷ [])
  unfolding replay
  replay-append m m' [] e h = ground arith
  replay-append m m' (d ∷ es) e h = elim (Result-cases (apply_event o d m)) [
    | inl (n, v) ↦ ground (arith, replay-append n m' es e)
    | inr (x, v) ↦ ground arith
  ]

  -- The file with one more event.
  replay_one :
      (w : Plane) (e : Event) (m m' : Memory)
      → replay o empty_memory w.events ≡ ok m
      → apply_event o e m ≡ ok m'
      → replay o empty_memory (w.events ++ e ∷ []) ≡ ok m'
  unfolding replay
  replay_one w e m m' h k = rw (replay-append empty_memory m w.events e h, replay) (ground arith)

  write_event-IsRecoverable :
      (a : Appended) (e : Event) (w : Plane) (m : Memory)
      → a ≢ torn
      → w.faulted ≡ false
      → apply_event o e w.memory ≡ ok m
      → IsRecoverable o w
      → IsRecoverable o (write_event o a e w).1
  unfolding write_event
  write_event-IsRecoverable refused e w m n f h good = good
  write_event-IsRecoverable unwritten e w m n f h good = record {
    keyed = good.keyed;
    readable = good.readable;
    current = λ t. absurd (ground arith);
  }
  write_event-IsRecoverable torn e w m n f h good = absurd (n refl)
  write_event-IsRecoverable kept_unreported e w m n f h good = record {
    keyed = good.keyed;
    readable = (m, replay_one w e w.memory m (good.current f) h);
    current = λ t. absurd (ground arith);
  }
  write_event-IsRecoverable kept e w m n f h good =
      rw (h, write_event)
        (record {
          keyed = apply_event-Keyed e w.memory m h good.keyed;
          readable = (m, replay_one w e w.memory m (good.current f) h);
          current = λ _. replay_one w e w.memory m (good.current f) h;
        })

  append_event_faulted :
      (a : Appended) (e : Event) (w : Plane)
      → w.faulted ≡ true
      → append_event o a e w ≡ (err journal_failed, w)
  unfolding append_event
  append_event_faulted a e w f = ground arith

  append_event_sound :
      (a : Appended) (e : Event) (w : Plane)
      → w.faulted ≡ false
      → append_event o a e w ≡ write_event o a e w
  unfolding append_event
  append_event_sound a e w f = ground arith

  -- The event of a call, if the memory takes it, leaves the file replayable.
  pub append_event-IsRecoverable :
      (a : Appended) (e : Event) (w : Plane)
      → a ≢ torn
      → (w.faulted ≡ false → (m : Memory) × (apply_event o e w.memory ≡ ok m))
      → IsRecoverable o w
      → IsRecoverable o (append_event o a e w).1
  append_event-IsRecoverable a e w n applies good = elim (Bool-cases w.faulted) [
    | inl f ↦ rw (append_event_faulted a e w f) good
    | inr f ↦
        let (m, h) = applies f in
        rw (append_event_sound a e w f) (write_event-IsRecoverable a e w m n f h good)
  ]
