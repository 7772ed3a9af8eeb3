-- ===== src/Tests/Events.antt =====
-- The control plane's journal: two events, and a restart.
use flowops.Prelude.{
  ◌≡◌, refl, true, false, none, some, if◌then◌else◌, arith, [], ◌∷◌, ◌++◌, codes, text_eq, ok, ◌∙◌,
  ap, sym, inl, inr,
}
use flowops.Hex.{hex_encode}
use flowops.Strings.Lines.{raw_lines, drop_cr}
use flowops.ControlPlane.Journal.{
  Event, Outside, Journal, landed, input_of, hash_event, replay, append, validate_event,
}
use flowops.ControlPlane.Journal.Restart.{IsFaithful, append-restart}
use flowops.ControlPlane.Journal.Chain.{NoCollision, replay_unique}

abbrev event : Event
event = record {
  version = 1;
  sequence = 1;
  at = 90;
  kind = codes "SUBMITTED";
  request_id = codes "r1";
  previous_hash = [];
  payload = codes "{}";
  hash = hex_encode (1 ∷ codes "{}");
}

abbrev outside : Outside
outside = record {
  marshal_input = λ i. some (i.sequence ∷ i.payload);
  sha256 = λ t. t;
  marshal = λ e. some e.payload;
  unmarshal = λ s. if text_eq s (codes "{}") then some event else none;
}

abbrev journal : Journal
journal = record { is_open = true; events = []; last_hash = []; fault = false; file = [] }

replayed : replay outside [] ≡ ok ([], [])
unfolding replay raw_lines
replayed = refl

journal-IsFaithful : IsFaithful outside journal
journal-IsFaithful = record { whole = refl; replays = replayed }

event_appended :
    (append outside landed 90 (codes "SUBMITTED") (codes "r1") (some (codes "{}")) journal).0
    ≡ ok event
unfolding append hash_event validate_event text_eq hex_encode
event_appended = refl

event_read : outside.unmarshal (drop_cr (codes "{}")) ≡ some event
unfolding drop_cr text_eq
event_read = refl

append-restart_example :
    let j =
      (append outside landed 90 (codes "SUBMITTED") (codes "r1") (some (codes "{}")) journal).1 in
    IsFaithful outside j × (replay outside j.file ≡ ok ([] ++ event ∷ [], event.hash))
append-restart_example =
    append-restart outside landed 90 (codes "SUBMITTED") (codes "r1") (codes "{}") (codes "{}")
      journal event journal-IsFaithful event_appended refl refl (omega arith) event_read

event_replayed : replay outside (codes "{}" ++ 10 ∷ []) ≡ ok (event ∷ [], event.hash)
unfolding replay validate_event text_eq hash_event hex_encode raw_lines drop_cr
event_replayed = refl

event-NoCollision : NoCollision outside (event ∷ []) (event ∷ [])
event-NoCollision e f (inl p) (inl q) h = ap input_of (p ∙ sym q)
event-NoCollision e f (inr p) j h = absurd p
event-NoCollision e f (inl p) (inr q) h = absurd q

replay_unique_example : event ∷ [] ≡ event ∷ []
replay_unique_example =
    replay_unique outside (codes "{}" ++ 10 ∷ []) (codes "{}" ++ 10 ∷ []) (event ∷ []) (event ∷ [])
      event.hash event_replayed event_replayed refl event-NoCollision
