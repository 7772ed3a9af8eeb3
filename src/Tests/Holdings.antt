-- ===== src/Tests/Holdings.antt =====
-- Reservations of one budget.
use flowops.Prelude.{
  ◌+◌, ◌≤◌, ◌≡◌, ◌≢◌, refl, true, all, none, some, List, [], ◌∷◌, codes, text_eq, lookup, values,
  ok,
}
use flowops.Amount.{set_string, value}
use flowops.Reservation.{
  reserved, authorization_live, reorged_back, state_eq, Request, Reservation, Store, number, total,
  amount_of, includes, transition,
}
use flowops.Reservation.Totals.{transition-total}
use flowops.Reservation.Limits.{Call, reserves, moves, run, agrees, run-within_limit}

abbrev request : Request
request = record {
  reservation_id = codes "r1";
  operation_id = codes "o1";
  amount = codes "4";
  dimensions = record { id = codes "task"; limit = codes "10"; refundable = true } ∷ [];
  expires_at = 200;
}

abbrev calls : List Call
calls =
    reserves request 100
    ∷ moves (codes "o1") authorization_live 110
    ∷ reserves (record request { operation_id = codes "o2" }) 120
    ∷ []

limits_agree : all (agrees (λ id. 10)) calls ≡ true
unfolding number set_string value
limits_agree = refl

run-within_limit_example : total (codes "task") (values (run calls [])) ≤ 10
run-within_limit_example = run-within_limit (λ id. 10) calls (codes "task") limits_agree refl

abbrev reservation : Reservation
reservation = record { request = request; state = reorged_back; created_at = 100 }

abbrev reorged_store : Store
reorged_store = (codes "o1", reservation) ∷ []

reservation_found : lookup (codes "o1") reorged_store ≡ some reservation
unfolding lookup text_eq
reservation_found = refl

transition-total_example :
    (reorged_back ≢ reorged_back
      → total (codes "task") (values (transition (codes "o1") reserved 130 reorged_store).1)
        ≤ total (codes "task") (values reorged_store))
    × (reorged_back ≡ reorged_back
        → state_eq reserved reserved ≡ true
        → includes request.dimensions (codes "task") ≡ true
        → ((transition (codes "o1") reserved 130 reorged_store).0
            ≡ (ok (record reservation { state = reserved }), none))
          × (total (codes "task") (values (transition (codes "o1") reserved 130 reorged_store).1)
              ≡ total (codes "task") (values reorged_store) + amount_of reservation))
transition-total_example =
    transition-total (codes "task") (codes "o1") reserved 130 reorged_store reservation
      reservation_found
