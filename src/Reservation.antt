-- ===== src/Reservation.antt =====
-- internal/ascpreservation/reservation.go: what each operation holds of every budget.
pub mod Totals
pub mod Limits
use flowops.Prelude.{
  ℕ, ◌+◌, ltb, leb, ◌==◌, Bool, true, false, not, ◌||◌, ◌&&◌, Option, none, some, List, [], ◌∷◌,
  Text, text_eq, is_empty, is_some, Table, lookup, insert, values, Result, ok, err, if◌then◌else◌,
}
use flowops.Amount.{set_string, two_256}

pub data State : Type 0 where
  reserved authorization_live committed_safe committed_finalized consumed restored : State
  released released_after_expiry reorged_back : State

abbrev pub state_code : State → ℕ
state_code reserved = 0
state_code authorization_live = 1
state_code committed_safe = 2
state_code committed_finalized = 3
state_code consumed = 4
state_code restored = 5
state_code released = 6
state_code released_after_expiry = 7
state_code reorged_back = 8

abbrev pub state_eq : State → State → Bool
state_eq s t = state_code s == state_code t

pub data ReservationError : Type 0 where
  budget_exceeded invalid_transition duplicate : ReservationError

pub record Dimension : Type 0 where
  pub id : Text
  pub limit : Text
  pub refundable : Bool

pub record Request : Type 0 where
  pub reservation_id : Text
  pub operation_id : Text
  pub amount : Text
  pub dimensions : List Dimension
  pub expires_at : ℕ

pub record Reservation : Type 0 where
  pub request : Request
  pub state : State
  pub created_at : ℕ

-- byOperation, the field of the store.
abbrev pub Store : Type 0
Store = Table Reservation

-- SetString skips a plus sign, and no other text that starts with a sign has a positive value.
abbrev pub behind_plus : Text → Text
behind_plus [] = []
behind_plus (c ∷ s) = if c == b'+' then s else c ∷ s

unfoldable pub number : Text → Option ℕ
number [] = none
number (c ∷ s) = if c == b'0' then none else elim (set_string (behind_plus (c ∷ s))) [
  | none ↦ none
  | some n ↦ if ltb 0 n && ltb n two_256 then some n else none
]

abbrev pub includes : List Dimension → Text → Bool
includes [] id = false
includes (d ∷ ds) id = text_eq d.id id || includes ds id

-- The states that hold their amount.
abbrev pub is_held : State → Bool
is_held s =
    state_eq s reserved
    || state_eq s authorization_live
    || state_eq s committed_safe
    || state_eq s committed_finalized
    || state_eq s consumed

abbrev pub amount_of : Reservation → ℕ
amount_of r = elim (number r.request.amount) [ none ↦ 0 | some n ↦ n ]

-- What a reservation takes from the dimension.
abbrev pub share : Text → Reservation → ℕ
share id r = if is_held r.state && includes r.request.dimensions id then amount_of r else 0

unfoldable pub total : Text → List Reservation → ℕ
total id [] = 0
total id (r ∷ rs) = share id r + total id rs

-- The loop over the dimensions. The source takes the shares from the limit and compares what is left,
-- which may be negative, with the amount.
abbrev pub fits : ℕ → Store → List Dimension → Bool
fits amount s [] = true
fits amount s (d ∷ ds) = elim (number d.limit) [
  | none ↦ false
  | some limit ↦
      not (is_empty d.id)
      && leb amount limit
      && leb (total d.id (values s) + amount) limit
      && fits amount s ds
]

-- The method Reserve. A duplicate comes with the reservation that is there.
unfoldable pub reserve :
    Request → ℕ → Store → (Result ReservationError Reservation × Option Reservation) × Store
reserve request now s = elim (number request.amount) [
  | none ↦ ((err invalid_transition, none), s)
  | some amount ↦
      if is_empty request.operation_id
        || is_empty request.reservation_id
        || is_empty request.dimensions
        || leb request.expires_at now
      then ((err invalid_transition, none), s)
      else elim (lookup request.operation_id s) [
        | some current ↦ ((err duplicate, some current), s)
        | none ↦
            let r : Reservation = record {
              request = request;
              state = reserved;
              created_at = now;
            } in
            if fits amount s request.dimensions
            then ((ok r, none), insert request.operation_id r s)
            else ((err budget_exceeded, none), s)
      ]
]

unfoldable pub allowed : State → State → ℕ → ℕ → Bool
allowed reserved to now expiry =
    state_eq to authorization_live || state_eq to released && leb expiry now
allowed authorization_live to now expiry =
    state_eq to committed_safe || state_eq to released_after_expiry
allowed committed_safe to now expiry = state_eq to committed_finalized || state_eq to reorged_back
allowed committed_finalized to now expiry =
    state_eq to consumed || state_eq to restored || state_eq to reorged_back
allowed reorged_back to now expiry = state_eq to authorization_live || state_eq to reserved
allowed _ to now expiry = false

-- The method Transition. A refusal comes with the reservation as it is.
unfoldable pub transition :
    Text → State → ℕ → Store → (Result ReservationError Reservation × Option Reservation) × Store
transition operation target now s = elim (lookup operation s) [
  | none ↦ ((err invalid_transition, none), s)
  | some r ↦
      if not (allowed r.state target now r.request.expires_at)
      then ((err invalid_transition, some r), s)
      else (
        (ok (record r { state = target }), none),
        insert operation (record r { state = target }) s,
      )
]
