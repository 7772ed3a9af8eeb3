-- ===== src/ControlPlane/Budget.antt =====
-- internal/controlplane/lifecycle.go: the exposure that a decision counts. The outcome source is a
-- function from execution identifiers; none is a source that knows no execution. Go's maps are
-- walked in any order; the sums do not depend on it. A calendar day in UTC is a day of 86,400 seconds.
use flowops.Prelude.{
  ℕ, ◌/◌, leb, ◌==◌, Bool, true, false, not, ◌||◌, ◌&&◌, Option, none, some, map, sum, Text,
  text_eq, is_some, values, if◌then◌else◌,
}
use flowops.Amount.{set_string, big_string}
use flowops.Envelope.Grammar.{rail_x402, rail_direct}
use flowops.Envelope.Types.{Authorization}
use flowops.Envelope.Sign.{execution_id}
use flowops.Policy.Types as Policy
use flowops.ControlPlane.Intent.{
  PaymentIntent, State, pending_approval, approved, issued, Record, Outside,
}
use flowops.ControlPlane.Memory.{Memory}

pub data ExecutionState : Type 0 where
  settled reverted dropped unknown_state : ExecutionState

pub record FinalizedExecution : Type 0 where
  pub execution_id : Text
  pub organization_id : Text
  pub agent_id : Text
  pub task_id : Text
  pub chain_id : ℕ
  pub asset : Text
  pub recipient : Text
  pub amount_atomic : Text
  pub state : ExecutionState
  pub finalized_at : ℕ

-- What the source answers on an execution, and the clock as it is read behind the answer; one answer
-- stands for a whole call.
pub record OutcomeAnswer : Type 0 where
  pub outcome : FinalizedExecution
  pub read_at : ℕ

abbrev pub OutcomeSource : Type 0
OutcomeSource = Text → Option OutcomeAnswer

abbrev pub second : ℕ
second = 1000000000

abbrev pub is_final : ExecutionState → Bool
is_final unknown_state = false
is_final _ = true

abbrev pub is_settled : ExecutionState → Bool
is_settled settled = true
is_settled _ = false

abbrev pub is_issued : State → Bool
is_issued issued = true
is_issued _ = false

unfoldable pub reservation_active : State → Bool
reservation_active pending_approval = true
reservation_active approved = true
reservation_active issued = true
reservation_active _ = false

-- The outcome is that of the authorization, and lies between its issuance and the clock's reading.
unfoldable pub outcome_matches : Text → ℕ → Authorization → FinalizedExecution → Bool
outcome_matches id now_unix a f =
    is_final f.state
    && text_eq f.execution_id id
    && text_eq f.organization_id a.organization_id
    && text_eq f.agent_id a.agent_id
    && text_eq f.task_id a.task_id
    && f.chain_id == a.chain_id
    && text_eq f.asset a.asset
    && text_eq f.recipient a.recipient
    && text_eq f.amount_atomic a.amount_atomic
    && leb a.issued_at f.finalized_at
    && leb f.finalized_at now_unix

module _ (o : Outside) (source : OutcomeSource) (now : ℕ) where
  -- The outcome of an authorization on one of the two rails that have one.
  unfoldable pub authorization_outcome : Authorization → Option FinalizedExecution
  unfolding outcome_matches
  authorization_outcome a =
      let id = execution_id o.crypto a.authorization_id in
      if not (text_eq a.rail rail_direct) && not (text_eq a.rail rail_x402)
      then none
      else elim (source id) [
        | none ↦ none
        | some x ↦
            if outcome_matches id (x.read_at / second) a x.outcome then some x.outcome else none
      ]

  unfoldable pub finalized_execution : Record → Option FinalizedExecution
  unfolding authorization_outcome
  finalized_execution r =
      if is_issued r.state
      then elim r.authorization [ none ↦ none | some a ↦ authorization_outcome a ]
      else none

  abbrev pub same_customer : PaymentIntent → Record → Bool
  same_customer i r =
      text_eq r.intent.organization_id i.organization_id
      && text_eq r.intent.customer_id i.customer_id

  -- A reservation that no final outcome has released.
  unfoldable pub is_outstanding : PaymentIntent → Record → Bool
  unfolding reservation_active
  is_outstanding i r =
      reservation_active r.state && not (is_some (finalized_execution r)) && same_customer i r

  abbrev pub amount_or_zero : Option ℕ → ℕ
  amount_or_zero none = 0
  amount_or_zero (some n) = n

  abbrev pub record_amount : Record → ℕ
  record_amount r = amount_or_zero (set_string r.intent.amount_atomic)

  unfoldable pub outstanding_amount : PaymentIntent → Record → ℕ
  outstanding_amount i r = if is_outstanding i r then record_amount r else 0

  -- The total of pilotOutstanding, before it is printed.
  unfoldable pub pilot_outstanding : PaymentIntent → Memory → ℕ
  pilot_outstanding i m = sum (map (outstanding_amount i) (values m.records))

  abbrev pub same_day : ℕ → Bool
  same_day finalized_at = finalized_at / 86400 == now / second / 86400

  -- What a record counts as spent, in all and on the day of `now`.
  unfoldable pub spent_amount : Bool → PaymentIntent → Record → ℕ
  spent_amount only_today i r =
      if not (same_customer i r) then 0 else elim (finalized_execution r) [
        | none ↦ 0
        | some f ↦
            if is_settled f.state && (not only_today || same_day f.finalized_at)
            then record_amount r
            else 0
      ]

  abbrev pub of_task : PaymentIntent → (PaymentIntent → Record → ℕ) → Record → ℕ
  of_task i amount r = if text_eq r.intent.task_id i.task_id then amount i r else 0

  unfoldable pub spend_snapshot : PaymentIntent → Memory → Policy.SpendSnapshot
  spend_snapshot i m =
      let rs = values m.records in
      record {
        task_spent_atomic = big_string (sum (map (of_task i (spent_amount false)) rs));
        task_reserved_atomic = big_string (sum (map (of_task i outstanding_amount) rs));
        daily_spent_atomic = big_string (sum (map (spent_amount true i) rs));
        daily_reserved_atomic = big_string (sum (map (outstanding_amount i) rs));
      }
