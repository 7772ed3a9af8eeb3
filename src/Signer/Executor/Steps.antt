-- ===== src/Signer/Executor/Steps.antt =====
-- Every call keeps the invariant of one authorization.
use flowops.Prelude.{
  ℕ, ◌≡◌, refl, ◌∙◌, Bool, true, false, some, Text, text_eq, text_eq_iff, ok, Result-cases, inl,
  inr, Option-cases, Bool-cases, arith, subst,
}
use flowops.Receipt.{SignedReceipt, Outcome, sign_receipt}
use flowops.Signer.Types.{
  Outside, AttemptState, prepared, broadcasting, submitted, ambiguous, registered, unknown, Attempt,
  id_of,
}
use flowops.Signer.Journal.{Codec, Written}
use flowops.Signer.World.{World, CallAnswer, accepted, refused, died, Answers, Executor, append}
use flowops.Signer.Executor.{
  outcome_receipt, send, register_receipt, register_attempt, persist_outcome_and_register,
  after_broadcast, advance_prepared, advance_state, advance,
}
use flowops.Signer.Journal.Late.{late_on}
use flowops.Signer.Executor.Appends.{
  KeepsState, count, Inv, append-Inv, append_ok_world, append_broadcasting, killed-Inv,
}

module _ (o : Outside) (c : Codec) (x : Executor) (keeps : KeepsState c) (id : Text) where
  module _ (ans : Answers) where
    register_receipt-Inv :
        (a : Attempt) (s : SignedReceipt) (w : World)
        → w.alive ≡ true
        → Inv id w
        → Inv id (register_receipt o c x ans a s w).2
    unfolding register_receipt
    register_receipt-Inv a s w live inv = ground (
      arith,
      append-Inv o c keeps id false ans.write_registered ans.registered_at
          (record a { state = registered; registered_at = ans.registered_now }) w live inv,
    )

    register_attempt-Inv :
        (a : Attempt) (w : World)
        → w.alive ≡ true
        → Inv id w
        → Inv id (register_attempt o c x ans a w).2
    unfolding register_attempt
    register_attempt-Inv a w live inv = elim (Option-cases a.receipt) [
      | inl e ↦ rw (e, register_attempt) inv
      | inr (s, e) ↦ rw (e, register_attempt) (register_receipt-Inv a s w live inv)
    ]

    persist-Inv :
        (a : Attempt) (state : AttemptState) (outcome : Outcome) (w : World)
        → w.alive ≡ true
        → Inv id w
        → Inv id (persist_outcome_and_register o c x ans a state outcome w).2
    unfolding persist_outcome_and_register
    persist-Inv a state outcome w live inv =
        elim (Result-cases (
          sign_receipt o.crypto o.marshal_receipt (outcome_receipt o c x a outcome) x.receipt_key_id
            x.receipt_private_key)) [
              | inr (e, v) ↦ rw (v, persist_outcome_and_register) inv
              | inl (s, v) ↦
                  let concluded : Attempt = record a {
                    state = state;
                    receipt = some s;
                    receipt_public_key_b64 = o.base64_encode x.receipt_public_key;
                  } in
                  let step =
                    append-Inv o c keeps id false ans.write_outcome ans.outcome_at concluded w live
                      inv in
                  elim (Result-cases
                    (append o c false ans.write_outcome ans.outcome_at concluded w).0) [
                      | inr (e, q) ↦ rw (v, q, persist_outcome_and_register) step
                      | inl (b, q) ↦
                          let facts =
                            append_ok_world o c false ans.write_outcome ans.outcome_at concluded b w
                              q in
                          rw (v, q, persist_outcome_and_register)
                            (register_attempt-Inv b _ (facts.1 ∙ live) step)
                    ]
            ]

    after_broadcast-Inv :
        (answer : CallAnswer) (a : Attempt) (w : World)
        → w.alive ≡ true
        → Inv id w
        → Inv id (after_broadcast o c x answer ans a w).2
    unfolding after_broadcast
    after_broadcast-Inv accepted a w live inv = persist-Inv a submitted _ w live inv
    after_broadcast-Inv refused a w live inv = persist-Inv a ambiguous _ w live inv
    after_broadcast-Inv died a w live inv = killed-Inv id w inv

    -- Handing the transaction to the wallet once BROADCASTING is on the file.
    send-Inv :
        (flag : Bool) (wr : Written) (at : ℕ) (a b : Attempt) (w : World)
        → w.alive ≡ true
        → ((i : Text) → Inv i w)
        → a.state ≡ broadcasting
        → (append o c flag wr at a w).0 ≡ ok b
        → Inv id (send o c x b (append o c flag wr at a w).1)
    send-Inv flag wr at a b w live inv s q =
        let kept = append-Inv o c keeps id flag wr at a w live (inv id) in
        let facts = append_ok_world o c flag wr at a b w q in
        let first = append_broadcasting o c keeps flag wr at a b w live (inv (id_of a)) s q in
        elim (Bool-cases (text_eq (id_of a) id)) [
          | inr e ↦ ground (arith, facts)
          | inl e ↦
              let same = (text_eq_iff (id_of a) id).0 e in
              let first' =
                subst
                  (λ i.
                    (count i (append o c flag wr at a w).1.sent ≡ 0)
                    × (late_on i (append o c flag wr at a w).1.disk ≡ true))
                  same first in
              ground (arith, facts)
        ]

    advance_prepared-Inv :
        (a : Attempt) (w : World)
        → w.alive ≡ true
        → ((i : Text) → Inv i w)
        → Inv id (advance_prepared o c x ans a w).2
    unfolding advance_prepared
    advance_prepared-Inv a w live inv = elim (Result-cases ans.check_execution) [
      | inr (e, v) ↦ rw (v, advance_prepared) (inv id)
      | inl (u, v) ↦
          let a' : Attempt = record a { state = broadcasting; broadcast_at = ans.broadcast_now } in
          let step =
            append-Inv o c keeps id ans.cancelled_broadcasting ans.write_broadcasting
              ans.broadcast_at a' w live (inv id) in
          elim (Result-cases
            (append o c ans.cancelled_broadcasting ans.write_broadcasting ans.broadcast_at a'
              w).0) [
                | inr (e, q) ↦ rw (v, q, advance_prepared) step
                | inl (b, q) ↦
                    let facts =
                      append_ok_world o c ans.cancelled_broadcasting ans.write_broadcasting
                        ans.broadcast_at a' b w q in
                    rw (v, q, advance_prepared)
                      (after_broadcast-Inv ans.broadcast b _ (facts.1 ∙ live) (
                        send-Inv ans.cancelled_broadcasting ans.write_broadcasting ans.broadcast_at
                          a' b w live inv refl q))
              ]
    ]

    advance_state-Inv :
        (state : AttemptState) (a : Attempt) (w : World)
        → w.alive ≡ true
        → ((i : Text) → Inv i w)
        → Inv id (advance_state o c x state ans a w).2
    unfolding advance_state
    advance_state-Inv prepared a w live inv = advance_prepared-Inv a w live inv
    advance_state-Inv broadcasting a w live inv = persist-Inv a ambiguous _ w live (inv id)
    advance_state-Inv submitted a w live inv = register_attempt-Inv a w live (inv id)
    advance_state-Inv ambiguous a w live inv = register_attempt-Inv a w live (inv id)
    advance_state-Inv registered a w live inv = elim (Option-cases a.receipt) [
      | inl e ↦ ground (arith, inv id)
      | inr (s, e) ↦ ground (arith, inv id)
    ]
    advance_state-Inv unknown a w live inv = inv id

    pub advance-Inv :
        (a : Attempt) (w : World)
        → w.alive ≡ true
        → ((i : Text) → Inv i w)
        → Inv id (advance o c x ans a w).2
    unfolding advance
    advance-Inv a w live inv = advance_state-Inv a.state a w live inv
