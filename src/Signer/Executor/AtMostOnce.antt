-- ===== src/Signer/Executor/AtMostOnce.antt =====
-- At most one broadcast for each authorization, over all calls, failures, deaths and restarts.
use flowops.Prelude.{
  ℕ, suc, ◌≤◌, ◌<◌, ◌≡◌, ◌∙◌, true, false, not, ◌&&◌, none, List, [], ◌∷◌, Text, text_eq, lookup,
  ok, Result-cases, inl, inr, Option-cases, Bool-cases, arith, values,
}
use flowops.Amount.{big_string}
use flowops.Envelope.Grammar.{rail_direct, rail_escrow}
use flowops.Envelope.Types.{SignedAuthorization, signed_eq}
use flowops.PilotLimits.{check}
use flowops.Signer.Types.{
  Outside, prepared, PreparedTransaction, Authorized, Attempt, validate_prepared,
}
use flowops.Signer.Journal.{Journal, Codec, replay, empty_journal, sort_attempts}
use flowops.Signer.Journal.Late.{late_on, replay-late}
use flowops.Signer.World.{World, Answers, Executor, append, outstanding}
use flowops.Signer.Executor.{
  advance, admit_attempt, execute_new, execute, resume_from, resume_pending, is_registered,
}
use flowops.Signer.Executor.Appends.{KeepsState, count, Inv, append-Inv, append_ok_world}
use flowops.Signer.Executor.Steps.{advance-Inv}

-- The invariant for every authorization.
abbrev pub AllInv : World → Type 0
AllInv w = (id : Text) → Inv id w

module _ (o : Outside) (c : Codec) (x : Executor) (keeps : KeepsState c) where
  admit_attempt-Inv :
      (ans : Answers) (signed : SignedAuthorization) (authorized : Authorized)
      (t : PreparedTransaction) (w : World)
      → w.alive ≡ true
      → AllInv w
      → AllInv (admit_attempt o c x ans signed authorized t w).2
  unfolding admit_attempt
  admit_attempt-Inv ans signed authorized t w live inv id =
      elim (Result-cases (validate_prepared o t)) [
        | inr (e, v) ↦ rw (v, admit_attempt) (inv id)
        | inl (u, v) ↦
            let a : Attempt = record {
              authorization = signed;
              authorized = authorized;
              transaction = t;
              state = prepared;
              prepared_at = ans.prepared_now;
              broadcast_at = 0;
              receipt = none;
              receipt_public_key_b64 = [];
              registered_at = 0;
            } in
            let step : AllInv
                (append o c ans.cancelled_prepared ans.write_prepared ans.prepared_at a w).1 =
              λ i.
                append-Inv o c keeps i ans.cancelled_prepared ans.write_prepared ans.prepared_at a w
                  live (inv i) in
            elim (Result-cases
              (append o c ans.cancelled_prepared ans.write_prepared ans.prepared_at a w).0) [
                | inr (e, q) ↦ rw (v, q, admit_attempt) (step id)
                | inl (b, q) ↦
                    let facts =
                      append_ok_world o c ans.cancelled_prepared ans.write_prepared ans.prepared_at
                        a b w q in
                    rw (v, q, admit_attempt)
                      (advance-Inv o c x keeps id ans b _ (facts.1 ∙ live) step)
              ]
      ]

  execute_new-Inv :
      (ans : Answers) (signed : SignedAuthorization) (w : World)
      → w.alive ≡ true
      → AllInv w
      → AllInv (execute_new o c x ans signed w).2
  unfolding execute_new
  execute_new-Inv ans signed w live inv id =
      elim (Result-cases (
        check x.pilot_limits signed.authorization.amount_atomic
          (big_string (outstanding w.journal.attempts)))) [
            | inr (e, v) ↦ rw (v, execute_new) (inv id)
            | inl (u, v) ↦ elim (Result-cases ans.authorize) [
              | inr (e, p) ↦ rw (v, p, execute_new) (inv id)
              | inl (authorized, p) ↦ elim (Option-cases ans.prepare) [
                | inl q ↦ rw (v, p, q, execute_new) (inv id)
                | inr (t, q) ↦
                    rw (v, p, q, execute_new)
                      (admit_attempt-Inv ans signed authorized t w live inv id)
              ]
            ]
          ]

  execute-Inv :
      (ans : Answers) (signed : SignedAuthorization) (w : World)
      → w.alive ≡ true
      → AllInv w
      → AllInv (execute o c x ans signed w).2
  unfolding execute
  execute-Inv ans signed w live inv id =
      elim (Bool-cases (
        not (text_eq signed.authorization.rail rail_direct)
        && not (text_eq signed.authorization.rail rail_escrow))) [
          | inl e ↦ rw (e, execute) (inv id)
          | inr e ↦
              elim (Option-cases
                (lookup signed.authorization.authorization_id w.journal.attempts)) [
                  | inl v ↦ rw (e, v, execute) (execute_new-Inv ans signed w live inv id)
                  | inr (a, v) ↦ elim (Bool-cases (signed_eq a.authorization signed)) [
                    | inr q ↦ rw (e, v, q, execute) (inv id)
                    | inl q ↦ rw (e, v, q, execute) (advance-Inv o c x keeps id ans a w live inv)
                  ]
                ]
        ]

  resume_from-Inv :
      (answers : ℕ → Answers) (n : ℕ) (attempts : List Attempt) (w : World)
      → w.alive ≡ true
      → AllInv w
      → AllInv (resume_from o c x answers n attempts w).1
  unfolding resume_from
  resume_from-Inv answers n [] w live inv = inv
  resume_from-Inv answers n (a ∷ rest) w live inv =
      elim (Bool-cases (is_registered o c x a.state)) [
        | inl e ↦ rw e (resume_from-Inv answers n rest w live inv)
        | inr e ↦
            let step : AllInv (advance o c x (answers n) a w).2 =
              λ i. advance-Inv o c x keeps i (answers n) a w live inv in
            elim (Bool-cases ((advance o c x (answers n) a w).2.alive)) [
              | inr d ↦ rw (e, d) step
              | inl d ↦
                  rw (e, d)
                    (resume_from-Inv answers (suc n) rest (advance o c x (answers n) a w).2 d step)
            ]
      ]

  -- What can happen to a signer: a call of Execute or of ResumePending while it lives, with any
  -- answers, its death at any time, and a restart that reads the file.
  pub data Step : World → World → Type 0 where
    executes :
        (w : World) (ans : Answers) (signed : SignedAuthorization)
        → w.alive ≡ true
        → Step w (execute o c x ans signed w).2
    resumes :
        (w : World) (answers : ℕ → Answers)
        → w.alive ≡ true
        → Step w (resume_pending o c x answers w).1
    dies : (w : World) → Step w (record w { alive = false })
    restarts :
        (w : World) (j : Journal)
        → replay o c (empty_journal o c) w.disk ≡ ok j
        → Step w (record w { journal = j; alive = true })

  pub data Reach (w : World) : World → Type 0 where
    here : Reach w w
    next : {v u : World} → Reach w v → Step v u → Reach w u

  Step-Inv : {w v : World} → Step w v → AllInv w → AllInv v
  unfolding resume_pending
  Step-Inv (executes w ans signed live) inv = execute-Inv ans signed w live inv
  Step-Inv (resumes w answers live) inv =
      resume_from-Inv answers 0 (sort_attempts (values w.journal.attempts)) w live inv
  Step-Inv (dies w) inv = λ id. ground (arith, inv id)
  Step-Inv (restarts w j q) inv = λ id.
      let known = replay-late o c id w.disk (empty_journal o c) j q in ground (arith, inv id, known)

  Reach-Inv : {w v : World} → Reach w v → AllInv w → AllInv v
  Reach-Inv here inv = inv
  Reach-Inv (next r s) inv = Step-Inv s (Reach-Inv r inv)

  -- A signer that has sent nothing and has an empty file.
  abbrev pub new_world : World
  new_world = record { journal = empty_journal o c; disk = []; sent = []; alive = true }

  -- Over every sequence of calls with every combination of answers, write failures, deaths and
  -- restarts, Broadcast is called at most once for each authorization, if JSON keeps the state of
  -- an attempt; and an authorization that was sent has left PREPARED on the file.
  pub broadcast_at_most_once :
      {w : World} (id : Text)
      → Reach new_world w
      → (count id w.sent ≤ 1) × (0 < count id w.sent → late_on id w.disk ≡ true)
  broadcast_at_most_once id r =
      let inv = Reach-Inv r (λ i. ground arith) id in (inv.once, inv.recorded)
