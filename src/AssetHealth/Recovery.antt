-- ===== src/AssetHealth/Recovery.antt =====
-- A blocked asset comes back to NORMAL by a proof of recovery alone.
use flowops.Prelude.{
  ℕ, ◌+◌, ◌≤◌, ◌≡◌, ◌≢◌, true, ◌&&◌, Option, some, List, [], ◌∷◌, Text, text_eq, text_eq_iff,
  lookup, lookup-insert, insert, ok, Result-cases, Option-cases, Bool-cases, inl, inr, arith, subst,
  sym,
}
use flowops.AssetHealth.Types.{
  normal, recovering, state_eq, Config, Observation, Decision, Record, RecoveryProof, Outside,
}
use flowops.AssetHealth.Evaluate.{minute, evaluate}
use flowops.AssetHealth.Store.{
  Store, record_key, current, decided, transition, validate_recovery_proof,
  recovery_evidence_digest, recovered, complete, observe, complete_recovery,
}

-- A call of Observe.
pub record Round : Type 0 where
  pub config : Config
  pub observations : List Observation
  pub now : ℕ

abbrev pub run : Outside → List Round → Store → Store
run out [] s = s
run out (r ∷ rs) s = run out rs (observe out r.config r.observations r.now s).1

-- The record under `k` is out of NORMAL, at the epoch or later.
pub record IsBlocked (k : Text) (epoch : ℕ) (s : Store) : Type 0 where
  pub record_of : Record
  pub stored : lookup k s ≡ some record_of
  pub state : record_of.state ≢ normal
  pub since : epoch ≤ record_of.epoch

decided-blocked :
    (d : Decision) (now : ℕ) (r : Record)
    → r.state ≢ normal
    → ((decided d now r).state ≢ normal) × (r.epoch ≤ (decided d now r).epoch)
decided-blocked d now r n = ((λ e. ground arith), ground arith)

current-stored :
    (config : Config) (k : Text) (s : Store) (r : Record)
    → text_eq (record_key config.chain_id config.asset) k ≡ true
    → lookup k s ≡ some r
    → current config s ≡ r
current-stored config k s r f l =
    ground (arith, text_eq_iff (record_key config.chain_id config.asset) k)

transition-IsBlocked :
    (config : Config) (d : Decision) (now : ℕ) (k : Text) (epoch : ℕ) (s : Store)
    → IsBlocked k epoch s
    → IsBlocked k epoch (transition config d now s).1
unfolding transition
transition-IsBlocked config d now k epoch s b =
    elim (Bool-cases (state_eq d.state normal && state_eq (current config s).state recovering)) [
      | inl a ↦ subst (IsBlocked k epoch) (ground arith) b
      | inr a ↦
          let n = decided d now (current config s) in
          let l = lookup-insert (record_key config.chain_id config.asset) k n s in
          let e : (transition config d now s).1
              ≡ insert (record_key config.chain_id config.asset) n s =
            ground arith in
          elim (Bool-cases (text_eq (record_key config.chain_id config.asset) k)) [
            | inl f ↦
                let q : current config s ≡ b.record_of =
                  current-stored config k s b.record_of f b.stored in
                let m =
                  decided-blocked d now (current config s)
                    (subst (λ r. r.state ≢ normal) (sym q) b.state) in
                let h = b.since in
                record { record_of = n; stored = ground arith; state = m.0; since = ground arith }
            | inr f ↦
                let h = b.stored in
                record {
                  record_of = b.record_of;
                  stored = ground arith;
                  state = b.state;
                  since = b.since;
                }
          ]
    ]

observe-IsBlocked :
    (out : Outside) (config : Config) (observations : List Observation) (now : ℕ) (k : Text)
    (epoch : ℕ) (s : Store)
    → IsBlocked k epoch s
    → IsBlocked k epoch (observe out config observations now s).1
unfolding observe
observe-IsBlocked out config observations now k epoch s b =
    elim (Result-cases (evaluate out config observations now)) [
      | inr (e, a) ↦ subst (IsBlocked k epoch) (ground arith) b
      | inl (d, a) ↦
          subst (IsBlocked k epoch) (ground arith) (transition-IsBlocked config d now k epoch s b)
    ]

-- An asset that is out of NORMAL stays out of it over any calls of Observe, and its epoch does not
-- fall.
pub run-IsBlocked :
    (out : Outside) (rounds : List Round) (k : Text) (epoch : ℕ) (s : Store)
    → IsBlocked k epoch s
    → IsBlocked k epoch (run out rounds s)
run-IsBlocked out [] k epoch s b = b
run-IsBlocked out (r ∷ rs) k epoch s b =
    run-IsBlocked out rs k epoch (observe out r.config r.observations r.now s).1
      (observe-IsBlocked out r.config r.observations r.now k epoch s b)

-- What CompleteRecovery found: a record in recovery, and a proof for its very epoch and evidence,
-- reconciled behind the observation and at most a minute away from now.
pub record Recovers (out : Outside) (r : Record) (p : RecoveryProof) (now : ℕ) : Type 0 where
  pub state : r.state ≡ recovering
  pub epoch : p.health_epoch ≡ r.epoch
  pub evidence : p.clean_evidence_digest ≡ r.evidence_digest
  pub block : p.clean_finalized_block ≡ r.finalized_block
  pub behind : r.observed_at ≤ p.reconciled_at
  pub recent : now ≤ p.reconciled_at + minute
  pub early : p.reconciled_at ≤ now + minute
  pub digest : p.evidence_digest ≡ recovery_evidence_digest out p

validate_recovery_proof-Recovers :
    (out : Outside) (r : Record) (p : RecoveryProof) (now : ℕ)
    → validate_recovery_proof out r p now ≡ true
    → Recovers out r p now
unfolding validate_recovery_proof
validate_recovery_proof-Recovers out r p now h = record {
  state = ground arith;
  epoch = ground arith;
  evidence = ground (arith, text_eq_iff p.clean_evidence_digest r.evidence_digest);
  block = ground arith;
  behind = ground arith;
  recent = ground arith;
  early = ground arith;
  digest = ground (arith, text_eq_iff p.evidence_digest (recovery_evidence_digest out p));
}

-- Whatever the store was when the service read it: a recovery that succeeds finds the asset's record
-- recovering at the end, holds a proof for this record, and puts it to NORMAL in the next epoch.
pub complete_recovery_sound :
    (out : Outside) (config : Config) (answer : Option RecoveryProof) (now : ℕ) (read s t : Store)
    (next : Record)
    → complete_recovery out config answer now read s ≡ (ok next, t)
    → (p : RecoveryProof) × (r : Record) × (answer ≡ some p)
      × (lookup (record_key config.chain_id config.asset) s ≡ some r)
      × Recovers out r p now
      × (next ≡ recovered out p now r)
      × (t ≡ insert (record_key config.chain_id config.asset) next s)
unfolding complete_recovery complete
complete_recovery_sound out config answer now read s t next h =
    let key = record_key config.chain_id config.asset in
    elim (Option-cases (lookup key read)) [
      | inl a ↦ absurd (ground arith)
      | inr (q, a) ↦ elim (Bool-cases (state_eq q.state recovering)) [
        | inr b ↦ absurd (ground arith)
        | inl b ↦ elim (Option-cases answer) [
          | inl c ↦ absurd (ground arith)
          | inr (p, c) ↦ elim (Bool-cases (validate_recovery_proof out q p now)) [
            | inr d ↦ absurd (ground arith)
            | inl d ↦ elim (Option-cases (lookup key s)) [
              | inl e ↦ absurd (ground arith)
              | inr (r, e) ↦
                  elim (Bool-cases
                    (state_eq r.state recovering && validate_recovery_proof out r p now)) [
                      | inr f ↦ absurd (ground arith)
                      | inl f ↦ (
                        p,
                        r,
                        c,
                        e,
                        validate_recovery_proof-Recovers out r p now (ground arith),
                        ground arith,
                        ground arith,
                      )
                    ]
            ]
          ]
        ]
      ]
    ]
