-- ===== src/AssetHealth/Quorum.antt =====
-- A decision for NORMAL needs a quorum of observers who agree that nothing is wrong.
use flowops.Prelude.{
  ℕ, ◌+◌, ◌≤◌, ltb, leb, ◌==◌, ◌≡◌, refl, Bool, true, false, not, ◌||◌, ◌&&◌, List, [], ◌∷◌, ◌∙◌,
  Text, text_eq, text_in, all, text_eq_iff, length, ok, is_ok, Result-cases, Bool-cases, inl, inr,
  arith, sym, ap,
}
use flowops.AssetHealth.Types.{normal, Config, Observation, Decision, Outside}
use flowops.AssetHealth.Evaluate.{
  minute, same_observation, validate_config, check_observation, earliest, merge, observed_state,
  decision_of, evaluate,
}

-- Not from the future, and not older than the configuration allows.
abbrev pub is_fresh : Config → ℕ → Observation → Bool
is_fresh config now o =
    leb o.observed_at (now + minute) && leb now (o.observed_at + config.max_observation_age)

-- The asset as it is configured, on its chain, neither paused nor blocked for anybody.
abbrev pub is_clean : Config → Observation → Bool
is_clean config o =
    o.chain_id == config.chain_id
    && text_eq o.asset config.asset
    && text_eq o.proxy_implementation config.proxy_implementation
    && text_eq o.runtime_code_hash config.runtime_code_hash
    && not o.paused
    && not o.buyer_blacklisted
    && not o.escrow_blacklisted
    && not o.transfer_failure

-- No observer speaks twice, nor after it is among `seen`.
abbrev pub are_distinct : List Text → List Observation → Bool
are_distinct seen [] = true
are_distinct seen (o ∷ os) = not (text_in o.provider seen) && are_distinct (o.provider ∷ seen) os

check_observation-ok :
    (u : Text → Text) (config : Config) (now : ℕ) (c : Observation) (seen : List Text)
    (o : Observation)
    → is_ok (check_observation u config now c seen o) ≡ true
    → (is_fresh config now o ≡ true)
      × (text_in o.provider seen ≡ false)
      × (same_observation c o ≡ true)
unfolding check_observation
check_observation-ok u config now c seen o h = (ground arith, ground arith, ground arith)

-- The observation but for its time.
abbrev timeless : Observation → Observation
timeless o = record o { observed_at = 0 }

earliest-timeless : (c o : Observation) → timeless (earliest c o) ≡ timeless c
earliest-timeless c o = elim (Bool-cases (ltb o.observed_at c.observed_at)) [
  | inl a ↦ ground arith
  | inr a ↦ ground arith
]

same-timeless : (c o : Observation) → same_observation c o ≡ same_observation (timeless c) o
unfolding same_observation
same-timeless c o = refl

record Merged (config : Config) (now : ℕ) (c : Observation) (seen : List Text)
    (os : List Observation) (c' : Observation) : Type 0 where
  fresh : all (is_fresh config now) os ≡ true
  same : all (same_observation c) os ≡ true
  distinct : are_distinct seen os ≡ true
  face : timeless c' ≡ timeless c

all-same :
    (c d : Observation) (os : List Observation)
    → timeless c ≡ timeless d
    → all (same_observation c) os ≡ true
    → all (same_observation d) os ≡ true
all-same c d [] e h = refl
all-same c d (o ∷ os) e h =
    let r = all-same c d os e (ground arith) in
    let q = ap (λ t. same_observation t o) e in ground (arith, same-timeless c o, same-timeless d o)

merge-Merged :
    (u : Text → Text) (config : Config) (now : ℕ) (c : Observation) (seen : List Text)
    (os : List Observation) (c' : Observation) (seen' : List Text)
    → merge u config now c seen os ≡ ok (c', seen')
    → Merged config now c seen os c'
unfolding merge
merge-Merged u config now c seen [] c' seen' h = record {
  fresh = refl;
  same = refl;
  distinct = refl;
  face = ground arith;
}
merge-Merged u config now c seen (o ∷ os) c' seen' h =
    elim (Result-cases (check_observation u config now c seen o)) [
      | inr (e, a) ↦ absurd (ground arith)
      | inl (t, a) ↦
          let k = check_observation-ok u config now c seen o (ground arith) in
          let m =
            merge-Merged u config now (earliest c o) (o.provider ∷ seen) os c' seen'
              (ground arith) in
          let e = earliest-timeless c o in
          let s = all-same (earliest c o) c os e m.same in
          record {
            fresh = ground (arith, k.0, m.fresh);
            same = ground (arith, k.1);
            distinct = ground (arith, k.1, m.distinct);
            face = m.face ∙ e;
          }
    ]

clean-same :
    (config : Config) (c o : Observation)
    → is_clean config c ≡ true
    → same_observation c o ≡ true
    → is_clean config o ≡ true
unfolding same_observation
clean-same config c o h s = ground (
  arith,
  text_eq_iff c.asset o.asset,
  text_eq_iff c.proxy_implementation o.proxy_implementation,
  text_eq_iff c.runtime_code_hash o.runtime_code_hash,
)

all-clean :
    (config : Config) (c : Observation) (os : List Observation)
    → is_clean config c ≡ true
    → all (same_observation c) os ≡ true
    → all (is_clean config) os ≡ true
all-clean config c [] h s = refl
all-clean config c (o ∷ os) h s =
    let r = all-clean config c os h (ground arith) in
    let q = clean-same config c o h (ground arith) in ground arith

observed-clean :
    (config : Config) (c : Observation)
    → c.chain_id == config.chain_id ≡ true
    → text_eq c.asset config.asset ≡ true
    → observed_state config c ≡ normal
    → is_clean config c ≡ true
unfolding observed_state
observed-clean config c a b h = ground arith

clean-timeless :
    (config : Config) (c d : Observation)
    → timeless c ≡ timeless d
    → is_clean config c ≡ is_clean config d
clean-timeless config c d e = ap (is_clean config) e

-- What stands behind a decision for NORMAL.
pub record Quorum (config : Config) (observations : List Observation) (now : ℕ) : Type 0 where
  pub two : 2 ≤ config.quorum
  pub enough : config.quorum ≤ length observations
  pub distinct : are_distinct [] observations ≡ true
  pub fresh : all (is_fresh config now) observations ≡ true
  pub clean : all (is_clean config) observations ≡ true

evaluate-first :
    (out : Outside) (config : Config) (first : Observation) (rest : List Observation) (now : ℕ)
    (d : Decision)
    → evaluate out config (first ∷ rest) now ≡ ok d
    → d.state ≡ normal
    → Quorum config (first ∷ rest) now
unfolding evaluate validate_config
evaluate-first out config first rest now d h n =
    elim (Bool-cases (
      validate_config out.unicode_lower config
      && not (ltb (length (first ∷ rest)) config.quorum || ltb 5 (length (first ∷ rest))))) [
        | inr a ↦ absurd (ground arith)
        | inl a ↦ elim (Result-cases (merge out.unicode_lower config now first [] (first ∷ rest))) [
          | inr (e, b) ↦ absurd (ground arith)
          | inl ((c, seen), b) ↦
              elim (Bool-cases (
                ltb (length seen) config.quorum
                || not (c.chain_id == config.chain_id)
                || not (text_eq c.asset config.asset))) [
                  | inl f ↦ absurd (ground arith)
                  | inr f ↦
                      let m =
                        merge-Merged out.unicode_lower config now first [] (first ∷ rest) c seen
                          b in
                      let e : d ≡ decision_of out config c seen = ground arith in
                      let o : observed_state config c ≡ normal = ground arith in
                      let k = observed-clean config c (ground arith) (ground arith) o in
                      let l : is_clean config first ≡ true =
                        sym (clean-timeless config c first m.face) ∙ k in
                      record {
                        two = ground arith;
                        enough = ground arith;
                        distinct = m.distinct;
                        fresh = m.fresh;
                        clean = all-clean config first (first ∷ rest) l m.same;
                      }
                ]
        ]
      ]

-- Evaluate decides for NORMAL only over observations of a quorum of at least two observers, each of
-- whom speaks once, is fresh, and sees the configured asset unblocked and unpaused on its chain.
pub evaluate-normal :
    (out : Outside) (config : Config) (observations : List Observation) (now : ℕ) (d : Decision)
    → evaluate out config observations now ≡ ok d
    → d.state ≡ normal
    → Quorum config observations now
unfolding evaluate
evaluate-normal out config [] now d h n = absurd (ground arith)
evaluate-normal out config (first ∷ rest) now d h n = evaluate-first out config first rest now d h n
