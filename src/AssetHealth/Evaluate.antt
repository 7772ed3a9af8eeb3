-- ===== src/AssetHealth/Evaluate.antt =====
-- internal/ascpassethealth/health.go: Evaluate, the decision over a quorum of observers.
use flowops.Prelude.{
  ℕ, bool_eq, zero, suc, ◌+◌, ◌*◌, ltb, leb, ◌==◌, Bool, false, not, ◌||◌, ◌&&◌, none, some, List,
  [], ◌∷◌, ◌++◌, Text, codes, text_eq, text_in, is_empty, length, Result, ok, err, ◌>>◌, fail_if,
  if◌then◌else◌, is_some,
}
use flowops.Hex.{hex_encode, hex_decode}
use flowops.Strings.{to_lower}
use flowops.Strings.Sorted.{sort_texts}
use flowops.Workflow.Grammar.{after_0x}
use flowops.AssetHealth.Types.{
  State, normal, token_paused, asset_transfer_blocked, HealthError, invalid_configuration,
  quorum_unavailable, observer_disagreement, Config, Observation, Decision, Outside,
}

abbrev pub minute : ℕ
minute = 60 * 1000000000

abbrev pub zeros : ℕ → Text
zeros zero = []
zeros (suc n) = b'0' ∷ zeros n

-- What canonicalAddress and canonicalHash ask of a text of `width` digits behind `0x`.
unfoldable pub canonical_hex : ℕ → (Text → Text) → Text → Bool
canonical_hex width unicode_lower value =
    if not (length value == 2 + width) || not (text_eq value (to_lower unicode_lower value))
    then false
    else elim (after_0x value) [
      | none ↦ false
      | some digits ↦ is_some (hex_decode digits) && not (text_eq digits (zeros width))
    ]

unfoldable pub canonical_address : (Text → Text) → Text → Bool
unfolding canonical_hex
canonical_address = canonical_hex 40

unfoldable pub canonical_hash : (Text → Text) → Text → Bool
unfolding canonical_hex
canonical_hash = canonical_hex 64

unfoldable pub same_observation : Observation → Observation → Bool
same_observation l r =
    l.chain_id == r.chain_id
    && text_eq l.asset r.asset
    && text_eq l.proxy_implementation r.proxy_implementation
    && text_eq l.runtime_code_hash r.runtime_code_hash
    && bool_eq l.paused r.paused
    && bool_eq l.buyer_blacklisted r.buyer_blacklisted
    && bool_eq l.escrow_blacklisted r.escrow_blacklisted
    && bool_eq l.transfer_failure r.transfer_failure
    && l.finalized_block == r.finalized_block
    && text_eq l.finalized_block_hash r.finalized_block_hash

unfoldable pub validate_config : (Text → Text) → Config → Bool
validate_config unicode_lower c =
    (c.chain_id == 8453 || c.chain_id == 84532)
    && canonical_address unicode_lower c.asset
    && canonical_address unicode_lower c.proxy_implementation
    && canonical_hash unicode_lower c.runtime_code_hash
    && leb 2 c.quorum
    && leb c.quorum 5
    && ltb 0 c.max_observation_age
    && leb c.max_observation_age (5 * minute)

-- The checks of one observation, in the order of the loop.
unfoldable pub check_observation :
    (Text → Text)
    → Config
    → ℕ
    → Observation
    → List Text
    → Observation
    → Result HealthError (Unit {0})
check_observation unicode_lower config now canonical seen o = do
  fail_if
      (is_empty o.provider
        || o.observed_at == 0
        || o.finalized_block == 0
        || not (canonical_hash unicode_lower o.finalized_block_hash))
      observer_disagreement
  fail_if (ltb (now + minute) o.observed_at || ltb (o.observed_at + config.max_observation_age) now)
      quorum_unavailable
  fail_if (text_in o.provider seen) observer_disagreement
  fail_if (not (same_observation canonical o)) observer_disagreement

-- `canonical` with the earlier time of the two.
abbrev pub earliest : Observation → Observation → Observation
earliest canonical o =
    if ltb o.observed_at canonical.observed_at
    then record canonical { observed_at = o.observed_at }
    else canonical

-- The loop over the observations; `seen` has the providers so far, the last one first.
unfoldable pub merge :
    (Text → Text)
    → Config
    → ℕ
    → Observation
    → List Text
    → List Observation
    → Result HealthError (Observation × List Text)
merge unicode_lower config now canonical seen [] = ok (canonical, seen)
merge unicode_lower config now canonical seen (o ∷ os) =
    elim (check_observation unicode_lower config now canonical seen o) [
      | err e ↦ err e
      | ok _ ↦ merge unicode_lower config now (earliest canonical o) (o.provider ∷ seen) os
    ]

unfoldable pub observed_state : Config → Observation → State
observed_state config o =
    if o.paused
    then token_paused
    else if o.buyer_blacklisted
        || o.escrow_blacklisted
        || o.transfer_failure
        || not (text_eq o.proxy_implementation config.proxy_implementation)
        || not (text_eq o.runtime_code_hash config.runtime_code_hash)
    then asset_transfer_blocked
    else normal

module _ (out : Outside) where
  abbrev pub decision_of : Config → Observation → List Text → Decision
  decision_of config canonical seen =
      let providers = sort_texts seen in
      record {
        state = observed_state config canonical;
        evidence_digest =
            codes "0x"
            ++ hex_encode (
                out.sha256
                  (out.marshal_observation (record canonical { provider = [] }) providers));
        providers = providers;
        finalized_block = canonical.finalized_block;
        observed_at = canonical.observed_at;
      }

  unfoldable pub evaluate : Config → List Observation → ℕ → Result HealthError Decision
  evaluate config [] now =
      if not (validate_config out.unicode_lower config)
      then err invalid_configuration
      else err quorum_unavailable
  evaluate config (first ∷ rest) now =
      if not (validate_config out.unicode_lower config)
      then err invalid_configuration
      else if ltb (length (first ∷ rest)) config.quorum || ltb 5 (length (first ∷ rest))
      then err quorum_unavailable
      else elim (merge out.unicode_lower config now first [] (first ∷ rest)) [
        | err e ↦ err e
        | ok (canonical, seen) ↦
            if ltb (length seen) config.quorum
              || not (canonical.chain_id == config.chain_id)
              || not (text_eq canonical.asset config.asset)
            then err quorum_unavailable
            else ok (decision_of config canonical seen)
      ]
