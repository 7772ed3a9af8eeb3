-- ===== src/AssetHealth/Types.antt =====
-- internal/ascpassethealth/health.go: configurations, observations, decisions and records. Times are
-- nanoseconds, 0 being the zero time.
use flowops.Prelude.{ℕ, ◌==◌, Bool, List, Text}

pub data State : Type 0 where
  normal token_paused asset_transfer_blocked recovering : State

abbrev pub state_code : State → ℕ
state_code normal = 0
state_code token_paused = 1
state_code asset_transfer_blocked = 2
state_code recovering = 3

abbrev pub state_eq : State → State → Bool
state_eq s t = state_code s == state_code t

pub data HealthError : Type 0 where
  invalid_configuration quorum_unavailable observer_disagreement recovery_incomplete : HealthError
  no_rows verifier_failed : HealthError

pub record Config : Type 0 where
  pub chain_id : ℕ
  pub asset : Text
  pub proxy_implementation : Text
  pub runtime_code_hash : Text
  pub quorum : ℕ
  pub max_observation_age : ℕ

pub record Observation : Type 0 where
  pub provider : Text
  pub chain_id : ℕ
  pub asset : Text
  pub proxy_implementation : Text
  pub runtime_code_hash : Text
  pub paused : Bool
  pub buyer_blacklisted : Bool
  pub escrow_blacklisted : Bool
  pub transfer_failure : Bool
  pub finalized_block : ℕ
  pub finalized_block_hash : Text
  pub observed_at : ℕ

pub record Decision : Type 0 where
  pub state : State
  pub evidence_digest : Text
  pub providers : List Text
  pub finalized_block : ℕ
  pub observed_at : ℕ

pub record Record : Type 0 where
  pub config : Config
  pub state : State
  pub epoch : ℕ
  pub evidence_digest : Text
  pub providers : List Text
  pub finalized_block : ℕ
  pub observed_at : ℕ
  pub updated_at : ℕ

pub record RecoveryProof : Type 0 where
  pub chain_id : ℕ
  pub asset : Text
  pub health_epoch : ℕ
  pub clean_evidence_digest : Text
  pub clean_finalized_block : ℕ
  pub reconciled_at : ℕ
  pub evidence_digest : Text

-- encoding/json of the two payloads, crypto/sha256, and strings.ToLower beyond ASCII.
pub record Outside : Type 0 where
  pub unicode_lower : Text → Text
  pub sha256 : Text → Text
  pub marshal_observation : Observation → List Text → Text
  pub marshal_recovery : RecoveryProof → Text
