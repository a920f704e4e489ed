-- ===== src/Domain.antt =====
-- blockchain_cluster/internal/domain/types.go: the types that storage and clustering share.
-- A pointer that may be nil is an `Option`; amounts and int64 heights are integers; a time is the
-- number of nanoseconds that it stands for. `F` is float64.
use blockchain_clustering.Base.{ℕ, String, Bool, Option}
use blockchain_clustering.Base.Int.{ℤ}
use blockchain_clustering.Base.Json.{RawMessage}

abbrev pub evidence_status_active : String
evidence_status_active = "active"

abbrev pub evidence_status_invalidated : String
evidence_status_invalidated = "invalidated"

pub record BalanceDelta : Type 0 where
  pub chain_id : String
  pub tx_id : String
  pub delta_index : ℤ
  pub address : String
  pub amount : Option ℤ
  pub kind : String
  pub block_height : ℤ
  pub block_hash : String
  pub meta : RawMessage

pub record MergeCandidate (F : Type 0) : Type 0 where
  pub chain_id : String
  pub address_a : String
  pub address_b : String
  pub heuristic_key : String
  pub source_tx_id : Option String
  pub source_block_hash : Option String
  pub source_block_height : Option ℤ
  pub confidence : F

pub record MergeEvidence (F : Type 0) : Type 0 where
  pub chain_id : String
  pub op_id : ℕ
  pub address_a : String
  pub address_b : String
  pub heuristic_key : String
  pub source_tx_id : Option String
  pub source_block_hash : Option String
  pub source_block_height : Option ℤ
  pub confidence : F
  pub status : String
  pub invalidated_reason : Option String
  pub created_at : ℕ
  pub created_by : String

pub record Cluster (F : Type 0) : Type 0 where
  pub chain_id : String
  pub cluster_id : String
  pub size : ℕ
  pub entity_type : String
  pub representative_confidence : F
  pub updated_at : ℕ

pub record ClusterMembership (F : Type 0) : Type 0 where
  pub chain_id : String
  pub address : String
  pub cluster_id : String
  pub membership_confidence : F

pub record Address (F : Type 0) : Type 0 where
  pub chain_id : String
  pub address : String
  pub first_seen_height : Option ℤ
  pub last_seen_height : Option ℤ
  pub is_hub : Bool
  pub hub_type : Option String
  pub hub_confidence : Option F
  pub dust_flag : Bool

pub record PreprocessingParams (F : Type 0) : Type 0 where
  pub hub_threshold : F
  pub hub_degree_saturation : F
  pub dust_threshold : ℤ
  pub coinjoin_confidence : F
  pub dust_exclusion_confidence : F
  pub equal_output_min : ℤ
  pub collab_input_min : ℤ
  pub collab_output_min : ℤ

pub record HeuristicConfig (F : Type 0) : Type 0 where
  pub enabled : Bool
  pub confidence : F
  pub params : RawMessage

pub record SweepTarget (F : Type 0) : Type 0 where
  pub chain_id : String
  pub address : String
  pub entity_hint : Option String
  pub source : String
  pub confidence : F

pub record Label (F : Type 0) : Type 0 where
  pub label_id : ℕ
  pub target_type : String
  pub chain_id : String
  pub target_cluster_id : Option String
  pub target_address : Option String
  pub label : String
  pub category : String
  pub source : String
  pub source_confidence : F
  pub collected_at : ℕ
  pub last_verified_at : ℕ
  pub status : String
