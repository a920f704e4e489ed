-- ===== src/Heuristic/ReadsOnly.antt =====
-- blockchain_cluster/internal/heuristic: the engines emit candidates and write nothing.
use blockchain_clustering.Base.{String, List, [], ◌∷◌, Option, none, some, string_eq}
use blockchain_clustering.Base.Float.{Float64}
use blockchain_clustering.Base.Int.{ℤ}
use blockchain_clustering.Db.{Exec}
use blockchain_clustering.Db.Atomic.{ReadsOnly}
use blockchain_clustering.Db.Reads.{
  reads_bind, reads_fail, reads_fold, reads_if, reads_list, reads_pure, reads_query,
}
use blockchain_clustering.Derive.{TxGroup, group_by_tx, spent_addresses}
use blockchain_clustering.Domain.{BalanceDelta, HeuristicConfig, MergeCandidate}
use blockchain_clustering.Heuristic.{first_delta}
use blockchain_clustering.Heuristic.Account.{
  by_first_spender, deployer, deployer_delta, emit_unless_hub, funding, funding_delta,
  is_new_address, when_enabled,
}
use blockchain_clustering.Heuristic.CommonInput.{
  anchored, common_input, common_input_tx, keep_non_hub,
}
use blockchain_clustering.Merge.Laws.{ReadsOnly-is_hub}
use blockchain_clustering.Stores.Addresses
use blockchain_clustering.Stores.Excluded.{is_excluded}
use blockchain_clustering.Stores.Registry.{confidence_for, config_for}

module _ {F : Type 0} where
  pub reads_first_delta : (tx : TxGroup) → ReadsOnly (first_delta {F = F} tx)
  unfolding first_delta
  reads_first_delta tx = reads_list tx.deltas _ _ (reads_fail _) (λ d _. reads_pure d)

  pub reads_is_excluded : (chain_id tx_id : String) → ReadsOnly (is_excluded {F = F} chain_id tx_id)
  unfolding is_excluded
  reads_is_excluded chain_id tx_id = reads_query _

  pub reads_config_for : (chain_id key : String) → ReadsOnly (config_for {F = F} chain_id key)
  unfolding config_for
  reads_config_for chain_id key = reads_query _

  reads_anchored :
      (tx : TxGroup) (confidence : F) (candidates : List (MergeCandidate F)) (ins : List String)
      → ReadsOnly (anchored tx confidence candidates ins)
  unfolding anchored
  reads_anchored tx confidence candidates [] = reads_pure candidates
  reads_anchored tx confidence candidates (a ∷ []) = reads_pure candidates
  reads_anchored tx confidence candidates (a ∷ b ∷ rest) =
      reads_bind _ _ (reads_first_delta tx) (λ first. reads_pure _)

  reads_common_input_tx :
      (confidence : F) (candidates : List (MergeCandidate F)) (tx : TxGroup)
      → ReadsOnly (common_input_tx confidence candidates tx)
  unfolding common_input_tx keep_non_hub
  reads_common_input_tx confidence candidates tx =
      reads_bind _ _ (reads_is_excluded tx.key.0 tx.key.1) (λ excluded.
        reads_if excluded _ _ (reads_pure candidates) (
          reads_bind _ _
            (reads_fold _
              (λ ins addr. reads_bind _ _ (ReadsOnly-is_hub tx.key.0 addr) (λ hub. reads_pure _)) []
              _)
            (reads_anchored tx confidence candidates)))

  pub reads_when_enabled :
      (found : Option (HeuristicConfig F))
      (run : HeuristicConfig F → Exec F (List (MergeCandidate F)))
      → ((cfg : HeuristicConfig F) → ReadsOnly (run cfg))
      → ReadsOnly (when_enabled found run)
  unfolding when_enabled
  reads_when_enabled none run h = reads_pure []
  reads_when_enabled (some cfg) run h = reads_if cfg.enabled _ _ (h cfg) (reads_pure [])

  reads_emit :
      (tx : TxGroup) (key : String) (confidence : F) (candidates : List (MergeCandidate F))
      (a b : String)
      → ReadsOnly (emit_unless_hub tx key confidence candidates a b)
  unfolding emit_unless_hub
  reads_emit tx key confidence candidates a b = reads_bind _ _ (ReadsOnly-is_hub tx.key.0 a) (λ hub.
      reads_if hub _ _ (reads_pure candidates)
        (reads_bind _ _ (reads_first_delta tx) (λ first. reads_pure _)))

  pub reads_is_new :
      (chain_id address : String) (height : ℤ)
      → ReadsOnly (is_new_address {F = F} chain_id address height)
  unfolding is_new_address Addresses.get
  reads_is_new chain_id address height = reads_bind _ _ (reads_query _) (λ found. reads_pure _)

  reads_by_first_spender :
      (step : TxGroup
        → String
        → List (MergeCandidate F)
        → BalanceDelta
        → Exec F (List (MergeCandidate F)))
      → ((tx : TxGroup) (s : String) (candidates : List (MergeCandidate F)) (d : BalanceDelta)
          → ReadsOnly (step tx s candidates d))
      → (candidates : List (MergeCandidate F)) (tx : TxGroup)
      → ReadsOnly (by_first_spender step candidates tx)
  unfolding by_first_spender
  reads_by_first_spender step h candidates tx =
      reads_list (spent_addresses tx.deltas) _ _ (reads_pure candidates)
        (λ s _. reads_fold _ (h tx s) candidates tx.deltas)

  pub funding-ReadsOnly : (deltas : List BalanceDelta) → ReadsOnly (funding {F = F} deltas)
  unfolding funding funding_delta
  funding-ReadsOnly [] = reads_pure []
  funding-ReadsOnly (d ∷ ds) = reads_bind _ _ (reads_config_for d.chain_id "funding") (λ found.
      reads_when_enabled found _ (λ cfg.
        reads_fold _
          (reads_by_first_spender _ (λ tx s candidates x. reads_if _ _ _ (reads_pure candidates) (
            reads_bind _ _ (reads_first_delta tx) (λ first.
              reads_bind _ _ (reads_is_new tx.key.0 x.address first.block_height) (λ is_new.
                reads_if is_new _ _ (reads_emit tx _ _ candidates s x.address)
                  (reads_pure candidates))))))
          [] (group_by_tx (d ∷ ds))))

  pub deployer-ReadsOnly : (deltas : List BalanceDelta) → ReadsOnly (deployer {F = F} deltas)
  unfolding deployer deployer_delta
  deployer-ReadsOnly [] = reads_pure []
  deployer-ReadsOnly (d ∷ ds) = reads_bind _ _ (reads_config_for d.chain_id "deployer") (λ found.
      reads_when_enabled found _ (λ cfg.
        reads_fold _
          (reads_by_first_spender _ (λ tx s candidates x.
            reads_if _ _ _ (reads_pure candidates) (reads_emit tx _ _ candidates s x.address)))
          [] (group_by_tx (d ∷ ds))))

module _ {F : Type 0} ⦃fl : Float64 F⦄ where
  reads_confidence_for : (chain_id key : String) → ReadsOnly (confidence_for {F = F} chain_id key)
  unfolding confidence_for
  reads_confidence_for chain_id key =
      reads_bind _ _ (reads_config_for chain_id key) (λ found. reads_pure _)

  pub common_input-ReadsOnly :
      (deltas : List BalanceDelta) → ReadsOnly (common_input {F = F} deltas)
  unfolding common_input
  common_input-ReadsOnly [] = reads_pure []
  common_input-ReadsOnly (d ∷ ds) =
      reads_bind _ _ (reads_confidence_for d.chain_id "common-input") (λ (confidence, enabled).
        reads_if enabled _ _
          (reads_fold _ (reads_common_input_tx confidence) [] (group_by_tx (d ∷ ds)))
          (reads_pure []))
