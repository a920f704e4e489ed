-- ===== src/Heuristic/CommonInput.antt =====
-- blockchain_cluster/internal/heuristic/commoninput.go: addresses spent together in a transaction.
pub mod Justified
use blockchain_clustering.Base.{String, List, [], ◌∷◌, ◌++◌, if◌then◌else◌, map}
use blockchain_clustering.Base.Float.{Float64}
use blockchain_clustering.Domain.{BalanceDelta, MergeCandidate}
use blockchain_clustering.Derive.{TxGroup, group_by_tx, spent_addresses}
use blockchain_clustering.Db.{Exec, pure, fold_m, ◌>>=◌}
use blockchain_clustering.Heuristic.{Engine, candidate, first_delta}
use blockchain_clustering.Stores.Addresses.{is_hub}
use blockchain_clustering.Stores.Excluded.{is_excluded}
use blockchain_clustering.Stores.Registry.{confidence_for}

module _ {F : Type 0} where
  unfoldable pub keep_non_hub : String → List String → String → Exec F (List String)
  keep_non_hub chain_id ins addr = do
    hub ← is_hub chain_id addr
    pure (if hub then ins else ins ++ addr ∷ [])

  -- The first spender that is no hub, with each of the others.
  unfoldable pub anchored :
      TxGroup → F → List (MergeCandidate F) → List String → Exec F (List (MergeCandidate F))
  anchored tx confidence candidates [] = pure candidates
  anchored tx confidence candidates (anchor ∷ []) = pure candidates
  anchored tx confidence candidates (anchor ∷ b ∷ rest) = do
    first ← first_delta tx
    pure (candidates ++ map (candidate tx first "common-input" confidence anchor) (b ∷ rest))

  unfoldable pub common_input_tx :
      F → List (MergeCandidate F) → TxGroup → Exec F (List (MergeCandidate F))
  unfolding keep_non_hub anchored
  common_input_tx confidence candidates tx = do
    excluded ← is_excluded tx.key.0 tx.key.1
    (if excluded
        then pure candidates
        else fold_m (keep_non_hub tx.key.0) [] (spent_addresses tx.deltas)
          >>= anchored tx confidence candidates)

module _ {F : Type 0} ⦃fl : Float64 F⦄ where
  unfoldable pub common_input : List BalanceDelta → Exec F (List (MergeCandidate F))
  unfolding common_input_tx
  common_input [] = pure []
  common_input (d ∷ ds) = do
    (confidence, enabled) ← confidence_for d.chain_id "common-input"
    (if enabled then fold_m (common_input_tx confidence) [] (group_by_tx (d ∷ ds)) else pure [])

  unfoldable pub common_input_engine : Engine F
  common_input_engine = record { name = "common-input"; generate = common_input }
