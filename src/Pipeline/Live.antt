-- ===== src/Pipeline/Live.antt =====
-- blockchain_cluster/cmd/consumer/main.go: the pipeline over the stores, with its six engines in order.
use blockchain_clustering.Base.{ℕ, String, Bool, List, [], ◌∷◌}
use blockchain_clustering.Base.Int.{ℤ}
use blockchain_clustering.Base.Float.{Float64}
use blockchain_clustering.Base.GoMap.{GoMap}
use blockchain_clustering.Clusters.{rebuild_from_evidence}
use blockchain_clustering.Heuristic.{Engine}
use blockchain_clustering.Heuristic.Account.{funding_engine, deployer_engine}
use blockchain_clustering.Heuristic.Behavioral.{behavioral_engine}
use blockchain_clustering.Heuristic.Change.{change_engine}
use blockchain_clustering.Heuristic.CommonInput.{common_input_engine}
use blockchain_clustering.Heuristic.Sweep.{sweep_engine}
use blockchain_clustering.Merge.{record_and_merge_batch}
use blockchain_clustering.Pipeline.{Pipeline}
use blockchain_clustering.Preprocessor.{mark_hubs, mark_collaborative_tx, mark_dust}
use blockchain_clustering.Replay.{MapOrder}
use blockchain_clustering.Stores.Deltas.{AddressKey, ingest}
use blockchain_clustering.Stores.Registry.{preprocessing_params_for}

module _ {F : Type 0} ⦃fl : Float64 F⦄ where
  unfoldable pub engines : (ℤ → ℤ → F → Bool) → List (Engine F)
  engines covers =
      common_input_engine
      ∷ sweep_engine covers
      ∷ change_engine
      ∷ funding_engine
      ∷ deployer_engine
      ∷ behavioral_engine
      ∷ []

  unfoldable pub live :
      (ℤ → ℤ → F → Bool)
      → (GoMap AddressKey ℤ → GoMap AddressKey ℤ)
      → (String → List ℕ)
      → MapOrder F
      → Pipeline F
  unfolding engines
  live covers heights sha256 order = record {
    ingest = ingest heights;
    preprocessing_params_for = preprocessing_params_for;
    mark_hubs = mark_hubs;
    mark_collaborative_tx = mark_collaborative_tx;
    mark_dust = mark_dust;
    engines = engines covers;
    record_and_merge_batch = record_and_merge_batch;
    rebuild_from_evidence = rebuild_from_evidence sha256 order;
  }
