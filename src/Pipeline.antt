-- ===== src/Pipeline.antt =====
-- blockchain_cluster/internal/pipeline/pipeline.go: the steps of one batch in their order, over an
-- interface of what they call; and the pipeline that blockchain_cluster/cmd/consumer/main.go builds.
pub mod Order
pub mod Live
pub mod Evidence
use blockchain_clustering.Base.{ℕ, String, List, [], ◌∷◌, ◌++◌, length, map}
use blockchain_clustering.Domain.{BalanceDelta, MergeCandidate, PreprocessingParams}
use blockchain_clustering.Db.{Exec, pure, fold_m, ◌>>=◌, ◌>>◌}
use blockchain_clustering.Derive.{dedupe}
use blockchain_clustering.Heuristic.{Engine}
use blockchain_clustering.Merge.{BatchResult}
use blockchain_clustering.Stores.Deltas.{IngestResult}

pub record Pipeline (F : Type 0) : Type 0 where
  pub ingest : List BalanceDelta → Exec F IngestResult
  pub preprocessing_params_for : String → Exec F (PreprocessingParams F)
  pub mark_hubs : String → List String → PreprocessingParams F → Exec F (Unit {0})
  pub mark_collaborative_tx : List BalanceDelta → PreprocessingParams F → Exec F (Unit {0})
  pub mark_dust : List BalanceDelta → PreprocessingParams F → Exec F (Unit {0})
  pub engines : List (Engine F)
  pub record_and_merge_batch : List (MergeCandidate F) → Exec F BatchResult
  pub rebuild_from_evidence : String → Exec F (Unit {0})

pub record PipelineResult : Type 0 where
  pub candidates_generated : ℕ
  pub recorded : ℕ
  pub rejected : ℕ

unfoldable pub addresses_in : List BalanceDelta → List String
addresses_in deltas = dedupe (map (λ (d : BalanceDelta). d.address) deltas)

module _ {F : Type 0} where
  unfoldable pub generate_step :
      List BalanceDelta → List (MergeCandidate F) → Engine F → Exec F (List (MergeCandidate F))
  generate_step deltas candidates engine = do
    generated ← engine.generate deltas
    pure (candidates ++ generated)

  -- [A]
  unfoldable pub preprocess :
      Pipeline F → String → List BalanceDelta → PreprocessingParams F → Exec F (Unit {0})
  preprocess p chain_id deltas params = do
    p.mark_hubs chain_id (addresses_in deltas) params
    p.mark_collaborative_tx deltas params
    p.mark_dust deltas params

  -- [B], [C] and [D]
  unfoldable pub cluster_batch : Pipeline F → String → List BalanceDelta → Exec F PipelineResult
  unfolding generate_step
  cluster_batch p chain_id deltas = do
    candidates ← fold_m (generate_step deltas) [] p.engines
    batch ← p.record_and_merge_batch candidates
    p.rebuild_from_evidence chain_id
    pure (record {
      candidates_generated = length candidates;
      recorded = batch.recorded;
      rejected = batch.rejected;
    })

  unfoldable pub run : Pipeline F → String → List BalanceDelta → Exec F PipelineResult
  unfolding preprocess cluster_batch
  run p chain_id [] = pure (record { candidates_generated = 0; recorded = 0; rejected = 0 })
  run p chain_id (d ∷ ds) = do
    p.ingest (d ∷ ds)
    params ← p.preprocessing_params_for chain_id
    preprocess p chain_id (d ∷ ds) params
    cluster_batch p chain_id (d ∷ ds)
