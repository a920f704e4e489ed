-- ===== src/Pipeline/Evidence.antt =====
-- blockchain_cluster/internal/pipeline: what a run of the pipeline that cmd/consumer builds does to the
-- log of evidence.
use blockchain_clustering.Base.{◌≡◌, Bool, List, All-of-mem, Memᴰ}
use blockchain_clustering.Base.Float.{Float64}
use blockchain_clustering.Base.Int.{ℤ}
use blockchain_clustering.Db.{World}
use blockchain_clustering.Db.Atomic.{ReadsOnly}
use blockchain_clustering.Domain.{BalanceDelta}
use blockchain_clustering.Heuristic.{Engine}
use blockchain_clustering.Heuristic.Account.{funding_engine, deployer_engine}
use blockchain_clustering.Heuristic.Behavioral.{behavioral_engine}
use blockchain_clustering.Heuristic.Change.{change_engine}
use blockchain_clustering.Heuristic.CommonInput.{common_input_engine}
use blockchain_clustering.Heuristic.Sweep.{sweep_engine}
use blockchain_clustering.Heuristic.History.{
  behavioral-ReadsOnly, change-ReadsOnly, sweep-ReadsOnly,
}
use blockchain_clustering.Heuristic.ReadsOnly.{
  common_input-ReadsOnly, deployer-ReadsOnly, funding-ReadsOnly,
}
use blockchain_clustering.Pipeline.Live.{engines}

module _ {F : Type 0} ⦃fl : Float64 F⦄ where
  -- None of the six engines changes a table, whatever calls fail: they only emit candidates.
  pub engines_read_only :
      (covers : ℤ → ℤ → F → Bool) (e : Engine F) (deltas : List BalanceDelta) (w : World F)
      → Memᴰ e (engines covers)
      → (e.generate deltas w).1.db ≡ w.db
  unfolding engines common_input_engine sweep_engine change_engine funding_engine deployer_engine
      behavioral_engine
  engines_read_only covers e deltas w m =
      (All-of-mem (λ (x : Engine F). ReadsOnly (x.generate deltas)) (engines covers)
          (
            common_input-ReadsOnly deltas,
            (
              sweep-ReadsOnly covers deltas,
              (
                change-ReadsOnly deltas,
                (
                  funding-ReadsOnly deltas,
                  (deployer-ReadsOnly deltas, (behavioral-ReadsOnly deltas, tt)),
                ),
              ),
            ),
          )
          e m).at
        w
