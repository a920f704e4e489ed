-- ===== src/Heuristic/History.antt =====
-- blockchain_cluster/internal/heuristic: the engines that ask for the history of addresses (sweep.go,
-- change.go, and `behavioral` of account.go) write nothing.
use blockchain_clustering.Base.{
  String, Bool, true, false, List, [], ◌∷◌, ◌++◌, none, string_eq, map,
}
use blockchain_clustering.Base.Float.{Float64}
use blockchain_clustering.Base.Int.{ℤ}
use blockchain_clustering.Db.Atomic.{ReadsOnly}
use blockchain_clustering.Db.Reads.{
  reads_bind, reads_fold, reads_if, reads_list, reads_option, reads_pure, reads_query,
}
use blockchain_clustering.Derive.{
  TxGroup, ReceivedEntry, group_by_tx, spent_addresses, received_entries,
}
use blockchain_clustering.Domain.{BalanceDelta, HeuristicConfig, MergeCandidate, SweepTarget}
use blockchain_clustering.Heuristic.Behavioral.{
  Seen, AccountPairKey, behavioral, behavioral_pair, behavioral_tx, consider,
  shared_transaction_count,
}
use blockchain_clustering.Heuristic.Change.{
  ChangeParams, any_hub, change, change_of, change_output, change_tx, keep_best,
  parse_change_params, score_change_candidate, touches_hub, was_respent_after,
}
use blockchain_clustering.Heuristic.ReadsOnly.{
  reads_config_for, reads_first_delta, reads_is_excluded, reads_is_new, reads_when_enabled,
}
use blockchain_clustering.Heuristic.Sweep.{
  SweepParams, cumulative_received, distinct_sources_to_target, emit_sweep, looks_like_sweep,
  parse_sweep_params, recurs, sweep, sweep_output, sweep_source, sweep_tx,
}
use blockchain_clustering.Merge.Laws.{ReadsOnly-is_hub}
use blockchain_clustering.Stores.SweepTargets

module _ {F : Type 0} where
  reads_consider :
      (tx : TxGroup) (confidence : F) (least : ℤ) (s : Seen F) (key : AccountPairKey)
      → ReadsOnly (consider tx confidence least s key)
  unfolding consider shared_transaction_count
  reads_consider tx confidence least (seen, candidates) key =
      reads_bind _ _ (reads_query _) (λ count. reads_if _ _ _ (reads_pure _) (
        reads_bind _ _ (ReadsOnly-is_hub tx.key.0 key.0) (λ hub_a.
          reads_bind _ _ (ReadsOnly-is_hub tx.key.0 key.1) (λ hub_b.
            reads_if _ _ _ (reads_pure _)
              (reads_bind _ _ (reads_first_delta tx) (λ first. reads_pure _))))))

  reads_behavioral_tx :
      (confidence : F) (least : ℤ) (s : Seen F) (tx : TxGroup)
      → ReadsOnly (behavioral_tx confidence least s tx)
  unfolding behavioral_tx behavioral_pair
  reads_behavioral_tx confidence least s tx =
      reads_fold _
        (λ (seen, candidates) key.
          reads_if _ _ _ (reads_pure _) (reads_consider tx confidence least _ key))
        s _

  pub behavioral-ReadsOnly : (deltas : List BalanceDelta) → ReadsOnly (behavioral {F = F} deltas)
  unfolding behavioral
  behavioral-ReadsOnly [] = reads_pure []
  behavioral-ReadsOnly (d ∷ ds) =
      reads_bind _ _ (reads_config_for d.chain_id "behavioral") (λ found.
        reads_when_enabled found _ (λ cfg.
          reads_bind _ _
            (reads_fold _ (reads_behavioral_tx cfg.confidence _) ([], []) (group_by_tx (d ∷ ds)))
            (λ s. reads_pure s.1)))

  reads_any_hub :
      (chain_id : String) (addresses : List String) → ReadsOnly (any_hub {F = F} chain_id addresses)
  unfolding any_hub
  reads_any_hub chain_id [] = reads_pure false
  reads_any_hub chain_id (a ∷ rest) =
      reads_bind _ _ (ReadsOnly-is_hub chain_id a)
        (λ hub. reads_if hub _ _ (reads_pure true) (reads_any_hub chain_id rest))

module _ {F : Type 0} ⦃fl : Float64 F⦄ where
  reads_score :
      (chain_id : String) (height : ℤ) (params : ChangeParams F) (out : ReceivedEntry)
      → ReadsOnly (score_change_candidate chain_id height params out)
  unfolding score_change_candidate was_respent_after
  reads_score chain_id height params out =
      reads_bind _ _ (reads_is_new chain_id out.address height)
        (λ is_new. reads_bind _ _ (reads_query _) (λ respent. reads_pure _))

  reads_change_output :
      (cfg : HeuristicConfig F) (tx : TxGroup) (candidates : List (MergeCandidate F))
      (spender : String) (outs : List ReceivedEntry)
      → ReadsOnly (change_output cfg tx candidates spender outs)
  unfolding change_output keep_best
  reads_change_output cfg tx candidates spender outs =
      reads_bind _ _ (reads_first_delta tx) (λ first.
        reads_bind _ _
          (reads_fold _
            (λ best out.
              reads_bind _ _
                (reads_score tx.key.0 first.block_height (parse_change_params cfg.params) out)
                (λ score. reads_pure _))
            none outs)
          (λ best.
            reads_option best _ _ (reads_pure candidates)
              (λ (out, score). reads_if _ _ _ (reads_pure candidates) (reads_pure _))))

  reads_change_of :
      (cfg : HeuristicConfig F) (tx : TxGroup) (candidates : List (MergeCandidate F))
      (ins : List String) (outs : List ReceivedEntry)
      → ReadsOnly (change_of cfg tx candidates ins outs)
  unfolding change_of touches_hub
  reads_change_of cfg tx candidates [] outs = reads_pure candidates
  reads_change_of cfg tx candidates (s ∷ ins) [] = reads_pure candidates
  reads_change_of cfg tx candidates (s ∷ ins) (o ∷ outs) =
      reads_bind _ _
        (reads_any_hub tx.key.0 ((s ∷ ins) ++ map (λ (x : ReceivedEntry). x.address) (o ∷ outs)))
        (λ hub.
          reads_if hub _ _ (reads_pure candidates)
            (reads_change_output cfg tx candidates s (o ∷ outs)))

  pub change-ReadsOnly : (deltas : List BalanceDelta) → ReadsOnly (change {F = F} deltas)
  unfolding change change_tx
  change-ReadsOnly [] = reads_pure []
  change-ReadsOnly (d ∷ ds) = reads_bind _ _ (reads_config_for d.chain_id "change") (λ found.
      reads_when_enabled found _ (λ cfg.
        reads_fold _
          (λ candidates tx. reads_bind _ _ (reads_is_excluded tx.key.0 tx.key.1) (λ excluded.
            reads_if excluded _ _ (reads_pure candidates) (reads_change_of cfg tx candidates _ _)))
          [] (group_by_tx (d ∷ ds))))

  reads_emit_sweep :
      (cfg : HeuristicConfig F) (tx : TxGroup) (out : ReceivedEntry) (target : SweepTarget F)
      (candidates : List (MergeCandidate F)) (src : String)
      → ReadsOnly (emit_sweep cfg tx out target candidates src)
  unfolding emit_sweep
  reads_emit_sweep cfg tx out target candidates src =
      reads_bind _ _ (reads_first_delta tx) (λ first. reads_pure _)

module _ {F : Type 0} ⦃fl : Float64 F⦄ (covers : ℤ → ℤ → F → Bool) where
  reads_looks_like_sweep :
      (chain_id : String) (deltas : List BalanceDelta) (src dst : String) (params : SweepParams F)
      → ReadsOnly (looks_like_sweep covers chain_id deltas src dst params)
  unfolding looks_like_sweep recurs cumulative_received distinct_sources_to_target
  reads_looks_like_sweep chain_id deltas src dst params =
      reads_if _ _ _
        (reads_bind _ _ (reads_query _) (λ received.
          reads_if _ _ _ (reads_bind _ _ (reads_query _) (λ n. reads_pure _)) (reads_pure false)))
        (reads_pure false)

  reads_sweep_source :
      (cfg : HeuristicConfig F) (tx : TxGroup) (out : ReceivedEntry) (target : SweepTarget F)
      (candidates : List (MergeCandidate F)) (src : String)
      → ReadsOnly (sweep_source covers cfg tx out target candidates src)
  unfolding sweep_source
  reads_sweep_source cfg tx out target candidates src = reads_if _ _ _ (reads_pure candidates) (
      reads_bind _ _
        (reads_looks_like_sweep tx.key.0 tx.deltas src out.address (parse_sweep_params cfg.params))
        (λ is_sweep.
          reads_if is_sweep _ _ (reads_emit_sweep cfg tx out target candidates src)
            (reads_pure candidates)))

  pub sweep-ReadsOnly : (deltas : List BalanceDelta) → ReadsOnly (sweep covers deltas)
  unfolding sweep sweep_tx sweep_output SweepTargets.get
  sweep-ReadsOnly [] = reads_pure []
  sweep-ReadsOnly (d ∷ ds) = reads_bind _ _ (reads_config_for d.chain_id "sweep-seed") (λ found.
      reads_when_enabled found _ (λ cfg.
        reads_fold _
          (λ candidates tx.
            reads_list (spent_addresses tx.deltas) _ _ (reads_pure candidates) (λ a ins.
              reads_fold _
                (λ cs out. reads_bind _ _ (reads_query _) (λ hit.
                  reads_option hit _ _ (reads_pure cs)
                    (λ target. reads_fold _ (reads_sweep_source cfg tx out target) cs (a ∷ ins))))
                candidates (received_entries tx.deltas)))
          [] (group_by_tx (d ∷ ds))))
