-- ===== src/Clusters/Rebuild.antt =====
-- blockchain_cluster/internal/cluster/store.go: what RebuildFromEvidence leaves in the tables.
use blockchain_clustering.Base.{
  ◌≡◌, ap, ◌∙◌, sym, ◌⊎◌, inl, inr, ℕ, String, List, [], ◌∷◌, ◌++◌, select, map,
}
use mathlib.Core.List.{append_assoc, append-nil}
use blockchain_clustering.Base.Float.{Float64}
use blockchain_clustering.Clusters.{
  clear_clusters, clear_membership, cluster_row, copy_members, insert_cluster, member_rows,
  off_chain, rebuild_from_evidence, replace_chain,
}
use blockchain_clustering.Db.{Db, World, Error, err}
use blockchain_clustering.Db.Effects.{
  Effect, Effect-same, Effect-bind, Effect-exec, Effect-fold, Effect-pure, Effect-query,
  Effect-time_now, Effect-transaction, fold_db,
}
use blockchain_clustering.Db.Atomic.{
  Atomic, Atomic-after, Atomic-transaction, Result-cases, Steady-same,
}
use blockchain_clustering.Db.Respects.{Respects-query}
use blockchain_clustering.Domain.{Cluster, ClusterMembership, MergeEvidence}
use blockchain_clustering.Replay.{MapOrder, Result as ReplayResult, replay}
use blockchain_clustering.Stores.Evidence.{active_on, order_by_op, scan_active}

module _ {F : Type 0} ⦃fl : Float64 F⦄ where
  -- The tables with the clusters of a chain put in place of the old ones: every confidence is rounded
  -- as the column keeps it.
  abbrev pub with_clusters : String → List (ReplayResult F) → Db F → Db F
  with_clusters chain_id results db = record db {
    cluster =
        select (λ (c : Cluster F). off_chain chain_id c.chain_id) db.cluster
        ++ map (cluster_row chain_id db.now) results;
    cluster_membership =
        select (λ (m : ClusterMembership F). off_chain chain_id m.chain_id) db.cluster_membership
        ++ member_rows chain_id results;
  }

  Effect-copy_members :
      (ms : List (ClusterMembership F))
      → Effect
          (copy_members ms)
          (λ d. (tt, record d { cluster_membership = d.cluster_membership ++ ms }))
  unfolding copy_members
  Effect-copy_members [] = Effect-same (Effect-pure tt) (λ d.
      ap (λ rows. (tt, record d { cluster_membership = rows }))
        (sym (append-nil d.cluster_membership)))
  Effect-copy_members (m ∷ ms) = Effect-exec _

  insert_clusters_lem :
      (chain_id : String) (now : ℕ) (results : List (ReplayResult F)) (d : Db F)
      → fold_db {F = F}
          (λ (_ : Unit {0}) r d'.
            (tt, record d' { cluster = d'.cluster ++ cluster_row chain_id now r ∷ [] }))
          tt
          results
          d
        ≡ (tt, record d { cluster = d.cluster ++ map (cluster_row chain_id now) results })
  insert_clusters_lem chain_id now [] d =
      ap (λ rows. (tt, record d { cluster = rows })) (sym (append-nil d.cluster))
  insert_clusters_lem chain_id now (r ∷ rs) d =
      insert_clusters_lem chain_id now rs
        (record d { cluster = d.cluster ++ cluster_row chain_id now r ∷ [] })
      ∙ ap (λ rows. (tt, record d { cluster = rows }))
          (append_assoc d.cluster (cluster_row chain_id now r ∷ [])
            (map (cluster_row chain_id now) rs))

  Effect-replace_chain :
      (chain_id : String) (results : List (ReplayResult F))
      → Effect (replace_chain chain_id results) (λ d. (tt, with_clusters chain_id results d))
  unfolding replace_chain clear_membership clear_clusters insert_cluster
  Effect-replace_chain chain_id results =
      Effect-same
        (Effect-bind _ _ _ _ (Effect-exec _) (λ _. Effect-bind _ _ _ _ (Effect-exec _) (λ _.
          Effect-bind _ _ _ _ Effect-time_now (λ now.
            Effect-bind _ _ _ _
              (Effect-fold _ _
                (λ _ r.
                  Effect-exec
                    (λ d. record d { cluster = d.cluster ++ cluster_row chain_id now r ∷ [] }))
                tt results)
              (λ _. Effect-copy_members (member_rows chain_id results))))))
        (λ d.
          ap
            (λ (p : Unit {0} × Db F). (
              tt,
              record p.1 {
                cluster_membership = p.1.cluster_membership ++ member_rows chain_id results;
              },
            ))
            (insert_clusters_lem chain_id d.now results _))

module _ {F : Type 0} ⦃fl : Float64 F⦄ (sha256 : String → List ℕ) (order : MapOrder F) where
  abbrev pub active_evidence : String → Db F → List (MergeEvidence F)
  active_evidence chain_id d = order_by_op (select (active_on chain_id) d.merge_evidence)

  -- The tables with the clusters of a chain as the replay of its active evidence gives them.
  abbrev pub rebuilt : String → Db F → Db F
  rebuilt chain_id d = with_clusters chain_id (replay sha256 order (active_evidence chain_id d)) d

  pub Effect-rebuild :
      (chain_id : String)
      → Effect (rebuild_from_evidence sha256 order chain_id) (λ d. (tt, rebuilt chain_id d))
  unfolding rebuild_from_evidence scan_active
  Effect-rebuild chain_id = Effect-bind _ _ _ _ (Effect-query (active_evidence chain_id)) (λ active.
      Effect-transaction _ _ (Effect-replace_chain chain_id (replay sha256 order active)))

  Atomic-rebuild : (chain_id : String) → Atomic (rebuild_from_evidence sha256 order chain_id)
  unfolding rebuild_from_evidence scan_active
  Atomic-rebuild chain_id =
      Atomic-after _ _ (Respects-query Steady-same (active_evidence chain_id))
        (λ active. Atomic-transaction (replace_chain chain_id (replay sha256 order active)))

  -- A rebuild puts the replay of the active evidence of the chain, its confidences rounded to three
  -- decimals, in place of the chain's clusters and members, and changes nothing else; or it fails, and
  -- then the tables are as they were.
  pub rebuild_atomic :
      (chain_id : String) (w : World F)
      → ((rebuild_from_evidence sha256 order chain_id w).1.db ≡ rebuilt chain_id w.db)
        ⊎ (((e : Error) × ((rebuild_from_evidence sha256 order chain_id w).0 ≡ err e))
            × ((rebuild_from_evidence sha256 order chain_id w).1.db ≡ w.db))
  rebuild_atomic chain_id w =
      elim (Result-cases (rebuild_from_evidence sha256 order chain_id w).0) [
        | inl (a, fine) ↦
            inl (ap (λ (p : Unit {0} × Db F). p.1) ((Effect-rebuild chain_id).on_success w a fine))
        | inr (e, broken) ↦ inr ((e, broken), (Atomic-rebuild chain_id).on_failure w e broken)
      ]
