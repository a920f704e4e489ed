-- ===== src/Reorg/Exact.antt =====
-- blockchain_cluster/internal/reorg/handler.go: what OnReorg leaves in the tables.
use blockchain_clustering.Base.{
  length, ◌+◌, not, arith, ==_iff, ◌≡◌, refl, ap, ◌∙◌, sym, subst, inl, inr, ℕ, String, true, false,
  List, ◌∷◌, ◌++◌, ◌==◌, nat_eq, if◌then◌else◌, Bool-cases, any, select, update_where,
}
use blockchain_clustering.Base.Float.{Float64}
use blockchain_clustering.Base.Keyed.{any-select}
use blockchain_clustering.Clusters.{member_rows, off_chain}
use blockchain_clustering.Clusters.Rebuild.{Effect-rebuild, active_evidence, rebuilt}
use blockchain_clustering.Db.{Db, World, ok}
use blockchain_clustering.Db.Effects.{
  Effect, Effect-bind, Effect-fold, Effect-if, Effect-pure, Effect-query, fold_db,
}
use blockchain_clustering.Domain.{ClusterMembership}
use blockchain_clustering.Reorg.{on_reorg, rebuild_if}
use blockchain_clustering.Reorg.Counted.{
  Effect-invalidate_step, fold_counts, fold_evidence, fold_logs, step_db,
}
use blockchain_clustering.Reorg.Struck.{anchored_rows, UniqueOps, rolled_back, strike_all_exact}
use blockchain_clustering.Replay.{MapOrder, replay}
use blockchain_clustering.Stores.Evidence.{anchored_in, by_block_hash, is_active, strike}

module _ {F : Type 0} ⦃fl : Float64 F⦄ (sha256 : String → List ℕ) (order : MapOrder F) where
  abbrev finished : String → ℕ → Db F → ℕ × Db F
  finished chain_id count d =
      if count == 0 then (0, d) else (count, rebuilt sha256 order chain_id d)

  Effect-rebuild_if :
      (chain_id : String) (count : ℕ)
      → Effect (rebuild_if sha256 order chain_id count) (finished chain_id count)
  unfolding rebuild_if
  Effect-rebuild_if chain_id count =
      Effect-if _ _ _ _ _ (Effect-pure 0)
        (Effect-bind _ _ _ _ (Effect-rebuild sha256 order chain_id) (λ _. Effect-pure count))

  abbrev reorged : String → List String → Db F → ℕ × Db F
  reorged chain_id hashes d =
      let (count, d') =
        fold_db (step_db chain_id) 0 (select (anchored_in chain_id hashes) d.merge_evidence) d in
      finished chain_id count d'

  Effect-on_reorg :
      (chain_id h : String) (hs : List String)
      → Effect (on_reorg sha256 order chain_id (h ∷ hs)) (reorged chain_id (h ∷ hs))
  unfolding on_reorg by_block_hash
  Effect-on_reorg chain_id h hs = Effect-bind _ _ _ _ (Effect-query _) (λ candidates.
      Effect-bind _ _ _ _ (Effect-fold _ _ (Effect-invalidate_step chain_id) 0 candidates)
        (Effect-rebuild_if chain_id))

  -- The members of the chain's clusters after a rollback: the replay of the evidence that is left,
  -- unless no row was struck.
  abbrev pub members_after : String → List String → Db F → Db F → List (ClusterMembership F)
  members_after chain_id hashes before after =
      if any (rolled_back chain_id hashes) before.merge_evidence
      then select (λ (m : ClusterMembership F). off_chain chain_id m.chain_id)
          before.cluster_membership
        ++ member_rows chain_id (replay sha256 order (active_evidence sha256 order chain_id after))
      else before.cluster_membership

  -- The count and the tables after a rollback, against the tables before.
  pub record IsRolledBack (chain_id : String) (hashes : List String) (before : Db F) (count : ℕ)
      (after : Db F) : Type 0 where
    pub struck :
        after.merge_evidence
        ≡ update_where (rolled_back chain_id hashes) (strike "reorg") before.merge_evidence
    pub logged : length after.audit_log ≡ length before.audit_log + count
    pub counted : (count == 0) ≡ not (any (rolled_back chain_id hashes) before.merge_evidence)
    pub members : after.cluster_membership ≡ members_after chain_id hashes before after

  finished_exact :
      (chain_id : String) (hashes : List String) (n : ℕ) (before d : Db F)
      → IsRolledBack chain_id hashes before n
          (record d { cluster_membership = members_after chain_id hashes before d })
      → d.cluster_membership ≡ before.cluster_membership
      → IsRolledBack chain_id hashes before (finished chain_id n d).0 (finished chain_id n d).1
  finished_exact chain_id hashes n before d h same = elim (Bool-cases (n == 0)) [
    | inl zero ↦
        let nothing : any (rolled_back chain_id hashes) before.merge_evidence ≡ false =
          ground (arith, h.counted) in
        rw zero (record {
          struck = h.struck;
          logged = h.logged ∙ ap (λ k. length before.audit_log + k) ((==_iff n 0).0 zero);
          counted = rw nothing refl;
          members = rw nothing same;
        })
    | inr some_struck ↦
        let found : any (rolled_back chain_id hashes) before.merge_evidence ≡ true =
          ground (arith, h.counted) in
        rw some_struck (record {
          struck = h.struck;
          logged = h.logged;
          counted = h.counted;
          members = rw found (
              ap
                (λ ms.
                  select (λ (m : ClusterMembership F). off_chain chain_id m.chain_id) ms
                  ++ member_rows chain_id
                      (replay sha256 order (active_evidence sha256 order chain_id d)))
                same);
        })
  ]

  -- Where the op ids of a chain are unique and no call fails, a rollback of at least one block strikes
  -- exactly the rows of the evidence that are active and anchored in a block that was rolled back, and
  -- leaves every other row as it was. It logs as many entries as it counts, and counts none exactly
  -- where there was no such row; then the members of clusters stay as they were, and else those of the
  -- chain are the replay of the evidence that is left, with confidences rounded to three decimals.
  pub on_reorg_exact :
      (chain_id h : String) (hs : List String) (w : World F) (count : ℕ)
      → UniqueOps chain_id w.db.merge_evidence
      → (on_reorg sha256 order chain_id (h ∷ hs) w).0 ≡ ok count
      → IsRolledBack chain_id (h ∷ hs) w.db count (on_reorg sha256 order chain_id (h ∷ hs) w).1.db
  on_reorg_exact chain_id h hs w count unique fine =
      let hashes = h ∷ hs in
      let candidates = select (anchored_in chain_id hashes) w.db.merge_evidence in
      let (n, d) = fold_db (step_db chain_id) 0 candidates w.db in
      let (rows, members) = fold_evidence chain_id candidates 0 w.db in
      subst (λ (p : ℕ × Db F). IsRolledBack chain_id hashes w.db p.0 p.1)
        (sym ((Effect-on_reorg chain_id h hs).on_success w count fine))
        (finished_exact chain_id hashes n w.db d
          (record {
            struck = rows ∙ strike_all_exact chain_id hashes w.db.merge_evidence unique;
            logged = omega (arith, (fold_logs chain_id candidates 0 w.db).0);
            counted =
                fold_counts chain_id candidates w.db
                  (anchored_rows chain_id hashes w.db.merge_evidence)
                ∙ ap not (any-select (anchored_in chain_id hashes) is_active w.db.merge_evidence);
            members = refl;
          })
          members)
