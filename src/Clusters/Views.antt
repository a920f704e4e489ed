-- ===== src/Clusters/Views.antt =====
-- blockchain_cluster/internal/cluster/store.go: what ClusterOf reads after RebuildFromEvidence.
use blockchain_clustering.Base.{
  ◌≡◌, refl, ap, ◌∙◌, inl, inr, ℕ, String, Bool, true, List, [], ◌∷◌, ◌++◌, Option, none, some,
  ◌==◌, ==_refl, string_eq, ◌&&◌, select, find_first, map, Bool-cases, Option-cases,
}
use blockchain_clustering.Base.Float.{Float64}
use blockchain_clustering.Clusters.{
  cluster_in, cluster_of, cluster_of_materialized, member_in, member_row, member_rows, off_chain,
  rebuild_from_evidence, threshold_epsilon,
}
use blockchain_clustering.Clusters.Rebuild.{Effect-rebuild, active_evidence, rebuilt}
use blockchain_clustering.Db.{Db, World, ok}
use blockchain_clustering.Db.Effects.{Effect, Effect-query}
use blockchain_clustering.Domain.{ClusterMembership}
use blockchain_clustering.Replay.{MapOrder, Member, Result, replay}

module _ {F : Type 0} where
  abbrev pub is_row : String → String → ClusterMembership F → Bool
  is_row chain_id address m = m.chain_id == chain_id && m.address == address

  abbrev pub of_row : Option (ClusterMembership F) → Option (String × F)
  of_row none = none
  of_row (some m) = some (m.cluster_id, m.membership_confidence)

  -- The rows of other chains are passed over.
  find-off_chain :
      (chain_id address : String) (old new : List (ClusterMembership F))
      → find_first
          (is_row chain_id address)
          (select (λ (m : ClusterMembership F). off_chain chain_id m.chain_id) old ++ new)
        ≡ find_first (is_row chain_id address) new
  find-off_chain chain_id address [] new = refl
  find-off_chain chain_id address (m ∷ old) new = elim (Bool-cases (m.chain_id == chain_id)) [
    | inl ours ↦ simp (ours) (find-off_chain chain_id address old new)
    | inr other ↦ simp (other) (find-off_chain chain_id address old new)
  ]

module _ {F : Type 0} ⦃fl : Float64 F⦄ (sha256 : String → List ℕ) (order : MapOrder F) where
  -- What the tables keep of a cluster and a confidence.
  abbrev pub as_stored : Option (String × F) → Option (String × F)
  as_stored none = none
  as_stored (some (cluster_id, confidence)) = some (cluster_id, fl.column confidence)

  find-member_row :
      (chain_id address cluster_id : String) (ms : List (Member F))
      (rest : List (ClusterMembership F))
      → of_row
          (find_first (is_row chain_id address) (map (member_row chain_id cluster_id) ms ++ rest))
        ≡ (elim (member_in sha256 order address ms) as (λ _. Option (String × F)) [
          | none ↦ of_row (find_first (is_row chain_id address) rest)
          | some c ↦ some (cluster_id, fl.column c)
        ])
  unfolding member_in
  find-member_row chain_id address cluster_id [] rest = refl
  find-member_row chain_id address cluster_id (m ∷ ms) rest =
      elim (Bool-cases (m.address == address)) [
        | inl here ↦ rw (==_refl chain_id, here) refl
        | inr there ↦
            rw (==_refl chain_id, there) (find-member_row chain_id address cluster_id ms rest)
      ]

  find-member_rows :
      (chain_id address : String) (rs : List (Result F))
      → of_row (find_first (is_row chain_id address) (member_rows chain_id rs))
        ≡ as_stored (cluster_in sha256 order address rs)
  unfolding member_rows cluster_in
  find-member_rows chain_id address [] = refl
  find-member_rows chain_id address (r ∷ rs) =
      find-member_row chain_id address r.cluster_id r.members (member_rows chain_id rs)
      ∙ elim (Option-cases (member_in sha256 order address r.members)) [
        | inl missing ↦ rw (missing, cluster_in) (find-member_rows chain_id address rs)
        | inr (c, here) ↦ rw (here, cluster_in) refl
      ]

  pub Effect-cluster_of_materialized :
      (chain_id address : String)
      → Effect
          (cluster_of_materialized {F = F} sha256 order chain_id address)
          (λ d. (of_row (find_first (is_row chain_id address) d.cluster_membership), d))
  unfolding cluster_of_materialized
  Effect-cluster_of_materialized chain_id address = Effect-query _

  pub rebuilt_row :
      (chain_id address : String) (d : Db F)
      → of_row (
          find_first (is_row chain_id address) (rebuilt sha256 order chain_id d).cluster_membership)
        ≡ as_stored (
            cluster_in sha256 order address
              (replay sha256 order (active_evidence sha256 order chain_id d)))
  rebuilt_row chain_id address d =
      ap of_row (find-off_chain chain_id address d.cluster_membership _)
      ∙ find-member_rows chain_id address _

  -- At a threshold of at most 1e-9, ClusterOf reads the tables, whose clusters of the chain a successful
  -- rebuild has made those of the replay of the active evidence: it finds the cluster that the replay
  -- gives an address, and the confidence rounded as the column keeps it, or none where the address is
  -- in no cluster of it.
  pub cluster_of_rebuilt :
      (chain_id address : String) (least : F) (w : World F) (found : Option (String × F))
      → fl.leb least (threshold_epsilon sha256 order) ≡ true
      → (rebuild_from_evidence sha256 order chain_id w).0 ≡ ok tt
      → (cluster_of sha256 order chain_id address least
          (rebuild_from_evidence sha256 order chain_id w).1).0
        ≡ ok found
      → found
        ≡ as_stored (
            cluster_in sha256 order address
              (replay sha256 order (active_evidence sha256 order chain_id w.db)))
  unfolding cluster_of
  cluster_of_rebuilt chain_id address least w found low fine read =
      let w' = (rebuild_from_evidence sha256 order chain_id w).1 in
      let row =
        (Effect-cluster_of_materialized chain_id address).on_success w' found (rw low at read) in
      let tables =
        ap (λ (p : Unit {0} × Db F). p.1)
          ((Effect-rebuild sha256 order chain_id).on_success w tt fine) in
      ap (λ (p : Option (String × F) × Db F). p.0) row
      ∙ ap (λ (d : Db F). of_row (find_first (is_row chain_id address) d.cluster_membership)) tables
      ∙ rebuilt_row chain_id address w.db
