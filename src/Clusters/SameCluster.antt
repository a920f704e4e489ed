-- ===== src/Clusters/SameCluster.antt =====
-- blockchain_cluster/internal/cluster/store.go: what SameCluster answers after RebuildFromEvidence.
use blockchain_clustering.Base.{
  ◌≡◌, refl, ap, ◌∙◌, sym, subst, ◌↔◌, inl, inr, ℕ, String, Bool, true, false, List, Option, none,
  some, ◌==◌, ==_iff, string_eq, find_first, Memᴰ, Bool-cases, Option-cases,
}
use blockchain_clustering.Base.Float.{Float64, float}
use blockchain_clustering.Clusters.{
  cluster_in, cluster_of, compare_clusters, rebuild_from_evidence, same_cluster, threshold_epsilon,
}
use blockchain_clustering.Clusters.Rebuild.{Effect-rebuild, active_evidence, rebuilt}
use blockchain_clustering.Clusters.Together.{
  cluster_in_complete, same_id-Together, Together-same_id,
}
use blockchain_clustering.Clusters.Views.{
  as_stored, Effect-cluster_of_materialized, is_row, of_row, rebuilt_row,
}
use blockchain_clustering.Db.{Db, Exec, World, ok, pure, ◌>>=◌}
use blockchain_clustering.Db.Effects.{Effect, Effect-bind, Effect-pure}
use blockchain_clustering.Domain.{MergeEvidence}
use blockchain_clustering.Replay.{MapOrder, derive_cluster_id, replay}
use blockchain_clustering.Replay.Clusters.{replay_components}
use blockchain_clustering.Replay.Gather.{ends, evidence_edges}
use blockchain_clustering.UnionFind.Connected.{Connected}

module _ {F : Type 0} ⦃fl : Float64 F⦄ (sha256 : String → List ℕ) (order : MapOrder F) where
  abbrev looked : String → Db F → String → Option (String × F)
  looked chain_id d address = of_row (find_first (is_row chain_id address) d.cluster_membership)

  -- The answer for what is found of the two addresses.
  abbrev same_of : Option (String × F) → Option (String × F) → Bool × F
  same_of none found_b = (false, float 0)
  same_of (some ca) none = (false, float 0)
  same_of (some ca) (some cb) = compare_clusters sha256 order ca cb

  module _ (chain_id : String) (least : F)
      (low : fl.leb least (threshold_epsilon sha256 order) ≡ true) where
    Effect-cluster_of :
        (address : String)
        → Effect
            (cluster_of sha256 order chain_id address least)
            (λ d. (looked chain_id d address, d))
    unfolding cluster_of
    Effect-cluster_of address =
        rw low (Effect-cluster_of_materialized sha256 order chain_id address)

    Effect-second :
        (b : String) (ca : String × F) (found_b : Option (String × F))
        → Effect
            (elim found_b as (λ _. Exec F (Bool × F)) [
              | none ↦ pure (false, float 0)
              | some cb ↦ pure (compare_clusters sha256 order ca cb)
            ])
            (λ d. (same_of (some ca) found_b, d))
    Effect-second b ca none = Effect-pure _
    Effect-second b ca (some cb) = Effect-pure _

    Effect-first :
        (b : String) (found_a : Option (String × F))
        → Effect
            (elim found_a as (λ _. Exec F (Bool × F)) [
              | none ↦ pure (false, float 0)
              | some ca ↦ (do
                found_b ← cluster_of sha256 order chain_id b least
                elim found_b as (λ _. Exec F (Bool × F)) [
                  | none ↦ pure (false, float 0)
                  | some cb ↦ pure (compare_clusters sha256 order ca cb)
                ])
            ])
            (λ d. (same_of found_a (looked chain_id d b), d))
    Effect-first b none = Effect-pure _
    Effect-first b (some ca) = Effect-bind _ _ _ _ (Effect-cluster_of b) (Effect-second b ca)

    Effect-same_cluster :
        (a b : String)
        → Effect
            (same_cluster sha256 order chain_id a b least)
            (λ d. (same_of (looked chain_id d a) (looked chain_id d b), d))
    unfolding same_cluster
    Effect-same_cluster a b = Effect-bind _ _ _ _ (Effect-cluster_of a) (Effect-first b)

  compare_lem :
      (ia ib : String) (ca cb : F)
      → (compare_clusters sha256 order (ia, ca) (ib, cb)).0 ≡ (ia == ib)
  compare_lem ia ib ca cb = elim (Bool-cases (ia == ib)) [
    | inr apart ↦ rw apart refl
    | inl same ↦ elim (Bool-cases (fl.ltb ca cb)) [
      | inl less ↦ rw (same, less) refl
      | inr more ↦ rw (same, more) refl
    ]
  ]

  -- Rounding the confidences does not change whether the clusters are the same.
  same_of-as_stored :
      (x y : Option (String × F))
      → (same_of (as_stored sha256 order x) (as_stored sha256 order y)).0 ≡ (same_of x y).0
  same_of-as_stored none y = refl
  same_of-as_stored (some x) none = refl
  same_of-as_stored (some (ia, ca)) (some (ib, cb)) =
      compare_lem ia ib (fl.column ca) (fl.column cb) ∙ sym (compare_lem ia ib ca cb)

  abbrev found : List (MergeEvidence F) → String → Option (String × F)
  found es a = cluster_in sha256 order a (replay sha256 order es)

  module _ (es : List (MergeEvidence F))
      (injective : (x y : String)
        → Memᴰ x (ends (evidence_edges es))
        → Memᴰ y (ends (evidence_edges es))
        → derive_cluster_id sha256 x ≡ derive_cluster_id sha256 y
        → x ≡ y) where
    same_of-Connected :
        (a b : String)
        → ((same_of (found es a) (found es b)).0 ≡ true)
          ↔ (Memᴰ a (ends (evidence_edges es)) × Connected (evidence_edges es) a b)
    same_of-Connected a b = elim (Option-cases (found es a)) [
      | inl no_a ↦ rw no_a (
        λ e. absurd (cc (e)),
        λ c.
            let (r, m, ka, kb) = (replay_components sha256 order es a b).1 c in
            absurd (cluster_in_complete sha256 order a _ r m ka no_a),
      )
      | inr ((ia, ca), at_a) ↦ elim (Option-cases (found es b)) [
        | inl no_b ↦
            rw (at_a, no_b)
              (
                λ e. absurd (cc (e)),
                λ c.
                    let (r, m, ka, kb) = (replay_components sha256 order es a b).1 c in
                    absurd (cluster_in_complete sha256 order b _ r m kb no_b),
              )
        | inr ((ib, cb), at_b) ↦
            rw (at_a, at_b, compare_lem ia ib ca cb)
              (
                λ e.
                    let same = (==_iff ia ib).0 e in
                    (replay_components sha256 order es a b).0
                      (same_id-Together sha256 order es injective a b ia ca cb at_a (rw same at_b)),
                λ c. (==_iff ia ib).1 (
                    Together-same_id sha256 order es injective a b ia ib ca cb
                      ((replay_components sha256 order es a b).1 c) at_a at_b),
              )
      ]
    ]

  -- Where different addresses of the evidence give different cluster ids, SameCluster answers after a
  -- successful rebuild, at a threshold of at most 1e-9, that two addresses are in one cluster exactly
  -- when the first occurs in the active evidence of the chain and a path of it joins the two.
  pub same_cluster-Connected :
      (chain_id a b : String) (least : F) (w : World F) (same : Bool) (confidence : F)
      → ((x y : String)
          → Memᴰ x (ends (evidence_edges (active_evidence sha256 order chain_id w.db)))
          → Memᴰ y (ends (evidence_edges (active_evidence sha256 order chain_id w.db)))
          → derive_cluster_id sha256 x ≡ derive_cluster_id sha256 y
          → x ≡ y)
      → fl.leb least (threshold_epsilon sha256 order) ≡ true
      → (rebuild_from_evidence sha256 order chain_id w).0 ≡ ok tt
      → (same_cluster sha256 order chain_id a b least
          (rebuild_from_evidence sha256 order chain_id w).1).0
        ≡ ok (same, confidence)
      → (same ≡ true) ↔ (
          Memᴰ a (ends (evidence_edges (active_evidence sha256 order chain_id w.db)))
          × Connected (evidence_edges (active_evidence sha256 order chain_id w.db)) a b)
  same_cluster-Connected chain_id a b least w same confidence injective low fine read =
      let w' = (rebuild_from_evidence sha256 order chain_id w).1 in
      let tables =
        ap (λ (p : Unit {0} × Db F). p.1)
          ((Effect-rebuild sha256 order chain_id).on_success w tt fine) in
      let answer : same
          ≡ (same_of (found (active_evidence sha256 order chain_id w.db) a)
              (found (active_evidence sha256 order chain_id w.db) b)).0 =
        ap (λ (p : (Bool × F) × Db F). p.0.0)
          ((Effect-same_cluster chain_id least low a b).on_success w' (same, confidence) read)
        ∙ ap (λ (d : Db F). (same_of (looked chain_id d a) (looked chain_id d b)).0) tables
        ∙ ap (λ x. (same_of x (looked chain_id (rebuilt sha256 order chain_id w.db) b)).0)
            (rebuilt_row sha256 order chain_id a w.db)
        ∙ ap
            (λ y.
              (same_of
                (as_stored sha256 order (found (active_evidence sha256 order chain_id w.db) a))
                y).0)
            (rebuilt_row sha256 order chain_id b w.db)
        ∙ same_of-as_stored (found (active_evidence sha256 order chain_id w.db) a)
            (found (active_evidence sha256 order chain_id w.db) b) in
      subst
        (λ x. (x ≡ true) ↔ (
          Memᴰ a (ends (evidence_edges (active_evidence sha256 order chain_id w.db)))
          × Connected (evidence_edges (active_evidence sha256 order chain_id w.db)) a b))
        (sym answer) (same_of-Connected (active_evidence sha256 order chain_id w.db) injective a b)
