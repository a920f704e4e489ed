-- ===== src/Clusters.antt =====
-- blockchain_cluster/internal/cluster/store.go: the materialised clusters of a chain, rebuilt from its
-- evidence in one transaction, and the views on them. `sha256` and `order`, how Go ranges over maps,
-- are those of `Replay`; `collate` is the database's order of text.
pub mod Rebuild
pub mod Views
pub mod Together
pub mod SameCluster
use blockchain_clustering.Base.{
  ℕ, String, Bool, true, false, List, [], ◌∷◌, ◌++◌, Option, none, some, ◌==◌, string_eq,
  if◌then◌else◌, ◌&&◌, select, find_first, string_leb, map, take, drop, length, leb, ltb,
}
use blockchain_clustering.Base.Int.{ℤ, pos, negsuc}
use blockchain_clustering.Base.Float.{Float64, float}
use blockchain_clustering.Domain.{MergeEvidence, Cluster, ClusterMembership}
use blockchain_clustering.Db.{
  Db, Exec, query, exec, pure, fail, fold_m, time_now, transaction, ◌>>=◌, ◌>>◌, database, panicked,
}
use blockchain_clustering.Replay.{MapOrder, Member, Result, replay}
use blockchain_clustering.Stores.Evidence.{scan_active}

-- ORDER BY and `sort.Strings`
unfoldable pub insert_string : (String → String → Bool) → String → List String → List String
insert_string before s [] = s ∷ []
insert_string before s (x ∷ xs) =
    let rest = insert_string before s xs in if before s x then s ∷ x ∷ xs else x ∷ rest

unfoldable pub sort_strings : (String → String → Bool) → List String → List String
unfolding insert_string
sort_strings before [] = []
sort_strings before (s ∷ ss) = insert_string before s (sort_strings before ss)

-- `addrs[offset:end]` with the bounds that MembersOf computes; a negative offset panics.
unfoldable pub page : ℤ → ℤ → List String → Option (List String)
page limit (negsuc _) addrs = none
page (pos n) (pos m) addrs =
    if leb (length addrs) m
    then some []
    else if ltb 0 n
    then some (take n (drop m addrs))
    else some (drop m addrs)
page (negsuc _) (pos m) addrs = if leb (length addrs) m then some [] else some (drop m addrs)

-- LIMIT and OFFSET, which the server refuses where negative
unfoldable pub sql_page : ℤ → ℤ → List String → Option (List String)
sql_page (pos n) (pos m) addrs = some (take n (drop m addrs))
sql_page _ _ addrs = none

abbrev pub off_chain : String → String → Bool
off_chain chain_id c = if c == chain_id then false else true

module _ {F : Type 0} ⦃fl : Float64 F⦄ where
  abbrev pub cluster_row : String → ℕ → Result F → Cluster F
  cluster_row chain_id now r = record {
    chain_id = chain_id;
    cluster_id = r.cluster_id;
    size = r.size;
    entity_type = "unknown";
    representative_confidence = fl.column r.representative_confidence;
    updated_at = now;
  }

  abbrev pub member_row : String → String → Member F → ClusterMembership F
  member_row chain_id cluster_id m = record {
    chain_id = chain_id;
    address = m.address;
    cluster_id = cluster_id;
    membership_confidence = fl.column m.confidence;
  }

  unfoldable pub member_rows : String → List (Result F) → List (ClusterMembership F)
  member_rows chain_id [] = []
  member_rows chain_id (r ∷ rs) =
      map (member_row chain_id r.cluster_id) r.members ++ member_rows chain_id rs

  unfoldable pub clear_membership : String → Exec F (Unit {0})
  clear_membership chain_id = exec (λ db. record db {
    cluster_membership =
        select (λ (m : ClusterMembership F). off_chain chain_id m.chain_id) db.cluster_membership;
  })

  unfoldable pub clear_clusters : String → Exec F (Unit {0})
  clear_clusters chain_id = exec (λ db. record db {
    cluster = select (λ (c : Cluster F). off_chain chain_id c.chain_id) db.cluster;
  })

  unfoldable pub insert_cluster : String → ℕ → Unit {0} → Result F → Exec F (Unit {0})
  insert_cluster chain_id now _ r =
      exec (λ db. record db { cluster = db.cluster ++ cluster_row chain_id now r ∷ [] })

  unfoldable pub copy_members : List (ClusterMembership F) → Exec F (Unit {0})
  copy_members [] = pure tt
  copy_members (m ∷ ms) =
      exec (λ db. record db { cluster_membership = db.cluster_membership ++ m ∷ ms })

  -- The body of the transaction.
  unfoldable pub replace_chain : String → List (Result F) → Exec F (Unit {0})
  replace_chain chain_id results = do
    clear_membership chain_id
    clear_clusters chain_id
    now ← time_now
    fold_m (insert_cluster chain_id now) tt results
    copy_members (member_rows chain_id results)

module _ {F : Type 0} ⦃fl : Float64 F⦄ (sha256 : String → List ℕ) (order : MapOrder F) where
  unfoldable pub rebuild_from_evidence : String → Exec F (Unit {0})
  rebuild_from_evidence chain_id = do
    active ← scan_active chain_id
    transaction (replace_chain chain_id (replay sha256 order active))

  abbrev pub at_least : F → MergeEvidence F → Bool
  at_least min_confidence e = fl.leb min_confidence e.confidence

  unfoldable pub threshold_view : String → F → Exec F (List (Result F))
  threshold_view chain_id min_confidence = do
    active ← scan_active chain_id
    pure (replay sha256 order (select (at_least min_confidence) active))

  -- The cluster and the confidence of an address among results.
  unfoldable pub member_in : String → List (Member F) → Option F
  member_in address [] = none
  member_in address (m ∷ ms) =
      if m.address == address then some m.confidence else member_in address ms

  unfoldable pub cluster_in : String → List (Result F) → Option (String × F)
  unfolding member_in
  cluster_in address [] = none
  cluster_in address (r ∷ rs) = elim (member_in address r.members) [
    | none ↦ cluster_in address rs
    | some c ↦ some (r.cluster_id, c)
  ]

  abbrev pub threshold_epsilon : F
  threshold_epsilon = fl.decimal 1 9

  unfoldable pub cluster_of_materialized : String → String → Exec F (Option (String × F))
  cluster_of_materialized chain_id address = query (λ db.
      elim (find_first (λ (m : ClusterMembership F). m.chain_id == chain_id && m.address == address)
        db.cluster_membership) [
          | none ↦ none
          | some m ↦ some (m.cluster_id, m.membership_confidence)
        ])

  -- `none` is found = false.
  unfoldable pub cluster_of : String → String → F → Exec F (Option (String × F))
  cluster_of chain_id address min_confidence =
      if fl.leb min_confidence threshold_epsilon
      then cluster_of_materialized chain_id address
      else (do results ← threshold_view chain_id min_confidence; pure (cluster_in address results))

  abbrev pub addresses_of : String → List (Result F) → List String
  addresses_of cluster_id results =
      elim (find_first (λ (r : Result F). r.cluster_id == cluster_id) results) [
        | none ↦ []
        | some r ↦ map (λ (m : Member F). m.address) r.members
      ]

  unfoldable pub members_of :
      (String → String → Bool) → String → String → F → ℤ → ℤ → Exec F (List String)
  members_of collate chain_id cluster_id min_confidence limit offset =
      if fl.leb min_confidence threshold_epsilon
      then (do
        found ← query (λ db. sql_page limit offset (
            sort_strings collate (
              map (λ (m : ClusterMembership F). m.address)
                (select
                  (λ (m : ClusterMembership F).
                    m.chain_id == chain_id && m.cluster_id == cluster_id)
                  db.cluster_membership))))
        elim found as (λ _. Exec F (List String)) [ none ↦ fail database | some out ↦ pure out ])
      else (do
        results ← threshold_view chain_id min_confidence
        elim (page limit offset (sort_strings string_leb (addresses_of cluster_id results)))
            as (λ _. Exec F (List String)) [ none ↦ fail panicked | some out ↦ pure out ])

  -- Whether they are in one cluster, and the lower confidence.
  abbrev pub compare_clusters : String × F → String × F → Bool × F
  compare_clusters (cluster_a, conf_a) (cluster_b, conf_b) =
      if cluster_a == cluster_b
      then (if fl.ltb conf_a conf_b then (true, conf_a) else (true, conf_b))
      else (false, float 0)

  unfoldable pub same_cluster : String → String → String → F → Exec F (Bool × F)
  same_cluster chain_id a b min_confidence = do
    found_a ← cluster_of chain_id a min_confidence
    elim found_a as (λ _. Exec F (Bool × F)) [
      | none ↦ pure (false, float 0)
      | some ca ↦ (do
        found_b ← cluster_of chain_id b min_confidence
        elim found_b as (λ _. Exec F (Bool × F)) [
          | none ↦ pure (false, float 0)
          | some cb ↦ pure (compare_clusters ca cb)
        ])
    ]
