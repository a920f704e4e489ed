-- ===== src/Tests/Serving.antt =====
-- A rebuild, and what the query service reads of it.
use Prim.Native.Char.{code}
use mathlib.Core.List.Memᴰ
use blockchain_clustering.Base.{
  ◌≡◌, ◌↔◌, ◌∙◌, refl, sym, inl, inr, ℕ, String, Bool, true, List, [], ◌∷◌, Option, none, some,
  Memᴰ, Memᴰ-cons, string_leb, ap, ==_iff, string_eq, arith,
}
use blockchain_clustering.Base.Float.{milli}
use blockchain_clustering.Base.GoMap
use blockchain_clustering.Clusters.{
  clear_clusters, clear_membership, cluster_in, cluster_of, cluster_of_materialized, copy_members,
  insert_cluster, member_rows, rebuild_from_evidence, replace_chain, same_cluster,
  threshold_epsilon,
}
use blockchain_clustering.Clusters.Rebuild.{active_evidence}
use blockchain_clustering.Clusters.SameCluster.{same_cluster-Connected}
use blockchain_clustering.Clusters.Views.{as_stored, cluster_of_rebuilt}
use blockchain_clustering.Db.{
  World, ok, query, statement, ◌>>=◌, fold_m, exec, pure, transaction, time_now,
}
use blockchain_clustering.Domain.{MergeEvidence}
use blockchain_clustering.Metrics.{active_keys, active_metric, collect as scrape, occurrences}
use blockchain_clustering.Metrics.Counts.{collect_lem, enabled_chains, quiet}
use blockchain_clustering.QueryService.{Request, cluster_endpoint, handle}
use blockchain_clustering.QueryService.Reads.{IsReader, handle-IsReader}
use blockchain_clustering.Replay.{
  anchor_of, build_result, collect, combined_edges, components, confidences, derive_cluster_id,
  earlier, gather, insert_edge, noisy_or, normalize_pair, observe, observe_pair, push_edge,
  record_source, replay, sort_edges, source_key, touch, unite, unite_all, visit, walk,
}
use blockchain_clustering.Replay.Gather.{ends, evidence_edges}
use blockchain_clustering.Stores.Evidence.{order_by_op, scan_active}
use blockchain_clustering.Tests.Samples.{as_inserted, evidence, with_evidence}
use blockchain_clustering.UnionFind.{
  bump_rank, find, find_within, link, register, set_parent, union,
}
use blockchain_clustering.UnionFind.Connected.{Connected}

-- A digest by the first character.
abbrev first_code : String → List ℕ
first_code String.[] = []
first_code (String.◌∷◌ c s) = code c ∷ []

abbrev pair : List (MergeEvidence ℕ)
pair = evidence 0 "a" "b" "h1" ∷ []

abbrev IdsDiffer : Type 0
IdsDiffer =
    (x y : String)
    → Memᴰ x (
        ends
          (evidence_edges (active_evidence first_code as_inserted "btc" (with_evidence pair).db)))
    → Memᴰ y (
        ends
          (evidence_edges (active_evidence first_code as_inserted "btc" (with_evidence pair).db)))
    → derive_cluster_id first_code x ≡ derive_cluster_id first_code y
    → x ≡ y

id_a_not_b : ¬ (derive_cluster_id first_code "a" ≡ derive_cluster_id first_code "b")
unfolding derive_cluster_id
id_a_not_b e =
    let same : ◌≡◌ {A = String} "61" "62" = e in ground (arith, ==_iff {A = String} "61" "62")

pair-IdsDiffer : IdsDiffer
unfolding order_by_op
pair-IdsDiffer x y mx my same = elim ((Memᴰ-cons x _ _).0 mx) [
  | inl xa ↦ elim ((Memᴰ-cons y _ _).0 my) [
    | inl ya ↦ xa ∙ sym ya
    | inr ky ↦ absurd (
        id_a_not_b (
          ap (derive_cluster_id first_code) (sym xa)
          ∙ same
          ∙ ap (derive_cluster_id first_code) (Memᴰ.eq_of_singleton ky)))
  ]
  | inr kx ↦ elim ((Memᴰ-cons y _ _).0 my) [
    | inl ya ↦ absurd (
        id_a_not_b (
          ap (derive_cluster_id first_code) (sym ya)
          ∙ sym same
          ∙ ap (derive_cluster_id first_code) (Memᴰ.eq_of_singleton kx)))
    | inr ky ↦ Memᴰ.eq_of_singleton kx ∙ sym (Memᴰ.eq_of_singleton ky)
  ]
]

abbrev rebuilt_pair : World ℕ
rebuilt_pair = (rebuild_from_evidence first_code as_inserted "btc" (with_evidence pair)).1

rebuild_runs : (rebuild_from_evidence first_code as_inserted "btc" (with_evidence pair)).0 ≡ ok tt
unfolding query statement ◌>>=◌ fold_m exec pure rebuild_from_evidence scan_active order_by_op
    transaction replace_chain clear_membership clear_clusters time_now insert_cluster copy_members
    member_rows replay gather observe observe_pair record_source source_key touch normalize_pair
    combined_edges noisy_or unite_all unite union find find_within link register set_parent
    bump_rank push_edge components collect build_result anchor_of earlier confidences walk visit
    GoMap.lookup GoMap.insert GoMap.get_or sort_edges insert_edge derive_cluster_id milli
rebuild_runs = refl

pair_together :
    (same_cluster first_code as_inserted "btc" "a" "b" 0 rebuilt_pair).0 ≡ ok (true, 900)
unfolding same_cluster cluster_of cluster_of_materialized query statement ◌>>=◌ fold_m exec pure
    rebuild_from_evidence scan_active order_by_op transaction replace_chain clear_membership
    clear_clusters time_now insert_cluster copy_members member_rows replay gather observe
    observe_pair record_source source_key touch normalize_pair combined_edges noisy_or unite_all
    unite union find find_within link register set_parent bump_rank push_edge components collect
    build_result anchor_of earlier confidences walk visit GoMap.lookup GoMap.insert GoMap.get_or
    sort_edges insert_edge derive_cluster_id milli
pair_together = refl

zero_is_low : milli.leb 0 (threshold_epsilon {F = ℕ} first_code as_inserted) ≡ true
unfolding milli
zero_is_low = refl

same_cluster-Connected_example : (◌≡◌ {A = Bool} true true) ↔ (
    Memᴰ "a"
      (ends (evidence_edges (active_evidence first_code as_inserted "btc" (with_evidence pair).db)))
    × Connected
        (evidence_edges (active_evidence first_code as_inserted "btc" (with_evidence pair).db))
        "a"
        "b")
same_cluster-Connected_example =
    same_cluster-Connected first_code as_inserted "btc" "a" "b" 0 (with_evidence pair) true 900
      pair-IdsDiffer zero_is_low rebuild_runs pair_together

a_found : (cluster_of first_code as_inserted "btc" "b" 0 rebuilt_pair).0 ≡ ok (some ("61", 900))
unfolding cluster_of cluster_of_materialized query statement ◌>>=◌ fold_m exec pure
    rebuild_from_evidence scan_active order_by_op transaction replace_chain clear_membership
    clear_clusters time_now insert_cluster copy_members member_rows replay gather observe
    observe_pair record_source source_key touch normalize_pair combined_edges noisy_or unite_all
    unite union find find_within link register set_parent bump_rank push_edge components collect
    build_result anchor_of earlier confidences walk visit GoMap.lookup GoMap.insert GoMap.get_or
    sort_edges insert_edge derive_cluster_id milli
a_found = refl

cluster_of_rebuilt_example :
    some ("61", 900)
    ≡ as_stored first_code as_inserted (
        cluster_in first_code as_inserted "b" (
          replay first_code as_inserted
            (active_evidence first_code as_inserted "btc" (with_evidence pair).db)))
cluster_of_rebuilt_example =
    cluster_of_rebuilt first_code as_inserted "btc" "b" 0 (with_evidence pair) (some ("61", 900))
      zero_is_low rebuild_runs a_found

abbrev no_floats : String → Option ℕ
no_floats s = none

abbrev asked : Request
asked = record {
  chain = "btc";
  address = "b";
  cluster_id = "";
  query = ("min_confidence", "much") ∷ [];
}

handle-IsReader_example :
    IsReader (handle first_code as_inserted string_leb no_floats cluster_endpoint asked)
handle-IsReader_example =
    handle-IsReader first_code as_inserted string_leb no_floats cluster_endpoint asked

collect_lem_example :
    ((scrape 3 (quiet (with_evidence pair).db)).1 ≡ quiet (with_evidence pair).db)
    × ((scrape 3 (quiet (with_evidence pair).db)).0.1 ≡ 3)
    × ((chain_id key : String) (n : ℕ)
        → Memᴰ (active_metric chain_id (key, n)) (scrape 3 (quiet (with_evidence pair).db)).0.0 ↔ (
            Memᴰ chain_id (enabled_chains (with_evidence pair).db)
            × Memᴰ key (active_keys chain_id pair)
            × (n ≡ occurrences key (active_keys chain_id pair))))
collect_lem_example = collect_lem (with_evidence pair).db 3
