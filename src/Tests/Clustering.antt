-- ===== src/Tests/Clustering.antt =====
-- Runs of the union-find, the replay, the rebuild and the rollback.
use mathlib.Core.List.Memᴰ
use blockchain_clustering.Base.{
  ◌≡◌, ◌↔◌, ◌⊎◌, inl, inr, refl, sym, ◌∙◌, ap, ℕ, true, [], ◌∷◌, Memᴰ, Memᴰ-cons, List, any,
  if◌then◌else◌,
}
use blockchain_clustering.Base.Float.{milli}
use blockchain_clustering.Base.GoMap
use blockchain_clustering.Clusters.{
  clear_clusters, clear_membership, copy_members, insert_cluster, member_rows,
  rebuild_from_evidence, replace_chain,
}
use blockchain_clustering.Clusters.Rebuild.{rebuild_atomic, rebuilt}
use blockchain_clustering.Db.{
  Error, ok, err, query, statement, ◌>>=◌, fold_m, exec, pure, transaction, time_now,
}
use blockchain_clustering.Domain.{MergeEvidence}
use blockchain_clustering.Reorg.{
  invalidate_step, note_correction, on_manual_correction, on_reorg, rebuild_if,
}
use blockchain_clustering.Reorg.Correction.{correction_logged, on_manual_correction_lem, op_struck}
use blockchain_clustering.Reorg.Append.{Later, evidence_append_only}
use blockchain_clustering.Reorg.Calls.{Call, after_all, merge, correct, roll_back}
use blockchain_clustering.Reorg.Ops.{ops_unique}
use blockchain_clustering.Reorg.Exact.{IsRolledBack, on_reorg_exact}
use blockchain_clustering.Reorg.Struck.{UniqueOps}
use blockchain_clustering.Replay.{
  anchor_of, build_result, collect, combined_edges, components, confidences, derive_cluster_id,
  earlier, gather, insert_edge, noisy_or, normalize_pair, observe, observe_pair, push_edge,
  record_source, replay, sort_edges, source_key, touch, unite, unite_all, visit, walk,
}
use blockchain_clustering.Replay.Clusters.{replay_components}
use blockchain_clustering.Replay.Components.{Together}
use blockchain_clustering.Replay.Gather.{ends, evidence_edges}
use blockchain_clustering.Stores.Audit.{log}
use blockchain_clustering.Stores.Evidence.{by_block_hash, hit, invalidate, order_by_op, scan_active}
use blockchain_clustering.Tests.Samples.{
  candidate, as_inserted, sha256, three_rows, two_rows, with_evidence,
}
use blockchain_clustering.UnionFind.{
  bump_rank, find, find_within, link, new, register, set_parent, union,
}
use blockchain_clustering.UnionFind.Connected.{Connected, Refines, Refines-new, Refines-union}
use blockchain_clustering.UnionFind.Roots.{Same, Valid-new}
use blockchain_clustering.UnionFind.Union.{union_reports}

Refines-union_example : Refines (union new "a" "b").0 (("a", "b") ∷ [])
Refines-union_example = Refines-union new [] "a" "b" Refines-new

union_reports_example : ((union new "a" "b").1 ≡ true) ↔ (¬ Same new "a" "b")
union_reports_example = union_reports new "a" "b" Valid-new

replay_components_example :
    Together (replay sha256 as_inserted three_rows) "a" "c"
    ↔ (Memᴰ "a" (ends (evidence_edges three_rows)) × Connected (evidence_edges three_rows) "a" "c")
replay_components_example = replay_components sha256 as_inserted three_rows "a" "c"

rebuild_atomic_example :
    ((rebuild_from_evidence sha256 as_inserted "btc" (with_evidence three_rows)).1.db
      ≡ rebuilt sha256 as_inserted "btc" (with_evidence three_rows).db)
    ⊎ (((e : Error) × ((rebuild_from_evidence sha256 as_inserted "btc" (with_evidence three_rows)).0
            ≡ err e))
        × ((rebuild_from_evidence sha256 as_inserted "btc" (with_evidence three_rows)).1.db
            ≡ (with_evidence three_rows).db))
rebuild_atomic_example = rebuild_atomic sha256 as_inserted "btc" (with_evidence three_rows)

op : {e r : MergeEvidence ℕ} → e ≡ r → e.op_id ≡ r.op_id
op same = ap (λ (x : MergeEvidence ℕ). x.op_id) same

zero_is_not_one : ¬ (◌≡◌ {A = ℕ} 0 1)
zero_is_not_one e = cc (e)

two_unique : UniqueOps "btc" two_rows
two_unique e r me mr ce cr same = elim ((Memᴰ-cons e _ _).0 me) [
  | inl e0 ↦ elim ((Memᴰ-cons r _ _).0 mr) [
    | inl r0 ↦ e0 ∙ sym r0
    | inr m ↦ absurd (zero_is_not_one (sym (op e0) ∙ same ∙ op (Memᴰ.eq_of_singleton m)))
  ]
  | inr n ↦ elim ((Memᴰ-cons r _ _).0 mr) [
    | inl r0 ↦ absurd (zero_is_not_one (sym (op r0) ∙ sym same ∙ op (Memᴰ.eq_of_singleton n)))
    | inr m ↦ Memᴰ.eq_of_singleton n ∙ sym (Memᴰ.eq_of_singleton m)
  ]
]

rollback_runs : (on_reorg sha256 as_inserted "btc" ("h2" ∷ []) (with_evidence two_rows)).0 ≡ ok 1
unfolding on_reorg by_block_hash query statement ◌>>=◌ fold_m invalidate_step invalidate log exec
    pure rebuild_if rebuild_from_evidence scan_active order_by_op transaction replace_chain
    clear_membership clear_clusters time_now insert_cluster copy_members member_rows replay gather
    observe observe_pair record_source source_key touch normalize_pair combined_edges noisy_or
    unite_all unite union find find_within link register set_parent bump_rank push_edge components
    collect build_result anchor_of earlier confidences walk visit GoMap.lookup GoMap.insert
    GoMap.get_or sort_edges insert_edge derive_cluster_id milli
rollback_runs = refl

on_reorg_exact_example :
    IsRolledBack sha256 as_inserted "btc"
      ("h2" ∷ [])
      (with_evidence two_rows).db
      1
      (on_reorg sha256 as_inserted "btc" ("h2" ∷ []) (with_evidence two_rows)).1.db
on_reorg_exact_example =
    on_reorg_exact sha256 as_inserted "btc" "h2" [] (with_evidence two_rows) 1 two_unique
      rollback_runs

strike_runs :
    (on_manual_correction sha256 as_inserted "btc" 1 "not theirs" (with_evidence two_rows)).0
    ≡ ok true
unfolding on_manual_correction note_correction query statement ◌>>=◌ fold_m invalidate log exec pure
    rebuild_from_evidence scan_active order_by_op transaction replace_chain clear_membership
    clear_clusters time_now insert_cluster copy_members member_rows replay gather observe
    observe_pair record_source source_key touch normalize_pair combined_edges noisy_or unite_all
    unite union find find_within link register set_parent bump_rank push_edge components collect
    build_result anchor_of earlier confidences walk visit GoMap.lookup GoMap.insert GoMap.get_or
    sort_edges insert_edge derive_cluster_id milli
strike_runs = refl

on_manual_correction_lem_example :
    (true ≡ any (hit "btc" 1) two_rows)
    × ((on_manual_correction sha256 as_inserted "btc" 1 "not theirs" (with_evidence two_rows)).1.db
        ≡ (if any (hit "btc" 1) two_rows
            then rebuilt sha256 as_inserted "btc" (
                correction_logged "btc" 1 "not theirs"
                  (op_struck "btc" 1 (with_evidence two_rows).db))
            else (with_evidence two_rows).db))
on_manual_correction_lem_example =
    on_manual_correction_lem sha256 as_inserted "btc" 1 "not theirs" (with_evidence two_rows) true
      strike_runs

abbrev three_calls : List (Call ℕ)
three_calls =
    merge (candidate "a" "b" ∷ candidate "b" "c" ∷ [])
    ∷ correct "btc" 9 "not theirs"
    ∷ roll_back "btc" ("h2" ∷ [])
    ∷ []

ops_unique_example :
    UniqueOps "btc" (after_all sha256 as_inserted three_calls (with_evidence [])).db.merge_evidence
ops_unique_example = ops_unique sha256 as_inserted three_calls (with_evidence []) "btc" refl

evidence_append_only_example :
    Later two_rows
      (after_all sha256 as_inserted three_calls (with_evidence two_rows)).db.merge_evidence
evidence_append_only_example =
    evidence_append_only sha256 as_inserted three_calls (with_evidence two_rows)
