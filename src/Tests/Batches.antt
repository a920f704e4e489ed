-- ===== src/Tests/Batches.antt =====
-- Runs of the merge engine, the pipeline and the grouping of deltas.
use blockchain_clustering.Base.{
  ◌≡◌, ◌≢◌, ◌↔◌, ◌⊎◌, refl, ℕ, String, true, [], ◌∷◌, Option, All, Memᴰ, string_eq, pair_eq, length,
}
use blockchain_clustering.Base.Float.{milli}
use blockchain_clustering.Db.{Error, World, ok, err, pure, fold_m, query, statement, ◌>>=◌}
use blockchain_clustering.Derive.{first_occurrences, group_by_tx, spent_addresses}
use blockchain_clustering.Derive.Groups.{group_by_tx_lem}
use blockchain_clustering.Derive.Keys.{all_keys, deltas_of, group_keys}
use blockchain_clustering.Derive.Spenders.{Unique, spenders, spent_addresses_lem}
use blockchain_clustering.Heuristic.CommonInput.{common_input_engine}
use blockchain_clustering.Merge.{merge_step, record_and_merge, record_and_merge_batch}
use blockchain_clustering.Merge.Batch.{Grows, batch_hub_free}
use blockchain_clustering.Merge.Counts.{batch_counts}
use blockchain_clustering.Merge.Laws.{record_and_merge_lem, recorded_db}
use blockchain_clustering.Pipeline.{Pipeline, PipelineResult, cluster_batch, preprocess, run}
use blockchain_clustering.Pipeline.Evidence.{engines_read_only}
use blockchain_clustering.Pipeline.Live.{engines}
use blockchain_clustering.Pipeline.Order.{Ran, run_in_order}
use blockchain_clustering.Stores.Addresses.{get, is_hub}
use blockchain_clustering.Stores.Evidence.{append}
use blockchain_clustering.Stores.Registry.{default_preprocessing_params}
use blockchain_clustering.Tests.Samples.{candidate, four_deltas, hub, no_rows}

abbrev one_hub : World ℕ
one_hub = record { db = record no_rows { address = hub "x" ∷ [] }; faults = [] }

record_and_merge_lem_example :
    ((o : Option ℕ) × ((record_and_merge (candidate "a" "x") one_hub).0 ≡ ok o)
      × ((o, (record_and_merge (candidate "a" "x") one_hub).1.db)
          ≡ recorded_db (candidate "a" "x") one_hub.db))
    ⊎ (((e : Error) × ((record_and_merge (candidate "a" "x") one_hub).0 ≡ err e))
        × ((record_and_merge (candidate "a" "x") one_hub).1.db ≡ one_hub.db))
record_and_merge_lem_example = record_and_merge_lem (candidate "a" "x") one_hub

batch_hub_free_example :
    Grows one_hub.db
      (record_and_merge_batch (candidate "a" "b" ∷ candidate "a" "x" ∷ []) one_hub).1.db
batch_hub_free_example = batch_hub_free (candidate "a" "b" ∷ candidate "a" "x" ∷ []) one_hub

group_by_tx_lem_example :
    (group_keys (group_by_tx four_deltas) ≡ first_occurrences (all_keys four_deltas))
    × All (λ g. g.deltas ≡ deltas_of g.key four_deltas) (group_by_tx four_deltas)
group_by_tx_lem_example = group_by_tx_lem four_deltas

spent_addresses_lem_example :
    (spent_addresses four_deltas ≡ first_occurrences (spenders four_deltas))
    × Unique (spent_addresses four_deltas)
    × ((a : String) → Memᴰ a (spent_addresses four_deltas) ↔ Memᴰ a (spenders four_deltas))
spent_addresses_lem_example = spent_addresses_lem four_deltas

engines_read_only_example :
    ((common_input_engine {F = ℕ}).generate four_deltas one_hub).1.db ≡ one_hub.db
unfolding engines
engines_read_only_example =
    engines_read_only (λ _ _ _. true) common_input_engine four_deltas one_hub (Memᴰ.head refl)

-- Steps that do nothing, and no engine.
abbrev idle : Pipeline ℕ
idle = record {
  ingest = λ _. pure (record { inserted = 4; skipped = 0 });
  preprocessing_params_for = λ _. pure default_preprocessing_params;
  mark_hubs = λ _ _ _. pure tt;
  mark_collaborative_tx = λ _ _. pure tt;
  mark_dust = λ _ _. pure tt;
  engines = [];
  record_and_merge_batch = λ _. pure (record { recorded = 0; rejected = 0 });
  rebuild_from_evidence = λ _. pure tt;
}

abbrev nothing_found : PipelineResult
nothing_found = record { candidates_generated = 0; recorded = 0; rejected = 0 }

four_left : four_deltas ≢ []
four_left e = cc (e)

idle_runs : run idle "btc" four_deltas one_hub ≡ (ok nothing_found, one_hub)
unfolding run preprocess cluster_batch pure fold_m ◌>>=◌
idle_runs = refl

run_in_order_example : Ran idle "btc" four_deltas one_hub nothing_found one_hub
run_in_order_example =
    run_in_order idle "btc" four_deltas one_hub nothing_found one_hub four_left idle_runs

batch_runs :
    (record_and_merge_batch (candidate "a" "b" ∷ candidate "a" "x" ∷ []) one_hub).0
    ≡ ok (record { recorded = 1; rejected = 1 })
unfolding record_and_merge_batch merge_step record_and_merge fold_m ◌>>=◌ is_hub get query statement
    append pure
batch_runs = refl

batch_counts_example :
    (◌≡◌ {A = ℕ} 2 2)
    × (length
          (record_and_merge_batch
            (candidate "a" "b" ∷ candidate "a" "x" ∷ [])
            one_hub).1.db.merge_evidence
        ≡ 1)
batch_counts_example =
    batch_counts (candidate "a" "b" ∷ candidate "a" "x" ∷ []) one_hub
      (record { recorded = 1; rejected = 1 }) batch_runs
