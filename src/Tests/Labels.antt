-- ===== src/Tests/Labels.antt =====
-- Labels of one address by two sources, and their maintenance.
use mathlib.Core.List.Permᴰ
use blockchain_clustering.Base.{
  ◌≡◌, ◌↔◌, refl, ℕ, String, true, false, List, [], ◌∷◌, none, some, nat_eq,
}
use blockchain_clustering.Base.Float.{milli}
use blockchain_clustering.Base.GoMap
use blockchain_clustering.Base.Json.{absent}
use blockchain_clustering.Db.{World}
use blockchain_clustering.Domain.{Label}
use blockchain_clustering.Server.{run_label_maintenance_loop}
use blockchain_clustering.Server.Maintenance.{OnlyMarks, run_label_maintenance_loop-OnlyMarks}
use blockchain_clustering.Stores.Labels.{
  by_target, categories, detect_conflicts, flag_target, key_of,
}
use blockchain_clustering.Stores.Labels.Conflicts.{Contradicted, detect_conflicts_lem}
use blockchain_clustering.Tests.Samples.{no_rows}

abbrev label_of : ℕ → String → String → Label ℕ
label_of label_id address category = record {
  label_id = label_id;
  target_type = "address";
  chain_id = "btc";
  target_cluster_id = none;
  target_address = some address;
  label = "l";
  category = category;
  source = "s";
  source_confidence = 900;
  collected_at = 0;
  last_verified_at = 0;
  status = "active";
}

abbrev three_labels : List (Label ℕ)
three_labels = label_of 1 "a" "exchange" ∷ label_of 2 "a" "mixer" ∷ label_of 3 "b" "exchange" ∷ []

abbrev labelled : World ℕ
labelled = record {
  db = record no_rows {
    label = three_labels;
    chain = record { chain_id = "btc"; config = absent; enabled = true } ∷ [];
    now = 20;
  };
  faults = [];
}

flagged : detect_conflicts (λ m. m) three_labels ≡ ((1, true) ∷ (2, true) ∷ [])
unfolding detect_conflicts by_target GoMap.insert key_of flag_target categories GoMap.get_or
flagged = refl

detect_conflicts_lem_example :
    (GoMap.get_or 2 false (detect_conflicts (λ m. m) three_labels) ≡ true)
    ↔ ((l : Label ℕ) × Contradicted three_labels l × (l.label_id ≡ 2))
detect_conflicts_lem_example = detect_conflicts_lem (λ m. m) (λ m. Permᴰ.refl m) three_labels 2

run_label_maintenance_loop-OnlyMarks_example :
    OnlyMarks labelled.db
      (run_label_maintenance_loop (λ m. m) (λ m. m) 500 (some 60) (some 10) 2 labelled).db
run_label_maintenance_loop-OnlyMarks_example =
    run_label_maintenance_loop-OnlyMarks (λ m. m) (λ m. m) 500 (some 60) (some 10) 2 labelled
