-- ===== src/Tests/Heuristics.antt =====
-- Runs of the engines on a transaction that two addresses spend.
use mathlib.Core.List.Memᴰ
use blockchain_clustering.Base.{
  ◌≡◌, refl, ℕ, String, true, List, [], ◌∷◌, none, false, some, string_eq,
}
use blockchain_clustering.Base.Float.{milli}
use blockchain_clustering.Base.Int.{pos, negsuc}
use blockchain_clustering.Base.Json.{absent, fields_of}
use blockchain_clustering.Base.GoMap
use blockchain_clustering.Db.{World, ok, ◌>>=◌, query, pure, fold_m, fail, statement}
use blockchain_clustering.Derive.{
  group_by_tx, add_delta, append_at, spent_addresses, add_spender, add_once, received_entries,
}
use blockchain_clustering.Stores.Registry.{confidence_for, config_for}
use blockchain_clustering.Stores.Excluded.{is_excluded}
use blockchain_clustering.Stores.Addresses.{is_hub, get}
use blockchain_clustering.Heuristic.{first_delta}
use blockchain_clustering.Domain.{BalanceDelta, MergeCandidate}
use blockchain_clustering.Heuristic.CommonInput.{
  common_input, anchored, common_input_tx, keep_non_hub,
}
use blockchain_clustering.Heuristic.CommonInput.Justified.{SpentTogether, common_input_lem}
use blockchain_clustering.Heuristic.Change.{
  change, change_tx, change_of, change_output, touches_hub, any_hub, keep_best,
  score_change_candidate, is_round_amount, was_respent_after, parse_change_params,
}
use blockchain_clustering.Heuristic.Account.{is_new_address, when_enabled}
use blockchain_clustering.Heuristic.Change.Justified.{PaysChange, change_lem}
use blockchain_clustering.Tests.Samples.{delta, hub, no_rows}

abbrev spent_by_two : List BalanceDelta
spent_by_two =
    delta "t1" "a" (negsuc 4) "h1"
    ∷ delta "t1" "b" (negsuc 1) "h1"
    ∷ delta "t1" "c" (pos 7) "h1"
    ∷ []

abbrev enabled : World ℕ
enabled = record {
  db = record no_rows {
    address =
        record (hub "c") {
          first_seen_height = some (pos 5);
          is_hub = false;
          hub_type = none;
          hub_confidence = none;
        }
        ∷ [];
    heuristic =
        record { heuristic_key = "common-input"; default_confidence = 900 }
        ∷ record { heuristic_key = "change"; default_confidence = 600 }
        ∷ [];
    chain_heuristic =
        record {
          chain_id = "btc";
          heuristic_key = "common-input";
          enabled = true;
          confidence_override = none;
          params = absent;
        }
        ∷ record {
          chain_id = "btc";
          heuristic_key = "change";
          enabled = true;
          confidence_override = none;
          params = absent;
        }
        ∷ [];
  };
  faults = [];
}

abbrev joined : String → String → String → ℕ → MergeCandidate ℕ
joined key a b confidence = record {
  chain_id = "btc";
  address_a = a;
  address_b = b;
  heuristic_key = key;
  source_tx_id = some "t1";
  source_block_hash = some "h1";
  source_block_height = some (pos 5);
  confidence = confidence;
}

two_spenders : (common_input spent_by_two enabled).0 ≡ ok (joined "common-input" "a" "b" 900 ∷ [])
unfolding common_input ◌>>=◌ confidence_for config_for query pure fold_m group_by_tx add_delta
    GoMap.lookup GoMap.insert append_at is_excluded spent_addresses add_spender GoMap.get_or is_hub
    get fail statement add_once anchored common_input_tx keep_non_hub first_delta
two_spenders = refl

common_input_lem_example : SpentTogether enabled.db spent_by_two (joined "common-input" "a" "b" 900)
common_input_lem_example =
    common_input_lem spent_by_two enabled (joined "common-input" "a" "b" 900 ∷ [])
      (joined "common-input" "a" "b" 900) two_spenders (Memᴰ.head refl)

change_found : (change spent_by_two enabled).0 ≡ ok (joined "change" "a" "c" 600 ∷ [])
unfolding ◌>>=◌ config_for query pure fold_m group_by_tx add_delta GoMap.lookup GoMap.insert
    append_at is_excluded spent_addresses add_spender GoMap.get_or is_hub get fail statement
    add_once first_delta change change_tx change_of change_output touches_hub any_hub keep_best
    score_change_candidate is_round_amount was_respent_after parse_change_params is_new_address
    when_enabled received_entries milli fields_of
change_found = refl

change_lem_example : PaysChange enabled.db spent_by_two (joined "change" "a" "c" 600)
change_lem_example =
    change_lem spent_by_two enabled (joined "change" "a" "c" 600 ∷ []) (joined "change" "a" "c" 600)
      change_found (Memᴰ.head refl)
