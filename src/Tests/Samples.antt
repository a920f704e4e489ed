-- ===== src/Tests/Samples.antt =====
-- Tables, rows and map orders that the tests share. A float64 is a number of thousandths.
use mathlib.Core.List.Permᴰ
use blockchain_clustering.Base.{ℕ, String, true, false, List, [], ◌∷◌, none, some}
use blockchain_clustering.Base.Int.{ℤ, pos, negsuc}
use blockchain_clustering.Base.Json.{absent}
use blockchain_clustering.Base.Float.{milli}
use blockchain_clustering.Db.{Db, World}
use blockchain_clustering.Domain.{Address, BalanceDelta, MergeCandidate, MergeEvidence}
use blockchain_clustering.Replay.{MapOrder}

abbrev pub no_rows : Db ℕ
no_rows = record {
  balance_delta = [];
  address = [];
  merge_evidence = [];
  merge_op_seq = 0;
  cluster = [];
  cluster_membership = [];
  excluded_tx = [];
  label = [];
  label_seq = 0;
  sweep_target = [];
  chain = [];
  heuristic = [];
  chain_heuristic = [];
  ingest_cursor = [];
  audit_log = [];
  now = 7;
}

abbrev pub evidence : ℕ → String → String → String → MergeEvidence ℕ
evidence op_id a b block_hash = record {
  chain_id = "btc";
  op_id = op_id;
  address_a = a;
  address_b = b;
  heuristic_key = "common-input";
  source_tx_id = some "t";
  source_block_hash = some block_hash;
  source_block_height = some (pos 5);
  confidence = 900;
  status = "active";
  invalidated_reason = none;
  created_at = 0;
  created_by = "system";
}

abbrev pub three_rows : List (MergeEvidence ℕ)
three_rows = evidence 0 "a" "b" "h1" ∷ evidence 1 "b" "c" "h2" ∷ evidence 2 "x" "y" "h2" ∷ []

abbrev pub two_rows : List (MergeEvidence ℕ)
two_rows = evidence 0 "a" "b" "h1" ∷ evidence 1 "b" "c" "h2" ∷ []

abbrev pub with_evidence : List (MergeEvidence ℕ) → World ℕ
with_evidence rows = record {
  db = record no_rows { merge_evidence = rows; merge_op_seq = 9 };
  faults = [];
}

abbrev pub hub : String → Address ℕ
hub address = record {
  chain_id = "btc";
  address = address;
  first_seen_height = some (pos 1);
  last_seen_height = some (pos 2);
  is_hub = true;
  hub_type = some "exchange";
  hub_confidence = some 990;
  dust_flag = false;
}

abbrev pub candidate : String → String → MergeCandidate ℕ
candidate a b = record {
  chain_id = "btc";
  address_a = a;
  address_b = b;
  heuristic_key = "change";
  source_tx_id = some "t";
  source_block_hash = some "h1";
  source_block_height = some (pos 5);
  confidence = 300;
}

abbrev pub delta : String → String → ℤ → String → BalanceDelta
delta tx_id address amount block_hash = record {
  chain_id = "btc";
  tx_id = tx_id;
  delta_index = pos 0;
  address = address;
  amount = some amount;
  kind = "native";
  block_height = pos 5;
  block_hash = block_hash;
  meta = absent;
}

abbrev pub four_deltas : List BalanceDelta
four_deltas =
    delta "t1" "a" (negsuc 4) "h1"
    ∷ delta "t2" "b" (negsuc 0) "h1"
    ∷ delta "t1" "a" (negsuc 1) "h1"
    ∷ delta "t1" "c" (pos 7) "h1"
    ∷ []

abbrev pub as_inserted : MapOrder ℕ
as_inserted = record {
  pairs = λ m. m;
  sources = λ _ m. m;
  seen = λ m. m;
  components = λ m. m;
  pairs-perm = Permᴰ.refl;
  sources-perm = λ _. Permᴰ.refl;
  seen-perm = Permᴰ.refl;
  components-perm = Permᴰ.refl;
}

abbrev pub sha256 : String → List ℕ
sha256 s = Prim.Native.String.len s ∷ []
