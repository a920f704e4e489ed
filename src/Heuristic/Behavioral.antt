-- ===== src/Heuristic/Behavioral.antt =====
-- blockchain_cluster/internal/heuristic/account.go: the engine `behavioral`, addresses that share
-- many transactions.
use blockchain_clustering.Base.{
  ℕ, String, Bool, true, false, List, [], ◌∷◌, ◌++◌, none, some, ◌==◌, string_eq, pair_eq,
  if◌then◌else◌, ◌&&◌, ◌||◌, length, any, select, map, string_leb,
}
use blockchain_clustering.Base.Int.{ℤ, pos, ltb_ℤ}
use blockchain_clustering.Base.Json.{RawMessage, fields_of, int_pointer}
use blockchain_clustering.Base.GoMap
use blockchain_clustering.Base.GoMap.{GoMap}
use blockchain_clustering.Domain.{BalanceDelta, MergeCandidate}
use blockchain_clustering.Derive.{TxGroup, group_by_tx, dedupe, first_occurrences}
use blockchain_clustering.Db.{Exec, query, pure, fold_m, ◌>>=◌}
use blockchain_clustering.Heuristic.{Engine, candidate, first_delta}
use blockchain_clustering.Heuristic.Account.{when_enabled}
use blockchain_clustering.Stores.Addresses.{is_hub}
use blockchain_clustering.Stores.Registry.{config_for}

abbrev pub AccountPairKey : Type 0
AccountPairKey = String × String

unfoldable pub normalize_account_pair : String → String → AccountPairKey
normalize_account_pair a b = if string_leb a b then (a, b) else (b, a)

-- MinInteractions; params that are missing or do not decode leave the default.
unfoldable pub parse_behavioral_params : RawMessage → ℤ
parse_behavioral_params raw = elim (fields_of raw) [
  | none ↦ pos 3
  | some fs ↦ elim (int_pointer 63 "min_interactions" fs) [
    | none ↦ pos 3
    | some none ↦ pos 3
    | some (some n) ↦ n
  ]
]

unfoldable pub tx_addresses : List BalanceDelta → List String
tx_addresses deltas = dedupe (map (λ (d : BalanceDelta). d.address) deltas)

-- for i … for j := i + 1 …
unfoldable pub pairs_with : String → List String → List AccountPairKey
pairs_with a [] = []
pairs_with a (b ∷ rest) = normalize_account_pair a b ∷ pairs_with a rest

unfoldable pub pairs_of : List String → List AccountPairKey
unfolding pairs_with
pairs_of [] = []
pairs_of (a ∷ rest) = pairs_with a rest ++ pairs_of rest

abbrev pub shares : String → String → String → List BalanceDelta → BalanceDelta → Bool
shares chain_id a b rows t1 =
    t1.chain_id == chain_id
    && t1.address == a
    && any (λ t2. t2.chain_id == t1.chain_id && t2.tx_id == t1.tx_id && t2.address == b) rows

-- The pairs seen, and the candidates so far.
abbrev pub Seen : Type 0 → Type 0
Seen F = GoMap AccountPairKey Bool × List (MergeCandidate F)

module _ {F : Type 0} where
  -- COUNT(DISTINCT t1.txid) of the join of balance_delta with itself
  unfoldable pub shared_transaction_count : String → String → String → Exec F ℕ
  shared_transaction_count chain_id a b = query (λ db. length (
      first_occurrences (
        map (λ (d : BalanceDelta). d.tx_id)
          (select (shares chain_id a b db.balance_delta) db.balance_delta))))

  unfoldable pub consider : TxGroup → F → ℤ → Seen F → AccountPairKey → Exec F (Seen F)
  consider tx confidence least (seen, candidates) key = do
    count ← shared_transaction_count tx.key.0 key.0 key.1
    (if ltb_ℤ (pos count) least then pure (seen, candidates) else (do
      hub_a ← is_hub tx.key.0 key.0
      hub_b ← is_hub tx.key.0 key.1
      (if hub_a || hub_b then pure (seen, candidates) else (do
        first ← first_delta tx
        pure (seen, candidates ++ candidate tx first "behavioral" confidence key.0 key.1 ∷ [])))))

  unfoldable pub behavioral_pair : TxGroup → F → ℤ → Seen F → AccountPairKey → Exec F (Seen F)
  unfolding consider
  behavioral_pair tx confidence least (seen, candidates) key =
      if GoMap.get_or key false seen
      then pure (seen, candidates)
      else consider tx confidence least (GoMap.insert key true seen, candidates) key

  unfoldable pub behavioral_tx : F → ℤ → Seen F → TxGroup → Exec F (Seen F)
  unfolding behavioral_pair
  behavioral_tx confidence least s tx =
      fold_m (behavioral_pair tx confidence least) s (pairs_of (tx_addresses tx.deltas))

  unfoldable pub behavioral : List BalanceDelta → Exec F (List (MergeCandidate F))
  unfolding behavioral_tx
  behavioral [] = pure []
  behavioral (d ∷ ds) = do
    found ← config_for d.chain_id "behavioral"
    when_enabled found (λ cfg. (do
      (_, candidates) ←
          fold_m (behavioral_tx cfg.confidence (parse_behavioral_params cfg.params)) ([], [])
            (group_by_tx (d ∷ ds))
      pure candidates))

  unfoldable pub behavioral_engine : Engine F
  behavioral_engine = record { name = "behavioral"; generate = behavioral }
