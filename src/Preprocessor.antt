-- ===== src/Preprocessor.antt =====
-- blockchain_cluster/internal/preprocessor: detect.go, hub.go and store.go. What pollutes the
-- clustering is marked before any heuristic runs: hubs, collaborative transactions, dust.
use blockchain_clustering.Base.{
  ℕ, suc, String, Bool, true, false, List, [], ◌∷◌, Option, none, some, ◌==◌, string_eq, pair_eq,
  if◌then◌else◌, ◌&&◌, not, length, any, select, map, foldl, ltb,
}
use blockchain_clustering.Base.Int.{ℤ, pos, is_pos, leb_ℤ, int_eq}
use blockchain_clustering.Base.Float.{Float64, float}
use blockchain_clustering.Base.GoMap
use blockchain_clustering.Base.GoMap.{GoMap}
use blockchain_clustering.Domain.{BalanceDelta, PreprocessingParams, Label}
use blockchain_clustering.Derive.{
  TxGroup, ReceivedEntry, group_by_tx, spent_addresses, received_entries, dedupe, first_occurrences,
}
use blockchain_clustering.Db.{Exec, query, pure, fold_m, ◌>>=◌, ◌>>◌}
use blockchain_clustering.Stores.Addresses
use blockchain_clustering.Stores.Excluded.{exclude}
use blockchain_clustering.Stores.Labels.{labels_of}

-- counts[key]++ and the maximum so far. The keys are the amounts, as `String` is injective.
abbrev pub count_amount : GoMap ℤ ℕ × ℕ → ReceivedEntry → GoMap ℤ ℕ × ℕ
count_amount (counts, largest) o =
    let n = suc (GoMap.get_or o.amount 0 counts) in
    (GoMap.insert o.amount n counts, (if ltb largest n then n else largest))

unfoldable pub max_equal_amount_group : List ReceivedEntry → ℕ
max_equal_amount_group outs = (foldl count_amount ([], 0) outs).1

-- chain and address
abbrev pub AddressRef : Type 0
AddressRef = String × String

abbrev pub is_dust : ℤ → BalanceDelta → Bool
is_dust dust_threshold d = elim d.amount as (λ _. Bool) [
  | none ↦ false
  | some n ↦ is_pos n && leb_ℤ n dust_threshold
]

-- Each address once, where its first dust stands.
unfoldable pub dust_inflows : List BalanceDelta → ℤ → List AddressRef
dust_inflows deltas dust_threshold =
    first_occurrences
      (map (λ (d : BalanceDelta). (d.chain_id, d.address)) (select (is_dust dust_threshold) deltas))

unfoldable pub hub_label_category : String → Option String
hub_label_category c =
    if c == "exchange"
    then some "exchange"
    else if c == "mixer"
    then some "mixer"
    else if c == "bridge"
    then some "bridge"
    else none

abbrev pub meets : String → String → BalanceDelta → BalanceDelta → Bool
meets chain_id address other self =
    self.chain_id == chain_id
    && self.address == address
    && other.chain_id == self.chain_id
    && other.tx_id == self.tx_id
    && not (other.address == self.address)

module _ {F : Type 0} where
  abbrev pub is_collaborative : PreprocessingParams F → TxGroup → Bool
  is_collaborative params tx =
      let outs = received_entries tx.deltas in
      leb_ℤ params.equal_output_min (pos (max_equal_amount_group outs))
      && leb_ℤ params.collab_input_min (pos (length (spent_addresses tx.deltas)))
      && leb_ℤ params.collab_output_min (pos (length outs))

  -- The transactions found; every one has the confidence `params.coinjoin_confidence`.
  unfoldable pub detect_collaborative_tx : List BalanceDelta → PreprocessingParams F → List TxGroup
  detect_collaborative_tx deltas params = select (is_collaborative params) (group_by_tx deltas)

module _ {F : Type 0} ⦃fl : Float64 F⦄ where
  unfoldable pub mark_collaborative : PreprocessingParams F → Unit {0} → TxGroup → Exec F (Unit {0})
  mark_collaborative params _ tx =
      exclude tx.key.0 tx.key.1 "coinjoin" params.coinjoin_confidence none

  unfoldable pub mark_collaborative_tx :
      List BalanceDelta → PreprocessingParams F → Exec F (Unit {0})
  unfolding mark_collaborative
  mark_collaborative_tx deltas params =
      fold_m (mark_collaborative params) tt (detect_collaborative_tx deltas params)

module _ {F : Type 0} where
  unfoldable pub flag_dust : Unit {0} → AddressRef → Exec F (Unit {0})
  flag_dust _ (chain_id, address) = Addresses.set_dust_flag chain_id address

  -- The loop stops at the first spender that is not tainted.
  unfoldable pub all_tainted : String → List String → Exec F Bool
  all_tainted chain_id [] = pure true
  all_tainted chain_id (addr ∷ rest) = do
    found ← Addresses.get chain_id addr
    elim found as (λ _. Exec F Bool) [
      | none ↦ pure false
      | some a ↦ (if a.dust_flag then all_tainted chain_id rest else pure false)
    ]

module _ {F : Type 0} ⦃fl : Float64 F⦄ where
  unfoldable pub exclude_dust_only : PreprocessingParams F → Unit {0} → TxGroup → Exec F (Unit {0})
  unfolding all_tainted
  exclude_dust_only params _ tx = elim (spent_addresses tx.deltas) as (λ _. Exec F (Unit {0})) [
    | [] ↦ pure tt
    | addr ∷ rest ↦ (do
      tainted ← all_tainted tx.key.0 (addr ∷ rest)
      (if tainted
          then exclude tx.key.0 tx.key.1 "dust-only" params.dust_exclusion_confidence none
          else pure tt))
  ]

  unfoldable pub mark_dust : List BalanceDelta → PreprocessingParams F → Exec F (Unit {0})
  unfolding flag_dust exclude_dust_only
  mark_dust deltas params = do
    fold_m flag_dust tt (dust_inflows deltas params.dust_threshold)
    fold_m (exclude_dust_only params) tt (group_by_tx deltas)

  -- `none` is ok = false.
  unfoldable pub hub_type_from_labels : List (Label F) → Option String
  unfolding hub_label_category
  hub_type_from_labels [] = none
  hub_type_from_labels (l ∷ ls) =
      let rest = hub_type_from_labels ls in
      if l.status == "active"
      then (elim (hub_label_category l.category) [ none ↦ rest | some t ↦ some t ])
      else rest

  -- COUNT(DISTINCT other.address) of the join of balance_delta with itself
  unfoldable pub counterparty_degree : String → String → Exec F ℕ
  counterparty_degree chain_id address = query (λ db. length (
      first_occurrences (
        map (λ (d : BalanceDelta). d.address)
          (select (λ other. any (meets chain_id address other) db.balance_delta)
            db.balance_delta))))

module _ {F : Type 0} ⦃fl : Float64 F⦄ where
  unfoldable pub hub_score_from_degree : ℕ → F → F
  hub_score_from_degree degree saturation =
      let score = fl.quo (float degree) saturation in
      if fl.leb saturation (float 0)
      then float 0
      else if fl.ltb (float 1) score
      then float 1
      else score

  unfoldable pub mark_by_degree : String → PreprocessingParams F → String → Exec F (Unit {0})
  mark_by_degree chain_id params addr = do
    degree ← counterparty_degree chain_id addr
    let score = hub_score_from_degree degree params.hub_degree_saturation
    (if fl.leb params.hub_threshold score
        then Addresses.set_hub chain_id addr "unknown" score
        else pure tt)

  unfoldable pub mark_hub : String → PreprocessingParams F → Unit {0} → String → Exec F (Unit {0})
  unfolding mark_by_degree
  mark_hub chain_id params _ addr = do
    labels ← labels_of chain_id "address" addr
    elim (hub_type_from_labels labels) as (λ _. Exec F (Unit {0})) [
      | some hub_type ↦ Addresses.set_hub chain_id addr hub_type (fl.decimal 99 2)
      | none ↦ mark_by_degree chain_id params addr
    ]

  unfoldable pub mark_hubs : String → List String → PreprocessingParams F → Exec F (Unit {0})
  unfolding mark_hub
  mark_hubs chain_id addresses params = fold_m (mark_hub chain_id params) tt (dedupe addresses)
