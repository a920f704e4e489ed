-- ===== src/Heuristic/Change.antt =====
-- blockchain_cluster/internal/heuristic/change.go: the output of a transaction that looks like change.
pub mod Best
pub mod Justified
use blockchain_clustering.Base.{
  String, Bool, true, false, List, [], ◌∷◌, ◌++◌, Option, none, some, ◌==◌, string_eq, nat_eq,
  if◌then◌else◌, ◌&&◌, any, map,
}
use blockchain_clustering.Base.Int.{ℤ, ltb_ℤ, modulo}
use blockchain_clustering.Base.Float.{Float64, float}
use blockchain_clustering.Base.Json.{RawMessage, fields_of, float_pointer}
use blockchain_clustering.Domain.{BalanceDelta, MergeCandidate, HeuristicConfig}
use blockchain_clustering.Derive.{
  TxGroup, ReceivedEntry, group_by_tx, spent_addresses, received_entries, spends,
}
use blockchain_clustering.Db.{Exec, query, pure, fold_m, ◌>>=◌}
use blockchain_clustering.Heuristic.{Engine, candidate, first_delta}
use blockchain_clustering.Heuristic.Account.{is_new_address, when_enabled}
use blockchain_clustering.Stores.Addresses.{is_hub}
use blockchain_clustering.Stores.Excluded.{is_excluded}
use blockchain_clustering.Stores.Registry.{config_for, override}

pub record ChangeParams (F : Type 0) : Type 0 where
  pub change_min : F
  pub new_address_weight : F
  pub not_round_amount_weight : F
  pub respent_weight : F

unfoldable pub is_round_amount : ℤ → Bool
is_round_amount amount = modulo amount 1000 == 0

module _ {F : Type 0} where
  -- Whether one of the addresses is a hub; the loop stops at the first.
  unfoldable pub any_hub : String → List String → Exec F Bool
  any_hub chain_id [] = pure false
  any_hub chain_id (a ∷ rest) = do
    hub ← is_hub chain_id a
    (if hub then pure true else any_hub chain_id rest)

  -- The spenders first, then the recipients.
  unfoldable pub touches_hub : String → List String → List ReceivedEntry → Exec F Bool
  unfolding any_hub
  touches_hub chain_id ins outs =
      any_hub chain_id (ins ++ map (λ (o : ReceivedEntry). o.address) outs)

  unfoldable pub was_respent_after : String → String → ℤ → Exec F Bool
  was_respent_after chain_id address block_height = query (λ db.
      any
        (λ d.
          d.chain_id == chain_id
          && d.address == address
          && spends d
          && ltb_ℤ block_height d.block_height)
        db.balance_delta)

module _ {F : Type 0} ⦃fl : Float64 F⦄ where
  abbrev pub default_change_params : ChangeParams F
  default_change_params = record {
    change_min = fl.decimal 3 1;
    new_address_weight = fl.decimal 5 1;
    not_round_amount_weight = fl.decimal 2 1;
    respent_weight = fl.decimal 3 1;
  }

  abbrev pub override_change :
      Option (Option F) → Option (Option F) → Option (Option F) → Option (Option F) → ChangeParams F
  override_change (some m) (some a) (some r) (some w) =
      let d = default_change_params in
      record {
        change_min = override d.change_min m;
        new_address_weight = override d.new_address_weight a;
        not_round_amount_weight = override d.not_round_amount_weight r;
        respent_weight = override d.respent_weight w;
      }
  override_change _ _ _ _ = default_change_params

  -- Params that are missing or do not decode leave the defaults.
  unfoldable pub parse_change_params : RawMessage → ChangeParams F
  parse_change_params raw = elim (fields_of raw) as (λ _. ChangeParams F) [
    | none ↦ default_change_params
    | some fs ↦
        override_change (float_pointer "change_min" fs) (float_pointer "new_address_weight" fs)
          (float_pointer "not_round_amount_weight" fs) (float_pointer "respent_weight" fs)
  ]

  abbrev pub add_if : Bool → F → F → F
  add_if b weight score = if b then fl.add score weight else score

  unfoldable pub score_change_candidate : String → ℤ → ChangeParams F → ReceivedEntry → Exec F F
  score_change_candidate chain_id block_height params out = do
    is_new ← is_new_address chain_id out.address block_height
    let score = add_if is_new params.new_address_weight (float 0)
    let rounded =
        add_if (if is_round_amount out.amount then false else true) params.not_round_amount_weight
          score
    respent ← was_respent_after chain_id out.address block_height
    pure (add_if respent params.respent_weight rounded)

  abbrev pub better : Option (ReceivedEntry × F) → ReceivedEntry → F → Option (ReceivedEntry × F)
  better none out score = some (out, score)
  better (some (best, best_score)) out score =
      if fl.ltb best_score score then some (out, score) else some (best, best_score)

  unfoldable pub keep_best :
      String
      → ℤ
      → ChangeParams F
      → Option (ReceivedEntry × F)
      → ReceivedEntry
      → Exec F (Option (ReceivedEntry × F))
  unfolding score_change_candidate
  keep_best chain_id block_height params best out = do
    score ← score_change_candidate chain_id block_height params out
    pure (better best out score)

  -- A transaction that neither is excluded nor touches a hub, with its spenders and recipients.
  unfoldable pub change_output :
      HeuristicConfig F
      → TxGroup
      → List (MergeCandidate F)
      → String
      → List ReceivedEntry
      → Exec F (List (MergeCandidate F))
  unfolding keep_best
  change_output cfg tx candidates spender outs = do
    first ← first_delta tx
    let params = parse_change_params cfg.params
    best ← fold_m (keep_best tx.key.0 first.block_height params) none outs
    elim best as (λ _. Exec F (List (MergeCandidate F))) [
      | none ↦ pure candidates
      | some (out, score) ↦
          (if fl.ltb score params.change_min
            then pure candidates
            else pure (
                candidates
                ++ candidate tx first "change"
                    (if fl.ltb cfg.confidence score then cfg.confidence else score) spender
                    out.address
                  ∷ []))
    ]

  unfoldable pub change_of :
      HeuristicConfig F
      → TxGroup
      → List (MergeCandidate F)
      → List String
      → List ReceivedEntry
      → Exec F (List (MergeCandidate F))
  unfolding change_output
  change_of cfg tx candidates [] outs = pure candidates
  change_of cfg tx candidates (spender ∷ ins) [] = pure candidates
  change_of cfg tx candidates (spender ∷ ins) (out ∷ outs) = do
    hub ← touches_hub tx.key.0 (spender ∷ ins) (out ∷ outs)
    (if hub then pure candidates else change_output cfg tx candidates spender (out ∷ outs))

  unfoldable pub change_tx :
      HeuristicConfig F → List (MergeCandidate F) → TxGroup → Exec F (List (MergeCandidate F))
  unfolding change_of
  change_tx cfg candidates tx = do
    excluded ← is_excluded tx.key.0 tx.key.1
    (if excluded
        then pure candidates
        else change_of cfg tx candidates (spent_addresses tx.deltas) (received_entries tx.deltas))

  unfoldable pub change : List BalanceDelta → Exec F (List (MergeCandidate F))
  unfolding change_tx
  change [] = pure []
  change (d ∷ ds) = do
    found ← config_for d.chain_id "change"
    when_enabled found (λ cfg. fold_m (change_tx cfg) [] (group_by_tx (d ∷ ds)))

  unfoldable pub change_engine : Engine F
  change_engine = record { name = "change"; generate = change }
