-- ===== src/Heuristic/Sweep.antt =====
-- blockchain_cluster/internal/heuristic/sweep.go: deposit addresses that are swept into a known target.
-- `covers` is the comparison of a quotient of two integers with a float64, in big.Float.
use blockchain_clustering.Base.{
  ℕ, String, Bool, false, List, [], ◌∷◌, ◌++◌, Option, none, some, ◌==◌, string_eq, if◌then◌else◌,
  ◌&&◌, not, any, select, map, foldl, length,
}
use blockchain_clustering.Base.Int.{ℤ, pos, is_pos, leb_ℤ, ◌+ℤ◌, ◌-ℤ◌}
use blockchain_clustering.Base.Float.{Float64}
use blockchain_clustering.Base.Json.{RawMessage, fields_of, float_pointer, int_pointer}
use blockchain_clustering.Domain.{BalanceDelta, MergeCandidate, HeuristicConfig, SweepTarget}
use blockchain_clustering.Derive.{
  TxGroup, ReceivedEntry, group_by_tx, spent_addresses, received_entries, spends, receives,
  first_occurrences,
}
use blockchain_clustering.Db.{Exec, query, pure, fold_m, ◌>>=◌}
use blockchain_clustering.Heuristic.{Engine, candidate, first_delta}
use blockchain_clustering.Heuristic.Account.{when_enabled}
use blockchain_clustering.Stores.SweepTargets
use blockchain_clustering.Stores.Registry.{config_for, override}

pub record SweepParams (F : Type 0) : Type 0 where
  pub completeness_min : F
  pub recurrence_min : ℤ

abbrev pub amount_or_zero : BalanceDelta → ℤ
amount_or_zero d = elim d.amount [ none ↦ pos 0 | some n ↦ n ]

-- What an address spends in a transaction, as a positive total.
unfoldable pub spent_in_tx : List BalanceDelta → String → ℤ
spent_in_tx deltas src =
    foldl (λ total d. if d.address == src && spends d then total -ℤ amount_or_zero d else total)
      (pos 0) deltas

abbrev pub feeds : BalanceDelta → BalanceDelta → Bool
feeds recv spender =
    spender.chain_id == recv.chain_id
    && spender.tx_id == recv.tx_id
    && spends spender
    && not (spender.address == recv.address)

module _ {F : Type 0} where
  -- COALESCE(SUM(amount), 0)
  unfoldable pub cumulative_received : String → String → Exec F ℤ
  cumulative_received chain_id address = query (λ db.
      foldl (λ total d. total +ℤ amount_or_zero d) (pos 0)
        (select (λ d. d.chain_id == chain_id && d.address == address && receives d)
          db.balance_delta))

  -- COUNT(DISTINCT spender.address) of the join of balance_delta with itself
  unfoldable pub distinct_sources_to_target : String → String → Exec F ℕ
  distinct_sources_to_target chain_id target = query (λ db. length (
      first_occurrences (
        map (λ (d : BalanceDelta). d.address)
          (select
            (λ spender.
              any
                (λ recv.
                  recv.chain_id == chain_id
                  && recv.address == target
                  && receives recv
                  && feeds recv spender)
                db.balance_delta)
            db.balance_delta))))

module _ {F : Type 0} ⦃fl : Float64 F⦄ where
  abbrev pub default_sweep_params : SweepParams F
  default_sweep_params = record { completeness_min = fl.decimal 9 1; recurrence_min = pos 2 }

  abbrev pub override_sweep : Option (Option F) → Option (Option ℤ) → SweepParams F
  override_sweep (some c) (some r) =
      let d = default_sweep_params in
      record {
        completeness_min = override d.completeness_min c;
        recurrence_min = override d.recurrence_min r;
      }
  override_sweep _ _ = default_sweep_params

  -- Params that are missing or do not decode leave the defaults.
  unfoldable pub parse_sweep_params : RawMessage → SweepParams F
  parse_sweep_params raw = elim (fields_of raw) as (λ _. SweepParams F) [
    | none ↦ default_sweep_params
    | some fs ↦
        override_sweep (float_pointer "completeness_min" fs) (int_pointer 63 "recurrence_min" fs)
  ]

  -- The lower of the two confidences, the heuristic's and the seed's.
  unfoldable pub emit_sweep :
      HeuristicConfig F
      → TxGroup
      → ReceivedEntry
      → SweepTarget F
      → List (MergeCandidate F)
      → String
      → Exec F (List (MergeCandidate F))
  emit_sweep cfg tx out target candidates src = do
    first ← first_delta tx
    let confidence =
        if fl.ltb target.confidence cfg.confidence then target.confidence else cfg.confidence
    pure (candidates ++ candidate tx first "sweep-seed" confidence out.address src ∷ [])

module _ {F : Type 0} ⦃fl : Float64 F⦄ (covers : ℤ → ℤ → F → Bool) where
  unfoldable pub recurs : String → String → SweepParams F → ℤ → ℤ → Exec F Bool
  recurs chain_id dst params spent received =
      if is_pos received && covers spent received params.completeness_min
      then (do
        recurrence ← distinct_sources_to_target chain_id dst
        pure (leb_ℤ params.recurrence_min (pos recurrence)))
      else pure false

  unfoldable pub looks_like_sweep :
      String → List BalanceDelta → String → String → SweepParams F → Exec F Bool
  unfolding recurs
  looks_like_sweep chain_id deltas src dst params =
      if is_pos (spent_in_tx deltas src)
      then (do
        received ← cumulative_received chain_id src
        recurs chain_id dst params (spent_in_tx deltas src) received)
      else pure false

  unfoldable pub sweep_source :
      HeuristicConfig F
      → TxGroup
      → ReceivedEntry
      → SweepTarget F
      → List (MergeCandidate F)
      → String
      → Exec F (List (MergeCandidate F))
  unfolding looks_like_sweep emit_sweep
  sweep_source cfg tx out target candidates src =
      if src == out.address then pure candidates else (do
        sweep ← looks_like_sweep tx.key.0 tx.deltas src out.address (parse_sweep_params cfg.params)
        (if sweep then emit_sweep cfg tx out target candidates src else pure candidates))

  unfoldable pub sweep_output :
      HeuristicConfig F
      → TxGroup
      → List String
      → List (MergeCandidate F)
      → ReceivedEntry
      → Exec F (List (MergeCandidate F))
  unfolding sweep_source
  sweep_output cfg tx ins candidates out = do
    found ← SweepTargets.get tx.key.0 out.address
    elim found as (λ _. Exec F (List (MergeCandidate F))) [
      | none ↦ pure candidates
      | some target ↦ fold_m (sweep_source cfg tx out target) candidates ins
    ]

  -- Without spenders there is nothing to do, as there is without recipients.
  unfoldable pub sweep_tx :
      HeuristicConfig F → List (MergeCandidate F) → TxGroup → Exec F (List (MergeCandidate F))
  unfolding sweep_output
  sweep_tx cfg candidates tx =
      elim (spent_addresses tx.deltas) as (λ _. Exec F (List (MergeCandidate F))) [
        | [] ↦ pure candidates
        | a ∷ ins ↦ fold_m (sweep_output cfg tx (a ∷ ins)) candidates (received_entries tx.deltas)
      ]

  unfoldable pub sweep : List BalanceDelta → Exec F (List (MergeCandidate F))
  unfolding sweep_tx
  sweep [] = pure []
  sweep (d ∷ ds) = do
    found ← config_for d.chain_id "sweep-seed"
    when_enabled found (λ cfg. fold_m (sweep_tx cfg) [] (group_by_tx (d ∷ ds)))

  unfoldable pub sweep_engine : Engine F
  sweep_engine = record { name = "sweep-seed"; generate = sweep }
