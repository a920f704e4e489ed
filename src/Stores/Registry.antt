-- ===== src/Stores/Registry.antt =====
-- blockchain_cluster/internal/registry: registry.go and chain_config.go.
mod Params
unfoldable pub use Params.{resolve_params}
pub use Params.{Overrides, override, default_preprocessing_params, overrides_of, with_overrides}
use blockchain_clustering.Base.{
  ℕ, String, Bool, true, false, List, [], ◌∷◌, Option, none, some, ◌==◌, string_eq, if◌then◌else◌,
  ◌&&◌, find_first, select, map,
}
use blockchain_clustering.Base.Int.{ℤ, pos}
use blockchain_clustering.Base.Decimal.{parse_int}
use blockchain_clustering.Base.Float.{Float64, float}
use blockchain_clustering.Base.Json.{
  RawMessage, Fields, absent, fields_of, float_pointer, int_pointer, string_pointer,
}
use blockchain_clustering.Domain.{HeuristicConfig, PreprocessingParams}
use blockchain_clustering.Db.{
  Db, ChainRow, HeuristicRow, ChainHeuristicRow, Exec, query, pure, fail, ◌>>=◌, not_registered,
  bad_config,
}

module _ {F : Type 0} where
  -- The join of chain_heuristic and heuristic, with COALESCE(override, default).
  abbrev pub join_row : List (HeuristicRow F) → ChainHeuristicRow F → Option (HeuristicConfig F)
  join_row hs ch =
      elim (find_first (λ (h : HeuristicRow F). h.heuristic_key == ch.heuristic_key) hs) [
        | none ↦ none
        | some h ↦ some (record {
          enabled = ch.enabled;
          confidence = elim ch.confidence_override as (λ _. F) [
            | none ↦ h.default_confidence
            | some c ↦ c
          ];
          params = ch.params;
        })
      ]

  -- `none` is found = false.
  unfoldable pub config_for : String → String → Exec F (Option (HeuristicConfig F))
  config_for chain_id key = query (λ db.
      elim (find_first
        (λ (ch : ChainHeuristicRow F). ch.chain_id == chain_id && ch.heuristic_key == key)
        db.chain_heuristic) [ none ↦ none | some ch ↦ join_row db.heuristic ch ])

  unfoldable pub list_chains : Exec F (List String)
  list_chains =
      query
        (λ db. map (λ (c : ChainRow). c.chain_id) (select (λ (c : ChainRow). c.enabled) db.chain))

module _ {F : Type 0} ⦃fl : Float64 F⦄ where
  -- confidence and enabled
  unfoldable pub confidence_for : String → String → Exec F (F × Bool)
  confidence_for chain_id key = do
    found ← config_for chain_id key
    pure (elim found as (λ _. F × Bool) [
      | none ↦ (float 0, false)
      | some cfg ↦ (cfg.confidence, cfg.enabled)
    ])

  unfoldable pub preprocessing_params_for : String → Exec F (PreprocessingParams F)
  preprocessing_params_for chain_id = do
    row ← query (λ db. find_first (λ (c : ChainRow). c.chain_id == chain_id) db.chain)
    elim row as (λ _. Exec F (PreprocessingParams F)) [
      | none ↦ fail not_registered
      | some c ↦ elim (resolve_params {F = F} c.config) as (λ _. Exec F (PreprocessingParams F)) [
        | none ↦ fail bad_config
        | some params ↦ pure params
      ]
    ]
