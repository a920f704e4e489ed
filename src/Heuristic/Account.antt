-- ===== src/Heuristic/Account.antt =====
-- blockchain_cluster/internal/heuristic/account.go: the engines `funding` and `deployer`.
use blockchain_clustering.Base.{
  String, Bool, false, List, [], ◌∷◌, ◌++◌, Option, none, some, ◌==◌, string_eq, if◌then◌else◌,
  ◌||◌, not,
}
use blockchain_clustering.Base.Int.{ℤ, int_eq}
use blockchain_clustering.Base.Json.{fields_of, bool_field}
use blockchain_clustering.Domain.{Address, BalanceDelta, MergeCandidate, HeuristicConfig}
use blockchain_clustering.Derive.{TxGroup, group_by_tx, spent_addresses, receives}
use blockchain_clustering.Db.{Exec, pure, fold_m, ◌>>=◌}
use blockchain_clustering.Heuristic.{Engine, candidate, first_delta}
use blockchain_clustering.Stores.Addresses
use blockchain_clustering.Stores.Registry.{config_for}

-- A meta that does not decode is no contract creation.
unfoldable pub is_contract_creation_delta : BalanceDelta → Bool
is_contract_creation_delta d = elim (fields_of d.meta) [
  | none ↦ false
  | some fs ↦ elim (bool_field "contract_creation" false fs) [ none ↦ false | some b ↦ b ]
]

module _ {F : Type 0} where
  abbrev pub first_seen_at : ℤ → Option (Address F) → Bool
  first_seen_at height none = false
  first_seen_at height (some a) = elim a.first_seen_height as (λ _. Bool) [
    | none ↦ false
    | some h ↦ h == height
  ]

  unfoldable pub is_new_address : String → String → ℤ → Exec F Bool
  is_new_address chain_id address block_height = do
    found ← Addresses.get chain_id address
    pure (first_seen_at block_height found)

  -- A candidate, unless its funder or deployer is a hub.
  unfoldable pub emit_unless_hub :
      TxGroup
      → String
      → F
      → List (MergeCandidate F)
      → String
      → String
      → Exec F (List (MergeCandidate F))
  emit_unless_hub tx key confidence candidates a b = do
    hub ← Addresses.is_hub tx.key.0 a
    (if hub then pure candidates else (do
      first ← first_delta tx
      pure (candidates ++ candidate tx first key confidence a b ∷ [])))

  unfoldable pub funding_delta :
      TxGroup
      → F
      → String
      → List (MergeCandidate F)
      → BalanceDelta
      → Exec F (List (MergeCandidate F))
  unfolding emit_unless_hub is_new_address
  funding_delta tx confidence funder candidates d =
      if not (receives d) || d.address == funder || is_contract_creation_delta d
      then pure candidates
      else (do
        first ← first_delta tx
        is_new ← is_new_address tx.key.0 d.address first.block_height
        (if is_new
            then emit_unless_hub tx "funding" confidence candidates funder d.address
            else pure candidates))

  unfoldable pub deployer_delta :
      TxGroup
      → F
      → String
      → List (MergeCandidate F)
      → BalanceDelta
      → Exec F (List (MergeCandidate F))
  unfolding emit_unless_hub
  deployer_delta tx confidence deployer candidates d =
      if not (receives d) || not (is_contract_creation_delta d) || d.address == deployer
      then pure candidates
      else emit_unless_hub tx "deployer" confidence candidates deployer d.address

  -- For each delta of a transaction, with its first spender.
  unfoldable pub by_first_spender :
      (TxGroup → String → List (MergeCandidate F) → BalanceDelta → Exec F (List (MergeCandidate F)))
      → List (MergeCandidate F)
      → TxGroup
      → Exec F (List (MergeCandidate F))
  by_first_spender step candidates tx =
      elim (spent_addresses tx.deltas) as (λ _. Exec F (List (MergeCandidate F))) [
        | [] ↦ pure candidates
        | spender ∷ _ ↦ fold_m (step tx spender) candidates tx.deltas
      ]

  -- An engine runs where the chain has it and enables it.
  unfoldable pub when_enabled :
      Option (HeuristicConfig F)
      → (HeuristicConfig F → Exec F (List (MergeCandidate F)))
      → Exec F (List (MergeCandidate F))
  when_enabled none run = pure []
  when_enabled (some cfg) run = if cfg.enabled then run cfg else pure []

  unfoldable pub funding : List BalanceDelta → Exec F (List (MergeCandidate F))
  unfolding funding_delta by_first_spender when_enabled
  funding [] = pure []
  funding (d ∷ ds) = do
    found ← config_for d.chain_id "funding"
    when_enabled found (λ cfg.
        fold_m (by_first_spender (λ tx. funding_delta tx cfg.confidence)) [] (group_by_tx (d ∷ ds)))

  unfoldable pub deployer : List BalanceDelta → Exec F (List (MergeCandidate F))
  unfolding deployer_delta by_first_spender when_enabled
  deployer [] = pure []
  deployer (d ∷ ds) = do
    found ← config_for d.chain_id "deployer"
    when_enabled found (λ cfg.
        fold_m (by_first_spender (λ tx. deployer_delta tx cfg.confidence)) []
          (group_by_tx (d ∷ ds)))

  unfoldable pub funding_engine : Engine F
  funding_engine = record { name = "funding"; generate = funding }

  unfoldable pub deployer_engine : Engine F
  deployer_engine = record { name = "deployer"; generate = deployer }
