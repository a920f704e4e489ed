-- ===== src/Indexer/Workers.antt =====
-- blockchain-indexer/cmd/indexer/main.go, the start of a loop for each enabled chain, and the table of
-- chains of internal/state. The loops run at the same time over one database and one topic: their
-- rounds interleave in any order. `dial` is `ethereum.New`, none where it fails.
pub mod Rows
use blockchain_clustering.Base.{
  ℕ, String, Bool, List, [], ◌∷◌, ◌++◌, Option, none, some, Memᴰ, ◌==◌, string_eq, if◌then◌else◌,
  select,
}
use blockchain_clustering.Base.Int.{ℤ}
use blockchain_clustering.Indexer.{Node, World, round}

-- The columns of chain_config that the program reads.
pub record ChainConfig : Type 0 where
  pub chain_id : String
  pub model_type : String
  pub node_endpoint : String
  pub start_height : ℤ
  pub enabled : Bool

-- WHERE enabled = true
abbrev pub list_enabled_chain_configs : List ChainConfig → List ChainConfig
list_enabled_chain_configs = select (λ (c : ChainConfig). c.enabled)

-- A loop that runs.
pub record Worker : Type 0 where
  pub chain_id : String
  pub start_height : ℤ
  pub node : Node

module _ (dial : String → Option Node) where
  -- The body of the loop over the chains; `utxo` and unknown models are only logged.
  unfoldable pub start : ChainConfig → List Worker
  start c =
      if c.model_type == "account"
      then elim (dial c.node_endpoint) [
        | none ↦ []
        | some node ↦
            record { chain_id = c.chain_id; start_height = c.start_height; node = node } ∷ []
      ]
      else []

  abbrev pub start_each : List ChainConfig → List Worker
  start_each [] = []
  start_each (c ∷ cs) = start c ++ start_each cs

  unfoldable pub workers : List ChainConfig → List Worker
  workers rows = start_each (list_enabled_chain_configs rows)

-- The state after one round of a worker.
abbrev pub after_round : (ℕ → Bool) → Worker → World → World
after_round down k w = (round k.node down k.chain_id k.start_height w).1

-- Rounds of the workers, in any order.
pub data Interleaved (down : ℕ → Bool) (ks : List Worker) : World → World → Type 0 where
  done : {w : World} → Interleaved down ks w w
  then_round :
      {w w' : World} (k : Worker)
      → Memᴰ k ks
      → Interleaved down ks (after_round down k w) w'
      → Interleaved down ks w w'
