-- ===== src/Heuristic.antt =====
-- blockchain_cluster/internal/heuristic: the engines, which only emit merge candidates. What they
-- share: engine.go, and how a candidate is drawn from a transaction.
pub mod CommonInput
pub mod Account
pub mod Behavioral
pub mod Change
pub mod Sweep
pub mod ReadsOnly
pub mod History
use blockchain_clustering.Base.{String, List, [], ◌∷◌, some}
use blockchain_clustering.Domain.{BalanceDelta, MergeCandidate}
use blockchain_clustering.Derive.{TxGroup}
use blockchain_clustering.Db.{Exec, pure, fail, panicked}

pub record Engine (F : Type 0) : Type 0 where
  pub name : String
  pub generate : List BalanceDelta → Exec F (List (MergeCandidate F))

module _ {F : Type 0} where
  -- tx.Deltas[0], which panics where there is none
  unfoldable pub first_delta : TxGroup → Exec F BalanceDelta
  first_delta tx = elim tx.deltas [ [] ↦ fail panicked | d ∷ _ ↦ pure d ]

  abbrev pub candidate : TxGroup → BalanceDelta → String → F → String → String → MergeCandidate F
  candidate tx first key confidence a b = record {
    chain_id = tx.key.0;
    address_a = a;
    address_b = b;
    heuristic_key = key;
    source_tx_id = some tx.key.1;
    source_block_hash = some first.block_hash;
    source_block_height = some first.block_height;
    confidence = confidence;
  }
