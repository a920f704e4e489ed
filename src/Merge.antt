-- ===== src/Merge.antt =====
-- blockchain_cluster/internal/merge/engine.go: a merge candidate becomes evidence, unless it joins an
-- address to itself or touches a hub.
pub mod Laws
pub mod Batch
pub mod Counts
pub mod Numbers
use blockchain_clustering.Base.{
  ℕ, suc, String, Bool, true, false, List, Option, none, some, ◌==◌, string_eq, if◌then◌else◌, ◌||◌,
}
use blockchain_clustering.Base.Float.{Float64}
use blockchain_clustering.Domain.{MergeCandidate, MergeEvidence}
use blockchain_clustering.Db.{Exec, pure, fold_m, ◌>>=◌}
use blockchain_clustering.Stores.Addresses.{is_hub}
use blockchain_clustering.Stores.Evidence.{append}

pub record BatchResult : Type 0 where
  pub recorded : ℕ
  pub rejected : ℕ

abbrev pub tally : BatchResult → Option ℕ → BatchResult
tally result none = record result { rejected = suc result.rejected }
tally result (some _) = record result { recorded = suc result.recorded }

module _ {F : Type 0} where
  -- The fields that the literal leaves out are zero; `append` sets them.
  abbrev pub evidence_of : MergeCandidate F → MergeEvidence F
  evidence_of c = record {
    chain_id = c.chain_id;
    op_id = 0;
    address_a = c.address_a;
    address_b = c.address_b;
    heuristic_key = c.heuristic_key;
    source_tx_id = c.source_tx_id;
    source_block_hash = c.source_block_hash;
    source_block_height = c.source_block_height;
    confidence = c.confidence;
    status = "";
    invalidated_reason = none;
    created_at = 0;
    created_by = "";
  }

module _ {F : Type 0} ⦃fl : Float64 F⦄ where
  abbrev pub merge_unless : Bool → MergeCandidate F → Exec F (Option ℕ)
  merge_unless true c = pure none
  merge_unless false c = do op_id ← append (evidence_of c); pure (some op_id)

  -- The op_id and rejected = false, or `none` where rejected = true.
  unfoldable pub record_and_merge : MergeCandidate F → Exec F (Option ℕ)
  record_and_merge c = if c.address_a == c.address_b then pure none else (do
    hub_a ← is_hub c.chain_id c.address_a
    hub_b ← is_hub c.chain_id c.address_b
    merge_unless (hub_a || hub_b) c)

  unfoldable pub merge_step : BatchResult → MergeCandidate F → Exec F BatchResult
  unfolding record_and_merge
  merge_step result c = do outcome ← record_and_merge c; pure (tally result outcome)

  unfoldable pub record_and_merge_batch : List (MergeCandidate F) → Exec F BatchResult
  unfolding merge_step
  record_and_merge_batch candidates =
      fold_m merge_step (record { recorded = 0; rejected = 0 }) candidates
