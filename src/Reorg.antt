-- ===== src/Reorg.antt =====
-- blockchain_cluster/internal/reorg/handler.go: what a rollback or an operator's correction does to
-- the evidence, before the clusters are rebuilt. The audit log is given, as it is in `cmd/consumer`.
pub mod Struck
pub mod Counted
pub mod Exact
pub mod Correction
pub mod Calls
pub mod Ops
pub mod Append
use blockchain_clustering.Base.{
  ℕ, suc, String, Bool, true, false, List, [], ◌∷◌, Option, none, some, if◌then◌else◌, ◌==◌, nat_eq,
}
use blockchain_clustering.Base.Float.{Float64}
use blockchain_clustering.Domain.{MergeEvidence}
use blockchain_clustering.Db.{Exec, pure, fold_m, ◌>>=◌, ◌>>◌}
use blockchain_clustering.Replay.{MapOrder}
use blockchain_clustering.Clusters.{rebuild_from_evidence}
use blockchain_clustering.Stores.Evidence.{by_block_hash, invalidate, is_active}
use blockchain_clustering.Stores.Audit.{log}

abbrev pub deref_or_empty : Option String → String
deref_or_empty none = ""
deref_or_empty (some s) = s

module _ {F : Type 0} where
  -- An evidence that was struck is logged and counted.
  unfoldable pub note_struck : String → ℕ → MergeEvidence F → Bool → Exec F ℕ
  note_struck chain_id count e false = pure count
  note_struck chain_id count e true = do
    log "system" "invalidate"
        (record {
          chain_id = chain_id;
          op_id = e.op_id;
          block_hash = deref_or_empty e.source_block_hash;
        })
        "reorg rollback"
    pure (suc count)

  -- The body of the loop of OnReorg: the count so far, and after.
  unfoldable pub invalidate_step : String → ℕ → MergeEvidence F → Exec F ℕ
  unfolding note_struck
  invalidate_step chain_id count e =
      if is_active e
      then invalidate chain_id e.op_id "reorg" >>= note_struck chain_id count e
      else pure count

module _ {F : Type 0} ⦃fl : Float64 F⦄ (sha256 : String → List ℕ) (order : MapOrder F) where
  unfoldable pub rebuild_if : String → ℕ → Exec F ℕ
  rebuild_if chain_id count =
      if count == 0 then pure 0 else (do rebuild_from_evidence sha256 order chain_id; pure count)

  unfoldable pub on_reorg : String → List String → Exec F ℕ
  on_reorg chain_id [] = pure 0
  on_reorg chain_id (h ∷ hs) = do
    candidates ← by_block_hash chain_id (h ∷ hs)
    count ← fold_m (invalidate_step chain_id) 0 candidates
    rebuild_if chain_id count

  unfoldable pub note_correction : String → ℕ → String → Bool → Exec F Bool
  note_correction chain_id op_id rationale false = pure false
  note_correction chain_id op_id rationale true = do
    log "operator" "invalidate" (record { chain_id = chain_id; op_id = op_id; block_hash = "" })
        rationale
    rebuild_from_evidence sha256 order chain_id
    pure true

  unfoldable pub on_manual_correction : String → ℕ → String → Exec F Bool
  unfolding note_correction
  on_manual_correction chain_id op_id rationale =
      invalidate chain_id op_id "manual-correction" >>= note_correction chain_id op_id rationale
