-- ===== src/Stores/Excluded.antt =====
-- blockchain_cluster/internal/preprocessor/store.go: the table excluded_tx.
use blockchain_clustering.Base.{
  String, Bool, List, [], ◌∷◌, ◌++◌, Option, ◌==◌, string_eq, if◌then◌else◌, ◌&&◌, any,
  update_where,
}
use blockchain_clustering.Base.Float.{Float64}
use blockchain_clustering.Db.{Exec, query, exec, ExcludedTx}

module _ {F : Type 0} where
  abbrev pub at_key : String → String → ExcludedTx F → Bool
  at_key chain_id tx_id t = t.chain_id == chain_id && t.tx_id == tx_id

  unfoldable pub is_excluded : String → String → Exec F Bool
  is_excluded chain_id tx_id = query (λ db. any (at_key chain_id tx_id) db.excluded_tx)

  -- INSERT … ON CONFLICT DO UPDATE
  unfoldable pub exclude_row : ExcludedTx F → List (ExcludedTx F) → List (ExcludedTx F)
  exclude_row t rows =
      if any (at_key t.chain_id t.tx_id) rows
      then update_where (at_key t.chain_id t.tx_id) (λ _. t) rows
      else rows ++ t ∷ []

module _ {F : Type 0} ⦃fl : Float64 F⦄ where
  unfoldable pub exclude : String → String → String → F → Option String → Exec F (Unit {0})
  unfolding exclude_row
  exclude chain_id tx_id reason detector_confidence signal = exec (λ db. record db {
    excluded_tx =
        exclude_row
          (record {
            chain_id = chain_id;
            tx_id = tx_id;
            reason = reason;
            detector_confidence = fl.column detector_confidence;
            signal = signal;
          })
          db.excluded_tx;
  })
