-- ===== src/Stores/Evidence.antt =====
-- blockchain_cluster/internal/evidence/store.go: the append-only log of merges.
use blockchain_clustering.Base.{
  ℕ, suc, String, Bool, false, List, [], ◌∷◌, ◌++◌, none, some, ◌==◌, nat_eq, string_eq, ltb,
  if◌then◌else◌, ◌&&◌, ◌||◌, select, any, update_where, contains,
}
use blockchain_clustering.Base.Float.{Float64}
use blockchain_clustering.Domain.{
  MergeEvidence, evidence_status_active, evidence_status_invalidated,
}
use blockchain_clustering.Db.{Db, Exec, statement, query, fail, invalid_argument}

module _ {F : Type 0} where
  -- ORDER BY op_id ASC
  unfoldable pub insert_by_op : MergeEvidence F → List (MergeEvidence F) → List (MergeEvidence F)
  insert_by_op e [] = e ∷ []
  insert_by_op e (x ∷ xs) =
      let rest = insert_by_op e xs in if ltb x.op_id e.op_id then x ∷ rest else e ∷ x ∷ xs

  unfoldable pub order_by_op : List (MergeEvidence F) → List (MergeEvidence F)
  unfolding insert_by_op
  order_by_op [] = []
  order_by_op (e ∷ es) = insert_by_op e (order_by_op es)

module _ {F : Type 0} ⦃fl : Float64 F⦄ where
  -- INSERT … RETURNING op_id: the sequence numbers the row, the clock dates it.
  abbrev pub insert_row : MergeEvidence F → Db F → ℕ × Db F
  insert_row e db = (
    db.merge_op_seq,
    record db {
      merge_evidence =
          db.merge_evidence
          ++ record e {
            op_id = db.merge_op_seq;
            confidence = fl.column e.confidence;
            status = evidence_status_active;
            invalidated_reason = none;
            created_at = db.now;
            created_by = if e.created_by == "" then "system" else e.created_by;
          }
            ∷ [];
      merge_op_seq = suc db.merge_op_seq;
    },
  )

  unfoldable pub append : MergeEvidence F → Exec F ℕ
  append e = if e.address_a == e.address_b then fail invalid_argument else statement (insert_row e)

module _ {F : Type 0} where
  abbrev pub is_active : MergeEvidence F → Bool
  is_active e = e.status == evidence_status_active

  -- WHERE chain_id = $1 AND op_id = $2 AND status = 'active'
  abbrev pub hit : String → ℕ → MergeEvidence F → Bool
  hit chain_id op_id e = (e.chain_id == chain_id) && (e.op_id == op_id) && is_active e

  abbrev pub strike : String → MergeEvidence F → MergeEvidence F
  strike reason e = record e {
    status = evidence_status_invalidated;
    invalidated_reason = some reason;
  }

  -- Whether a row was affected
  unfoldable pub invalidate : String → ℕ → String → Exec F Bool
  invalidate chain_id op_id reason = statement (λ db. (
    any (hit chain_id op_id) db.merge_evidence,
    record db {
      merge_evidence = update_where (hit chain_id op_id) (strike reason) db.merge_evidence;
    },
  ))

  abbrev pub active_on : String → MergeEvidence F → Bool
  active_on chain_id e = (e.chain_id == chain_id) && is_active e

  unfoldable pub scan_active : String → Exec F (List (MergeEvidence F))
  scan_active chain_id = query (λ db. order_by_op (select (active_on chain_id) db.merge_evidence))

  -- WHERE chain_id = $1 AND source_block_hash = ANY($2); NULL is equal to nothing
  abbrev pub anchored_in : String → List String → MergeEvidence F → Bool
  anchored_in chain_id hashes e =
      (e.chain_id == chain_id)
      && (elim e.source_block_hash [ none ↦ false | some h ↦ contains hashes h ])

  unfoldable pub by_block_hash : String → List String → Exec F (List (MergeEvidence F))
  by_block_hash chain_id hashes =
      query (λ db. select (anchored_in chain_id hashes) db.merge_evidence)

  unfoldable pub by_address_pair : String → String → String → Exec F (List (MergeEvidence F))
  by_address_pair chain_id a b = query (λ db. order_by_op (
      select
        (λ e.
          (e.chain_id == chain_id)
          && ((e.address_a == a && e.address_b == b) || (e.address_a == b && e.address_b == a)))
        db.merge_evidence))

  unfoldable pub by_addresses : String → List String → Exec F (List (MergeEvidence F))
  by_addresses chain_id addresses = query (λ db. order_by_op (
      select
        (λ e.
          (e.chain_id == chain_id)
          && (contains addresses e.address_a || contains addresses e.address_b))
        db.merge_evidence))
