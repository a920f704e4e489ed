-- ===== src/Reorg/Ops.antt =====
-- blockchain_cluster/internal: the op ids of the evidence, over any sequence of calls.
use mathlib.Core.List.Memᴰ
use blockchain_clustering.Base.{◌≡◌, subst, ℕ, String, List, [], Memᴰ}
use blockchain_clustering.Base.Float.{Float64}
use blockchain_clustering.Db.{World}
use blockchain_clustering.Merge.Numbers.{
  KeepsNumbers, Steady-numbers, insert_keeps, same_evidence, strike_keeps,
}
use blockchain_clustering.Reorg.Calls.{Call, Evolves, after_all, after_all_keeps}
use blockchain_clustering.Reorg.Struck.{UniqueOps}
use blockchain_clustering.Replay.{MapOrder}
use blockchain_clustering.Stores.Evidence.{hit}

Evolves-numbers : {F : Type 0} → ⦃fl : Float64 F⦄ → Evolves (KeepsNumbers {F = F})
Evolves-numbers = record {
  steady = Steady-numbers;
  recorded = insert_keeps;
  struck = λ chain_id op_id. strike_keeps (hit chain_id op_id);
  elsewhere = same_evidence;
}

module _ {F : Type 0} ⦃fl : Float64 F⦄ (sha256 : String → List ℕ) (order : MapOrder F) where
  -- Whatever merge batches, rollbacks and corrections run on tables that had no evidence, and whatever
  -- calls of them fail, the op ids of a chain are unique.
  pub ops_unique :
      (calls : List (Call F)) (w : World F) (chain_id : String)
      → w.db.merge_evidence ≡ []
      → UniqueOps chain_id (after_all sha256 order calls w).db.merge_evidence
  ops_unique calls w chain_id empty e r m n in_e in_r same =
      let h = after_all_keeps sha256 order Evolves-numbers calls w (record {
        below = λ x k. absurd (Memᴰ.not-nil (subst (Memᴰ x) empty k));
        unique = λ x y k. absurd (Memᴰ.not-nil (subst (Memᴰ x) empty k));
      }) in
      h.unique e r m n same
