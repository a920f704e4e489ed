-- ===== src/Indexer/Gathered.antt =====
-- blockchain-indexer/cmd/indexer/main.go: the deltas of a block as the node gives them, one transaction
-- after the other.
use mathlib.Core.List.{append_assoc, append-nil}
use blockchain_clustering.Base.{
  ◌≡◌, ap, ◌∙◌, sym, ℕ, suc, String, List, [], ◌∷◌, ◌++◌, some, length, Bool,
}
use blockchain_clustering.Indexer.{Node, World, collect_deltas, later}
use blockchain_clustering.Indexer.Collect.{or_none, ticks}
use blockchain_clustering.Indexer.Extract.{ExtractedDelta, RawBlock, Transaction}

module _ (node : Node) (chain_id : String) (block : RawBlock) where
  -- Transactions are extracted from the instant on; one that cannot be extracted has no deltas.
  abbrev pub gathered : ℕ → List Transaction → List ExtractedDelta
  gathered t [] = []
  gathered t (tx ∷ txs) = or_none (node.extract t chain_id block tx) ++ gathered (suc t) txs

  pub collect_deltas-gathered :
      (down : ℕ → Bool) (txs : List Transaction) (ds : List ExtractedDelta) (w : World)
      → collect_deltas node down chain_id block ds txs w
        ≡ (some (ds ++ gathered w.instant txs), record w { instant = ticks (length txs) w.instant })
  unfolding collect_deltas
  collect_deltas-gathered down [] ds w = ap (λ l. (some l, w)) (sym (append-nil ds))
  collect_deltas-gathered down (tx ∷ txs) ds w =
      collect_deltas-gathered down txs (ds ++ or_none (node.extract w.instant chain_id block tx))
        (later w)
      ∙ ap (λ l. (some l, record w { instant = ticks (length txs) (suc w.instant) }))
          (append_assoc ds (or_none (node.extract w.instant chain_id block tx))
            (gathered (suc w.instant) txs))
