-- ===== src/Indexer/Collect.antt =====
-- blockchain-indexer/cmd/indexer/main.go: the deltas of a block, gathered over its transactions.
use mathlib.Core.List.{append_assoc, append-nil}
use blockchain_clustering.Base.{
  ◌≡◌, refl, ap, ◌∙◌, sym, ℕ, zero, suc, String, List, [], ◌∷◌, ◌++◌, Option, none, some, length,
  Bool,
}
use blockchain_clustering.Indexer.{Node, World, collect_deltas, later}
use blockchain_clustering.Indexer.Extract.{ExtractedDelta, RawBlock, Transaction}

abbrev pub or_none : Option (List ExtractedDelta) → List ExtractedDelta
or_none none = []
or_none (some ds) = ds

-- The deltas of each transaction that can be extracted, in the order of the block.
abbrev pub all_deltas :
    (Transaction → Option (List ExtractedDelta)) → List Transaction → List ExtractedDelta
all_deltas extracts [] = []
all_deltas extracts (tx ∷ txs) = or_none (extracts tx) ++ all_deltas extracts txs

-- The instant after a number of calls.
abbrev pub ticks : ℕ → ℕ → ℕ
ticks zero t = t
ticks (suc n) t = ticks n (suc t)

all_deltas-append :
    (extracts : Transaction → Option (List ExtractedDelta)) (xs ys : List Transaction)
    → all_deltas extracts (xs ++ ys) ≡ all_deltas extracts xs ++ all_deltas extracts ys
all_deltas-append extracts [] ys = refl
all_deltas-append extracts (x ∷ xs) ys =
    ap (λ ds. or_none (extracts x) ++ ds) (all_deltas-append extracts xs ys)
    ∙ sym (append_assoc (or_none (extracts x)) (all_deltas extracts xs) (all_deltas extracts ys))

all_deltas-fails :
    (extracts : Transaction → Option (List ExtractedDelta)) (tx : Transaction)
    (ys : List Transaction)
    → extracts tx ≡ none
    → all_deltas extracts (tx ∷ ys) ≡ all_deltas extracts ys
all_deltas-fails extracts tx ys fails = rw fails refl

module _ (node : Node) (down : ℕ → Bool) (chain_id : String) (block : RawBlock)
    (extracts : Transaction → Option (List ExtractedDelta))
    (steady : (t : ℕ) (tx : Transaction) → node.extract t chain_id block tx ≡ extracts tx) where
  -- Where an extraction does not depend on when it is made, the loop gathers what can be extracted.
  pub collect_deltas-steady :
      (txs : List Transaction) (ds : List ExtractedDelta) (w : World)
      → collect_deltas node down chain_id block ds txs w ≡ (
        some (ds ++ all_deltas extracts txs),
        record w { instant = ticks (length txs) w.instant },
      )
  unfolding collect_deltas
  collect_deltas-steady [] ds w = ap (λ l. (some l, w)) (sym (append-nil ds))
  collect_deltas-steady (tx ∷ txs) ds w =
      ap (λ o. collect_deltas node down chain_id block (ds ++ or_none o) txs (later w))
        (steady w.instant tx)
      ∙ collect_deltas-steady txs (ds ++ or_none (extracts tx)) (later w)
      ∙ ap (λ l. (some l, record w { instant = ticks (length txs) (suc w.instant) }))
          (append_assoc ds (or_none (extracts tx)) (all_deltas extracts txs))

  -- Where an extraction does not depend on when it is made, a transaction that cannot be extracted, for
  -- example because the node does not give its receipt, is left out of the deltas that are gathered for
  -- its block and then published: they are those of the other transactions.
  pub collect_deltas_skips :
      (xs ys : List Transaction) (tx : Transaction) (w : World)
      → extracts tx ≡ none
      → (collect_deltas node down chain_id block [] (xs ++ tx ∷ ys) w).0
        ≡ (collect_deltas node down chain_id block [] (xs ++ ys) w).0
  collect_deltas_skips xs ys tx w fails =
      ap (λ (r : Option (List ExtractedDelta) × World). r.0)
        (collect_deltas-steady (xs ++ tx ∷ ys) [] w)
      ∙ ap some (
          all_deltas-append extracts xs (tx ∷ ys)
          ∙ ap (λ ds. all_deltas extracts xs ++ ds) (all_deltas-fails extracts tx ys fails)
          ∙ sym (all_deltas-append extracts xs ys))
      ∙ sym (
          ap (λ (r : Option (List ExtractedDelta) × World). r.0)
            (collect_deltas-steady (xs ++ ys) [] w))
