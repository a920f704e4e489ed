-- ===== src/Indexer/Publish/Indices.antt =====
-- blockchain-indexer/internal/adapter/ethereum/ethereum.go: `di`, an int32 that extractDeltas counts up.
use blockchain_clustering.Base.{
  ◌≡◌, refl, ◌∙◌, sym, subst, inl, inr, ℕ, suc, ◌+◌, ◌%◌, ◌^◌, ◌≤◌, String, true, List, [], ◌∷◌,
  Option, some, map, length, ltb, Bool-cases, Option-cases, arith,
}
use blockchain_clustering.Base.Int.{ℤ, pos}
use blockchain_clustering.Indexer.Extract.{
  ExtractedDelta, RawBlock, Receipt, Transaction, extract_deltas,
}
use blockchain_clustering.Indexer.Extract.Movements.{
  Movement, extract_deltas_lem, movements, numbered,
}
use blockchain_clustering.Indexer.Publish.{signed32}

-- i, i + 1, …, one for each delta.
abbrev pub counting : ℕ → List ExtractedDelta → List ℤ
counting i [] = []
counting i (d ∷ ds) = pos i ∷ counting (suc i) ds

abbrev pub indices : List ExtractedDelta → List ℤ
indices ds = map (λ d. signed32 d.delta_index) ds

signed32_small : (i : ℕ) → suc i ≤ 2 ^ 31 → signed32 (i % 2 ^ 32) ≡ pos i
signed32_small i h =
    let same : i % 2 ^ 32 ≡ i = omega arith in
    let small : ltb i (2 ^ 31) ≡ true = ground arith in rw (same, small) refl

module _ (transfer_topic : String) (topic_address : String → String) (chain_id : String)
    (block : RawBlock) where
  indices-numbered :
      (tx : Transaction) (i : ℕ) (ms : List Movement)
      → i + length (numbered transfer_topic topic_address chain_id block tx i ms) ≤ 2 ^ 31
      → indices (numbered transfer_topic topic_address chain_id block tx i ms)
        ≡ counting i (numbered transfer_topic topic_address chain_id block tx i ms)
  indices-numbered tx i [] h = refl
  indices-numbered tx i (m ∷ ms) h =
      cc (signed32_small i (omega arith), indices-numbered tx (suc i) ms (omega arith))

  -- As long as a transaction has no more than 2 ^ 31 deltas, no index wraps: as int32 numbers, the
  -- indices of the deltas that are extracted from it are 0, 1, 2 and so on.
  pub extract_deltas-indices :
      (sender : Transaction → Option String) (tx : Transaction) (receipt : Receipt)
      (ds : List ExtractedDelta)
      → extract_deltas transfer_topic topic_address chain_id block sender tx receipt ≡ some ds
      → length ds ≤ 2 ^ 31
      → indices ds ≡ counting 0 ds
  extract_deltas-indices sender tx receipt ds fine few =
      let known =
        sym fine
        ∙ extract_deltas_lem transfer_topic topic_address chain_id block sender tx receipt in
      elim (Bool-cases receipt.failed) [
        | inl reverted ↦ let none_left : ds ≡ [] = cc (known, reverted) in rw none_left refl
        | inr passed ↦ elim (Option-cases (sender tx)) [
          | inl unknown ↦ absurd (cc (known, passed, unknown))
          | inr (from, signed) ↦
              let same : ds
                  ≡ numbered transfer_topic topic_address chain_id block tx 0
                      (movements transfer_topic topic_address chain_id block tx receipt from) =
                cc (known, passed, signed) in
              let fits = subst (λ xs. length xs ≤ 2 ^ 31) same few in
              rw same (indices-numbered tx 0 _ (omega (arith, fits)))
        ]
      ]
