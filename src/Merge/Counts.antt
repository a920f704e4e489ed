-- ===== src/Merge/Counts.antt =====
-- blockchain_cluster/internal/merge/engine.go: the numbers that RecordAndMergeBatch returns.
use blockchain_clustering.Base.{
  ◌≡◌, refl, subst, sym, inl, inr, ℕ, ◌+◌, List, [], ◌∷◌, ◌==◌, string_eq, ◌||◌, Bool-cases, length,
  length-append, arith,
}
use blockchain_clustering.Base.Float.{Float64}
use blockchain_clustering.Db.{Db, World, ok}
use blockchain_clustering.Db.Effects.{Effect, Effect-bind, Effect-fold, Effect-pure, fold_db}
use blockchain_clustering.Domain.{MergeCandidate}
use blockchain_clustering.Merge.{BatchResult, merge_step, record_and_merge_batch, tally}
use blockchain_clustering.Merge.Laws.{Effect-record_and_merge, hub_flag, recorded_db}

module _ {F : Type 0} ⦃fl : Float64 F⦄ where
  abbrev stepped : BatchResult → MergeCandidate F → Db F → BatchResult × Db F
  stepped result c d = (tally result (recorded_db c d).0, (recorded_db c d).1)

  Effect-merge_step :
      (result : BatchResult) (c : MergeCandidate F)
      → Effect (merge_step result c) (stepped result c)
  unfolding merge_step
  Effect-merge_step result c =
      Effect-bind _ _ _ _ (Effect-record_and_merge c)
        (λ outcome. Effect-pure (tally result outcome))

  -- How far a result and the rows are from those before: the candidates counted, the rows recorded.
  abbrev Counted : ℕ → BatchResult × Db F → BatchResult × Db F → Type 0
  Counted n (r, d) (r', d') =
      (r'.recorded + r'.rejected ≡ n + (r.recorded + r.rejected))
      × (length d'.merge_evidence + r.recorded ≡ length d.merge_evidence + r'.recorded)

  Counted-stepped :
      (r : BatchResult) (c : MergeCandidate F) (d : Db F) → Counted 1 (r, d) (stepped r c d)
  Counted-stepped r c d = elim (Bool-cases (c.address_a == c.address_b)) [
    | inl same ↦ rw same (omega arith, refl)
    | inr apart ↦
        elim (Bool-cases (hub_flag d c.chain_id c.address_a || hub_flag d c.chain_id c.address_b)) [
          | inl hub ↦ rw (apart, hub) (omega arith, refl)
          | inr free ↦ rw (apart, free, length-append d.merge_evidence _) (omega arith, omega arith)
        ]
  ]

  Counted-fold :
      (cs : List (MergeCandidate F)) (r : BatchResult) (d : Db F)
      → Counted (length cs) (r, d) (fold_db stepped r cs d)
  Counted-fold [] r d = (omega arith, refl)
  Counted-fold (c ∷ cs) r d =
      let (r', d') = stepped r c d in
      let (total, rows) = Counted-stepped r c d in
      let (total', rows') = Counted-fold cs r' d' in (omega arith, omega arith)

  -- Where a batch does not fail, every candidate was either recorded or rejected, and the evidence has
  -- as many rows more as candidates were recorded.
  pub batch_counts :
      (candidates : List (MergeCandidate F)) (w : World F) (result : BatchResult)
      → (record_and_merge_batch candidates w).0 ≡ ok result
      → (result.recorded + result.rejected ≡ length candidates)
        × (length (record_and_merge_batch candidates w).1.db.merge_evidence
            ≡ length w.db.merge_evidence + result.recorded)
  unfolding record_and_merge_batch
  batch_counts candidates w result fine =
      let none_yet : BatchResult = record { recorded = 0; rejected = 0 } in
      let (total, rows) =
        subst (Counted (length candidates) (none_yet, w.db))
          (sym (
            (Effect-fold _ stepped Effect-merge_step none_yet candidates).on_success w result fine))
          (Counted-fold candidates none_yet w.db) in
      (omega arith, omega arith)
