-- ===== src/Stores/Deltas/Redelivery.antt =====
-- blockchain_cluster/internal/ingestor/store.go: a batch that is delivered again.
use mathlib.Core.List.Permᴰ
use blockchain_clustering.Base.{
  ◌≡◌, refl, ap, ◌∙◌, sym, subst, ℕ, List, [], ◌∷◌, Memᴰ-nil, Memᴰ-perm, Permᴰ, arith, foldl,
  length,
}
use blockchain_clustering.Base.Int.{ℤ}
use blockchain_clustering.Base.GoMap.{GoMap}
use blockchain_clustering.Domain.{Address, BalanceDelta}
use blockchain_clustering.Db.{Db, World, exec, ok}
use blockchain_clustering.Db.Respects.{
  Respects, Respects-bind, Respects-exec, Respects-fail, Respects-fold, Respects-if, Respects-pure,
  Respects-statement, Steady,
}
use blockchain_clustering.Db.Yields.{
  Holds, Yields, Yields-bind, Yields-fail, Yields-fold, Yields-if, Yields-pure, Yields-statement,
}
use blockchain_clustering.Stores.Addresses.{upsert}
use blockchain_clustering.Stores.Addresses.Seen.{Seen-upsert_row, upsert_row_again}
use blockchain_clustering.Stores.Deltas.{
  AddressKey, IngestResult, encodable, ingest, insert_deltas, max_heights, upsert_addresses,
}
use blockchain_clustering.Stores.Deltas.Again.{
  Effect-ingest, Ingested, fold_adds, fold_again, fold_deltas, fold_keeps, fold_sees, inserted,
}

-- An order in which Go ranges over the map of heights.
abbrev pub Order : Type 0
Order = GoMap AddressKey ℤ → GoMap AddressKey ℤ

-- A batch of which nothing is new.
abbrev pub AllSkipped : List BalanceDelta → IngestResult → Type 0
AllSkipped ds result = result ≡ record { inserted = 0; skipped = length ds }

module _ {F : Type 0} where
  -- The tables after a batch, whether or not a call of it fails.
  abbrev pub after_batch : World F → Order × List BalanceDelta → World F
  after_batch w (order, ds) = (ingest order ds w).1

  ingest-Ingested :
      (order : Order) (ds : List BalanceDelta) (w : World F) (result : IngestResult)
      → ((m : GoMap AddressKey ℤ) → Permᴰ m (order m))
      → (ingest order ds w).0 ≡ ok result
      → Ingested ds (ingest order ds w).1.db
  unfolding insert_deltas max_heights
  ingest-Ingested order [] w result perm fine = record {
    held = λ x m. absurd (Memᴰ-nil m);
    heights = λ e m. absurd (Memᴰ-nil m);
  }
  ingest-Ingested order (d ∷ ds) w result perm fine =
      let entries = order (max_heights (d ∷ ds)) in
      let counted = (inserted (d ∷ ds) w.db).1 in
      subst (Ingested (d ∷ ds))
        (sym (
          ap (λ (p : IngestResult × Db F). p.1)
            ((Effect-ingest order d ds).on_success w result fine)))
        (record {
          held = λ x m. rw (fold_deltas entries counted) (fold_adds x (d ∷ ds) _ m);
          heights = λ e m. fold_sees e entries counted (Memᴰ-perm (perm _) m);
        })

  module _ (ds : List BalanceDelta) where
    -- What was ingested stays so.
    abbrev StaysIngested : Db F → Db F → Type 0
    StaysIngested a b = Ingested ds a → Ingested ds b

    Steady-StaysIngested : Steady StaysIngested
    Steady-StaysIngested = record { unchanged = λ d h. h; compose = λ a b c h k x. k (h x) }

    ingest-StaysIngested :
        (order : Order) (es : List BalanceDelta) → Respects StaysIngested (ingest order es)
    unfolding ingest upsert_addresses upsert insert_deltas
    ingest-StaysIngested order [] = Respects-pure Steady-StaysIngested _
    ingest-StaysIngested order (e ∷ es) =
        Respects-if Steady-StaysIngested (encodable (e ∷ es)) _ _
          (Respects-bind Steady-StaysIngested _ _
            (Respects-statement Steady-StaysIngested _ (λ d h. record {
              held = λ x m. fold_keeps x (e ∷ es) _ (h.held x m);
              heights = h.heights;
            }))
            (λ counts.
              Respects-bind Steady-StaysIngested _ _
                (Respects-fold Steady-StaysIngested _
                  (λ s ((c, a), h). Respects-exec Steady-StaysIngested _ (λ d i. record {
                    held = i.held;
                    heights =
                        λ k m. Seen-upsert_row k.0.0 k.0.1 k.1 c a h d.address (i.heights k m);
                  }))
                  tt _)
                (λ _. Respects-pure Steady-StaysIngested counts)))
          (Respects-fail Steady-StaysIngested _)

    after-Ingested :
        (others : List (Order × List BalanceDelta)) (w : World F)
        → Ingested ds w.db
        → Ingested ds (foldl after_batch w others).db
    after-Ingested [] w h = h
    after-Ingested ((order, es) ∷ others) w h =
        after-Ingested others (ingest order es w).1 ((ingest-StaysIngested order es).at w h)

  Yields-ingest :
      (order : Order) (ds : List BalanceDelta) (d : Db F)
      → ((m : GoMap AddressKey ℤ) → Permᴰ m (order m))
      → Ingested ds d
      → Yields d (AllSkipped ds) (ingest order ds)
  unfolding ingest upsert_addresses upsert insert_deltas exec
  Yields-ingest order [] d perm h = Yields-pure _ refl
  Yields-ingest order (x ∷ xs) d perm h =
      let none_new =
        fold_again (x ∷ xs) (record { inserted = 0; skipped = 0 }) d.balance_delta h.held in
      Yields-if (encodable (x ∷ xs)) _ _
        (λ _.
          Yields-bind (AllSkipped (x ∷ xs)) _ _
            (Yields-statement _
              (ap (λ (p : IngestResult × List BalanceDelta). record d { balance_delta = p.1 })
                none_new)
              (ap (λ (p : IngestResult × List BalanceDelta). p.0) none_new
                ∙ ap (λ (n : ℕ). record { inserted = 0; skipped = n }) (omega arith)))
            (λ counts skipped.
              Yields-bind (λ _. Unit {0}) _ _
                (Yields-fold (λ _. Unit {0}) _ tt _
                  (λ s ((c, a), k) m _.
                    Yields-statement _
                      (ap (λ (rows : List (Address F)). record d { address = rows })
                        (upsert_row_again c a k d.address
                          (h.heights ((c, a), k) (Memᴰ-perm (Permᴰ.symm (perm _)) m))))
                      tt)
                  tt)
                (λ _ _. Yields-pure counts skipped)))
        (λ _. Yields-fail _)

  -- A batch that was ingested, and is delivered again after any number of batches, each of which may
  -- fail anywhere, changes no table, whichever calls fail, and if it succeeds then with every delta
  -- skipped. The orders of the map of heights may differ.
  pub ingest_again :
      (order again : Order) (ds : List BalanceDelta) (w : World F) (result : IngestResult)
      (others : List (Order × List BalanceDelta))
      → ((m : GoMap AddressKey ℤ) → Permᴰ m (order m))
      → ((m : GoMap AddressKey ℤ) → Permᴰ m (again m))
      → (ingest order ds w).0 ≡ ok result
      → ((ingest again ds (foldl after_batch (ingest order ds w).1 others)).1.db
          ≡ (foldl after_batch (ingest order ds w).1 others).db)
        × Holds (AllSkipped ds) (ingest again ds (foldl after_batch (ingest order ds w).1 others)).0
  ingest_again order again ds w result others order-perm again-perm fine =
      let last = foldl after_batch (ingest order ds w).1 others in
      let (skipped, same) =
        (Yields-ingest again ds last.db again-perm (
            after-Ingested ds others (ingest order ds w).1
              (ingest-Ingested order ds w result order-perm fine))).at
          last refl in
      (same, skipped)
