-- ===== src/Tests/Ingesting.antt =====
-- A batch that is delivered twice, with another between.
use mathlib.Core.List.Permᴰ
use blockchain_clustering.Base.{◌≡◌, refl, ℕ, List, [], ◌∷◌, foldl, string_eq}
use blockchain_clustering.Base.GoMap
use blockchain_clustering.Base.Int.{negsuc}
use blockchain_clustering.Db.{World, exec, fold_m, ok, pure, statement, ◌>>=◌}
use blockchain_clustering.Db.Yields.{Holds}
use blockchain_clustering.Domain.{BalanceDelta}
use blockchain_clustering.Stores.Addresses.{upsert}
use blockchain_clustering.Stores.Deltas.{
  encodable, ingest, insert_deltas, max_heights, upsert_addresses,
}
use blockchain_clustering.Stores.Deltas.Redelivery.{AllSkipped, Order, after_batch, ingest_again}
use blockchain_clustering.Tests.Samples.{delta, four_deltas, with_evidence}

abbrev start : World ℕ
start = with_evidence []

abbrev between : List (Order × List BalanceDelta)
between = ((λ m. m), delta "t9" "a" (negsuc 2) "h2" ∷ []) ∷ []

four_deltas_ingested :
    (ingest (λ m. m) four_deltas start).0 ≡ ok (record { inserted = 2; skipped = 2 })
unfolding ingest encodable ◌>>=◌ statement upsert_addresses fold_m max_heights GoMap.lookup
    GoMap.insert upsert exec pure insert_deltas
four_deltas_ingested = refl

ingest_again_example :
    ((ingest
        (λ m. m)
        four_deltas
        (foldl after_batch (ingest (λ m. m) four_deltas start).1 between)).1.db
      ≡ (foldl after_batch (ingest (λ m. m) four_deltas start).1 between).db)
    × Holds
        (AllSkipped four_deltas)
        (ingest
          (λ m. m)
          four_deltas
          (foldl after_batch (ingest (λ m. m) four_deltas start).1 between)).0
ingest_again_example =
    ingest_again (λ m. m) (λ m. m) four_deltas start (record { inserted = 2; skipped = 2 }) between
      (λ m. Permᴰ.refl m) (λ m. Permᴰ.refl m) four_deltas_ingested
