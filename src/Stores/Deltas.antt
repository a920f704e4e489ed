-- ===== src/Stores/Deltas.antt =====
-- blockchain_cluster/internal/ingestor/store.go: the balance changes as they were ingested, and the
-- cursors. A batch of inserts is one implicit transaction, so one statement.
pub mod Again
pub mod Redelivery
use blockchain_clustering.Base.{
  ℕ, suc, String, Bool, true, false, List, [], ◌∷◌, ◌++◌, Option, none, some, ◌==◌, string_eq,
  pair_eq, if◌then◌else◌, ◌&&◌, any, find_first, select, update_where, foldl, string_leb,
}
use blockchain_clustering.Base.Int.{ℤ, int_eq, ltb_ℤ}
use blockchain_clustering.Base.GoMap
use blockchain_clustering.Base.GoMap.{GoMap}
use blockchain_clustering.Domain.{BalanceDelta}
use blockchain_clustering.Db.{
  Exec, IngestCursor, statement, query, exec, pure, fail, fold_m, ◌>>=◌, ◌>>◌, invalid_argument,
}
use blockchain_clustering.Stores.Addresses.{upsert}

pub record IngestResult : Type 0 where
  pub inserted : ℕ
  pub skipped : ℕ

-- PRIMARY KEY (chain_id, txid, delta_index)
abbrev pub same_delta : BalanceDelta → BalanceDelta → Bool
same_delta a b = a.chain_id == b.chain_id && a.tx_id == b.tx_id && a.delta_index == b.delta_index

-- INSERT … ON CONFLICT DO NOTHING, and the count of its outcome.
abbrev pub insert_delta :
    IngestResult × List BalanceDelta → BalanceDelta → IngestResult × List BalanceDelta
insert_delta (result, rows) d =
    if any (same_delta d) rows
    then (record result { skipped = suc result.skipped }, rows)
    else (record result { inserted = suc result.inserted }, rows ++ d ∷ [])

unfoldable pub insert_deltas :
    List BalanceDelta → List BalanceDelta → IngestResult × List BalanceDelta
insert_deltas deltas rows = foldl insert_delta (record { inserted = 0; skipped = 0 }, rows) deltas

-- `pgnumeric.FromBigInt` refuses a nil amount.
unfoldable pub encodable : List BalanceDelta → Bool
encodable [] = true
encodable (d ∷ ds) = (elim d.amount as (λ _. Bool) [ none ↦ false | some _ ↦ true ]) && encodable ds

-- chain and address
abbrev pub AddressKey : Type 0
AddressKey = String × String

abbrev pub note_height : GoMap AddressKey ℤ → BalanceDelta → GoMap AddressKey ℤ
note_height m d = elim (GoMap.lookup (d.chain_id, d.address) m) [
  | none ↦ GoMap.insert (d.chain_id, d.address) d.block_height m
  | some h ↦
      if ltb_ℤ h d.block_height then GoMap.insert (d.chain_id, d.address) d.block_height m else m
]

unfoldable pub max_heights : List BalanceDelta → GoMap AddressKey ℤ
max_heights = foldl note_height []

-- ORDER BY, for a test of `a` standing no later than `b`
unfoldable pub insert_ordered :
    (BalanceDelta → BalanceDelta → Bool) → BalanceDelta → List BalanceDelta → List BalanceDelta
insert_ordered before d [] = d ∷ []
insert_ordered before d (x ∷ xs) =
    let rest = insert_ordered before d xs in if before d x then d ∷ x ∷ xs else x ∷ rest

unfoldable pub order_by :
    (BalanceDelta → BalanceDelta → Bool) → List BalanceDelta → List BalanceDelta
unfolding insert_ordered
order_by before [] = []
order_by before (d ∷ ds) = insert_ordered before d (order_by before ds)

abbrev pub by_index : BalanceDelta → BalanceDelta → Bool
by_index a b = if ltb_ℤ b.delta_index a.delta_index then false else true

abbrev pub by_tx_and_index : BalanceDelta → BalanceDelta → Bool
by_tx_and_index a b = if a.tx_id == b.tx_id then by_index a b else string_leb a.tx_id b.tx_id

abbrev pub cursor_at : String → String → IngestCursor → Bool
cursor_at chain_id source c = c.chain_id == chain_id && c.source == source

module _ {F : Type 0} where
  abbrev pub upsert_height : Unit {0} → AddressKey × ℤ → Exec F (Unit {0})
  upsert_height _ ((chain_id, address), height) = upsert chain_id address height

  -- For the order in which Go ranges over the map of heights.
  unfoldable pub upsert_addresses :
      (GoMap AddressKey ℤ → GoMap AddressKey ℤ) → List BalanceDelta → Exec F (Unit {0})
  upsert_addresses order deltas = fold_m upsert_height tt (order (max_heights deltas))

  unfoldable pub ingest :
      (GoMap AddressKey ℤ → GoMap AddressKey ℤ) → List BalanceDelta → Exec F IngestResult
  ingest order [] = pure (record { inserted = 0; skipped = 0 })
  ingest order (d ∷ ds) =
      if encodable (d ∷ ds)
      then (do
        result ← statement (λ db.
            let (counts, rows) = insert_deltas (d ∷ ds) db.balance_delta in
            (counts, record db { balance_delta = rows }))
        upsert_addresses order (d ∷ ds)
        pure result)
      else fail invalid_argument

  unfoldable pub get_deltas_by_tx : String → String → Exec F (List BalanceDelta)
  get_deltas_by_tx chain_id txid = query (λ db.
      order_by by_index (select (λ d. d.chain_id == chain_id && d.tx_id == txid) db.balance_delta))

  unfoldable pub get_deltas_by_block : String → String → Exec F (List BalanceDelta)
  get_deltas_by_block chain_id block_hash = query (λ db.
      order_by by_tx_and_index
        (select (λ d. d.chain_id == chain_id && d.block_hash == block_hash) db.balance_delta))

  -- `none` is found = false.
  unfoldable pub get_cursor : String → String → Exec F (Option String)
  get_cursor chain_id source = query (λ db.
      elim (find_first (cursor_at chain_id source) db.ingest_cursor) [
        | none ↦ none
        | some c ↦ some c.position
      ])

  unfoldable pub set_cursor : String → String → String → Exec F (Unit {0})
  set_cursor chain_id source position = exec (λ db. record db {
    ingest_cursor =
        if any (cursor_at chain_id source) db.ingest_cursor
        then update_where (cursor_at chain_id source) (λ c. record c { position = position })
            db.ingest_cursor
        else db.ingest_cursor
          ++ record { chain_id = chain_id; source = source; position = position } ∷ [];
  })
