-- ===== src/Stores/Deltas/Again.antt =====
-- blockchain_cluster/internal/ingestor/store.go: a batch that was ingested before.
use mathlib.Core.List.Memᴰ
use blockchain_clustering.Base.{
  ◌≡◌, refl, ap, ◌∙◌, sym, subst, inl, inr, ℕ, suc, ◌+◌, true, List, [], ◌∷◌, any, Bool-cases, Memᴰ,
  ==_iff, string_eq, pair_eq, arith, foldl, length,
}
use blockchain_clustering.Base.Int.{ℤ, int_eq}
use blockchain_clustering.Base.GoMap.{GoMap}
use blockchain_clustering.Base.Keyed.{any-added, any-kept}
use blockchain_clustering.Domain.{BalanceDelta}
use blockchain_clustering.Db.{Db}
use blockchain_clustering.Db.Effects.{
  Effect, Effect-bind, Effect-either, Effect-exec, Effect-fail, Effect-fold, Effect-pure,
  Effect-statement, fold_db,
}
use blockchain_clustering.Stores.Addresses.{upsert, upsert_row}
use blockchain_clustering.Stores.Addresses.Seen.{Seen, Seen-upsert_row, upsert_row-Seen}
use blockchain_clustering.Stores.Deltas.{
  AddressKey, IngestResult, encodable, ingest, insert_delta, insert_deltas, max_heights, same_delta,
  upsert_addresses,
}

same_delta_refl : (d : BalanceDelta) → same_delta d d ≡ true
same_delta_refl d =
    rw ((==_iff d.chain_id d.chain_id).1 refl, (==_iff d.tx_id d.tx_id).1 refl)
      ((==_iff d.delta_index d.delta_index).1 refl)

insert_delta_keeps :
    (x d : BalanceDelta) (acc : IngestResult × List BalanceDelta)
    → any (same_delta x) acc.1 ≡ true
    → any (same_delta x) (insert_delta acc d).1 ≡ true
insert_delta_keeps x d (r, rows) h = elim (Bool-cases (any (same_delta d) rows)) [
  | inl known ↦ rw known h
  | inr fresh ↦ rw fresh (any-kept (same_delta x) rows d h)
]

insert_delta_adds :
    (d : BalanceDelta) (acc : IngestResult × List BalanceDelta)
    → any (same_delta d) (insert_delta acc d).1 ≡ true
insert_delta_adds d (r, rows) = elim (Bool-cases (any (same_delta d) rows)) [
  | inl known ↦ rw known known
  | inr fresh ↦ rw fresh (any-added (same_delta d) rows d (same_delta_refl d))
]

pub fold_keeps :
    (x : BalanceDelta) (ds : List BalanceDelta) (acc : IngestResult × List BalanceDelta)
    → any (same_delta x) acc.1 ≡ true
    → any (same_delta x) (foldl insert_delta acc ds).1 ≡ true
fold_keeps x [] acc h = h
fold_keeps x (d ∷ ds) acc h = fold_keeps x ds (insert_delta acc d) (insert_delta_keeps x d acc h)

pub fold_adds :
    (x : BalanceDelta) (ds : List BalanceDelta) (acc : IngestResult × List BalanceDelta)
    → Memᴰ x ds
    → any (same_delta x) (foldl insert_delta acc ds).1 ≡ true
fold_adds x [] acc m = absurd (Memᴰ.not-nil m)
fold_adds x (d ∷ ds) acc (Memᴰ.head e) = fold_keeps x ds (insert_delta acc d) (
    subst (λ y. any (same_delta y) (insert_delta acc d).1 ≡ true) (sym e) (insert_delta_adds d acc))
fold_adds x (d ∷ ds) acc (Memᴰ.tail m) = fold_adds x ds (insert_delta acc d) m

pub fold_again :
    (ds : List BalanceDelta) (r : IngestResult) (rows : List BalanceDelta)
    → ((x : BalanceDelta) → Memᴰ x ds → any (same_delta x) rows ≡ true)
    → foldl insert_delta (r, rows) ds ≡ (record r { skipped = length ds + r.skipped }, rows)
fold_again [] r rows h = ap (λ (n : ℕ). (record r { skipped = n }, rows)) (omega arith)
fold_again (d ∷ ds) r rows h = rw (h d (Memᴰ.head refl)) (
    fold_again ds (record r { skipped = suc r.skipped }) rows (λ x m. h x (Memᴰ.tail m))
    ∙ ap (λ (n : ℕ). (record r { skipped = n }, rows)) (omega arith))

module _ {F : Type 0} where
  -- Every delta of the batch has a row, and every address was last seen no earlier than in the batch.
  pub record Ingested (ds : List BalanceDelta) (d : Db F) : Type 0 where
    pub held : (x : BalanceDelta) → Memᴰ x ds → any (same_delta x) d.balance_delta ≡ true
    pub heights : (e : AddressKey × ℤ) → Memᴰ e (max_heights ds) → Seen e.0.0 e.0.1 e.1 d.address

  -- What an entry of the map of heights does.
  abbrev pub raised : Unit {0} → AddressKey × ℤ → Db F → Unit {0} × Db F
  raised s ((c, a), h) d = (s, record d { address = upsert_row c a h d.address })

  abbrev pub inserted : List BalanceDelta → Db F → IngestResult × Db F
  inserted ds d =
      let (counts, rows) = insert_deltas ds d.balance_delta in
      (counts, record d { balance_delta = rows })

  fold-Seen :
      (e : AddressKey × ℤ) (es : List (AddressKey × ℤ)) (d : Db F)
      → Seen e.0.0 e.0.1 e.1 d.address
      → Seen e.0.0 e.0.1 e.1 (fold_db raised tt es d).1.address
  fold-Seen e [] d s = s
  fold-Seen e (((c, a), h) ∷ es) d s =
      fold-Seen e es _ (Seen-upsert_row e.0.0 e.0.1 e.1 c a h d.address s)

  pub fold_sees :
      (e : AddressKey × ℤ) (es : List (AddressKey × ℤ)) (d : Db F)
      → Memᴰ e es
      → Seen e.0.0 e.0.1 e.1 (fold_db raised tt es d).1.address
  fold_sees e [] d m = absurd (Memᴰ.not-nil m)
  fold_sees e (((c, a), h) ∷ es) d (Memᴰ.head is) = fold-Seen e es _ (
      subst (λ (x : AddressKey × ℤ). Seen x.0.0 x.0.1 x.1 (upsert_row c a h d.address)) (sym is)
        (upsert_row-Seen c a h d.address))
  fold_sees e (((c, a), h) ∷ es) d (Memᴰ.tail m) = fold_sees e es _ m

  pub fold_deltas :
      (es : List (AddressKey × ℤ)) (d : Db F)
      → (fold_db raised tt es d).1.balance_delta ≡ d.balance_delta
  fold_deltas [] d = refl
  fold_deltas (((c, a), h) ∷ es) d =
      fold_deltas es (record d { address = upsert_row c a h d.address })

  Effect-upsert_addresses :
      (order : GoMap AddressKey ℤ → GoMap AddressKey ℤ) (ds : List BalanceDelta)
      → Effect (upsert_addresses order ds) (fold_db raised tt (order (max_heights ds)))
  unfolding upsert_addresses upsert
  Effect-upsert_addresses order ds = Effect-fold _ raised (λ s ((c, a), h). Effect-exec _) tt _

  pub Effect-ingest :
      (order : GoMap AddressKey ℤ → GoMap AddressKey ℤ) (d : BalanceDelta) (ds : List BalanceDelta)
      → Effect (ingest order (d ∷ ds)) (λ db.
        let (counts, db') = inserted (d ∷ ds) db in
        (counts, (fold_db raised tt (order (max_heights (d ∷ ds))) db').1))
  unfolding ingest
  Effect-ingest order d ds =
      Effect-either (encodable (d ∷ ds)) _ _ _
        (Effect-bind _ _ _ _ (Effect-statement (inserted (d ∷ ds))) (λ counts.
          Effect-bind _ _ _ _ (Effect-upsert_addresses order (d ∷ ds)) (λ _. Effect-pure counts)))
        (Effect-fail _ _)
