-- ===== src/Merge/Laws.antt =====
-- blockchain_cluster/internal/merge/engine.go: what is recorded, and that no hub is merged.
use blockchain_clustering.Base.{
  ◌≡◌, ◌⊎◌, inl, inr, ℕ, String, Bool, true, false, Option, none, some, ◌==◌, string_eq,
  if◌then◌else◌, ◌||◌, find_first,
}
use blockchain_clustering.Base.Float.{Float64}
use blockchain_clustering.Db.{Db, World, Error, ok, err}
use blockchain_clustering.Db.Atomic.{
  Atomic, Atomic-after, Atomic-fail, Atomic-if, Atomic-pure, Atomic-statement, Atomic-then,
  ReadsOnly, Result-cases, Steady-same,
}
use blockchain_clustering.Db.Effects.{
  Effect, Effect-bind, Effect-either, Effect-fail, Effect-if, Effect-pure, Effect-query,
  Effect-statement,
}
use blockchain_clustering.Db.Respects.{Respects-bind, Respects-pure, Respects-query}
use blockchain_clustering.Domain.{MergeCandidate, MergeEvidence}
use blockchain_clustering.Merge.{evidence_of, merge_unless, record_and_merge}
use blockchain_clustering.Stores.Addresses.{at_key, get, is_hub}
use blockchain_clustering.Stores.Evidence.{append, insert_row}

module _ {F : Type 0} where
  -- Whether the registry has an address as a hub.
  abbrev pub hub_flag : Db F → String → String → Bool
  hub_flag d chain_id addr = elim (find_first (at_key chain_id addr) d.address) as (λ _. Bool) [
    | none ↦ false
    | some a ↦ a.is_hub
  ]

  pub Effect-is_hub :
      (chain_id addr : String) → Effect (is_hub chain_id addr) (λ d. (hub_flag d chain_id addr, d))
  unfolding is_hub get
  Effect-is_hub chain_id addr = Effect-bind _ _ _ _ (Effect-query _) (λ found. Effect-pure _)

  pub ReadsOnly-is_hub : (chain_id addr : String) → ReadsOnly (is_hub {F = F} chain_id addr)
  unfolding is_hub get
  ReadsOnly-is_hub chain_id addr =
      Respects-bind Steady-same _ _ (Respects-query Steady-same _)
        (λ found. Respects-pure Steady-same _)

module _ {F : Type 0} ⦃fl : Float64 F⦄ where
  -- What a candidate does to the tables.
  abbrev pub recorded_db : MergeCandidate F → Db F → Option ℕ × Db F
  recorded_db c d =
      if c.address_a == c.address_b
      then (none, d)
      else if hub_flag d c.chain_id c.address_a || hub_flag d c.chain_id c.address_b
      then (none, d)
      else (let (op_id, d') = insert_row (evidence_of c) d in (some op_id, d'))

  Effect-append : (e : MergeEvidence F) → Effect (append e) (insert_row e)
  unfolding append
  Effect-append e = Effect-either _ _ _ _ (Effect-fail _ _) (Effect-statement _)

  Effect-merge_unless :
      (b : Bool) (c : MergeCandidate F)
      → Effect (merge_unless b c) (λ d.
        if b
        then (none, d)
        else (let (op_id, d') = insert_row (evidence_of c) d in (some op_id, d')))
  Effect-merge_unless true c = Effect-pure none
  Effect-merge_unless false c = Effect-bind _ _ _ _ (Effect-append _) (λ op_id. Effect-pure _)

  pub Effect-record_and_merge : (c : MergeCandidate F) → Effect (record_and_merge c) (recorded_db c)
  unfolding record_and_merge
  Effect-record_and_merge c = Effect-if _ _ _ _ _ (Effect-pure none) (
      Effect-bind _ _ _ _ (Effect-is_hub c.chain_id c.address_a) (λ hub_a.
        Effect-bind _ _ _ _ (Effect-is_hub c.chain_id c.address_b)
          (λ hub_b. Effect-merge_unless (hub_a || hub_b) c)))

  Atomic-merge_unless : (b : Bool) (c : MergeCandidate F) → Atomic (merge_unless b c)
  unfolding append
  Atomic-merge_unless true c = Atomic-pure none
  Atomic-merge_unless false c =
      Atomic-then _ some (Atomic-if _ _ _ (Atomic-fail _) (Atomic-statement _))

  Atomic-record_and_merge : (c : MergeCandidate F) → Atomic (record_and_merge c)
  unfolding record_and_merge
  Atomic-record_and_merge c = Atomic-if _ _ _ (Atomic-pure none) (
      Atomic-after _ _ (ReadsOnly-is_hub c.chain_id c.address_a) (λ hub_a.
        Atomic-after _ _ (ReadsOnly-is_hub c.chain_id c.address_b)
          (λ hub_b. Atomic-merge_unless (hub_a || hub_b) c)))

  -- A candidate is rejected, and changes nothing, exactly where it joins an address to itself or one of
  -- its addresses is a hub; else it becomes the next row of the evidence, active, its confidence rounded
  -- to three decimals, and nothing else changes. Or a call failed, and nothing changed.
  pub record_and_merge_lem :
      (c : MergeCandidate F) (w : World F)
      → ((o : Option ℕ) × ((record_and_merge c w).0 ≡ ok o)
          × ((o, (record_and_merge c w).1.db) ≡ recorded_db c w.db))
        ⊎ (((e : Error) × ((record_and_merge c w).0 ≡ err e))
            × ((record_and_merge c w).1.db ≡ w.db))
  record_and_merge_lem c w = elim (Result-cases (record_and_merge c w).0) [
    | inl (o, fine) ↦ inl (o, fine, (Effect-record_and_merge c).on_success w o fine)
    | inr (e, broken) ↦ inr ((e, broken), (Atomic-record_and_merge c).on_failure w e broken)
  ]
