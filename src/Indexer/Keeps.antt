-- ===== src/Indexer/Keeps.antt =====
-- blockchain-indexer/cmd/indexer/main.go: what a round keeps of the state, on every path: a rule for each
-- way to build a call.
use blockchain_clustering.Base.{
  inl, inr, ℕ, zero, suc, length, String, Bool, true, false, List, [], ◌∷◌, Option, none, some,
  ◌==◌, string_eq, if◌then◌else◌, Bool-cases, Option-cases, ◌≡◌,
}
use blockchain_clustering.Base.Int.{ℤ, leb_ℤ}
use blockchain_clustering.Indexer.Extract.{ExtractedDelta, RawBlock, Transaction}
use blockchain_clustering.Indexer.{
  Call, Fetched, collect_deltas, Node, Published, World, advance, after, ask, before, continue,
  delete_blocks_from_height, find_from, find_rollback, get_block_hash, get_cursor, handle_reorg,
  is_continuous, later, publish, pure, read, round, start_from, upsert_cursor, write, ◌>>=◌,
}

-- A call keeps a property of the state, whether or not it fails.
pub record Keeps {A : Type 0} (P : World → Type 0) (m : Call A) : Type 0 where
  pub kept : (w : World) → P w → P (m w).1

module _ {A B : Type 0} {P : World → Type 0} where
  Keeps-continue :
      (r : Option A) (k : A → Call B) (w : World)
      → P w
      → ((a : A) → Keeps P (k a))
      → P (continue r k w).1
  Keeps-continue none k w p h = p
  Keeps-continue (some a) k w p h = (h a).kept w p

  pub Keeps-bind :
      (m : Call A) (k : A → Call B) → Keeps P m → ((a : A) → Keeps P (k a)) → Keeps P (m >>= k)
  unfolding ◌>>=◌
  Keeps-bind m k hm hk = record { kept = λ w p. Keeps-continue (m w).0 k (m w).1 (hm.kept w p) hk }

  Keeps-option :
      (o : Option A) (m : Call B) (k : A → Call B)
      → Keeps P m
      → ((a : A) → Keeps P (k a))
      → Keeps P (elim o as (λ _. Call B) [ none ↦ m | some a ↦ k a ])
  Keeps-option none m k hm hk = hm
  Keeps-option (some a) m k hm hk = hk a

module _ {A : Type 0} where
  Keeps-pure : {P : World → Type 0} (a : A) → Keeps P (pure a)
  unfolding pure
  Keeps-pure a = record { kept = λ w p. p }

  Keeps-if :
      {P : World → Type 0} (b : Bool) (m n : Call A)
      → Keeps P m
      → Keeps P n
      → Keeps P (if b then m else n)
  Keeps-if true m n hm hn = hm
  Keeps-if false m n hm hn = hn

module _ {P : World → Type 0} (node : Node) (down : ℕ → Bool) where
  pub Keeps-write :
      (f : World → World)
      → ((w : World) → P w → P (later w))
      → ((w : World) → P w → P (later (f w)))
      → Keeps P (write node down f)
  unfolding write
  Keeps-write f clock h = record {
    kept = λ w p. elim (Bool-cases (down w.instant)) [
      | inl fails ↦ rw (fails, write) (clock w p)
      | inr works ↦ rw (works, write) (h w p)
    ];
  }

module _ {P : World → Type 0} (node : Node) (down : ℕ → Bool) (chain_id : String)
    (clock : (w : World) → P w → P (later w)) where
  Keeps-ask : {A : Type 0} (f : ℕ → Option A) → Keeps P (ask f)
  unfolding ask
  Keeps-ask f = record { kept = λ w p. clock w p }

  -- What follows an answer of the node.
  Keeps-ask_then :
      {A B : Type 0} (f : ℕ → Option A) (k : A → Call B)
      → ((t : ℕ) (a : A) → f t ≡ some a → Keeps P (k a))
      → Keeps P (ask f >>= k)
  unfolding ask ◌>>=◌
  Keeps-ask_then f k h = record {
    kept = λ w p. elim (Option-cases (f w.instant)) [
      | inl silent ↦ rw (silent, ask, ◌>>=◌, continue) (clock w p)
      | inr (a, answers) ↦
          rw (answers, ask, ◌>>=◌, continue) ((h w.instant a answers).kept (later w) (clock w p))
    ];
  }

  Keeps-read : {A : Type 0} (f : World → A) → Keeps P (read node down f)
  unfolding read
  Keeps-read f = record { kept = λ w p. clock w p }

  Keeps-get_block_hash : (h : ℤ) → Keeps P (get_block_hash node down chain_id h)
  unfolding get_block_hash
  Keeps-get_block_hash h = Keeps-read _

  pub Keeps-find_from : (rounds : ℕ) (h : ℤ) → Keeps P (find_from node down rounds chain_id h)
  unfolding find_from
  Keeps-find_from zero h = Keeps-ask _
  Keeps-find_from (suc rounds) h = Keeps-bind _ _ (Keeps-get_block_hash h) (λ stored.
      Keeps-option stored _ _ (Keeps-pure ([], h)) (λ stored_hash.
        Keeps-bind _ _ (Keeps-ask _) (λ actual.
          Keeps-if (stored_hash == actual) _ _ (Keeps-pure ([], h)) (
            Keeps-bind _ _ (Keeps-find_from rounds (before h))
              (λ r. Keeps-pure (stored_hash ∷ r.0, r.1))))))

  Keeps-is_continuous :
      (h : ℤ) (parent : String) → Keeps P (is_continuous node down chain_id h parent)
  unfolding is_continuous
  Keeps-is_continuous h parent =
      Keeps-bind _ _ (Keeps-get_block_hash (before h)) (λ stored. Keeps-pure _)

module _ {P : World → Type 0} (node : Node) (down : ℕ → Bool) (chain_id : String)
    (clock : (w : World) → P w → P (later w)) where
  pub Keeps-collect_deltas :
      (b : RawBlock) (txs : List Transaction) (ds : List ExtractedDelta)
      → Keeps P (collect_deltas node down chain_id b ds txs)
  unfolding collect_deltas
  Keeps-collect_deltas b [] ds = record { kept = λ w p. p }
  Keeps-collect_deltas b (tx ∷ txs) ds = record {
    kept = λ w p. (Keeps-collect_deltas b txs _).kept (later w) (clock w p);
  }

-- A property that the rounds of a chain keep: the steps that it must be shown for.
pub record Kept (P : World → Type 0) (node : Node) (down : ℕ → Bool) (chain_id : String)
    : Type 0 where
  pub clock : (w : World) → P w → P (later w)
  pub published : (x : List Published) → Keeps P (publish node down x)
  pub deleted : (h : ℤ) → Keeps P (delete_blocks_from_height node down chain_id h)
  pub moved : (h : ℤ) → Keeps P (upsert_cursor node down chain_id h)
  pub advanced :
      (t : ℕ) (h : ℤ) (b : Fetched)
      → node.fetch_block t h ≡ some b
      → Keeps P (advance node down chain_id h b)

module _ {P : World → Type 0} (node : Node) (down : ℕ → Bool) (chain_id : String)
    (k : Kept P node down chain_id) where
  Keeps-handle_reorg : (h : ℤ) → Keeps P (handle_reorg node down chain_id h)
  unfolding handle_reorg find_rollback
  Keeps-handle_reorg h =
      Keeps-bind _ _
        (record {
          kept = λ w p.
              (Keeps-find_from node down chain_id k.clock (suc (length w.block)) (before h)).kept w
                p;
        })
        (λ (hashes, ancestor).
          Keeps-bind _ _ (k.published _)
            (λ _. Keeps-bind _ _ (k.deleted (after ancestor)) (λ _. k.moved ancestor)))

  pub Keeps-round : (start_height : ℤ) → Keeps P (round node down chain_id start_height)
  unfolding round get_cursor
  Keeps-round start_height =
      Keeps-bind _ _ (Keeps-ask node down chain_id k.clock node.latest_height) (λ latest.
        Keeps-bind _ _ (Keeps-read node down chain_id k.clock _) (λ cursor.
          let height = start_from start_height latest cursor in
          Keeps-if (leb_ℤ latest height) _ _ (Keeps-pure tt) (
            Keeps-ask_then node down chain_id k.clock (λ t. node.fetch_block t (after height)) _
              (λ t b fetched.
                Keeps-bind _ _
                  (Keeps-is_continuous node down chain_id k.clock (after height) b.raw.parent_hash)
                  (λ continuous.
                    Keeps-if continuous _ _ (k.advanced t (after height) b fetched)
                      (Keeps-handle_reorg (after height)))))))
