-- ===== src/Indexer/CatchUp.antt =====
-- blockchain-indexer/cmd/indexer/main.go: rounds over a chain that does not change and whose calls succeed.
use mathlib.Core.List.{append_assoc, append-nil}
use blockchain_clustering.Base.{
  ◌≡◌, refl, ap, ◌∙◌, sym, inl, inr, subst, ℕ, zero, suc, String, Bool, true, false, List, [], ◌++◌,
  Option, some, ◌==◌, ==_iff, string_eq, ◌&&◌, any, Bool-cases, Option-cases, Memᴰ, Memᴰ-concat,
  find_first, map, find_first-mem, length, arith,
}
use blockchain_clustering.Base.Int.{ℤ, pos, leb_ℤ, int_eq, ◌+ℤ◌, +ℤ_parts, -ℤ_parts, eq_of_parts}
use blockchain_clustering.Indexer.{
  Block, Fetched, Node, Published, World, advance, after, ask, at_height, before, continue,
  get_block_hash, get_cursor, insert_block, is_continuous, later, persist_block_and_cursor, publish,
  pure, read, round, set_cursor, start_from, write, ◌>>=◌,
}
use blockchain_clustering.Indexer.Collect.{all_deltas, collect_deltas-steady, ticks}
use blockchain_clustering.Indexer.Extract.{ExtractedDelta, Transaction}
use blockchain_clustering.Indexer.Published.{delta}
use blockchain_clustering.Indexer.Cursors.{cursor_of, cursor-set_cursor}

-- Every stored block of the chain is the node's block of its height.
abbrev pub Matches : String → (ℤ → Fetched) → World → Type 0
Matches chain_id chain w =
    (b : Block) → Memᴰ b w.block → b.chain_id ≡ chain_id → b.hash ≡ (chain b.height).raw.hash

-- What a round leaves of a world in which it stores a block, at the instant `t`.
abbrev pub with_block : String → ℤ → Fetched → List ExtractedDelta → ℕ → World → World
with_block chain_id h b ds t w = record w {
  block =
      insert_block
        (record {
          chain_id = chain_id;
          height = h;
          hash = b.raw.hash;
          parent_hash = b.raw.parent_hash;
        })
        w.block;
  cursor = set_cursor chain_id h w.cursor;
  published = w.published ++ map delta ds;
  instant = t;
}

module _ (node : Node) (down : ℕ → Bool) (chain_id : String) (start_height : ℤ) where
  -- The state after a number of rounds.
  abbrev pub rounds : ℕ → World → World
  rounds zero w = w
  rounds (suc n) w = rounds n (round node down chain_id start_height w).1

-- What the transactions of a height yield, none where that cannot be told.
abbrev pub Yield : Type 0
Yield = ℤ → Transaction → Option (List ExtractedDelta)

-- The deltas of the blocks that follow a height, as they are published.
abbrev pub due : String → (ℤ → Fetched) → Yield → ℕ → ℤ → List Published
due chain_id chain yield zero h = []
due chain_id chain yield (suc n) h =
    map delta (all_deltas (yield (after h)) (chain (after h)).transactions)
    ++ due chain_id chain yield n (after h)

Matches-with_block :
    (chain_id : String) (chain : ℤ → Fetched) (h : ℤ) (ds : List ExtractedDelta) (t : ℕ) (w : World)
    → Matches chain_id chain w
    → Matches chain_id chain (with_block chain_id h (chain h) ds t w)
Matches-with_block chain_id chain h ds t w matches b =
    elim (Bool-cases
      (any (λ (x : Block). x.chain_id == chain_id && x.hash == (chain h).raw.hash) w.block)) [
        | inl there ↦ rw there (matches b)
        | inr fresh ↦ rw fresh (λ m mine. elim ((Memᴰ-concat b _ w.block).0 m) [
          | inl old ↦ matches b old mine
          | inr new ↦
              ap (λ (y : Block). y.hash) new
              ∙ ap (λ k. (chain k).raw.hash) (sym (ap (λ (y : Block). y.height) new))
        ])
      ]

before-after : (h : ℤ) → before (after h) ≡ h
before-after h =
    ground
      (arith, +ℤ_parts h (pos 1), -ℤ_parts (h +ℤ pos 1) (pos 1), eq_of_parts (before (after h)) h)

after_first : (h : ℤ) (n : ℕ) → h +ℤ pos (suc n) ≡ after h +ℤ pos n
after_first h n =
    eq_of_parts _ _
      (omega (arith, +ℤ_parts h (pos (suc n)), +ℤ_parts (h +ℤ pos 1) (pos n), +ℤ_parts h (pos 1)))

module _ (node : Node) (down : ℕ → Bool) (chain_id : String) (chain : ℤ → Fetched) (yield : Yield)
    (latest start_height : ℤ) (up : (t : ℕ) → down t ≡ false)
    (tip : (t : ℕ) → node.latest_height t ≡ some latest)
    (serves : (t : ℕ) (h : ℤ) → leb_ℤ h latest ≡ true → node.fetch_block t h ≡ some (chain h))
    (linked : (h : ℤ)
      → leb_ℤ h latest ≡ true
      → (chain h).raw.parent_hash ≡ (chain (before h)).raw.hash)
    (extracts : (t : ℕ) (h : ℤ) (tx : Transaction)
      → node.extract t chain_id (chain h).raw tx ≡ yield h tx) where
  abbrev deltas_at : ℤ → List ExtractedDelta
  deltas_at h = all_deltas (yield h) (chain h).transactions

  continues :
      (h : ℤ) (w : World)
      → Matches chain_id chain w
      → leb_ℤ h latest ≡ true
      → is_continuous node down chain_id h (chain h).raw.parent_hash w ≡ (some true, later w)
  unfolding is_continuous get_block_hash read ◌>>=◌ pure
  continues h w matches low =
      elim (Option-cases (find_first (at_height chain_id (before h)) w.block)) [
        | inl missing ↦
            rw (up w.instant, missing, is_continuous, get_block_hash, read, ◌>>=◌, continue) refl
        | inr (b, found) ↦
            let (m, here) = find_first-mem _ w.block b found in
            let agrees : (b.hash == (chain h).raw.parent_hash) ≡ true =
              (==_iff b.hash (chain h).raw.parent_hash).1 (
                matches b m ((==_iff b.chain_id chain_id).0 (ground arith))
                ∙ ap (λ k. (chain k).raw.hash) ((==_iff b.height (before h)).0 (ground arith))
                ∙ sym (linked h low)) in
            rw (up w.instant, found, agrees, is_continuous, get_block_hash, read, ◌>>=◌, continue)
              refl
      ]

  -- The deltas of a block are gathered and published, and it is stored.
  advance_next :
      (h : ℤ) (w : World)
      → (t : ℕ) × (advance node down chain_id h (chain h) w
          ≡ (some tt, with_block chain_id h (chain h) (deltas_at h) t w))
  unfolding advance ◌>>=◌ publish persist_block_and_cursor write
  advance_next h w =
      let t = ticks (length (chain h).transactions) w.instant in
      (
        suc (suc t),
        rw
            (
              collect_deltas-steady node down chain_id (chain h).raw (yield h)
                  (λ t tx. extracts t h tx) (chain h).transactions [] w,
              up t,
              up (suc t),
              advance,
              ◌>>=◌,
              continue,
              publish,
              persist_block_and_cursor,
              write,
            )
            refl,
      )

  -- A round below the tip stores the next block.
  round_next :
      (h : ℤ) (w : World)
      → Matches chain_id chain w
      → start_from start_height latest (cursor_of chain_id w) ≡ h
      → leb_ℤ latest h ≡ false
      → (t : ℕ) × (round node down chain_id start_height w
          ≡ (some tt, with_block chain_id (after h) (chain (after h)) (deltas_at (after h)) t w))
  unfolding round ask get_cursor read ◌>>=◌ pure
  round_next h w matches at low =
      let fits : leb_ℤ (after h) latest ≡ true = ground (arith, +ℤ_parts h (pos 1)) in
      let (t, advanced) = advance_next (after h) (later (later (later (later w)))) in
      (
        t,
        rw
            (
              tip w.instant,
              up (suc w.instant),
              at,
              low,
              serves (suc (suc w.instant)) (after h) fits,
              continues (after h) (later (later (later w))) matches fits,
              advanced,
              round,
              ask,
              get_cursor,
              read,
              ◌>>=◌,
              continue,
            )
            refl,
      )

  start_from-with_block :
      (h : ℤ) (b : Fetched) (ds : List ExtractedDelta) (t : ℕ) (w : World)
      → start_from start_height latest (cursor_of chain_id (with_block chain_id h b ds t w)) ≡ h
  start_from-with_block h b ds t w = rw (cursor-set_cursor chain_id h w) refl

  -- On a chain that does not change, whose transactions always yield the same, with the stored blocks on
  -- it and no call that fails, the loop reaches the tip in one round for each block that is due, and
  -- publishes for each of them once, in the order of the chain, the deltas of its transactions.
  pub catches_up :
      (n : ℕ) (h : ℤ) (w : World)
      → Matches chain_id chain w
      → start_from start_height latest (cursor_of chain_id w) ≡ h
      → latest ≡ h +ℤ pos n
      → (start_from start_height latest
            (cursor_of chain_id (rounds node down chain_id start_height n w))
          ≡ latest)
        × ((rounds node down chain_id start_height n w).published
            ≡ w.published ++ due chain_id chain yield n h)
  catches_up zero h w matches at far =
      (at ∙ ground (arith, +ℤ_parts h (pos 0), eq_of_parts h latest), sym (append-nil w.published))
  catches_up (suc n) h w matches at far =
      let low : leb_ℤ latest h ≡ false = ground (arith, far, +ℤ_parts h (pos (suc n))) in
      let near : latest ≡ after h +ℤ pos n = far ∙ after_first h n in
      let ds = deltas_at (after h) in
      let (t, stored) = round_next h w matches at low in
      let next = with_block chain_id (after h) (chain (after h)) ds t w in
      let (reached, said) =
        catches_up n (after h) next (Matches-with_block chain_id chain (after h) ds t w matches)
          (start_from-with_block (after h) (chain (after h)) ds t w) near in
      subst
        (λ v.
          (start_from start_height latest
              (cursor_of chain_id (rounds node down chain_id start_height n v))
            ≡ latest)
          × ((rounds node down chain_id start_height n v).published
              ≡ w.published ++ due chain_id chain yield (suc n) h))
        (sym (ap (λ (r : Option (Unit {0}) × World). r.1) stored))
        (reached, said ∙ append_assoc w.published _ _)
