-- ===== src/Indexer/Loop.antt =====
-- blockchain-indexer/cmd/indexer/main.go: the order of publishing and storing.
use mathlib.Core.List.{append_assoc, append-nil}
use blockchain_clustering.Base.{
  ◌≡◌, refl, ap, ◌∙◌, sym, inl, inr, ℕ, suc, String, Bool, List, [], ◌++◌, ◌==◌, string_eq, ◌&&◌,
  any, Bool-cases, Memᴰ, Memᴰ-concat, mem-select, some, map, length, subst,
}
use blockchain_clustering.Base.Int.{ℤ}
use blockchain_clustering.Indexer.{
  Block, Fetched, Node, Published, World, advance, delete_blocks_from_height, insert_block,
  persist_block_and_cursor, publish, round, upsert_cursor, write, ◌>>=◌, continue,
}
use blockchain_clustering.Indexer.Collect.{ticks}
use blockchain_clustering.Indexer.Gathered.{collect_deltas-gathered, gathered}
use blockchain_clustering.Indexer.Keeps.{Keeps, Kept, Keeps-round, Keeps-write}
use blockchain_clustering.Indexer.Published.{delta}

-- The node gave a block of that height and hash, and of its transactions exactly the deltas that it
-- gave, from an instant on, were published, in a row and in their order.
pub record WasPublished (node_of : String → Node) (published : List Published) (b : Block)
    : Type 0 where
  pub asked : ℕ
  pub block : Fetched
  pub answered : (node_of b.chain_id).fetch_block asked b.height ≡ some block
  pub same_hash : block.raw.hash ≡ b.hash
  pub instant : ℕ
  pub earlier : List Published
  pub more : List Published
  pub said :
      published
      ≡ earlier
        ++ (map delta
              (gathered (node_of b.chain_id) b.chain_id block.raw instant block.transactions)
            ++ more)

-- That holds of every block that is stored.
abbrev pub AllPublished : (String → Node) → World → Type 0
AllPublished node_of w = (b : Block) → Memᴰ b w.block → WasPublished node_of w.published b

module _ (node_of : String → Node) where
  still :
      (published ps : List Published) (b : Block)
      → WasPublished node_of published b
      → WasPublished node_of (published ++ ps) b
  still published ps b p = record {
    asked = p.asked;
    block = p.block;
    answered = p.answered;
    same_hash = p.same_hash;
    instant = p.instant;
    earlier = p.earlier;
    more = p.more ++ ps;
    said =
        let ds =
          map delta
            (gathered (node_of b.chain_id) b.chain_id p.block.raw p.instant p.block.transactions) in
        ap (λ xs. xs ++ ps) p.said
        ∙ append_assoc p.earlier (ds ++ p.more) ps
        ∙ ap (λ xs. p.earlier ++ xs) (append_assoc ds p.more ps);
  }

  module _ (down : ℕ → Bool) (chain_id : String) where
    abbrev node : Node
    node = node_of chain_id

    Keeps-publish : (ps : List Published) → Keeps (AllPublished node_of) (publish node down ps)
    unfolding publish
    Keeps-publish ps =
        Keeps-write node down _ (λ w p. p) (λ w p b m. still w.published ps b (p b m))

    Keeps-delete :
        (h : ℤ) → Keeps (AllPublished node_of) (delete_blocks_from_height node down chain_id h)
    unfolding delete_blocks_from_height
    Keeps-delete h =
        Keeps-write node down _ (λ w p. p) (λ w p b m. p b ((mem-select _ b w.block).0 m).0)

    Keeps-upsert_cursor :
        (h : ℤ) → Keeps (AllPublished node_of) (upsert_cursor node down chain_id h)
    unfolding upsert_cursor
    Keeps-upsert_cursor h = Keeps-write node down _ (λ w p. p) (λ w p. p)

    -- The row of a block of the node.
    abbrev row : ℤ → Fetched → Block
    row h f = record {
      chain_id = chain_id;
      height = h;
      hash = f.raw.hash;
      parent_hash = f.raw.parent_hash;
    }

    abbrev of_block : ℕ → Fetched → List Published
    of_block t f = map delta (gathered node chain_id f.raw t f.transactions)

    stored_after :
        (asked t : ℕ) (h : ℤ) (f : Fetched) (w : World)
        → node.fetch_block asked h ≡ some f
        → AllPublished node_of w
        → AllPublished node_of (record w {
          block = insert_block (row h f) w.block;
          published = w.published ++ of_block t f;
        })
    stored_after asked t h f w answered p x =
        elim (Bool-cases
          (any (λ (y : Block). y.chain_id == chain_id && y.hash == f.raw.hash) w.block)) [
            | inl there ↦ rw there (λ m. still w.published _ x (p x m))
            | inr fresh ↦ rw fresh (λ m. elim ((Memᴰ-concat x (row h f) w.block).0 m) [
              | inl old ↦ still w.published _ x (p x old)
              | inr same ↦
                  subst (WasPublished node_of (w.published ++ of_block t f)) (sym same) (record {
                    asked = asked;
                    block = f;
                    answered = answered;
                    same_hash = refl;
                    instant = t;
                    earlier = w.published;
                    more = [];
                    said = ap (λ xs. w.published ++ xs) (sym (append-nil (of_block t f)));
                  })
            ])
          ]

    -- The call that stores a block fails, or finds its deltas published.
    Keeps-advance :
        (asked : ℕ) (h : ℤ) (f : Fetched)
        → node.fetch_block asked h ≡ some f
        → Keeps (AllPublished node_of) (advance node down chain_id h f)
    unfolding advance publish persist_block_and_cursor ◌>>=◌
    Keeps-advance asked h f answered = record {
      kept = λ w p.
          let t = ticks (length f.transactions) w.instant in
          let got = collect_deltas-gathered node chain_id f.raw down f.transactions [] w in
          elim (Bool-cases (down t)) [
            | inl fails ↦ rw (got, fails, advance, ◌>>=◌, continue, publish, write) p
            | inr works ↦ elim (Bool-cases (down (suc t))) [
              | inl fails ↦
                  rw
                    (
                      got, works, fails, advance, ◌>>=◌, continue, publish,
                      persist_block_and_cursor, write,
                    )
                    (λ x m. still w.published _ x (p x m))
              | inr stores ↦
                  rw
                    (
                      got, works, stores, advance, ◌>>=◌, continue, publish,
                      persist_block_and_cursor, write,
                    )
                    (stored_after asked w.instant h f w answered p)
            ]
          ];
    }

    pub Kept-AllPublished : Kept (AllPublished node_of) node down chain_id
    Kept-AllPublished = record {
      clock = λ w p. p;
      published = Keeps-publish;
      deleted = Keeps-delete;
      moved = Keeps-upsert_cursor;
      advanced = Keeps-advance;
    }

    -- If of every stored block the node gave it, and exactly the deltas that it then gave of its
    -- transactions were published, none of a transaction that could not be extracted, then the same
    -- holds after a round, whatever the node answers and whichever calls fail, of each block that is
    -- stored then.
    pub round_publishes_first :
        (start_height : ℤ) (w : World) (b : Block)
        → AllPublished node_of w
        → Memᴰ b (round (node_of chain_id) down chain_id start_height w).1.block
        → WasPublished node_of (round (node_of chain_id) down chain_id start_height w).1.published b
    round_publishes_first start_height w b p =
        (Keeps-round node down chain_id Kept-AllPublished start_height).kept w p b
