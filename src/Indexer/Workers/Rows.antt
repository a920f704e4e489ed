-- ===== src/Indexer/Workers/Rows.antt =====
-- blockchain-indexer/cmd/indexer/main.go: what the rounds of several chains do to each other's rows.
use blockchain_clustering.Base.{
  ◌≡◌, ◌≢◌, refl, ap, ◌∙◌, sym, subst, inl, inr, ℕ, String, Bool, true, false, List, [], ◌∷◌,
  Option, some, Memᴰ, Memᴰ-append, Memᴰ-nil, mem-select, select-select, select-concat,
  select-update_where, Option-cases, ◌==◌, ==_iff, string_eq, ◌&&◌, any, not, select, Bool-cases,
}
use mathlib.Core.List.Memᴰ
use blockchain_clustering.Base.Int.{ℤ, leb_ℤ, int_eq}
use blockchain_clustering.Indexer.{
  Block, Fetched, Cursor, Node, Published, World, advance, delete_blocks_from_height, insert_block,
  persist_block_and_cursor, publish, round, set_cursor, upsert_cursor,
}
use blockchain_clustering.Indexer.Keeps.{
  Keeps, Kept, Keeps-bind, Keeps-collect_deltas, Keeps-round, Keeps-write,
}
use blockchain_clustering.Indexer.Loop.{AllPublished, Kept-AllPublished}
use blockchain_clustering.Indexer.Workers.{
  ChainConfig, Worker, Interleaved, after_round, list_enabled_chain_configs, start, start_each,
  workers,
}
use blockchain_clustering.Indexer.Workers.Interleaved.{done, then_round}

abbrev pub blocks_of : String → List Block → List Block
blocks_of x = select (λ (b : Block). b.chain_id == x)

abbrev pub cursors_of : String → List Cursor → List Cursor
cursors_of x = select (λ (c : Cursor). c.chain_id == x)

-- The rows of a chain.
abbrev pub rows_of : String → World → List Block × List Cursor
rows_of x w = (blocks_of x w.block, cursors_of x w.cursor)

module _ (chain_id x : String) (other : chain_id ≢ x) where
  apart : (y : String) → (y == chain_id) ≡ true → (y == x) ≡ false
  apart y e = elim (Bool-cases (y == x)) [
    | inl same ↦ absurd (other (sym ((==_iff y chain_id).0 e) ∙ (==_iff y x).0 same))
    | inr differs ↦ differs
  ]

  apart_self : (chain_id == x) ≡ false
  apart_self = apart chain_id ((==_iff chain_id chain_id).1 refl)

  blocks-deleted :
      (h : ℤ) (bs : List Block)
      → blocks_of x (select (λ (b : Block). not (b.chain_id == chain_id && leb_ℤ h b.height)) bs)
        ≡ blocks_of x bs
  blocks-deleted h bs =
      select-select _ (λ (b : Block). b.chain_id == x) bs
        (λ b is. elim (Bool-cases (b.chain_id == chain_id)) [
          | inl mine ↦ absurd (cc (is, apart b.chain_id mine))
          | inr theirs ↦ rw theirs refl
        ])

  blocks-inserted :
      (b : Block) (bs : List Block)
      → b.chain_id ≡ chain_id
      → blocks_of x (insert_block b bs) ≡ blocks_of x bs
  blocks-inserted b bs is =
      elim (Bool-cases (any (λ (y : Block). y.chain_id == b.chain_id && y.hash == b.hash) bs)) [
        | inl there ↦ rw there refl
        | inr fresh ↦
            rw fresh (select-concat _ bs b (apart b.chain_id ((==_iff b.chain_id chain_id).1 is)))
      ]

  cursors-set :
      (h : ℤ) (cs : List Cursor) → cursors_of x (set_cursor chain_id h cs) ≡ cursors_of x cs
  cursors-set h cs = elim (Bool-cases (any (λ (c : Cursor). c.chain_id == chain_id) cs)) [
    | inl there ↦
        rw there
          (select-update_where _ _ _ cs (λ c mine. (apart c.chain_id mine, apart c.chain_id mine)))
    | inr fresh ↦ rw fresh (select-concat _ cs _ apart_self)
  ]

  -- The rows of the other chain are as given.
  abbrev Has : List Block × List Cursor → World → Type 0
  Has rows w = rows_of x w ≡ rows

  module _ (node : Node) (down : ℕ → Bool) (rows : List Block × List Cursor) where
    deleted-Has : (h : ℤ) → Keeps (Has rows) (delete_blocks_from_height node down chain_id h)
    unfolding delete_blocks_from_height
    deleted-Has h =
        Keeps-write node down _ (λ w p. p)
          (λ w p. ap (λ bs. (bs, cursors_of x w.cursor)) (blocks-deleted h w.block) ∙ p)

    moved-Has : (h : ℤ) → Keeps (Has rows) (upsert_cursor node down chain_id h)
    unfolding upsert_cursor
    moved-Has h =
        Keeps-write node down _ (λ w p. p)
          (λ w p. ap (λ cs. (blocks_of x w.block, cs)) (cursors-set h w.cursor) ∙ p)

    published-Has : (p : List Published) → Keeps (Has rows) (publish node down p)
    unfolding publish
    published-Has p = Keeps-write node down _ (λ w h. h) (λ w h. h)

    stored-Has :
        (b : Block)
        → b.chain_id ≡ chain_id
        → Keeps (Has rows) (persist_block_and_cursor node down b)
    unfolding persist_block_and_cursor
    stored-Has b is =
        Keeps-write node down _ (λ w p. p)
          (λ w p.
            ap (λ bs. (bs, cursors_of x (set_cursor b.chain_id b.height w.cursor)))
              (blocks-inserted b w.block is)
            ∙ ap (λ c. (blocks_of x w.block, cursors_of x (set_cursor c b.height w.cursor))) is
            ∙ ap (λ cs. (blocks_of x w.block, cs)) (cursors-set b.height w.cursor)
            ∙ p)

    advanced-Has :
        (t : ℕ) (h : ℤ) (b : Fetched)
        → node.fetch_block t h ≡ some b
        → Keeps (Has rows) (advance node down chain_id h b)
    unfolding advance
    advanced-Has t h b answered =
        Keeps-bind _ _ (Keeps-collect_deltas node down chain_id (λ w p. p) b.raw b.transactions [])
          (λ ds. Keeps-bind _ _ (published-Has _) (λ _. stored-Has _ refl))

    Kept-Has : Kept (Has rows) node down chain_id
    Kept-Has = record {
      clock = λ w p. p;
      published = published-Has;
      deleted = deleted-Has;
      moved = moved-Has;
      advanced = advanced-Has;
    }

round-rows_of :
    (down : ℕ → Bool) (k : Worker) (x : String) (w : World)
    → k.chain_id ≢ x
    → rows_of x (after_round down k w) ≡ rows_of x w
round-rows_of down k x w other =
    (Keeps-round k.node down k.chain_id (Kept-Has k.chain_id x other k.node down (rows_of x w))
        k.start_height).kept
      w refl

-- A chain that a loop was started for.
abbrev pub Started : List ChainConfig → String → Type 0
Started rows x =
    (c : ChainConfig) × Memᴰ c rows
    × (c.chain_id ≡ x)
    × (c.enabled ≡ true)
    × (c.model_type ≡ "account")

module _ (down : ℕ → Bool) (ks : List Worker) where
  Interleaved-AllPublished :
      (node_of : String → Node)
      → ((k : Worker) → Memᴰ k ks → node_of k.chain_id ≡ k.node)
      → (w w' : World) → Interleaved down ks w w'
      → AllPublished node_of w
      → AllPublished node_of w'
  Interleaved-AllPublished node_of serves w _ done p = p
  Interleaved-AllPublished node_of serves w w' (then_round k m rest) p =
      Interleaved-AllPublished node_of serves (after_round down k w) w' rest (
        subst (λ (n : Node). AllPublished node_of (round n down k.chain_id k.start_height w).1)
          (serves k m)
          ((Keeps-round (node_of k.chain_id) down k.chain_id
              (Kept-AllPublished node_of down k.chain_id) k.start_height).kept
            w p))

  Interleaved-rows_of :
      (x : String)
      → ((k : Worker) → Memᴰ k ks → k.chain_id ≢ x)
      → (w w' : World) → Interleaved down ks w w'
      → rows_of x w' ≡ rows_of x w
  Interleaved-rows_of x others w _ done = refl
  Interleaved-rows_of x others w w' (then_round k m rest) =
      Interleaved-rows_of x others (after_round down k w) w' rest
      ∙ round-rows_of down k x w (others k m)

module _ (dial : String → Option Node) where
  started_one :
      (c : ChainConfig) (k : Worker)
      → Memᴰ k (start dial c)
      → (c.chain_id ≡ k.chain_id) × (c.model_type ≡ "account")
  unfolding start
  started_one c k = elim (Bool-cases (c.model_type == "account")) [
    | inl account ↦ elim (Option-cases (dial c.node_endpoint)) [
      | inl fails ↦ rw (account, fails, start) (λ m. absurd (Memᴰ-nil m))
      | inr (node, dialled) ↦
          rw (account, dialled, start)
            (λ m. (
              sym (ap (λ (y : Worker). y.chain_id) (Memᴰ.eq_of_singleton m)),
              (==_iff c.model_type "account").0 account,
            ))
    ]
    | inr not_account ↦ rw (not_account, start) (λ m. absurd (Memᴰ-nil m))
  ]

  started_each :
      (cs : List ChainConfig) (k : Worker)
      → Memᴰ k (start_each dial cs)
      → (c : ChainConfig) × Memᴰ c cs × (c.chain_id ≡ k.chain_id) × (c.model_type ≡ "account")
  started_each [] k m = absurd (Memᴰ-nil m)
  started_each (c ∷ cs) k m = elim ((Memᴰ-append k (start dial c) (start_each dial cs)).0 m) [
    | inl here ↦ let (is, account) = started_one c k here in (c, Memᴰ.head refl, is, account)
    | inr there ↦
        let (e, at, is, account) = started_each cs k there in (e, Memᴰ.tail at, is, account)
  ]

  workers-Started :
      (rows : List ChainConfig) (k : Worker) → Memᴰ k (workers dial rows) → Started rows k.chain_id
  unfolding workers
  workers-Started rows k m =
      let (c, at, is, account) = started_each (list_enabled_chain_configs rows) k m in
      let (there, enabled) = (mem-select (λ (y : ChainConfig). y.enabled) c rows).0 at in
      (c, there, is, enabled, account)

  -- However the rounds of the loops that are started interleave, and whichever calls fail: if of every
  -- stored block the node of its chain gave it, and exactly the deltas that it then gave of its
  -- transactions were published, none of one that could not be extracted, then so it is after; and no block and no cursor of a chain is touched
  -- that is not an enabled chain of the account model.
  pub interleaved_lem :
      (rows : List ChainConfig) (down : ℕ → Bool) (node_of : String → Node) (w w' : World)
      → ((k : Worker) → Memᴰ k (workers dial rows) → node_of k.chain_id ≡ k.node)
      → Interleaved down (workers dial rows) w w'
      → AllPublished node_of w
      → AllPublished node_of w' × ((x : String) → ¬ Started rows x → rows_of x w' ≡ rows_of x w)
  interleaved_lem rows down node_of w w' serves run p = (
    Interleaved-AllPublished down (workers dial rows) node_of serves w w' run p,
    λ x never.
        Interleaved-rows_of down (workers dial rows) x
          (λ k m is. never (subst (Started rows) is (workers-Started rows k m))) w w' run,
  )
