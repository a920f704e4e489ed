-- ===== src/Indexer.antt =====
-- blockchain-indexer: internal/reorg/detector.go and the loop of cmd/indexer/main.go for one chain, with
-- the queries of internal/state. Every call of the node, the database and the broker is made at an
-- instant, and what lies outside is given for every instant: `node` answers for the chain as it is
-- then, and `down` tells whether a call of the database or the broker fails.
pub mod Rollback
pub mod Walking
pub mod Announced
pub mod Ethereum
pub mod Collect
pub mod Keeps
pub mod Triple
pub mod Gathered
pub mod Loop
pub mod Workers
pub mod Cursors
pub mod CatchUp
pub mod Extract
pub mod Publish
use blockchain_clustering.Base.{
  ℕ, zero, suc, ◌*◌, String, Bool, true, false, List, [], ◌∷◌, ◌++◌, Option, none, some, ◌==◌,
  string_eq, if◌then◌else◌, ◌&&◌, any, find_first, select, update_where, length, not, ltb, map,
}
use blockchain_clustering.Indexer.Extract.{ExtractedDelta, RawBlock, Transaction}
use blockchain_clustering.Base.Int.{ℤ, pos, int_eq, ◌+ℤ◌, ◌-ℤ◌, ltb_ℤ, leb_ℤ}

pub record Block : Type 0 where
  pub chain_id : String
  pub height : ℤ
  pub hash : String
  pub parent_hash : String

pub record Cursor : Type 0 where
  pub chain_id : String
  pub height : ℤ

-- A message that is written to the broker: a delta, or the notice of a rollback.
pub data Published : Type 0 where
  delta : ExtractedDelta → Published
  reorg : String → List String → Published

pub record World : Type 0 where
  pub block : List Block
  pub cursor : List Cursor
  pub published : List Published
  pub instant : ℕ

-- A block of the node, with its transactions.
pub record Fetched : Type 0 where
  pub raw : RawBlock
  pub transactions : List Transaction

-- The adapter of a chain, at every instant.
pub record Node : Type 0 where
  pub latest_height : ℕ → Option ℤ
  pub fetch_block : ℕ → ℤ → Option Fetched
  pub block_hash : ℕ → ℤ → Option String
  pub extract : ℕ → String → RawBlock → Transaction → Option (List ExtractedDelta)

-- A call that may fail, `none`.
abbrev pub Call : Type 0 → Type 0
Call A = World → Option A × World

abbrev pub later : World → World
later w = record w { instant = suc w.instant }

module _ {A : Type 0} where
  unfoldable pub pure : A → Call A
  pure a w = (some a, w)

module _ {A B : Type 0} where
  abbrev pub continue : Option A → (A → Call B) → Call B
  continue none f w = (none, w)
  continue (some a) f w = f a w

  infixl 5 ◌>>=◌ ◌>>◌
  unfoldable pub ◌>>=◌ : Call A → (A → Call B) → Call B
  ◌>>=◌ m f w = let (r, w') = m w in continue r f w'

  abbrev pub ◌>>◌ : Call A → Call B → Call B
  m >> n = m >>= λ _. n

module _ {A : Type 0} where
  unfoldable pub ask : (ℕ → Option A) → Call A
  ask f w = (f w.instant, later w)

-- int64 arithmetic is far from its bounds at every height of a chain.
abbrev pub before : ℤ → ℤ
before h = h -ℤ pos 1

abbrev pub after : ℤ → ℤ
after h = h +ℤ pos 1

-- GetBlockAtHeight; `some none` is found = false.
abbrev pub at_height : String → ℤ → Block → Bool
at_height chain_id height b = b.chain_id == chain_id && b.height == height

abbrev pub set_cursor : String → ℤ → List Cursor → List Cursor
set_cursor chain_id height cursors =
    if any (λ (c : Cursor). c.chain_id == chain_id) cursors
    then update_where (λ (c : Cursor). c.chain_id == chain_id) (λ c. record c { height = height })
        cursors
    else cursors ++ record { chain_id = chain_id; height = height } ∷ []

-- ON CONFLICT (chain_id, hash) DO NOTHING
abbrev pub insert_block : Block → List Block → List Block
insert_block b blocks =
    if any (λ (x : Block). x.chain_id == b.chain_id && x.hash == b.hash) blocks
    then blocks
    else blocks ++ b ∷ []

abbrev pub start_from : ℤ → ℤ → Option ℤ → ℤ
start_from start_height latest none =
    if ltb_ℤ (pos 0) start_height then before start_height else before latest
start_from start_height latest (some h) = h

module _ (node : Node) (down : ℕ → Bool) where
  unfoldable pub read : {A : Type 0} → (World → A) → Call A
  read f w = (if down w.instant then none else some (f w), later w)

  unfoldable pub write : (World → World) → Call (Unit {0})
  write f w = if down w.instant then (none, later w) else (some tt, later (f w))

  unfoldable pub get_block_hash : String → ℤ → Call (Option String)
  unfolding read
  get_block_hash chain_id height = read (λ w.
      elim (find_first (at_height chain_id height) w.block) [ none ↦ none | some b ↦ some b.hash ])

  unfoldable pub is_continuous : String → ℤ → String → Call Bool
  is_continuous chain_id new_height new_parent_hash = do
    stored ← get_block_hash chain_id (before new_height)
    pure (elim stored as (λ _. Bool) [ none ↦ true | some h ↦ h == new_parent_hash ])

  -- The loop of FindRollback from height `h`, by the rounds left: the hashes to roll back, and the
  -- height of the common ancestor. Running out of rounds is no result.
  unfoldable pub find_from : ℕ → String → ℤ → Call (List String × ℤ)
  find_from zero chain_id h = ask (λ _. none)
  find_from (suc rounds) chain_id h = do
    stored ← get_block_hash chain_id h
    elim stored as (λ _. Call (List String × ℤ)) [
      | none ↦ pure ([], h)
      | some stored_hash ↦ (do
        actual ← ask (λ t. node.block_hash t h)
        (if stored_hash == actual then pure ([], h) else (do
          (hashes, ancestor) ← find_from rounds chain_id (before h)
          pure (stored_hash ∷ hashes, ancestor))))
    ]

  -- One round for each stored block, and one to stop at.
  unfoldable pub find_rollback : String → ℤ → Call (List String × ℤ)
  unfolding find_from
  find_rollback chain_id new_height w =
      find_from (suc (length w.block)) chain_id (before new_height) w

  -- The messages of a call are written all or, where it fails, none.
  unfoldable pub publish : List Published → Call (Unit {0})
  unfolding write
  publish ps = write (λ w. record w { published = w.published ++ ps })

  unfoldable pub delete_blocks_from_height : String → ℤ → Call (Unit {0})
  unfolding write
  delete_blocks_from_height chain_id height = write (λ w. record w {
    block = select (λ (b : Block). not (b.chain_id == chain_id && leb_ℤ height b.height)) w.block;
  })

  unfoldable pub upsert_cursor : String → ℤ → Call (Unit {0})
  unfolding write
  upsert_cursor chain_id height =
      write (λ w. record w { cursor = set_cursor chain_id height w.cursor })

  unfoldable pub handle_reorg : String → ℤ → Call (Unit {0})
  handle_reorg chain_id new_height = do
    (rolled_back, ancestor) ← find_rollback chain_id new_height
    publish (reorg chain_id rolled_back ∷ [])
    delete_blocks_from_height chain_id (after ancestor)
    upsert_cursor chain_id ancestor

  -- The transaction of a block and the cursor: it is committed whole, or nothing is written.
  unfoldable pub persist_block_and_cursor : Block → Call (Unit {0})
  unfolding write
  persist_block_and_cursor b = write (λ w. record w {
    block = insert_block b w.block;
    cursor = set_cursor b.chain_id b.height w.cursor;
  })

  unfoldable pub get_cursor : String → Call (Option ℤ)
  unfolding read
  get_cursor chain_id = read (λ w.
      elim (find_first (λ (c : Cursor). c.chain_id == chain_id) w.cursor) [
        | none ↦ none
        | some c ↦ some c.height
      ])

  -- The loop over the transactions of a block: one that cannot be extracted is only logged.
  unfoldable pub collect_deltas :
      String → RawBlock → List ExtractedDelta → List Transaction → Call (List ExtractedDelta)
  collect_deltas chain_id block ds [] w = (some ds, w)
  collect_deltas chain_id block ds (tx ∷ txs) w =
      let more = elim (node.extract w.instant chain_id block tx) as (λ _. List ExtractedDelta) [
        | none ↦ []
        | some tx_deltas ↦ tx_deltas
      ] in
      collect_deltas chain_id block (ds ++ more) txs (later w)

  -- A block that continues the chain: its deltas are published before it is stored.
  unfoldable pub advance : String → ℤ → Fetched → Call (Unit {0})
  unfolding collect_deltas
  advance chain_id next b = do
    ds ← collect_deltas chain_id b.raw [] b.transactions
    publish (map delta ds)
    persist_block_and_cursor (record {
      chain_id = chain_id;
      height = next;
      hash = b.raw.hash;
      parent_hash = b.raw.parent_hash;
    })

  -- One round of runEthereumLoop; `none` is a round that is retried after a pause.
  unfoldable pub round : String → ℤ → Call (Unit {0})
  unfolding advance handle_reorg
  round chain_id start_height = do
    latest ← ask node.latest_height
    cursor ← get_cursor chain_id
    let height = start_from start_height latest cursor
    (if leb_ℤ latest height then pure tt else (do
      b ← ask (λ t. node.fetch_block t (after height))
      continuous ← is_continuous chain_id (after height) b.raw.parent_hash
      (if continuous
          then advance chain_id (after height) b
          else handle_reorg chain_id (after height))))

-- The pauses, in seconds.
pub record Backoff : Type 0 where
  pub cur : ℕ
  pub max : ℕ

unfoldable pub new_backoff : Backoff
new_backoff = record { cur = 1; max = 60 }

-- The pause, and the next one.
unfoldable pub next : Backoff → ℕ × Backoff
next b = (b.cur, record b { cur = if ltb b.max (b.cur * 2) then b.max else b.cur * 2 })

unfoldable pub reset : Backoff → Backoff
reset b = record b { cur = 1 }
