-- ===== src/Tests/Indexing.antt =====
-- A run of the indexer over a chain whose node has replaced the stored block at height 2.
use mathlib.Core.List.Memᴰ
use blockchain_clustering.Base.{
  ◌≡◌, refl, sym, subst, ℕ, String, Bool, false, List, [], ◌∷◌, Option, none, some, string_eq, Memᴰ,
  ◌==◌, if◌then◌else◌,
}
use blockchain_clustering.Base.Int.{ℤ, pos, int_eq, ◌+ℤ◌, ◌-ℤ◌}
use blockchain_clustering.Indexer.{
  Block, Fetched, Node, collect_deltas, World, advance, ask, find_rollback, get_block_hash,
  get_cursor, is_continuous, persist_block_and_cursor, publish, pure, read, round, start_from,
  write, ◌>>=◌,
}
use blockchain_clustering.Indexer.CatchUp.{Matches, catches_up, due, rounds}
use blockchain_clustering.Indexer.Cursors.{cursor_of}
use blockchain_clustering.Indexer.Loop.{AllPublished, WasPublished, round_publishes_first}
use blockchain_clustering.Indexer.Extract.{ExtractedDelta, Transaction}
use blockchain_clustering.Indexer.Published.{delta}
use blockchain_clustering.Indexer.Rollback.{find_rollback_ends}

abbrev pub stored : Block
stored = record { chain_id = "eth"; height = pos 2; hash = "old"; parent_hash = "p" }

abbrev incoming : String → Fetched
incoming parent = record {
  raw = record { height = pos 3; hash = "new3"; parent_hash = parent };
  transactions = record { hash = "0xt"; value = 7; to = none } ∷ [];
}

abbrev first_block : Fetched
first_block = record {
  raw = record { height = pos 2; hash = "old"; parent_hash = "p" };
  transactions = record { hash = "0xt"; value = 7; to = none } ∷ [];
}

-- A transaction takes 7 from an address; that of another hash cannot be extracted.
abbrev found : ℤ → Transaction → Option (List ExtractedDelta)
found height tx =
    if tx.hash == "0xt"
    then some (
        record {
          chain_id = "eth";
          txid = tx.hash;
          delta_index = 0;
          address = "0xa";
          amount = "-7";
          kind = "native";
          block_height = height;
          block_hash = "";
          meta = [];
        }
        ∷ [])
    else none

abbrev first_delta : ExtractedDelta
first_delta = record {
  chain_id = "eth";
  txid = "0xt";
  delta_index = 0;
  address = "0xa";
  amount = "-7";
  kind = "native";
  block_height = pos 2;
  block_hash = "";
  meta = [];
}

abbrev pub node : Node
node = record {
  latest_height = λ _. some (pos 3);
  fetch_block = λ _ _. some (incoming "new2");
  block_hash = λ _ _. some "new2";
  extract = λ _ _ b tx. found b.height tx;
}

abbrev pub world : World
world = record {
  block = stored ∷ [];
  cursor = record { chain_id = "eth"; height = pos 2 } ∷ [];
  published = delta first_delta ∷ [];
  instant = 0;
}

abbrev pub up : ℕ → Bool
up _ = false

find_rollback_ends_example :
    (r : List String × ℤ) × ((find_rollback node up "eth" (pos 3) world).0 ≡ some r)
find_rollback_ends_example =
    find_rollback_ends node up (λ _. refl) (λ _ _. ("new2", refl)) "eth" (pos 3) world

-- A chain whose next block continues the stored one.
abbrev pub growing : Node
growing = record {
  latest_height = λ _. some (pos 3);
  fetch_block = λ _ h. some (if h == pos 2 then first_block else incoming "old");
  block_hash = λ _ _. some "old";
  extract = λ _ _ b tx. found b.height tx;
}

pub world_published : AllPublished (λ _. growing) world
world_published b m =
    subst (WasPublished (λ _. growing) world.published) (sym (Memᴰ.eq_of_singleton m)) (record {
      asked = 0;
      block = first_block;
      answered = refl;
      same_hash = refl;
      instant = 0;
      earlier = [];
      more = [];
      said = refl;
    })

abbrev arrived : Block
arrived = record { chain_id = "eth"; height = pos 3; hash = "new3"; parent_hash = "old" }

stored_next : Memᴰ arrived (round growing up "eth" (pos 0) world).1.block
unfolding round ask get_cursor read ◌>>=◌ is_continuous get_block_hash pure advance collect_deltas
    publish persist_block_and_cursor write ◌-ℤ◌ ◌+ℤ◌
stored_next = Memᴰ.tail (Memᴰ.head refl)

round_publishes_first_example :
    WasPublished (λ _. growing) (round growing up "eth" (pos 0) world).1.published arrived
round_publishes_first_example =
    round_publishes_first (λ _. growing) up "eth" (pos 0) world arrived world_published stored_next

-- A chain that does not change: heights 2 and 3 have blocks of their own.
abbrev hash_at : ℤ → String
hash_at h = if h == pos 2 then "old" else if h == pos 3 then "new3" else "block"

abbrev chain : ℤ → Fetched
chain h = record {
  raw = record { height = h; hash = hash_at h; parent_hash = hash_at (h -ℤ pos 1) };
  transactions =
      record { hash = "0xt"; value = 7; to = none }
      ∷ record { hash = "0xl"; value = 1; to = none }
      ∷ [];
}

abbrev steady : Node
steady = record {
  latest_height = λ _. some (pos 4);
  fetch_block = λ _ h. some (chain h);
  block_hash = λ _ h. some (hash_at h);
  extract = λ _ _ b tx. found b.height tx;
}

world-Matches : Matches "eth" chain world
world-Matches b m mine =
    subst (λ (x : Block). x.hash ≡ (chain x.height).raw.hash) (sym (Memᴰ.eq_of_singleton m)) refl

four : pos 4 ≡ pos 2 +ℤ pos 2
unfolding ◌+ℤ◌
four = refl

catches_up_example :
    (start_from (pos 0) (pos 4) (cursor_of "eth" (rounds steady up "eth" (pos 0) 2 world)) ≡ pos 4)
    × ((rounds steady up "eth" (pos 0) 2 world).published
        ≡ delta first_delta ∷ due "eth" chain found 2 (pos 2))
catches_up_example =
    catches_up steady up "eth" chain found (pos 4) (pos 0) (λ _. refl) (λ _. refl) (λ _ _ _. refl)
      (λ _ _. refl) (λ _ _ _. refl) 2 (pos 2) world world-Matches refl four
