-- ===== src/Tests/Rollbacks.antt =====
-- Rounds of several chains, and a rollback of one.
use mathlib.Core.List.Memᴰ
use blockchain_clustering.Base.{
  ◌≡◌, ◌↔◌, refl, ap, ◌∙◌, sym, inl, inr, String, true, List, [], ◌∷◌, ◌++◌, some, Memᴰ, Memᴰ-cons,
  ◌==◌, ==_iff, string_eq, if◌then◌else◌, ◌&&◌, not, select, arith,
}
use blockchain_clustering.Base.Int.{ℤ, pos, int_eq, leb_ℤ, ◌-ℤ◌}
use blockchain_clustering.Indexer.{
  Block, Node, World, after, ask, before, delete_blocks_from_height, find_from, find_rollback,
  get_block_hash, handle_reorg, publish, pure, read, set_cursor, upsert_cursor, write, ◌>>=◌,
}
use blockchain_clustering.Indexer.Announced.{handle_reorg_lem}
use blockchain_clustering.Indexer.Walking.{Above, Common, OnePerHeight}
use blockchain_clustering.Indexer.Loop.{AllPublished}
use blockchain_clustering.Indexer.Published.{reorg}
use blockchain_clustering.Indexer.Workers.{
  ChainConfig, Interleaved, Worker, after_round, start, workers,
}
use blockchain_clustering.Indexer.Workers.Interleaved.{done, then_round}
use blockchain_clustering.Indexer.Workers.Rows.{Started, interleaved_lem, rows_of}
use blockchain_clustering.Tests.Indexing.{growing, node, stored, up, world, world_published}

-- One chain of each model.
abbrev chain_rows : List ChainConfig
chain_rows =
    record {
      chain_id = "eth";
      model_type = "account";
      node_endpoint = "e";
      start_height = pos 0;
      enabled = true;
    }
    ∷ record {
      chain_id = "btc";
      model_type = "utxo";
      node_endpoint = "b";
      start_height = pos 0;
      enabled = true;
    }
    ∷ []

abbrev eth_worker : Worker
eth_worker = record { chain_id = "eth"; start_height = pos 0; node = growing }

one_round :
    Interleaved up (workers (λ _. some growing) chain_rows) world (after_round up eth_worker world)
unfolding workers start
one_round = then_round eth_worker (Memᴰ.head refl) done

one_serves : (k : Worker) → Memᴰ k (workers (λ _. some growing) chain_rows) → growing ≡ k.node
unfolding workers start
one_serves k m = sym (ap (λ (x : Worker). x.node) (Memᴰ.eq_of_singleton m))

interleaved_lem_example :
    AllPublished (λ _. growing) (after_round up eth_worker world)
    × ((x : String)
        → ¬ Started chain_rows x
        → rows_of x (after_round up eth_worker world) ≡ rows_of x world)
interleaved_lem_example =
    interleaved_lem (λ _. some growing) chain_rows up (λ _. growing) world
      (after_round up eth_worker world) one_serves one_round world_published

-- The node has replaced the stored block at height 2 and knows the same block below it.
abbrev under : Block
under = record { chain_id = "eth"; height = pos 1; hash = "p"; parent_hash = "q" }

abbrev forked : World
forked = record world { block = under ∷ stored ∷ [] }

abbrev replaced : Node
replaced = record node { block_hash = λ _ h. some (if h == pos 1 then "p" else "new2") }

forked_rolls : (handle_reorg replaced up "eth" (pos 3) forked).0 ≡ some tt
unfolding handle_reorg find_rollback find_from get_block_hash ask publish delete_blocks_from_height
    upsert_cursor read write pure ◌>>=◌ ◌-ℤ◌
forked_rolls = refl

one_two : ¬ (pos 1 ≡ pos 2)
one_two e = ground (arith, ==_iff (pos 1) (pos 2))

forked-OnePerHeight : OnePerHeight "eth" forked.block
forked-OnePerHeight b c m n _ _ same = elim ((Memᴰ-cons b _ _).0 m) [
  | inl b_is ↦ elim ((Memᴰ-cons c _ _).0 n) [
    | inl c_is ↦ b_is ∙ sym c_is
    | inr c_last ↦ absurd (
        one_two (
          sym (ap (λ (x : Block). x.height) b_is)
          ∙ same
          ∙ ap (λ (x : Block). x.height) (Memᴰ.eq_of_singleton c_last)))
  ]
  | inr b_last ↦ elim ((Memᴰ-cons c _ _).0 n) [
    | inl c_is ↦ absurd (
        one_two (
          sym (ap (λ (x : Block). x.height) c_is)
          ∙ sym same
          ∙ ap (λ (x : Block). x.height) (Memᴰ.eq_of_singleton b_last)))
    | inr c_last ↦ Memᴰ.eq_of_singleton b_last ∙ sym (Memᴰ.eq_of_singleton c_last)
  ]
]

handle_reorg_lem_example :
    (hs : List String) × (a : ℤ) × Common replaced forked.block "eth" a
    × ((handle_reorg replaced up "eth" (pos 3) forked).1.published
        ≡ forked.published ++ reorg "eth" hs ∷ [])
    × ((y : String)
        → Memᴰ y hs
          ↔ ((b : Block) × Memᴰ b forked.block × Above "eth" a (before (pos 3)) b × (b.hash ≡ y)))
    × ((handle_reorg replaced up "eth" (pos 3) forked).1.block
        ≡ select
            (λ (b : Block). not (b.chain_id == "eth" && leb_ℤ (after a) b.height))
            forked.block)
    × ((handle_reorg replaced up "eth" (pos 3) forked).1.cursor ≡ set_cursor "eth" a forked.cursor)
handle_reorg_lem_example =
    handle_reorg_lem replaced up "eth" (pos 3) forked forked-OnePerHeight forked_rolls
