-- ===== src/Indexer/Announced.antt =====
-- blockchain-indexer/cmd/indexer/main.go, handleReorg: what a rollback announces, deletes and leaves.
use blockchain_clustering.Base.{
  ◌≡◌, refl, ap, ◌∙◌, ◌↔◌, sym, subst, inl, inr, ℕ, zero, suc, length, String, Bool, List, [], ◌∷◌,
  ◌++◌, Option, some, Memᴰ, ◌==◌, ==_iff, string_eq, ◌&&◌, not, select,
}
use blockchain_clustering.Base.Int.{ℤ, int_eq, leb_ℤ}
use blockchain_clustering.Indexer.{
  Block, Cursor, Node, Published, World, after, before, delete_blocks_from_height, find_from,
  find_rollback, get_block_hash, handle_reorg, publish, set_cursor, upsert_cursor,
}
use blockchain_clustering.Indexer.Triple.{
  Ensures, After, Ensures-pure, Ensures-if, Ensures-ask, Ensures-read, Ensures-write, Ensures-bind,
  Ensures-option, Ensures-and,
}
use blockchain_clustering.Indexer.Published.{reorg}
use blockchain_clustering.Indexer.Walking.{
  Above, Common, OnePerHeight, Walked, hash_at, hash_at-some, Walked-all, Walked-stops,
  Walked-stored,
}

-- The tables and the topic.
abbrev Tables : Type 0
Tables = List Block × List Cursor × List Published

abbrev tables : World → Tables
tables w = (w.block, w.cursor, w.published)

module _ (node : Node) (down : ℕ → Bool) (chain_id : String) where
  abbrev Walk : Tables → ℤ → List String × ℤ → World → Type 0
  Walk t h r w = Walked node t.0 chain_id h r.0 r.1 × (tables w ≡ t)

  -- What is known after the node was asked.
  abbrev Asked : Tables → ℤ → Option String → String → Type 0
  Asked t h stored actual =
      (stored ≡ hash_at chain_id h t.0) × ((at : ℕ) × (node.block_hash at h ≡ some actual))

  find_from-Walk :
      (t : Tables) (rounds : ℕ) (h : ℤ)
      → Ensures (λ w. tables w ≡ t) (Walk t h) (find_from node down rounds chain_id h)
  unfolding find_from get_block_hash
  find_from-Walk t zero h = Ensures-ask _ (λ w a e p. absurd (cc e))
  find_from-Walk t (suc rounds) h =
      Ensures-bind (λ o w. (o ≡ hash_at chain_id h t.0) × (tables w ≡ t)) _ _
        (Ensures-read node down _ (λ w p. (ap (λ (s : Tables). hash_at chain_id h s.0) p, p)))
        (λ stored.
          Ensures-option stored _ _
            (λ missing. Ensures-pure _ (λ w (same, kept). ((refl, inl (sym same ∙ missing)), kept)))
            (λ x is.
              Ensures-bind (λ actual w. Asked t h stored actual × (tables w ≡ t)) _ _
                (Ensures-ask _ (λ w actual said (same, kept). ((same, (w.instant, said)), kept)))
                (λ actual.
                  Ensures-if (x == actual) _ _
                    (λ agrees. Ensures-pure _ (λ w ((same, (t₀, said)), kept). (
                      (
                        refl,
                        inr (
                          x,
                          t₀,
                          sym same ∙ is,
                          said ∙ ap some (sym ((==_iff x actual).0 agrees)),
                        ),
                      ),
                      kept,
                    )))
                    (λ _.
                      Ensures-bind (λ r w. Asked t h stored actual × Walk t (before h) r w) _ _
                        (Ensures-and _ (find_from-Walk t rounds (before h)))
                        (λ (hashes, ancestor). Ensures-pure _ (λ w ((same, _), (walked, kept)).
                          let (b, found, named) = hash_at-some chain_id h t.0 x (sym same ∙ is) in
                          ((b, found, named, walked), kept)))))))

  -- What a rollback from a height leaves, of the tables before.
  abbrev Rolled : Tables → ℤ → World → Type 0
  Rolled t h w =
      (hs : List String) × (a : ℤ) × Walked node t.0 chain_id (before h) hs a
      × (w.block
          ≡ select (λ (b : Block). not (b.chain_id == chain_id && leb_ℤ (after a) b.height)) t.0)
      × (w.cursor ≡ set_cursor chain_id a t.1)
      × (w.published ≡ t.2 ++ reorg chain_id hs ∷ [])

  handle_reorg-Rolled :
      (t : Tables) (h : ℤ)
      → Ensures (λ w. tables w ≡ t) (λ _. Rolled t h) (handle_reorg node down chain_id h)
  unfolding handle_reorg find_rollback publish delete_blocks_from_height upsert_cursor
  handle_reorg-Rolled t h =
      Ensures-bind (Walk t (before h)) _ _
        (record { at = λ w p. (find_from-Walk t (suc (length w.block)) (before h)).at w p })
        (λ (hs, a).
          let noted : Tables = (t.0, t.1, t.2 ++ reorg chain_id hs ∷ []) in
          let left =
            select (λ (b : Block). not (b.chain_id == chain_id && leb_ℤ (after a) b.height)) t.0 in
          Ensures-bind (λ _ w. Walked node t.0 chain_id (before h) hs a × (tables w ≡ noted)) _ _
            (Ensures-write node down _ (λ w (walked, p).
              (walked, ap (λ (s : Tables). (s.0, s.1, s.2 ++ reorg chain_id hs ∷ [])) p)))
            (λ _.
              Ensures-bind
                (λ _ w.
                  Walked node t.0 chain_id (before h) hs a × (tables w ≡ (left, noted.1, noted.2)))
                _ _
                (Ensures-write node down _ (λ w (walked, p). (
                  walked,
                  ap
                      (λ (s : Tables). (
                        select
                            (λ (b : Block).
                              not (b.chain_id == chain_id && leb_ℤ (after a) b.height))
                            s.0,
                        s.1,
                        s.2,
                      ))
                      p,
                )))
                (λ _. Ensures-write node down _ (λ w (walked, p). (
                  hs,
                  a,
                  walked,
                  ap (λ (s : Tables). s.0) p,
                  ap (λ (s : Tables). set_cursor chain_id a s.1) p,
                  ap (λ (s : Tables). s.2) p,
                )))))

  -- Where a chain has at most one stored block at a height, a rollback that succeeds from a height
  -- announces exactly the hashes of the stored blocks below it and above an ancestor, which is a height
  -- where no block is stored or where the node, when asked, had the stored one; and it deletes every
  -- stored block of the chain above that ancestor, to which it moves the cursor.
  pub handle_reorg_lem :
      (h : ℤ) (w : World)
      → OnePerHeight chain_id w.block
      → (handle_reorg node down chain_id h w).0 ≡ some tt
      → (hs : List String) × (a : ℤ) × Common node w.block chain_id a
        × ((handle_reorg node down chain_id h w).1.published
            ≡ w.published ++ reorg chain_id hs ∷ [])
        × ((y : String)
            → Memᴰ y hs
              ↔ ((b : Block) × Memᴰ b w.block × Above chain_id a (before h) b × (b.hash ≡ y)))
        × ((handle_reorg node down chain_id h w).1.block
            ≡ select
                (λ (b : Block). not (b.chain_id == chain_id && leb_ℤ (after a) b.height))
                w.block)
        × ((handle_reorg node down chain_id h w).1.cursor ≡ set_cursor chain_id a w.cursor)
  handle_reorg_lem h w one fine =
      let done = (handle_reorg-Rolled (tables w) h).at w refl in
      let (hs, a, walked, left, moved, said) =
        subst (λ o. After (λ _. Rolled (tables w) h) o (handle_reorg node down chain_id h w).1) fine
          done in
      (
        hs,
        a,
        Walked-stops node chain_id w.block (before h) hs a walked,
        said,
        λ y. (
          Walked-stored node chain_id w.block (before h) hs a y walked,
          λ (b, m, above, is).
              subst (λ x. Memᴰ x hs) is
                (Walked-all node chain_id w.block (before h) hs a b one walked m above),
        ),
        left,
        moved,
      )
