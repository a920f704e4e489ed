-- ===== src/Indexer/Rollback.antt =====
-- blockchain-indexer/internal/reorg/detector.go: the search for the common ancestor ends.
use blockchain_clustering.Base.{
  ◌≡◌, refl, subst, inl, inr, ℕ, zero, suc, ◌≤◌, ◌<◌, String, Bool, true, false, List, [], ◌∷◌,
  some, ◌==◌, ==_iff, string_eq, if◌then◌else◌, ◌&&◌, Bool-cases, Option-cases, find_first, select,
  length, arith,
}
use blockchain_clustering.Base.Int.{ℤ, pos, leb_ℤ, int_eq, -ℤ_parts}
use blockchain_clustering.Indexer.{
  Block, Node, World, ask, at_height, before, continue, find_from, find_rollback, get_block_hash,
  later, pure, read, ◌>>=◌,
}

-- The stored blocks of a chain up to a height.
abbrev at_or_below : String → ℤ → Block → Bool
at_or_below chain_id h b = b.chain_id == chain_id && leb_ℤ b.height h

abbrev count : String → ℤ → List Block → ℕ
count chain_id h blocks = length (select (at_or_below chain_id h) blocks)

leb_before : (x h : ℤ) → leb_ℤ x (before h) ≡ true → leb_ℤ x h ≡ true
leb_before x h e = ground (arith, -ℤ_parts h (pos 1))

leb_before_self : (h : ℤ) → leb_ℤ h (before h) ≡ false
leb_before_self h = ground (arith, -ℤ_parts h (pos 1))

leb_self : (h : ℤ) → leb_ℤ h h ≡ true
leb_self h = ground arith

count-before :
    (chain_id : String) (h : ℤ) (blocks : List Block)
    → count chain_id (before h) blocks ≤ count chain_id h blocks
count-before chain_id h [] = ground arith
count-before chain_id h (b ∷ bs) = ground (arith, leb_before b.height h, count-before chain_id h bs)

at_height_parts :
    (chain_id : String) (h : ℤ) (x : Block)
    → at_height chain_id h x ≡ true
    → (at_or_below chain_id h x ≡ true) × (at_or_below chain_id (before h) x ≡ false)
at_height_parts chain_id h x e = ground (arith, ==_iff x.height h, leb_self h, leb_before_self h)

-- A block that is stored at a height is not counted below it.
count_found :
    (chain_id : String) (h : ℤ) (blocks : List Block) (b : Block)
    → find_first (at_height chain_id h) blocks ≡ some b
    → count chain_id (before h) blocks < count chain_id h blocks
count_found chain_id h [] b e = absurd (cc (e))
count_found chain_id h (x ∷ xs) b e = elim (Bool-cases (at_height chain_id h x)) [
  | inl here ↦
      let (above, below) = at_height_parts chain_id h x here in
      rw (above, below) (ground (arith, count-before chain_id h xs))
  | inr there ↦
      let found : find_first (at_height chain_id h) xs ≡ some b =
        subst (λ t. (if t then some x else find_first (at_height chain_id h) xs) ≡ some b) there
          e in
      ground (arith, leb_before x.height h, count_found chain_id h xs b found)
]

count_all :
    (chain_id : String) (h : ℤ) (blocks : List Block) → count chain_id h blocks ≤ length blocks
count_all chain_id h [] = ground arith
count_all chain_id h (b ∷ bs) = ground (arith, count_all chain_id h bs)

module _ (node : Node) (down : ℕ → Bool) (up : (t : ℕ) → down t ≡ false)
    (answers : (t : ℕ) (h : ℤ) → (hash : String) × (node.block_hash t h ≡ some hash)) where
  -- More rounds than blocks at or below the height are enough.
  find_from_ends :
      (rounds : ℕ) (chain_id : String) (h : ℤ) (w : World)
      → count chain_id h w.block < rounds
      → (r : List String × ℤ) × ((find_from node down rounds chain_id h w).0 ≡ some r)
  unfolding find_from get_block_hash read ask ◌>>=◌ pure
  find_from_ends zero chain_id h w enough = absurd (omega (arith, enough))
  find_from_ends (suc rounds) chain_id h w enough =
      elim (Option-cases (find_first (at_height chain_id h) w.block)) [
        | inl missing ↦
            rw (up w.instant, missing, find_from, get_block_hash, read, ◌>>=◌, continue)
              (([], h), refl)
        | inr (b, found) ↦
            let (hash, said) = answers (suc w.instant) h in
            let (r, rest) =
              find_from_ends rounds chain_id (before h) (later (later w))
                (omega (arith, count_found chain_id h w.block b found, enough)) in
            elim (Bool-cases (b.hash == hash)) [
              | inl same ↦
                  rw (up w.instant, found, said, same, find_from, get_block_hash, read, ◌>>=◌, ask)
                    (([], h), refl)
              | inr diverged ↦
                  rw
                    (
                      up w.instant,
                      found,
                      said,
                      diverged,
                      rest,
                      find_from,
                      get_block_hash,
                      read,
                      ◌>>=◌,
                      ask,
                    )
                    ((b.hash ∷ r.0, r.1), refl)
            ]
      ]

  -- Where no call fails, the search for the common ancestor returns one: the rounds are enough, as it
  -- passes a stored block in each.
  pub find_rollback_ends :
      (chain_id : String) (new_height : ℤ) (w : World)
      → (r : List String × ℤ) × ((find_rollback node down chain_id new_height w).0 ≡ some r)
  unfolding find_rollback
  find_rollback_ends chain_id new_height w =
      find_from_ends (suc (length w.block)) chain_id (before new_height) w
        (omega (arith, count_all chain_id (before new_height) w.block))
