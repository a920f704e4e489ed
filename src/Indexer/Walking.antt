-- ===== src/Indexer/Walking.antt =====
-- blockchain-indexer/internal/reorg/detector.go: the stored blocks that a search for the ancestor passes.
use blockchain_clustering.Base.{
  ◌≡◌, ◌⊎◌, refl, ap, ◌∙◌, ◌↔◌, sym, subst, inl, inr, ℕ, String, true, List, [], ◌∷◌, Option, none,
  some, Memᴰ, Memᴰ-nil, Memᴰ-cons, find_first-mem, ◌==◌, ==_iff, string_eq, find_first, Bool-cases,
  Option-cases, arith,
}
use blockchain_clustering.Base.Int.{ℤ, pos, int_eq, leb_ℤ, +ℤ_parts, -ℤ_parts, eq_of_parts}
use blockchain_clustering.Indexer.{Block, Node, after, at_height, before, later}

abbrev pub hash_at : String → ℤ → List Block → Option String
hash_at chain_id h blocks = elim (find_first (at_height chain_id h) blocks) [
  | none ↦ none
  | some b ↦ some b.hash
]

-- Where a search stops: no block is stored, or the node has the same one.
abbrev pub Common : Node → List Block → String → ℤ → Type 0
Common node blocks chain_id h =
    (hash_at chain_id h blocks ≡ none)
    ⊎ ((x : String) × (t : ℕ) × (hash_at chain_id h blocks ≡ some x)
        × (node.block_hash t h ≡ some x))

-- The stored blocks that a search passes, from a height down to the ancestor.
abbrev pub Walked : Node → List Block → String → ℤ → List String → ℤ → Type 0
Walked node blocks chain_id h [] a = (h ≡ a) × Common node blocks chain_id a
Walked node blocks chain_id h (x ∷ hs) a =
    (b : Block) × (find_first (at_height chain_id h) blocks ≡ some b)
    × (b.hash ≡ x)
    × Walked node blocks chain_id (before h) hs a

pub hash_at-some :
    (chain_id : String) (h : ℤ) (blocks : List Block) (x : String)
    → hash_at chain_id h blocks ≡ some x
    → (b : Block) × (find_first (at_height chain_id h) blocks ≡ some b) × (b.hash ≡ x)
hash_at-some chain_id h blocks x = elim (Option-cases (find_first (at_height chain_id h) blocks)) [
  | inl missing ↦ rw missing (λ e. absurd (cc e))
  | inr (b, found) ↦ rw found (λ e. (b, refl, cc e))
]

-- A chain has at most one stored block at a height.
abbrev pub OnePerHeight : String → List Block → Type 0
OnePerHeight chain_id blocks =
    (b c : Block)
    → Memᴰ b blocks
    → Memᴰ c blocks
    → b.chain_id ≡ chain_id
    → c.chain_id ≡ chain_id
    → b.height ≡ c.height
    → b ≡ c

-- A block of the chain above a height, and up to another.
abbrev pub Above : String → ℤ → ℤ → Block → Type 0
Above chain_id a h b =
    (b.chain_id ≡ chain_id) × (leb_ℤ (after a) b.height ≡ true) × (leb_ℤ b.height h ≡ true)

at_height_iff :
    (chain_id : String) (h : ℤ) (b : Block)
    → (at_height chain_id h b ≡ true) ↔ ((b.chain_id ≡ chain_id) × (b.height ≡ h))
at_height_iff chain_id h b = ground (arith, ==_iff b.chain_id chain_id, ==_iff b.height h)

leb_self : (h : ℤ) → leb_ℤ h h ≡ true
leb_self h = ground arith

module _ (node : Node) (chain_id : String) (blocks : List Block) where
  Walked-down :
      (h : ℤ) (hs : List String) (a : ℤ) → Walked node blocks chain_id h hs a → leb_ℤ a h ≡ true
  Walked-down h [] a (e, _) = subst (λ x. leb_ℤ x h ≡ true) e (leb_self h)
  Walked-down h (x ∷ hs) a (b, found, named, rest) =
      let low = Walked-down (before h) hs a rest in ground (arith, -ℤ_parts h (pos 1))

  pub Walked-stops :
      (h : ℤ) (hs : List String) (a : ℤ)
      → Walked node blocks chain_id h hs a
      → Common node blocks chain_id a
  Walked-stops h [] a (e, stops) = stops
  Walked-stops h (x ∷ hs) a (b, found, named, rest) = Walked-stops (before h) hs a rest

  -- Each hash is that of a stored block above the ancestor.
  pub Walked-stored :
      (h : ℤ) (hs : List String) (a : ℤ) (y : String)
      → Walked node blocks chain_id h hs a
      → Memᴰ y hs
      → (b : Block) × Memᴰ b blocks × Above chain_id a h b × (b.hash ≡ y)
  Walked-stored h [] a y e m = absurd (Memᴰ-nil m)
  Walked-stored h (x ∷ hs) a y (b, found, named, rest) m = elim ((Memᴰ-cons y x hs).0 m) [
    | inl is ↦
        let (there, here) = find_first-mem (at_height chain_id h) blocks b found in
        let (mine, height) = (at_height_iff chain_id h b).0 here in
        let low = Walked-down (before h) hs a rest in
        (
          b,
          there,
          (
            mine,
            ground (arith, height, +ℤ_parts a (pos 1), -ℤ_parts h (pos 1)),
            ground (arith, height),
          ),
          named ∙ sym is,
        )
    | inr later ↦
        let (c, there, (mine, above, below), is) = Walked-stored (before h) hs a y rest later in
        (c, there, (mine, above, ground (arith, -ℤ_parts h (pos 1))), is)
  ]

  -- Each stored block above the ancestor has its hash there.
  pub Walked-all :
      (h : ℤ) (hs : List String) (a : ℤ) (b : Block)
      → OnePerHeight chain_id blocks
      → Walked node blocks chain_id h hs a
      → Memᴰ b blocks
      → Above chain_id a h b
      → Memᴰ b.hash hs
  Walked-all h [] a b one (e, _) m (mine, above, below) =
      absurd (ground (arith, e, +ℤ_parts a (pos 1)))
  Walked-all h (x ∷ hs) a b one (c, found, named, rest) m (mine, above, below) =
      elim (Bool-cases (b.height == h)) [
        | inl here ↦
            let (there, at) = find_first-mem (at_height chain_id h) blocks c found in
            let (chain_is, height) = (at_height_iff chain_id h c).0 at in
            let same = one b c m there mine chain_is ((==_iff b.height h).0 here ∙ sym height) in
            Memᴰ.head (ap (λ (k : Block). k.hash) same ∙ named)
        | inr lower ↦ Memᴰ.tail (
            Walked-all (before h) hs a b one rest m (
              mine,
              above,
              ground (arith, -ℤ_parts h (pos 1), eq_of_parts b.height h, ==_iff b.height h),
            ))
      ]
