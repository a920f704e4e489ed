-- ===== src/UnionFind.antt =====
-- blockchain_cluster/internal/unionfind/unionfind.go: a disjoint-set forest over addresses, with
-- path compression and union by rank.
pub mod Roots
pub mod Find
pub mod Hung
pub mod Union
pub mod Connected
use blockchain_clustering.Base.{
  ℕ, zero, suc, ◌+◌, String, Bool, true, false, List, [], ◌∷◌, Option, none, some, ◌==◌, string_eq,
  ltb, leb, nat_eq, if◌then◌else◌,
}
use blockchain_clustering.Base.GoMap
use blockchain_clustering.Base.GoMap.{GoMap}

pub record Dsu : Type 0 where
  pub parent : GoMap String String
  pub rank : GoMap String ℕ

abbrev pub new : Dsu
new = record { parent = []; rank = [] }

-- d.rank[x], zero where x is missing
abbrev pub rank_of : Dsu → String → ℕ
rank_of d x = elim (GoMap.lookup x d.rank) [ none ↦ 0 | some n ↦ n ]

-- The largest rank. Ranks grow along parents, so no path is longer than this and one.
abbrev pub top : GoMap String ℕ → ℕ
top [] = 0
top ((x, n) ∷ m) = if leb n (top m) then top m else n

unfoldable pub register : String → Dsu → Dsu
register x d = record { parent = GoMap.insert x x d.parent; rank = GoMap.insert x 0 d.rank }

unfoldable pub set_parent : String → String → Dsu → Dsu
set_parent x r d = record d { parent = GoMap.insert x r d.parent }

unfoldable pub bump_rank : String → Dsu → Dsu
bump_rank x d = record d { rank = GoMap.insert x (suc (rank_of d x)) d.rank }

-- The recursion of `Find`, which goes up one parent at a time, by the rounds left.
unfoldable pub find_within : ℕ → Dsu → String → Dsu × String
find_within zero d x = (d, x)
find_within (suc n) d x = elim (GoMap.lookup x d.parent) [
  | none ↦ (register x d, x)
  | some p ↦ elim (p == x) [
    | true ↦ (d, p)
    | false ↦ let (d', r) = find_within n d p in (set_parent x r d', r)
  ]
]

unfoldable pub find : Dsu → String → Dsu × String
find d x = find_within (suc (top d.rank)) d x

-- `parent[rb] = ra`, after the ranks have chosen which of the two roots stays
unfoldable pub link : Dsu → String → String → Dsu
link d ra rb =
    if ltb (rank_of d ra) (rank_of d rb)
    then set_parent ra rb d
    else if rank_of d ra == rank_of d rb
    then set_parent rb ra (bump_rank ra d)
    else set_parent rb ra d

-- The result says whether the two sets were apart.
unfoldable pub union : Dsu → String → String → Dsu × Bool
union d a b =
    let (d₁, ra) = find d a in
    let (d₂, rb) = find d₁ b in if ra == rb then (d₂, false) else (link d₂ ra rb, true)
