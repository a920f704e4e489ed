-- ===== src/UnionFind/Roots.antt =====
-- The root that an address leads to, and the invariant of the forest.
use blockchain_clustering.Base.{
  ℕ, ◌≤◌, ◌<◌, String, ◌≡◌, ◌≢◌, refl, sym, ◌∙◌, inl, inr, subst, [], ◌∷◌, none, some, string_eq,
  arith, Option-cases,
}
use blockchain_clustering.Base.GoMap
use blockchain_clustering.Base.GoMap.{GoMap}
use blockchain_clustering.UnionFind.{Dsu, rank_of, top, new}

-- `HasRoot m r x`: the parents lead from x to r. An address that is not registered is its own root.
pub data HasRoot (m : GoMap String String) (r : String) : String → Type 0 where
  fresh : {x : String} → GoMap.lookup x m ≡ none → r ≡ x → HasRoot m r x
  stop : {x : String} → GoMap.lookup x m ≡ some x → r ≡ x → HasRoot m r x
  climb : {x p : String} → GoMap.lookup x m ≡ some p → p ≢ x → HasRoot m r p → HasRoot m r x

pub record Valid (d : Dsu) : Type 0 where
  pub climbs : (x p : String) → GoMap.lookup x d.parent ≡ some p → p ≢ x → rank_of d x < rank_of d p
  pub ranked : (x : String) → GoMap.lookup x d.parent ≡ none → rank_of d x ≡ 0

-- Two addresses are in one set.
abbrev pub Same : Dsu → String → String → Type 0
Same d x y = (r : String) × HasRoot d.parent r x × HasRoot d.parent r y

pub HasRoot-unique :
    {m : GoMap String String} {r s x : String} → HasRoot m r x → HasRoot m s x → r ≡ s
HasRoot-unique (fresh e p) (fresh f q) = p ∙ sym q
HasRoot-unique (stop e p) (stop f q) = p ∙ sym q
HasRoot-unique (fresh e p) (stop f q) = p ∙ sym q
HasRoot-unique (stop e p) (fresh f q) = p ∙ sym q
HasRoot-unique (fresh e p) (climb f n h) = cc
HasRoot-unique (stop e p) (climb f n h) = absurd (n (ground arith))
HasRoot-unique (climb f n h) (fresh e p) = cc
HasRoot-unique (climb f n h) (stop e p) = absurd (n (ground arith))
HasRoot-unique {m} {r} {s} (climb {p = p} e n h) (climb {p = q} f k g) =
    let same : q ≡ p = ground arith in HasRoot-unique h (subst (HasRoot m s) same g)

pub rank-le-top : (m : GoMap String ℕ) (x : String) (n : ℕ) → GoMap.lookup x m ≡ some n → n ≤ top m
unfolding GoMap.lookup
rank-le-top [] x n h = absurd (cc)
rank-le-top ((y, k) ∷ m) x n h = ground (arith, rank-le-top m x n)

pub rank_of-le-top : (d : Dsu) (x : String) → rank_of d x ≤ top d.rank
rank_of-le-top d x = elim (Option-cases (GoMap.lookup x d.rank)) [
  | inl e ↦ rw (e, rank_of) (omega arith)
  | inr (n, e) ↦ rw (e, rank_of) (rank-le-top d.rank x n e)
]

module _ (d : Dsu) (v : Valid d) where
  pub rank-le-root : {r x : String} → HasRoot d.parent r x → rank_of d x ≤ rank_of d r
  rank-le-root (fresh e p) = ground arith
  rank-le-root (stop e p) = ground arith
  rank-le-root (climb {x} {p} e n h) = omega (arith, v.climbs x p e n, rank-le-root h)

pub Valid-new : Valid new
unfolding GoMap.lookup
Valid-new = record { climbs = λ x p e n. cc; ranked = λ x e. refl }
