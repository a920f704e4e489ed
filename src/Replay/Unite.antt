-- ===== src/Replay/Unite.antt =====
-- The second loop of `Replay`: the forest stands for the components of the sorted pairs.
use blockchain_clustering.Base.{
  String, ◌≡◌, refl, ◌⊎◌, inl, inr, ◌↔◌, List, [], ◌∷◌, ◌++◌, map, foldl, Memᴰ, Memᴰ-cons, subst,
  arith, ltb, Bool-cases, pair_eq, string_eq,
}
use mathlib.Core.List.{append_assoc, append-nil}
use blockchain_clustering.Base.Float.{Float64}
use blockchain_clustering.Base.GoMap.{GoMap, keys, mem-keys-perm}
use blockchain_clustering.UnionFind.{Dsu, union}
use blockchain_clustering.UnionFind.Connected.{
  here, forth, Connected-map, Refines, Refines-new, Refines-union,
}
use blockchain_clustering.Replay.{
  PairKey, PairEvidence, CombinedEdge, MapOrder, United, insert_edge, sort_edges, unite, unite_all,
  edge_of, combined_edges,
}

module _ {F : Type 0} where
  abbrev pub edge_keys : List (CombinedEdge F) → List (String × String)
  edge_keys [] = []
  edge_keys (e ∷ es) = e.key ∷ edge_keys es

  mem-insert_edge :
      (k : PairKey) (e : CombinedEdge F) (es : List (CombinedEdge F))
      → Memᴰ k (edge_keys (insert_edge e es)) ↔ ((k ≡ e.key) ⊎ Memᴰ k (edge_keys es))
  unfolding insert_edge
  mem-insert_edge k e [] = Memᴰ-cons k e.key []
  mem-insert_edge k e (x ∷ xs) = elim (Bool-cases (ltb x.first_order e.first_order)) [
    | inl less ↦ rw less (
        ground (
          arith,
          mem-insert_edge k e xs,
          Memᴰ-cons k x.key (edge_keys xs),
          Memᴰ-cons k x.key (edge_keys (insert_edge e xs)),
        ))
    | inr more ↦ rw more (Memᴰ-cons k e.key (x.key ∷ edge_keys xs))
  ]

  mem-sort_edges :
      (k : PairKey) (es : List (CombinedEdge F))
      → Memᴰ k (edge_keys (sort_edges es)) ↔ Memᴰ k (edge_keys es)
  unfolding sort_edges
  mem-sort_edges k [] = (λ m. m, λ m. m)
  mem-sort_edges k (e ∷ es) = ground (
    arith,
    mem-sort_edges k es,
    mem-insert_edge k e (sort_edges es),
    Memᴰ-cons k e.key (edge_keys es),
  )

  -- Each step adds its pair to the forest, whether or not it merged two sets.
  Refines-unite :
      (E : List (String × String)) (u : United F) (ce : CombinedEdge F)
      → Refines u.dsu E
      → Refines (unite u ce).dsu (E ++ ce.key ∷ [])
  unfolding unite
  Refines-unite E u ce h = elim (Bool-cases (union u.dsu ce.key.0 ce.key.1).1) [
    | inl merged ↦ rw merged (Refines-union u.dsu E ce.key.0 ce.key.1 h)
    | inr same ↦ rw same (Refines-union u.dsu E ce.key.0 ce.key.1 h)
  ]

  Refines-foldl :
      (E : List (String × String)) (ces : List (CombinedEdge F)) (u : United F)
      → Refines u.dsu E
      → Refines (foldl unite u ces).dsu (E ++ edge_keys ces)
  Refines-foldl E [] u h = rw append-nil h
  Refines-foldl E (ce ∷ ces) u h =
      subst (Refines (foldl unite (unite u ce) ces).dsu)
        (append_assoc E (ce.key ∷ []) (edge_keys ces))
        (Refines-foldl (E ++ ce.key ∷ []) ces (unite u ce) (Refines-unite E u ce h))

-- A list with the same edges has the same components.
pub Refines-same :
    {d : Dsu} {E E' : List (String × String)}
    → ((k : String × String) → Memᴰ k E ↔ Memᴰ k E')
    → Refines d E
    → Refines d E'
Refines-same same h = record {
  valid = h.valid;
  sound = λ x y s. Connected-map (λ a b m. forth here ((same (a, b)).0 m)) (h.sound x y s);
  complete = λ x y c. h.complete x y (Connected-map (λ a b m. forth here ((same (a, b)).1 m)) c);
}

module _ {F : Type 0} ⦃fl : Float64 F⦄ where
  edge_keys-map :
      (f : PairKey × PairEvidence F → CombinedEdge F) (k : PairKey)
      → ((p : PairKey × PairEvidence F) → (f p).key ≡ p.0)
      → (m : GoMap PairKey (PairEvidence F)) → Memᴰ k (edge_keys (map f m)) ↔ Memᴰ k (keys m)
  edge_keys-map f k h [] = (λ m. m, λ m. m)
  edge_keys-map f k h ((j, pe) ∷ m) = ground (
    arith,
    edge_keys-map f k h m,
    h (j, pe),
    Memᴰ-cons k j (keys m),
    Memᴰ-cons k (f (j, pe)).key (edge_keys (map f m)),
  )

  -- The pairs are united in some order, and all of them are.
  pub mem-combined_edges :
      (o : MapOrder F) (m : GoMap PairKey (PairEvidence F)) (k : PairKey)
      → Memᴰ k (edge_keys (combined_edges o m)) ↔ Memᴰ k (keys m)
  unfolding combined_edges
  mem-combined_edges o m k = ground (
    arith,
    mem-sort_edges k (map (edge_of o) (o.pairs m)),
    edge_keys-map (edge_of o) k (λ p. refl) (o.pairs m),
    mem-keys-perm k m (o.pairs m) (o.pairs-perm m),
  )

  pub Refines-unite_all :
      (ces : List (CombinedEdge F)) → Refines (unite_all ces).dsu (edge_keys ces)
  unfolding unite_all
  Refines-unite_all ces = Refines-foldl [] ces _ Refines-new
