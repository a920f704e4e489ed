-- ===== src/Replay/Clusters.antt =====
-- What `Replay` returns: the connected components of the evidence.
use blockchain_clustering.Base.{
  ℕ, String, ◌≡◌, refl, sym, inl, inr, ◌↔◌, List, [], none, some, map, Memᴰ, Memᴰ-nil, Memᴰ-perm,
  subst, arith, string_eq, Option-cases,
}
use mathlib.Core.List.Memᴰ
use mathlib.Core.List.Permᴰ
use blockchain_clustering.Base.Float.{Float64}
use blockchain_clustering.Base.GoMap
use blockchain_clustering.Base.GoMap.{
  GoMap, keys, Distinct, Distinct-insert, get_or-insert, lookup-of_mem, mem-of_lookup,
  mem-keys-perm,
}
use blockchain_clustering.Domain.{MergeEvidence}
use blockchain_clustering.UnionFind.{Dsu}
use blockchain_clustering.UnionFind.Roots.{HasRoot}
use blockchain_clustering.UnionFind.Connected.{Connected, Refines}
use blockchain_clustering.Replay.{
  Result, Gathered, MapOrder, components, build_result, replay, gather, unite_all, combined_edges,
}
use blockchain_clustering.Replay.Gather.{
  evidence_edges, ends, normalized, Holds-gather, Connected-normalized,
}
use blockchain_clustering.Replay.Unite.{Refines-same, Refines-unite_all, mem-combined_edges}
use blockchain_clustering.Replay.Components.{
  group, Collected-start, Collected-foldl, ends-Connected, addresses, Together, member-addresses,
}

group_of_lookup :
    (m : GoMap String (List String)) (r : String) (v : List String)
    → GoMap.lookup r m ≡ some v
    → group m r ≡ v
unfolding GoMap.get_or
group_of_lookup m r v e = rw (e, GoMap.get_or) refl

group_of_missing :
    (m : GoMap String (List String)) (r : String) → GoMap.lookup r m ≡ none → group m r ≡ []
unfolding GoMap.get_or
group_of_missing m r e = rw (e, GoMap.get_or) refl

module _ {F : Type 0} ⦃fl : Float64 F⦄ (sha256 : String → List ℕ) (o : MapOrder F)
    (es : List (MergeEvidence F)) where
  abbrev pub maps : Gathered F
  maps = gather es

  abbrev pub forest : Dsu
  forest = (unite_all (combined_edges o maps.pairs)).dsu

  abbrev pub groups : GoMap String (List String)
  groups = components o maps forest

  -- The forest stands for the components of the evidence.
  Refines-forest : Refines forest (map normalized (evidence_edges es))
  Refines-forest =
      Refines-same
        (λ k. ground (arith, mem-combined_edges o maps.pairs k, (Holds-gather es).pairs k))
        (Refines-unite_all (combined_edges o maps.pairs))

  pub mem-group :
      (x root : String)
      → Memᴰ x (group groups root)
        ↔ (Memᴰ x (ends (evidence_edges es)) × HasRoot forest.parent root x)
  unfolding components
  mem-group x root =
      let c =
        Collected-foldl forest (o.seen maps.first_seen) [] (forest, [])
          (Collected-start forest Refines-forest.valid) in
      let order =
        mem-keys-perm x maps.first_seen (o.seen maps.first_seen) (o.seen-perm maps.first_seen) in
      let known = (Holds-gather es).seen x in
      (
        λ m. let (s, h) = (c.members x root).0 m in (known.0 (order.0 s), h),
        λ (s, h). (c.members x root).1 (order.1 (known.1 s), h),
      )

  Distinct-groups : Distinct groups
  unfolding components
  Distinct-groups =
      (Collected-foldl forest (o.seen maps.first_seen) [] (forest, [])
        (Collected-start forest Refines-forest.valid)).distinct

  abbrev pub built : List String → Result F
  built addrs =
      build_result sha256 maps.first_seen (unite_all (combined_edges o maps.pairs)).adjacency addrs

  addresses-built : (addrs : List String) → addresses (built addrs) ≡ addrs
  unfolding build_result
  addresses-built addrs = member-addresses _ addrs

  -- Every cluster is the group of one root.
  pub cluster_group :
      (r : Result F)
      → Memᴰ r (replay sha256 o es)
      → (root : String) × (r ≡ built (group groups root)) × (addresses r ≡ group groups root)
  unfolding replay
  cluster_group r m =
      let ((root, addrs), at, e) =
        Memᴰ.of_map (λ (p : String × List String). built p.1) (o.components groups) m in
      let inside : Memᴰ (root, addrs) groups =
        Memᴰ-perm (Permᴰ.symm (o.components-perm groups)) at in
      let found = lookup-of_mem root addrs groups Distinct-groups inside in
      let same : group groups root ≡ addrs = group_of_lookup groups root addrs found in
      (
        root,
        rw same (sym e),
        rw same (subst (λ r'. addresses r' ≡ addrs) e (addresses-built addrs)),
      )

  -- Every group that is not empty is a cluster.
  group_cluster :
      (root x : String)
      → Memᴰ x (group groups root)
      → Memᴰ (built (group groups root)) (replay sha256 o es)
  unfolding replay
  group_cluster root x m = elim (Option-cases (GoMap.lookup root groups)) [
    | inl missing ↦ absurd (Memᴰ-nil (subst (Memᴰ x) (group_of_missing groups root missing) m))
    | inr (addrs, found) ↦
        let at : Memᴰ (root, addrs) (o.components groups) =
          Memᴰ-perm (o.components-perm groups) (mem-of_lookup root addrs groups found) in
        rw (group_of_lookup groups root addrs found)
          (Memᴰ.map (λ (p : String × List String). built p.1) at)
  ]

  -- Two addresses are in one cluster exactly when the first occurs in the evidence that counts (active,
  -- between two different addresses) and a path of such evidence joins them: whatever the order in
  -- which Go ranges over its maps.
  pub replay_components :
      (a b : String)
      → Together (replay sha256 o es) a b
        ↔ (Memᴰ a (ends (evidence_edges es)) × Connected (evidence_edges es) a b)
  replay_components a b = (
    λ (r, at, ma, mb).
        let (root, _, e) = cluster_group r at in
        let (known, ha) = (mem-group a root).0 (subst (Memᴰ a) e ma) in
        let (_, hb) = (mem-group b root).0 (subst (Memᴰ b) e mb) in
        (
          known,
          (Connected-normalized (evidence_edges es)).0 (Refines-forest.sound a b (root, ha, hb)),
        ),
    λ (known, c).
        let (root, ha, hb) =
          Refines-forest.complete a b ((Connected-normalized (evidence_edges es)).1 c) in
        let ma : Memᴰ a (group groups root) = (mem-group a root).1 (known, ha) in
        let mb : Memᴰ b (group groups root) =
          (mem-group b root).1 (ends-Connected (evidence_edges es) known c, hb) in
        let e = addresses-built (group groups root) in
        (
          built (group groups root),
          group_cluster root a ma,
          subst (Memᴰ a) (sym e) ma,
          subst (Memᴰ b) (sym e) mb,
        ),
  )
