-- ===== src/Clusters/Together.antt =====
-- blockchain_cluster/internal/cluster/store.go: whom SameCluster finds in one cluster.
use blockchain_clustering.Base.{
  ◌≡◌, ◌≢◌, refl, ap, ◌∙◌, sym, subst, inl, inr, ℕ, String, List, [], ◌∷◌, none, some, ◌==◌, ==_iff,
  string_eq, map, foldl, Memᴰ, Memᴰ-nil, Memᴰ-cons, ltb, Bool-cases, Option-cases, arith,
}
use blockchain_clustering.Base.Float.{Float64}
use blockchain_clustering.Base.GoMap
use blockchain_clustering.Base.GoMap.{GoMap}
use blockchain_clustering.Clusters.{cluster_in, member_in}
use blockchain_clustering.Domain.{MergeEvidence}
use blockchain_clustering.Replay.{
  MapOrder, Member, Result, anchor_of, build_result, derive_cluster_id, earlier, replay,
}
use blockchain_clustering.Replay.Clusters.{built, cluster_group, groups, mem-group, maps}
use blockchain_clustering.Replay.Components.{Together, addresses, group}
use blockchain_clustering.Replay.Gather.{ends, evidence_edges}
use blockchain_clustering.UnionFind.Roots.{HasRoot-unique}

-- The anchor is one of the addresses.
mem-earlier :
    (seen : GoMap String ℕ) (rest : List String) (a : String) (all : List String)
    → Memᴰ a all
    → ((b : String) → Memᴰ b rest → Memᴰ b all)
    → Memᴰ (foldl (earlier seen) a rest) all
unfolding earlier
mem-earlier seen [] a all m h = m
mem-earlier seen (b ∷ rest) a all m h =
    mem-earlier seen rest (earlier seen a b) all
      (elim (Bool-cases (ltb (GoMap.get_or b 0 seen) (GoMap.get_or a 0 seen))) [
        | inl sooner ↦ rw (sooner, earlier) (h b (Memᴰ.head refl))
        | inr later ↦ rw (later, earlier) m
      ])
      (λ c k. h c (Memᴰ.tail k))

mem-anchor_of :
    (seen : GoMap String ℕ) (addrs : List String) (a : String)
    → Memᴰ a addrs
    → Memᴰ (anchor_of seen addrs) addrs
unfolding anchor_of
mem-anchor_of seen [] a m = absurd (Memᴰ-nil m)
mem-anchor_of seen (b ∷ rest) a m =
    mem-earlier seen rest b (b ∷ rest) (Memᴰ.head refl) (λ c k. Memᴰ.tail k)

module _ {F : Type 0} ⦃fl : Float64 F⦄ (sha256 : String → List ℕ) (o : MapOrder F) where
  member_in-mem :
      (a : String) (ms : List (Member F)) (c : F)
      → member_in sha256 o a ms ≡ some c
      → Memᴰ a (map (λ (m : Member F). m.address) ms)
  unfolding member_in
  member_in-mem a [] c e = absurd (cc (e))
  member_in-mem a (m ∷ ms) c e = elim (Bool-cases (m.address == a)) [
    | inl here ↦ Memᴰ.head (sym ((==_iff m.address a).0 here))
    | inr there ↦ Memᴰ.tail (member_in-mem a ms c (rw there at e))
  ]

  mem-member_in :
      (a : String) (ms : List (Member F))
      → Memᴰ a (map (λ (m : Member F). m.address) ms)
      → member_in sha256 o a ms ≢ none
  unfolding member_in
  mem-member_in a [] k e = Memᴰ-nil k
  mem-member_in a (m ∷ ms) k e = elim (Bool-cases (m.address == a)) [
    | inl here ↦ cc (rw here at e)
    | inr there ↦ elim ((Memᴰ-cons a _ _).0 k) [
      | inl same ↦ absurd (ground (arith, ==_iff m.address a))
      | inr later ↦ mem-member_in a ms later (rw there at e)
    ]
  ]

  -- The cluster that is found has the address.
  cluster_in_sound :
      (a : String) (rs : List (Result F)) (id : String) (c : F)
      → cluster_in sha256 o a rs ≡ some (id, c)
      → (r : Result F) × Memᴰ r rs × Memᴰ a (addresses r) × (r.cluster_id ≡ id)
  unfolding cluster_in
  cluster_in_sound a [] id c e = absurd (cc (e))
  cluster_in_sound a (r ∷ rs) id c e = elim (Option-cases (member_in sha256 o a r.members)) [
    | inl missing ↦
        let (r', m, k, same) = cluster_in_sound a rs id c (rw (missing, cluster_in) at e) in
        (r', Memᴰ.tail m, k, same)
    | inr (d, here) ↦ (
      r,
      Memᴰ.head refl,
      member_in-mem a r.members d here,
      (let known : some (r.cluster_id, d) ≡ some (id, c) = rw (here, cluster_in) at e in
          cc (known)),
    )
  ]

  pub cluster_in_complete :
      (a : String) (rs : List (Result F)) (r : Result F)
      → Memᴰ r rs
      → Memᴰ a (addresses r)
      → cluster_in sha256 o a rs ≢ none
  unfolding cluster_in
  cluster_in_complete a [] r m k e = Memᴰ-nil m
  cluster_in_complete a (s ∷ rs) r m k e = elim (Option-cases (member_in sha256 o a s.members)) [
    | inr (d, here) ↦ cc (rw (here, cluster_in) at e)
    | inl missing ↦ elim ((Memᴰ-cons r s rs).0 m) [
      | inl same ↦ mem-member_in a s.members (subst (λ x. Memᴰ a (addresses x)) same k) missing
      | inr later ↦ cluster_in_complete a rs r later k (rw (missing, cluster_in) at e)
    ]
  ]

module _ {F : Type 0} ⦃fl : Float64 F⦄ (sha256 : String → List ℕ) (o : MapOrder F)
    (es : List (MergeEvidence F))
    (injective : (x y : String)
      → Memᴰ x (ends (evidence_edges es))
      → Memᴰ y (ends (evidence_edges es))
      → derive_cluster_id sha256 x ≡ derive_cluster_id sha256 y
      → x ≡ y) where
  abbrev in_group : String → List String
  in_group root = group (groups sha256 o es) root

  abbrev anchor_at : String → String
  anchor_at root = anchor_of (maps sha256 o es).first_seen (in_group root)

  -- A group is found by any of its members.
  same_group :
      (a root other : String) → Memᴰ a (in_group root) → Memᴰ a (in_group other) → root ≡ other
  same_group a root other m n =
      HasRoot-unique ((mem-group sha256 o es a root).0 m).1 ((mem-group sha256 o es a other).0 n).1

  id_of :
      (r : Result F) (root : String)
      → r ≡ built sha256 o es (in_group root)
      → r.cluster_id ≡ derive_cluster_id sha256 (anchor_at root)
  unfolding build_result
  id_of r root e = ap (λ (x : Result F). x.cluster_id) e

  -- Clusters with one id are one cluster.
  same_root :
      (a b root other : String)
      → Memᴰ a (in_group root)
      → Memᴰ b (in_group other)
      → derive_cluster_id sha256 (anchor_at root) ≡ derive_cluster_id sha256 (anchor_at other)
      → root ≡ other
  same_root a b root other m n same =
      let ma = mem-anchor_of (maps sha256 o es).first_seen (in_group root) a m in
      let mb = mem-anchor_of (maps sha256 o es).first_seen (in_group other) b n in
      let one : anchor_at root ≡ anchor_at other =
        injective _ _ ((mem-group sha256 o es _ root).0 ma).0
          ((mem-group sha256 o es _ other).0 mb).0 same in
      same_group (anchor_at root) root other ma (subst (λ x. Memᴰ x (in_group other)) (sym one) mb)

  pub same_id-Together :
      (a b id : String) (ca cb : F)
      → cluster_in sha256 o a (replay sha256 o es) ≡ some (id, ca)
      → cluster_in sha256 o b (replay sha256 o es) ≡ some (id, cb)
      → Together (replay sha256 o es) a b
  same_id-Together a b id ca cb ea eb =
      let (ra, ma, ka, ia) = cluster_in_sound sha256 o a _ id ca ea in
      let (rb, mb, kb, ib) = cluster_in_sound sha256 o b _ id cb eb in
      let (root, built_a, at_a) = cluster_group sha256 o es ra ma in
      let (other, built_b, at_b) = cluster_group sha256 o es rb mb in
      let one =
        same_root a b root other (subst (Memᴰ a) at_a ka) (subst (Memᴰ b) at_b kb)
          (sym (id_of ra root built_a) ∙ ia ∙ sym ib ∙ id_of rb other built_b) in
      (ra, ma, ka, subst (Memᴰ b) (at_b ∙ ap in_group (sym one) ∙ sym at_a) kb)

  pub Together-same_id :
      (a b id other : String) (ca cb : F)
      → Together (replay sha256 o es) a b
      → cluster_in sha256 o a (replay sha256 o es) ≡ some (id, ca)
      → cluster_in sha256 o b (replay sha256 o es) ≡ some (other, cb)
      → id ≡ other
  Together-same_id a b id other ca cb (r, m, ka, kb) ea eb =
      let (ra, ma, la, ia) = cluster_in_sound sha256 o a _ id ca ea in
      let (rb, mb, lb, ib) = cluster_in_sound sha256 o b _ other cb eb in
      let (root_a, built_a, at_a) = cluster_group sha256 o es ra ma in
      let (root_b, built_b, at_b) = cluster_group sha256 o es rb mb in
      let (root, built_r, at_r) = cluster_group sha256 o es r m in
      let one_a = same_group a root_a root (subst (Memᴰ a) at_a la) (subst (Memᴰ a) at_r ka) in
      let one_b = same_group b root_b root (subst (Memᴰ b) at_b lb) (subst (Memᴰ b) at_r kb) in
      sym ia
      ∙ id_of ra root_a built_a
      ∙ ap (λ x. derive_cluster_id sha256 (anchor_at x)) (one_a ∙ sym one_b)
      ∙ sym (id_of rb root_b built_b)
      ∙ ib
