-- ===== src/Replay/Gather.antt =====
-- What the first loop of `Replay` collects: the pairs and the addresses of the evidence that counts.
use blockchain_clustering.Base.{
  String, ◌≡◌, sym, ◌∙◌, ◌⊎◌, inl, inr, ◌↔◌, List, [], ◌∷◌, ◌++◌, map, foldl, Memᴰ, Memᴰ-cons,
  Memᴰ-concat, Memᴰ-nil, subst, arith, ◌==◌, string_eq, pair_eq, Bool-cases, Option-cases,
  if◌then◌else◌,
}
use mathlib.Core.List.Memᴰ
use mathlib.Core.List.{append_assoc, append-nil, map-append}
use blockchain_clustering.Base.Float.{Float64}
use blockchain_clustering.Base.GoMap
use blockchain_clustering.Base.GoMap.{
  GoMap, keys, Distinct, Distinct-insert, mem-keys-insert, mem-keys_iff,
}
use blockchain_clustering.Domain.{MergeEvidence, evidence_status_active}
use blockchain_clustering.UnionFind.Connected.{Connected, here, forth, back, Connected-map}
use blockchain_clustering.Replay.{
  PairKey, Gathered, normalize_pair, touch, observe, observe_pair, start, gather,
}

-- The pairs that the evidence asserts: active, and between two different addresses.
abbrev pub asserted : {F : Type 0} → MergeEvidence F → List (String × String)
asserted e =
    if e.status == evidence_status_active
    then if e.address_a == e.address_b then [] else (e.address_a, e.address_b) ∷ []
    else []

abbrev pub evidence_edges : {F : Type 0} → List (MergeEvidence F) → List (String × String)
evidence_edges [] = []
evidence_edges (e ∷ es) = asserted e ++ evidence_edges es

abbrev pub ends : List (String × String) → List String
ends [] = []
ends ((a, b) ∷ E) = a ∷ b ∷ ends E

abbrev pub normalized : String × String → PairKey
normalized (a, b) = normalize_pair a b

normalize_cases : (a b : String) → (normalize_pair a b ≡ (a, b)) ⊎ (normalize_pair a b ≡ (b, a))
unfolding normalize_pair
normalize_cases a b = ground arith

-- Normalising the pairs changes no connection.
pub Connected-normalized :
    (E : List (String × String)) {x y : String} → Connected (map normalized E) x y ↔ Connected E x y
Connected-normalized E = (Connected-map raw, Connected-map norm)
  where
    norm : (y z : String) → Memᴰ (y, z) E → Connected (map normalized E) y z
    norm y z m = elim (normalize_cases y z) [
      | inl e ↦ forth here (subst (λ p. Memᴰ p (map normalized E)) e (Memᴰ.map normalized m))
      | inr e ↦ back here (subst (λ p. Memᴰ p (map normalized E)) e (Memᴰ.map normalized m))
    ]

    raw : (y z : String) → Memᴰ (y, z) (map normalized E) → Connected E y z
    raw y z m =
        let ((a, b), at, e) = Memᴰ.of_map normalized E m in
        elim (normalize_cases a b) [
          | inl k ↦ forth here (subst (λ p. Memᴰ p E) (sym k ∙ e) at)
          | inr k ↦
              let q : (b, a) ≡ (y, z) = sym k ∙ e in
              back here (subst (λ (p : String × String). Memᴰ (p.1, p.0) E) q at)
        ]

ends-append :
    (x : String) (E G : List (String × String))
    → Memᴰ x (ends (E ++ G)) ↔ (Memᴰ x (ends E) ⊎ Memᴰ x (ends G))
ends-append x [] G = (inr, elim [ inl m ↦ absurd (Memᴰ-nil m) | inr m ↦ m ])
ends-append x ((a, b) ∷ E) G = ground (
  arith,
  ends-append x E G,
  Memᴰ-cons x a (b ∷ ends (E ++ G)),
  Memᴰ-cons x b (ends (E ++ G)),
  Memᴰ-cons x a (b ∷ ends E),
  Memᴰ-cons x b (ends E),
)

mem-map-concat {ℓ κ} :
    {A : Type ℓ} {B : Type κ} (f : A → B) (b : B) (xs : List A) (x : A)
    → Memᴰ b (map f (xs ++ x ∷ [])) ↔ (Memᴰ b (map f xs) ⊎ (b ≡ f x))
mem-map-concat f b xs x = rw map-append (Memᴰ-concat b (f x) (map f xs))

module _ {F : Type 0} ⦃fl : Float64 F⦄ where
  -- What the maps hold after the evidence whose edges are E.
  pub record Holds (E : List (String × String)) (g : Gathered F) : Type 0 where
    pub distinct : Distinct g.first_seen
    pub pairs : (k : PairKey) → Memᴰ k (keys g.pairs) ↔ Memᴰ k (map normalized E)
    pub seen : (x : String) → Memᴰ x (keys g.first_seen) ↔ Memᴰ x (ends E)

  seen-touch :
      (a x : String) (g : Gathered F)
      → Memᴰ x (keys (touch a g).first_seen) ↔ ((x ≡ a) ⊎ Memᴰ x (keys g.first_seen))
  unfolding touch
  seen-touch a x g = elim (Option-cases (GoMap.lookup a g.first_seen)) [
    | inl new ↦ rw (new, touch) (mem-keys-insert a x g.next_order g.first_seen)
    | inr (n, e) ↦
        rw (e, touch)
          (inr, elim [ inl q ↦ rw q ((mem-keys_iff a g.first_seen).1 (λ k. cc)) | inr m ↦ m ])
  ]

  Distinct-touch :
      (a : String) (g : Gathered F) → Distinct g.first_seen → Distinct (touch a g).first_seen
  unfolding touch
  Distinct-touch a g h = elim (Option-cases (GoMap.lookup a g.first_seen)) [
    | inl new ↦ rw (new, touch) (Distinct-insert a g.next_order g.first_seen h)
    | inr (n, e) ↦ rw (e, touch) h
  ]

  pairs-touch : (a : String) (g : Gathered F) → (touch a g).pairs ≡ g.pairs
  unfolding touch
  pairs-touch a g = ground arith

  -- One piece of evidence that counts adds its pair and its two addresses.
  module _ (E : List (String × String)) (e : MergeEvidence F) (g : Gathered F) (h : Holds E g) where
    abbrev touched : Gathered F
    touched = touch e.address_b (touch e.address_a g)

    abbrev edge : String × String
    edge = (e.address_a, e.address_b)

    pairs-touched : touched.pairs ≡ g.pairs
    pairs-touched = pairs-touch e.address_b (touch e.address_a g) ∙ pairs-touch e.address_a g

    pairs-observed :
        (k : PairKey)
        → Memᴰ k (keys (observe_pair e touched).pairs)
          ↔ ((k ≡ normalize_pair e.address_a e.address_b) ⊎ Memᴰ k (keys g.pairs))
    unfolding observe_pair
    pairs-observed k =
        subst
          (λ m.
            Memᴰ k (keys (observe_pair e touched).pairs)
            ↔ ((k ≡ normalize_pair e.address_a e.address_b) ⊎ Memᴰ k (keys m)))
          pairs-touched (mem-keys-insert (normalize_pair e.address_a e.address_b) k _ touched.pairs)

    Holds-observe_pair : Holds (E ++ edge ∷ []) (observe_pair e touched)
    Holds-observe_pair = record {
      distinct =
          unfold observe_pair in
          Distinct-touch e.address_b (touch e.address_a g)
            (Distinct-touch e.address_a g h.distinct);
      pairs = λ k. ground (arith, pairs-observed k, h.pairs k, mem-map-concat normalized k E edge);
      seen = λ x.
          unfold observe_pair in
          ground (
            arith,
            seen-touch e.address_b x (touch e.address_a g),
            seen-touch e.address_a x g,
            h.seen x,
            ends-append x E (edge ∷ []),
            Memᴰ-cons x e.address_a (e.address_b ∷ []),
            Memᴰ-cons x e.address_b [],
            Memᴰ-nil {a = x},
          );
    }

    Holds-observe : Holds (E ++ asserted e) (observe g e)
    unfolding observe
    Holds-observe = elim (Bool-cases (e.status == evidence_status_active)) [
      | inl active ↦ elim (Bool-cases (e.address_a == e.address_b)) [
        | inl self ↦ rw (active, self, append-nil) h
        | inr pair ↦ rw (active, pair) Holds-observe_pair
      ]
      | inr passive ↦ rw (passive, append-nil) h
    ]

  Holds-foldl :
      (es : List (MergeEvidence F)) (E : List (String × String)) (g : Gathered F)
      → Holds E g
      → Holds (E ++ evidence_edges es) (foldl observe g es)
  Holds-foldl [] E g h = rw append-nil h
  Holds-foldl (e ∷ es) E g h =
      subst (λ G. Holds G (foldl observe (observe g e) es))
        (append_assoc E (asserted e) (evidence_edges es))
        (Holds-foldl es (E ++ asserted e) (observe g e) (Holds-observe E e g h))

  Holds-start : Holds [] start
  Holds-start = record {
    distinct = tt;
    pairs = λ k. (λ m. m, λ m. m);
    seen = λ x. (λ m. m, λ m. m);
  }

  -- After all the evidence, the maps hold its pairs and its addresses.
  pub Holds-gather : (es : List (MergeEvidence F)) → Holds (evidence_edges es) (gather es)
  unfolding gather
  Holds-gather es = Holds-foldl es [] start Holds-start
