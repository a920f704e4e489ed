-- ===== src/Replay.antt =====
-- blockchain_cluster/internal/cluster/replay.go: `Replay`, which turns the active evidence of a
-- chain, in order of op_id, into clusters.
mod Types
pub mod Gather
pub mod Unite
pub mod Components
pub mod Clusters
unfoldable pub use Types.{normalize_pair, derive_cluster_id}
pub use Types.{
  PairKey, Member, Result, PairEvidence, CombinedEdge, Edge, MapOrder, Gathered, United, Walk,
}
use blockchain_clustering.Base.{
  ℕ, zero, suc, ◌+◌, String, Bool, true, false, List, [], ◌∷◌, ◌++◌, Option, none, some, foldl,
  ◌==◌, string_eq, pair_eq, ltb, if◌then◌else◌, length, map, ◌<>◌,
}
use blockchain_clustering.Base.Decimal.{print_decimal}
use blockchain_clustering.Base.Float.{Float64, float}
use blockchain_clustering.Base.GoMap
use blockchain_clustering.Base.GoMap.{GoMap}
use blockchain_clustering.Domain.{MergeEvidence, evidence_status_active}
use blockchain_clustering.UnionFind.{Dsu, new, find, union}

module _ {F : Type 0} where
  unfoldable pub source_key : MergeEvidence F → String
  unfolding print_decimal
  source_key e = elim e.source_tx_id [ some t ↦ t | none ↦ "op:" <> print_decimal e.op_id ]

  unfoldable pub touch : String → Gathered F → Gathered F
  touch addr g = elim (GoMap.lookup addr g.first_seen) [
    | some _ ↦ g
    | none ↦ record g {
      first_seen = GoMap.insert addr g.next_order g.first_seen;
      next_order = suc g.next_order;
    }
  ]

  -- adjacency[from] = append(adjacency[from], edge{to, confidence})
  unfoldable pub push_edge :
      String → String → F → GoMap String (List (Edge F)) → GoMap String (List (Edge F))
  push_edge from to c m =
      GoMap.insert from (GoMap.get_or from [] m ++ record { to = to; confidence = c } ∷ []) m

  -- `sort.Slice` by firstOrder
  unfoldable pub insert_edge : CombinedEdge F → List (CombinedEdge F) → List (CombinedEdge F)
  insert_edge e [] = e ∷ []
  insert_edge e (x ∷ xs) =
      let rest = insert_edge e xs in
      if ltb x.first_order e.first_order then x ∷ rest else e ∷ x ∷ xs

  unfoldable pub sort_edges : List (CombinedEdge F) → List (CombinedEdge F)
  unfolding insert_edge
  sort_edges [] = []
  sort_edges (e ∷ es) = insert_edge e (sort_edges es)

  -- The body of the loop over the sorted edges.
  unfoldable pub unite : United F → CombinedEdge F → United F
  unite u ce =
      let (dsu, merged) = union u.dsu ce.key.0 ce.key.1 in
      if merged
      then record {
        dsu = dsu;
        adjacency =
            push_edge ce.key.1 ce.key.0 ce.confidence
              (push_edge ce.key.0 ce.key.1 ce.confidence u.adjacency);
      }
      else record u { dsu = dsu }

-- The body of the loop that collects the members of each root.
unfoldable pub collect :
    Dsu × GoMap String (List String) → String × ℕ → Dsu × GoMap String (List String)
collect (d, m) (addr, _) =
    let (d', root) = find d addr in (d', GoMap.insert root (GoMap.get_or root [] m ++ addr ∷ []) m)

-- The anchor: the address of the cluster that was seen first.
unfoldable pub earlier : GoMap String ℕ → String → String → String
earlier seen anchor a =
    if ltb (GoMap.get_or a 0 seen) (GoMap.get_or anchor 0 seen) then a else anchor

unfoldable pub anchor_of : GoMap String ℕ → List String → String
anchor_of seen [] = ""
anchor_of seen (a ∷ rest) = foldl (earlier seen) a rest

module _ {F : Type 0} ⦃fl : Float64 F⦄ where
  -- pe.bySource[source] = the larger confidence
  unfoldable pub record_source : String → F → PairEvidence F → PairEvidence F
  record_source source c pe = elim (GoMap.lookup source pe.by_source) [
    | none ↦ record pe { by_source = GoMap.insert source c pe.by_source }
    | some cur ↦
        (if fl.ltb cur c then record pe { by_source = GoMap.insert source c pe.by_source } else pe)
  ]

  unfoldable pub observe_pair : MergeEvidence F → Gathered F → Gathered F
  observe_pair e g =
      let key = normalize_pair e.address_a e.address_b in
      let pe = elim (GoMap.lookup key g.pairs) as (λ _. PairEvidence F) [
        | some pe ↦ pe
        | none ↦ record { first_order = g.stream_index; by_source = [] }
      ] in
      record g {
        pairs = GoMap.insert key (record_source (source_key e) e.confidence pe) g.pairs;
        stream_index = suc g.stream_index;
      }

  -- The body of the first loop, its two `continue`s included.
  unfoldable pub observe : Gathered F → MergeEvidence F → Gathered F
  observe g e =
      if e.status == evidence_status_active
      then if e.address_a == e.address_b
        then g
        else observe_pair e (touch e.address_b (touch e.address_a g))
      else g

  abbrev pub start : Gathered F
  start = record { first_seen = []; next_order = 0; pairs = []; stream_index = 0 }

  unfoldable pub gather : List (MergeEvidence F) → Gathered F
  gather = foldl observe start

  unfoldable pub noisy_or : GoMap String F → F
  noisy_or by_source =
      fl.sub (float 1)
        (foldl (λ product (_, c). fl.mul product (fl.sub (float 1) c)) (float 1) by_source)

  abbrev pub edge_of : MapOrder F → PairKey × PairEvidence F → CombinedEdge F
  edge_of o (key, pe) = record {
    key = key;
    confidence = noisy_or (o.sources key pe.by_source);
    first_order = pe.first_order;
  }

  unfoldable pub combined_edges :
      MapOrder F → GoMap PairKey (PairEvidence F) → List (CombinedEdge F)
  combined_edges o pairs = sort_edges (map (edge_of o) (o.pairs pairs))

  unfoldable pub unite_all : List (CombinedEdge F) → United F
  unite_all = foldl unite (record { dsu = new; adjacency = [] })

  unfoldable pub components : MapOrder F → Gathered F → Dsu → GoMap String (List String)
  components o g d = (foldl collect (d, []) (o.seen g.first_seen)).1

  -- `for _, e := range adjacency[cur]`
  unfoldable pub visit : F → Walk F → Edge F → Walk F
  visit at_cur w e = elim (GoMap.get_or e.to false w.visited) [
    | true ↦ w
    | false ↦ record {
      confidence =
          GoMap.insert e.to (if fl.ltb e.confidence at_cur then e.confidence else at_cur)
            w.confidence;
      visited = GoMap.insert e.to true w.visited;
      queue = w.queue ++ e.to ∷ [];
    }
  ]

  -- `for len(queue) > 0`, by the rounds left
  unfoldable pub walk : ℕ → GoMap String (List (Edge F)) → Walk F → Walk F
  walk zero adjacency w = w
  walk (suc n) adjacency w = elim w.queue [
    | [] ↦ w
    | cur ∷ rest ↦ walk n adjacency (
        foldl (visit (GoMap.get_or cur (float 0) w.confidence)) (record w { queue = rest })
          (GoMap.get_or cur [] adjacency))
  ]

  unfoldable pub confidences : ℕ → GoMap String (List (Edge F)) → String → GoMap String F
  confidences rounds adjacency anchor =
      (walk rounds adjacency (record {
        confidence = GoMap.insert anchor (float 1) [];
        visited = GoMap.insert anchor true [];
        queue = anchor ∷ [];
      })).confidence

module _ {F : Type 0} ⦃fl : Float64 F⦄ (sha256 : String → List ℕ) where
  unfoldable pub build_result :
      GoMap String ℕ → GoMap String (List (Edge F)) → List String → Result F
  build_result seen adjacency addrs =
      let anchor = anchor_of seen addrs in
      let confidence = confidences (suc (length seen)) adjacency anchor in
      let at = λ (a : String). GoMap.get_or a (float 0) confidence in
      record {
        cluster_id = derive_cluster_id sha256 anchor;
        anchor_address = anchor;
        size = length addrs;
        representative_confidence =
            fl.quo (foldl (λ sum a. fl.add sum (at a)) (float 0) addrs) (float (length addrs));
        members = map (λ a. record { address = a; confidence = at a }) addrs;
      }

  unfoldable pub replay : MapOrder F → List (MergeEvidence F) → List (Result F)
  replay o evidence =
      let g = gather evidence in
      let u = unite_all (combined_edges o g.pairs) in
      map (λ (_, addrs). build_result g.first_seen u.adjacency addrs)
        (o.components (components o g u.dsu))
