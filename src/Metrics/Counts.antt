-- ===== src/Metrics/Counts.antt =====
-- blockchain_cluster/internal/metrics/collector.go: the counts that a scrape sends.
use mathlib.Core.List.{append_assoc, append-nil}
use mathlib.Core.List.Memᴰ
use blockchain_clustering.Base.{
  ◌≡◌, ◌≢◌, ◌↔◌, refl, ap, ◌∙◌, sym, subst, inl, inr, ℕ, String, List, [], ◌∷◌, ◌++◌, map, select,
  foldl, Memᴰ, Memᴰ-append, Memᴰ-cons, Memᴰ-nil, string_eq,
}
use blockchain_clustering.Db.{Db, ChainRow, World, query, statement}
use blockchain_clustering.Derive.{first_occurrences}
use blockchain_clustering.Derive.Spenders.{dedupe_lem}
use blockchain_clustering.Metrics.{
  Metric, active_keys, active_metric, active_metrics, attempt, cluster_metrics, collect,
  collect_chain, collect_cluster_stats, collect_label_stats, collect_merge_evidence_stats, emit,
  errors_metric, group_counts, with_errors, invalid_metrics, label_metrics, occurrences, then_emit,
}
use blockchain_clustering.Stores.Registry.{list_chains}

module _ {F : Type 0} (d : Db F) where
  -- The tables, where no call fails.
  abbrev pub quiet : World F
  quiet = record { db = d; faults = [] }

  abbrev chain_metrics : String → List Metric
  chain_metrics c =
      cluster_metrics c d.cluster
      ++ (active_metrics c d.merge_evidence ++ invalid_metrics c d.merge_evidence)
      ++ label_metrics c d.label

  abbrev all_metrics : List String → List Metric
  all_metrics [] = []
  all_metrics (c ∷ cs) = chain_metrics c ++ all_metrics cs

  collect_chain-quiet :
      (ms : List Metric) (errors : ℕ) (c : String)
      → collect_chain ((ms, errors), quiet) c ≡ ((ms ++ chain_metrics c, errors), quiet)
  unfolding collect_chain attempt collect_cluster_stats collect_merge_evidence_stats
      collect_label_stats emit then_emit query statement
  collect_chain-quiet ms errors c =
      let cl = cluster_metrics c d.cluster in
      let ev = active_metrics c d.merge_evidence ++ invalid_metrics c d.merge_evidence in
      ap (λ l. ((l, errors), quiet))
        (append_assoc (ms ++ cl) ev (label_metrics c d.label)
          ∙ append_assoc ms cl (ev ++ label_metrics c d.label))

  foldl-collect_chain :
      (chains : List String) (ms : List Metric) (errors : ℕ)
      → foldl collect_chain ((ms, errors), quiet) chains
        ≡ ((ms ++ all_metrics chains, errors), quiet)
  foldl-collect_chain [] ms errors = ap (λ l. ((l, errors), quiet)) (sym (append-nil ms))
  foldl-collect_chain (c ∷ cs) ms errors =
      ap (λ s. foldl collect_chain s cs) (collect_chain-quiet ms errors c)
      ∙ foldl-collect_chain cs (ms ++ chain_metrics c) errors
      ∙ ap (λ l. ((l, errors), quiet)) (append_assoc ms (chain_metrics c) (all_metrics cs))

  abbrev pub enabled_chains : List String
  enabled_chains = map (λ (c : ChainRow). c.chain_id) (select (λ (c : ChainRow). c.enabled) d.chain)

  collect-quiet :
      (errors : ℕ)
      → collect errors quiet
        ≡ ((all_metrics enabled_chains ++ errors_metric errors ∷ [], errors), quiet)
  unfolding collect list_chains query statement
  collect-quiet errors = ap with_errors (foldl-collect_chain enabled_chains [] errors)

  abbrev active_of : String → List String
  active_of chain_id = active_keys chain_id d.merge_evidence

not_of_map :
    {A : Type 0} (f : A → Metric) (xs : List A) (m : Metric)
    → ((x : A) → (f x).desc ≢ m.desc)
    → ¬ Memᴰ m (map f xs)
not_of_map f xs m never at =
    let (x, _, same) = Memᴰ.of_map f xs at in never x (ap (λ (n : Metric). n.desc) same)

mem-first_occurrences : (xs : List String) (a : String) → Memᴰ a (first_occurrences xs) ↔ Memᴰ a xs
mem-first_occurrences xs a =
    let (same, _, iff) = dedupe_lem xs in subst (λ l. Memᴰ a l ↔ Memᴰ a xs) same (iff a)

-- A key is counted once it occurs, by how often it does.
mem-group_counts :
    (ks : List String) (k : String) (n : ℕ)
    → Memᴰ (k, n) (group_counts ks) ↔ (Memᴰ k ks × (n ≡ occurrences k ks))
mem-group_counts ks k n = (
  λ m.
      let (x, at, same) = Memᴰ.of_map (λ x. (x, occurrences x ks)) (first_occurrences ks) m in
      let is : x ≡ k = ap (λ (p : String × ℕ). p.0) same in
      (
        subst (λ y. Memᴰ y ks) is ((mem-first_occurrences ks x).0 at),
        sym (ap (λ (p : String × ℕ). p.1) same) ∙ ap (λ y. occurrences y ks) is,
      ),
  λ (there, is).
      subst (λ c. Memᴰ (k, c) (group_counts ks)) (sym is)
        (Memᴰ.map (λ x. (x, occurrences x ks)) ((mem-first_occurrences ks k).1 there)),
)

active_metric-injective :
    (c chain_id : String) (p q : String × ℕ)
    → active_metric c p ≡ active_metric chain_id q
    → (c ≡ chain_id) × (p ≡ q)
active_metric-injective c chain_id (k, m) (key, n) e =
    let labels : ◌≡◌ {A = List String} (c ∷ k ∷ []) (chain_id ∷ key ∷ []) =
      ap (λ (x : Metric). x.labels) e in
    let value : m ≡ n = ap (λ (x : Metric). x.value) e in
    let key_is : k ≡ key = cc labels in (cc labels, cc (key_is, value))

module _ {F : Type 0} (d : Db F) where
  active_in_chain :
      (c chain_id key : String) (n : ℕ)
      → Memᴰ (active_metric chain_id (key, n)) (chain_metrics d c)
      → (c ≡ chain_id) × Memᴰ (key, n) (group_counts (active_of d c))
  active_in_chain c chain_id key n m = elim ((Memᴰ-append _ (cluster_metrics c d.cluster) _).0 m) [
    | inl of_cluster ↦ elim ((Memᴰ-cons _ _ _).0 of_cluster) [
      | inl e ↦ absurd (cc (ap (λ (x : Metric). x.desc) e))
      | inr last ↦ absurd (cc (ap (λ (x : Metric). x.desc) (Memᴰ.eq_of_singleton last)))
    ]
    | inr later ↦
        elim ((Memᴰ-append _
            (active_metrics c d.merge_evidence ++ invalid_metrics c d.merge_evidence) _).0
          later) [
            | inl of_evidence ↦
                elim ((Memᴰ-append _ (active_metrics c d.merge_evidence) _).0 of_evidence) [
                  | inl active ↦
                      let (p, at, same) =
                        Memᴰ.of_map (active_metric c) (group_counts (active_of d c)) active in
                      let (chain_is, count_is) =
                        active_metric-injective c chain_id p (key, n) same in
                      (chain_is, subst (λ q. Memᴰ q (group_counts (active_of d c))) count_is at)
                  | inr invalid ↦ absurd (not_of_map _ _ _ (λ x e. cc e) invalid)
                ]
            | inr of_label ↦ absurd (not_of_map _ _ _ (λ x e. cc e) of_label)
          ]
  ]

  active_in_all :
      (chains : List String) (chain_id key : String) (n : ℕ)
      → Memᴰ (active_metric chain_id (key, n)) (all_metrics d chains)
      → Memᴰ chain_id chains × Memᴰ (key, n) (group_counts (active_of d chain_id))
  active_in_all [] chain_id key n m = absurd (Memᴰ-nil m)
  active_in_all (c ∷ cs) chain_id key n m = elim ((Memᴰ-append _ (chain_metrics d c) _).0 m) [
    | inl here ↦
        let (is, at) = active_in_chain c chain_id key n here in
        (Memᴰ.head (sym is), subst (λ x. Memᴰ (key, n) (group_counts (active_of d x))) is at)
    | inr there ↦ let (more, at) = active_in_all cs chain_id key n there in (Memᴰ.tail more, at)
  ]

  all-active :
      (chains : List String) (chain_id : String) (p : String × ℕ)
      → Memᴰ chain_id chains
      → Memᴰ p (group_counts (active_of d chain_id))
      → Memᴰ (active_metric chain_id p) (all_metrics d chains)
  all-active [] chain_id p m at = absurd (Memᴰ-nil m)
  all-active (c ∷ cs) chain_id p (Memᴰ.head e) at =
      subst (λ x. Memᴰ (active_metric chain_id p) (chain_metrics d x ++ all_metrics d cs)) e
        (Memᴰ.append_left _ (
          Memᴰ.append_right (cluster_metrics chain_id d.cluster)
            (Memᴰ.append_left _ (Memᴰ.append_left _ (Memᴰ.map (active_metric chain_id) at)))))
  all-active (c ∷ cs) chain_id p (Memᴰ.tail m) at =
      Memᴰ.append_right (chain_metrics d c) (all-active cs chain_id p m at)

  -- A scrape in which no call fails leaves the tables and its counter of errors, and sends for an enabled
  -- chain, and for each heuristic that active evidence of that chain has, how many rows of it there are,
  -- and no other count of active evidence.
  pub collect_lem :
      (errors : ℕ)
      → ((collect errors (quiet d)).1 ≡ quiet d)
        × ((collect errors (quiet d)).0.1 ≡ errors)
        × ((chain_id key : String) (n : ℕ)
            → Memᴰ (active_metric chain_id (key, n)) (collect errors (quiet d)).0.0 ↔ (
                Memᴰ chain_id (enabled_chains d)
                × Memᴰ key (active_keys chain_id d.merge_evidence)
                × (n ≡ occurrences key (active_keys chain_id d.merge_evidence))))
  collect_lem errors = rw (collect-quiet d errors) (
    refl,
    refl,
    λ chain_id key n. (
      λ m. elim ((Memᴰ-append _ (all_metrics d (enabled_chains d)) _).0 m) [
        | inl sent ↦
            let (chain_in, counted) = active_in_all (enabled_chains d) chain_id key n sent in
            let (key_in, is) = (mem-group_counts (active_of d chain_id) key n).0 counted in
            (chain_in, key_in, is)
        | inr last ↦ absurd (cc (ap (λ (x : Metric). x.desc) (Memᴰ.eq_of_singleton last)))
      ],
      λ (chain_in, key_in, is). Memᴰ.append_left _ (
          all-active (enabled_chains d) chain_id (key, n) chain_in
            ((mem-group_counts (active_of d chain_id) key n).1 (key_in, is))),
    ),
  )
