-- ===== src/Metrics.antt =====
-- blockchain_cluster/internal/metrics/collector.go: what a scrape sends. A query is read whole or not
-- at all, as everywhere; the groups of a GROUP BY come in the order in which their keys first occur.
pub mod Counts
use blockchain_clustering.Base.{
  ℕ, suc, ◌+◌, String, Bool, true, false, List, [], ◌∷◌, ◌++◌, Option, none, some, ◌==◌, Eq,
  string_eq, option_eq, if◌then◌else◌, ◌&&◌, length, map, select, foldl, ltb,
}
use blockchain_clustering.Db.{Db, Exec, Result, World, ok, err, query, pure, ◌>>=◌}
use blockchain_clustering.Derive.{first_occurrences}
use blockchain_clustering.Domain.{Cluster, Label, MergeEvidence}
use blockchain_clustering.Stores.Registry.{list_chains}

pub data Desc : Type 0 where
  cluster_max_size cluster_count merge_evidence_active merge_evidence_invalid : Desc
  label_status_total scrape_errors_total : Desc

-- A sample: its values are counts, which a float64 holds up to 2 ^ 53.
pub record Metric : Type 0 where
  pub desc : Desc
  pub labels : List String
  pub value : ℕ

-- SELECT key, COUNT(*) … GROUP BY key
abbrev pub occurrences : {K : Type 0} ⦃e : Eq K⦄ → K → List K → ℕ
occurrences k ks = length (select (λ x. x == k) ks)

abbrev pub group_counts : {K : Type 0} ⦃e : Eq K⦄ → List K → List (K × ℕ)
group_counts ks = map (λ k. (k, occurrences k ks)) (first_occurrences ks)

abbrev max_of : ℕ → ℕ → ℕ
max_of m n = if ltb m n then n else m

-- What a collection sent, and whether it failed.
abbrev pub Scrape : Type 0 → Type 0
Scrape F = World F → (List Metric × Bool) × World F

-- The metrics of a call that succeeds, and an early return on an error.
abbrev pub sent : Result (List Metric) → List Metric × Bool
sent (ok ms) = (ms, false)
sent (err e) = ([], true)

-- What was sent, and the counter of errors.
abbrev pub Sent : Type 0
Sent = List Metric × ℕ

abbrev pub active_metric : String → String × ℕ → Metric
active_metric chain_id (key, count) = record {
  desc = merge_evidence_active;
  labels = chain_id ∷ key ∷ [];
  value = count;
}

-- COALESCE(invalidated_reason, 'unknown')
abbrev pub or_unknown : Option String → String
or_unknown none = "unknown"
or_unknown (some reason) = reason

abbrev pub invalid_metric : String → Option String × ℕ → Metric
invalid_metric chain_id (reason, count) = record {
  desc = merge_evidence_invalid;
  labels = chain_id ∷ or_unknown reason ∷ [];
  value = count;
}

abbrev pub status_metric : String → String × ℕ → Metric
status_metric chain_id (status, count) = record {
  desc = label_status_total;
  labels = chain_id ∷ status ∷ [];
  value = count;
}

abbrev pub errors_metric : ℕ → Metric
errors_metric errors = record { desc = scrape_errors_total; labels = []; value = errors }

module _ {F : Type 0} where
  unfoldable pub emit : Exec F (List Metric) → Scrape F
  emit m w = let (r, w') = m w in (sent r, w')

  -- What was sent before an error stays sent.
  abbrev pub unless_failed : List Metric × Bool → Scrape F → Scrape F
  unless_failed (ms, true) next w = ((ms, true), w)
  unless_failed (ms, false) next w = let ((more, failed), w') = next w in ((ms ++ more, failed), w')

  unfoldable pub then_emit : Scrape F → Scrape F → Scrape F
  then_emit first next w = let (s, w') = first w in unless_failed s next w'

  abbrev pub of_chain : String → List (Cluster F) → List (Cluster F)
  of_chain chain_id = select (λ (c : Cluster F). c.chain_id == chain_id)

  -- COALESCE(MAX(size), 0), and COUNT(*)
  abbrev pub cluster_metrics : String → List (Cluster F) → List Metric
  cluster_metrics chain_id clusters =
      record {
        desc = cluster_max_size;
        labels = chain_id ∷ [];
        value = foldl (λ m (c : Cluster F). max_of m c.size) 0 (of_chain chain_id clusters);
      }
      ∷ record {
        desc = cluster_count;
        labels = chain_id ∷ [];
        value = length (of_chain chain_id clusters);
      }
      ∷ []

  unfoldable pub collect_cluster_stats : String → Scrape F
  unfolding emit
  collect_cluster_stats chain_id = emit (query (λ db. cluster_metrics chain_id db.cluster))

  -- The heuristics of the active rows of a chain, one for each row.
  abbrev pub active_keys : String → List (MergeEvidence F) → List String
  active_keys chain_id rows =
      map (λ (e : MergeEvidence F). e.heuristic_key)
        (select (λ (e : MergeEvidence F). e.chain_id == chain_id && e.status == "active") rows)

  abbrev pub active_metrics : String → List (MergeEvidence F) → List Metric
  active_metrics chain_id rows =
      map (active_metric chain_id) (group_counts (active_keys chain_id rows))

  abbrev pub invalid_reasons : String → List (MergeEvidence F) → List (Option String)
  invalid_reasons chain_id rows =
      map (λ (e : MergeEvidence F). e.invalidated_reason)
        (select (λ (e : MergeEvidence F). e.chain_id == chain_id && e.status == "invalidated") rows)

  abbrev pub invalid_metrics : String → List (MergeEvidence F) → List Metric
  invalid_metrics chain_id rows =
      map (invalid_metric chain_id) (group_counts (invalid_reasons chain_id rows))

  unfoldable pub collect_merge_evidence_stats : String → Scrape F
  unfolding then_emit
  collect_merge_evidence_stats chain_id =
      then_emit (emit (query (λ db. active_metrics chain_id db.merge_evidence)))
        (emit (query (λ db. invalid_metrics chain_id db.merge_evidence)))

  abbrev pub statuses : String → List (Label F) → List String
  statuses chain_id labels =
      map (λ (l : Label F). l.status) (select (λ (l : Label F). l.chain_id == chain_id) labels)

  abbrev pub label_metrics : String → List (Label F) → List Metric
  label_metrics chain_id labels =
      map (status_metric chain_id) (group_counts (statuses chain_id labels))

  unfoldable pub collect_label_stats : String → Scrape F
  unfolding emit
  collect_label_stats chain_id = emit (query (λ db. label_metrics chain_id db.label))

  -- `if err := …; err != nil { c.scrapeErrorsTotal.Inc() }`
  unfoldable pub attempt : Scrape F → Sent × World F → Sent × World F
  attempt s ((ms, errors), w) =
      let ((more, failed), w') = s w in ((ms ++ more, if failed then suc errors else errors), w')

  unfoldable pub collect_chain : Sent × World F → String → Sent × World F
  unfolding attempt
  collect_chain before chain_id = attempt (collect_label_stats chain_id) (
      attempt (collect_merge_evidence_stats chain_id)
        (attempt (collect_cluster_stats chain_id) before))

  abbrev pub with_errors : Sent × World F → Sent × World F
  with_errors ((ms, errors), w) = ((ms ++ errors_metric errors ∷ [], errors), w)

  abbrev pub collect_all : ℕ → Result (List String) × World F → Sent × World F
  collect_all errors (err e, w) = with_errors (([], suc errors), w)
  collect_all errors (ok chains, w) = with_errors (foldl collect_chain (([], errors), w) chains)

  -- `errors` is the counter, which the collector keeps from one scrape to the next.
  unfoldable pub collect : ℕ → World F → Sent × World F
  unfolding collect_chain
  collect errors w = collect_all errors (list_chains w)
