-- ===== src/Pipeline/Order.antt =====
-- blockchain_cluster/internal/pipeline/pipeline.go: the order of the steps of Run.
use mathlib.Core.List.{append_assoc, append-nil}
use blockchain_clustering.Base.{
  ◌≡◌, refl, ◌∙◌, sym, ap, subst, ◌≢◌, String, List, [], ◌∷◌, ◌++◌, length,
}
use blockchain_clustering.Db.{World, Result, ok, err, Exec, pure, ◌>>=◌, continue, fold_m}
use blockchain_clustering.Domain.{BalanceDelta, MergeCandidate, PreprocessingParams}
use blockchain_clustering.Heuristic.{Engine}
use blockchain_clustering.Merge.{BatchResult}
use blockchain_clustering.Pipeline.{
  Pipeline, PipelineResult, addresses_in, cluster_batch, generate_step, preprocess, run,
}
use blockchain_clustering.Stores.Deltas.{IngestResult}

module _ {F : Type 0} where
  -- The candidates of the engines, one after the other.
  pub data Generated (deltas : List BalanceDelta)
      : List (Engine F) → World F → List (MergeCandidate F) → World F → Type 0 where
    no_engine : {w : World F} → Generated deltas [] w [] w
    engine_ran :
        {e : Engine F} {es : List (Engine F)} {w w1 w2 : World F}
        {cs more : List (MergeCandidate F)}
        → e.generate deltas w ≡ (ok cs, w1)
        → Generated deltas es w1 more w2
        → Generated deltas (e ∷ es) w (cs ++ more) w2

  continue_ok :
      {A B : Type 0} (r : Result A) (w1 : World F) (k : A → Exec F B) (b : B) (w' : World F)
      → continue r k w1 ≡ (ok b, w')
      → (a : A) × (r ≡ ok a) × (k a w1 ≡ (ok b, w'))
  continue_ok (ok a) w1 k b w' h = (a, refl, h)
  continue_ok (err e) w1 k b w' h = absurd (cc (h))

  -- A sequence that succeeds is two steps that succeed.
  bind_ok :
      {A B : Type 0} (m : Exec F A) (k : A → Exec F B) (w : World F) (b : B) (w' : World F)
      → (m >>= k) w ≡ (ok b, w')
      → (a : A) × (w1 : World F) × (m w ≡ (ok a, w1)) × (k a w1 ≡ (ok b, w'))
  unfolding ◌>>=◌
  bind_ok m k w b w' h =
      let (a, fine, rest) = continue_ok (m w).0 (m w).1 k b w' h in
      (a, (m w).1, ap (λ r. (r, (m w).1)) fine, rest)

  pure_ok :
      {A : Type 0} (a b : A) (w w' : World F) → pure {F = F} a w ≡ (ok b, w') → (b ≡ a) × (w' ≡ w)
  unfolding pure
  pure_ok a b w w' h = (cc (h), cc (h))

  -- The steps of a run that succeeds, from the worlds before to the worlds after each.
  pub record Ran (p : Pipeline F) (chain_id : String) (deltas : List BalanceDelta) (w : World F)
      (r : PipelineResult) (w' : World F) : Type 0 where
    pub counts : IngestResult
    pub params : PreprocessingParams F
    pub candidates : List (MergeCandidate F)
    pub batch : BatchResult
    pub w1 : World F
    pub w2 : World F
    pub w3 : World F
    pub w4 : World F
    pub w5 : World F
    pub w6 : World F
    pub w7 : World F
    pub ingested : p.ingest deltas w ≡ (ok counts, w1)
    pub resolved : p.preprocessing_params_for chain_id w1 ≡ (ok params, w2)
    pub hubs_marked : p.mark_hubs chain_id (addresses_in deltas) params w2 ≡ (ok tt, w3)
    pub collaborative_marked : p.mark_collaborative_tx deltas params w3 ≡ (ok tt, w4)
    pub dust_marked : p.mark_dust deltas params w4 ≡ (ok tt, w5)
    pub generated : Generated deltas p.engines w5 candidates w6
    pub merged : p.record_and_merge_batch candidates w6 ≡ (ok batch, w7)
    pub rebuilt : p.rebuild_from_evidence chain_id w7 ≡ (ok tt, w')
    pub tallied : r ≡ record {
      candidates_generated = length candidates;
      recorded = batch.recorded;
      rejected = batch.rejected;
    }

  -- The candidates that the loop adds to those it has.
  Generated-fold :
      (deltas : List BalanceDelta) (es : List (Engine F)) (before after : List (MergeCandidate F))
      (w w' : World F)
      → fold_m (generate_step deltas) before es w ≡ (ok after, w')
      → (more : List (MergeCandidate F)) × (after ≡ before ++ more) × Generated deltas es w more w'
  unfolding fold_m generate_step pure
  Generated-fold deltas [] before after w w' h = (
    [],
    (pure_ok before after w w' h).0 ∙ sym (append-nil before),
    subst (λ x. Generated deltas [] w [] x) (sym (pure_ok before after w w' h).1) no_engine,
  )
  Generated-fold deltas (e ∷ es) before after w w' h =
      let (result, between) = generate_step deltas before e w in
      let (mid, fine, rest) =
        continue_ok result between (λ s. fold_m (generate_step deltas) s es) after w' h in
      let (cs, w1, gen, computed) =
        bind_ok (e.generate deltas) (λ g. pure (before ++ g)) w mid between
          (ap (λ r. (r, between)) fine) in
      let (mid_is, between_is) = pure_ok (before ++ cs) mid w1 between computed in
      let (more, after_is, g) = Generated-fold deltas es mid after between w' rest in
      (
        cs ++ more,
        after_is ∙ ap (λ b. b ++ more) mid_is ∙ append_assoc before cs more,
        engine_ran gen (subst (λ x. Generated deltas es x more w') between_is g),
      )

  -- A run that succeeds on a batch with deltas went through every step in this order, each from where
  -- the one before left the tables: the batch is ingested, the chain's parameters resolved, the hubs,
  -- the collaborative transactions and the dust marked, and only then do the engines run, in the order
  -- of their list; their candidates are merged in that order, and the clusters rebuilt.
  pub run_in_order :
      (p : Pipeline F) (chain_id : String) (deltas : List BalanceDelta) (w : World F)
      (r : PipelineResult) (w' : World F)
      → deltas ≢ []
      → run p chain_id deltas w ≡ (ok r, w')
      → Ran p chain_id deltas w r w'
  unfolding run preprocess cluster_batch
  run_in_order p chain_id [] w r w' some_left h = absurd (some_left refl)
  run_in_order p chain_id (d ∷ ds) w r w' some_left h =
      let (counts, w1, ingested, h1) = bind_ok _ _ w r w' h in
      let (params, w2, resolved, h2) = bind_ok _ _ w1 r w' h1 in
      let (_, w5, preprocessed, h3) = bind_ok _ _ w2 r w' h2 in
      let (hubs, w3, hubs_marked, h4) = bind_ok _ _ w2 tt w5 preprocessed in
      let (_, w4, collaborative_marked, dust_marked) = bind_ok _ _ w3 tt w5 h4 in
      let (candidates, w6, generated, h5) = bind_ok _ _ w5 r w' h3 in
      let (batch, w7, merged, h6) = bind_ok _ _ w6 r w' h5 in
      let (_, w8, rebuilt, computed) = bind_ok _ _ w7 r w' h6 in
      let (tallied, last) = pure_ok _ r w8 w' computed in
      let (more, same, g) = Generated-fold (d ∷ ds) p.engines [] candidates w5 w6 generated in
      record {
        counts = counts;
        params = params;
        candidates = candidates;
        batch = batch;
        w1 = w1;
        w2 = w2;
        w3 = w3;
        w4 = w4;
        w5 = w5;
        w6 = w6;
        w7 = w7;
        ingested = ingested;
        resolved = resolved;
        hubs_marked = hubs_marked;
        collaborative_marked = collaborative_marked;
        dust_marked = dust_marked;
        generated = subst (λ cs. Generated (d ∷ ds) p.engines w5 cs w6) (sym same) g;
        merged = merged;
        rebuilt = subst (λ x. p.rebuild_from_evidence chain_id w7 ≡ (ok tt, x)) (sym last) rebuilt;
        tallied = tallied;
      }
