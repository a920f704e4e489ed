-- ===== src/Consumer/Commits.antt =====
-- blockchain_cluster/internal/consumer/consumer.go: when a commit is asked for, and a periodic flush
-- that fails.
use blockchain_clustering.Base.{◌≡◌, ◌≢◌, refl, ap, String, Bool, false, List, [], ◌∷◌, ◌++◌}
use blockchain_clustering.Consumer.{
  Consumer, Event, both, flush, flush_batch, new_batcher, run, run_and_commit, run_pipeline, step,
}
use blockchain_clustering.Consumer.Action.{ran}
use blockchain_clustering.Consumer.Event.{tick}
use blockchain_clustering.Consumer.Outcome.{running}
use blockchain_clustering.Consumer.Batches.{none_left}
use blockchain_clustering.Consumer.Message.{KafkaMessage}
use blockchain_clustering.Domain.{BalanceDelta}
use blockchain_clustering.Consumer.Sound.{Good-run, Sound}
use blockchain_clustering.Consumer.Sound.Sound.{nothing}

module _ {E : Type 0} (pipeline_run : String → List BalanceDelta → E → Bool × E)
    (on_reorg : String → List String → E → Bool × E)
    (commit_messages : List KafkaMessage → E → Bool × E) where
  -- From a consumer that has just started, whatever events arrive and whichever calls fail: the calls
  -- made are sound. A commit is asked for only of a batch right after the pipeline ran on it with
  -- success, and then of exactly the messages that decode to the deltas it ran on; of a notice of a
  -- rollback right after that succeeded; and of a message that does not decode.
  pub run-Sound :
      (events : List Event) (start : E)
      → Sound
          (run pipeline_run on_reorg commit_messages events
            (record { batcher = new_batcher; outside = start; trace = [] })).1.trace
  unfolding new_batcher
  run-Sound events start =
      (Good-run pipeline_run on_reorg commit_messages events _
        (record { sound = nothing; held = none_left })).sound

module _ {E : Type 0} (pipeline_run : String → List BalanceDelta → E → Bool × E)
    (on_reorg : String → List String → E → Bool × E)
    (commit_messages : List KafkaMessage → E → Bool × E) where
  run_and_commit_fails :
      (chain : String) (ds : List BalanceDelta) (ms : List KafkaMessage) (c : Consumer E) (e : E)
      → ds ≢ []
      → pipeline_run chain ds c.outside ≡ (false, e)
      → run_and_commit pipeline_run on_reorg commit_messages
          (record { chain_id = chain; deltas = ds; messages = ms })
          c
        ≡ (false, record c { outside = e; trace = c.trace ++ ran chain ds ms false ∷ [] })
  unfolding run_and_commit run_pipeline
  run_and_commit_fails chain [] ms c e held fails = absurd (held refl)
  run_and_commit_fails chain (d ∷ ds) ms c e held fails = rw (fails, both) refl

  -- A periodic flush whose pipeline run fails leaves the consumer running with nothing pending: the
  -- deltas that it held, and their messages, are gone, without a commit.
  pub tick_drops_batch :
      (c : Consumer E) (e : E)
      → c.batcher.deltas ≢ []
      → pipeline_run c.batcher.chain_id c.batcher.deltas c.outside ≡ (false, e)
      → step pipeline_run on_reorg commit_messages tick c ≡ (
        running,
        record {
          batcher = record c.batcher { block_hash = ""; deltas = []; messages = [] };
          outside = e;
          trace = c.trace ++ ran c.batcher.chain_id c.batcher.deltas c.batcher.messages false ∷ [];
        },
      )
  unfolding step flush_batch flush
  tick_drops_batch c e held fails =
      ap (λ (r : Bool × Consumer E). (running, r.1))
        (run_and_commit_fails c.batcher.chain_id c.batcher.deltas c.batcher.messages _ e held fails)
