-- ===== src/Consumer.antt =====
-- blockchain_cluster/internal/consumer: message.go, batcher.go and consumer.go. The pipeline, the
-- reorg handler and the broker are what the consumer calls: `pipeline_run`, `on_reorg` and
-- `commit_messages` turn the state `E` of everything outside into the next one, and tell whether the
-- call succeeded. Every call is recorded in `trace`, which the code does not read.
pub mod Message
pub mod Batches
pub mod Sound
pub mod Offsets
pub mod Tracked
pub mod Handled
pub mod Covered
pub mod Commits
use blockchain_clustering.Base.{
  String, Bool, true, false, List, [], ◌∷◌, ◌++◌, ◌==◌, string_eq, if◌then◌else◌, ◌&&◌, ◌||◌, not,
}
use blockchain_clustering.Domain.{BalanceDelta}
use blockchain_clustering.Consumer.Message.{KafkaMessage, Parsed, parse_message}
use blockchain_clustering.Consumer.Message.Parsed.{delta, reorg, invalid}

pub record Batcher : Type 0 where
  pub chain_id : String
  pub block_hash : String
  pub deltas : List BalanceDelta
  pub messages : List KafkaMessage

-- What Add and Flush hand over for a run of the pipeline.
pub record Batch : Type 0 where
  pub chain_id : String
  pub deltas : List BalanceDelta
  pub messages : List KafkaMessage

unfoldable pub new_batcher : Batcher
new_batcher = record { chain_id = ""; block_hash = ""; deltas = []; messages = [] }

abbrev pub is_boundary : Batcher → BalanceDelta → Bool
is_boundary b d =
    not (b.block_hash == "")
    && (not (d.block_hash == b.block_hash) || not (d.chain_id == b.chain_id))

abbrev pub drained : Batcher → Batch
drained b = record { chain_id = b.chain_id; deltas = b.deltas; messages = b.messages }

-- The batch to flush (no deltas where ready = false), and the batcher after.
unfoldable pub add : Batcher → BalanceDelta → KafkaMessage → Batch × Batcher
add b d m =
    if is_boundary b d
    then (
      drained b,
      record {
        chain_id = d.chain_id;
        block_hash = d.block_hash;
        deltas = d ∷ [];
        messages = m ∷ [];
      },
    )
    else (
      record { chain_id = ""; deltas = []; messages = [] },
      record {
        chain_id = d.chain_id;
        block_hash = d.block_hash;
        deltas = b.deltas ++ d ∷ [];
        messages = b.messages ++ m ∷ [];
      },
    )

unfoldable pub flush : Batcher → Batch × Batcher
flush b = (drained b, record b { block_hash = ""; deltas = []; messages = [] })

pub data Action : Type 0 where
  ran : String → List BalanceDelta → List KafkaMessage → Bool → Action
  rolled_back : String → List String → Bool → Action
  committed : List KafkaMessage → Bool → Action

pub record Consumer (E : Type 0) : Type 0 where
  pub batcher : Batcher
  pub outside : E
  pub trace : List Action

-- What `select` in Run receives.
pub data Event : Type 0 where
  tick fetch_failed cancelled : Event
  fetched : KafkaMessage → Event

-- Whether Run goes on, or what it returns.
pub data Outcome : Type 0 where
  running stopped failed : Outcome

module _ {E : Type 0} (pipeline_run : String → List BalanceDelta → E → Bool × E)
    (on_reorg : String → List String → E → Bool × E)
    (commit_messages : List KafkaMessage → E → Bool × E) where
  -- `c.reader.CommitMessages`; the result is err == nil, here and below. What a commit passes of the
  -- partitions of its messages is `Covers` in Offsets.
  unfoldable pub commit : List KafkaMessage → Consumer E → Bool × Consumer E
  commit ms c =
      let (fine, e) = commit_messages ms c.outside in
      (fine, record c { outside = e; trace = c.trace ++ committed ms fine ∷ [] })

  unfoldable pub run_pipeline : Batch → Consumer E → Bool × Consumer E
  run_pipeline b c =
      let (fine, e) = pipeline_run b.chain_id b.deltas c.outside in
      (
        fine,
        record c { outside = e; trace = c.trace ++ ran b.chain_id b.deltas b.messages fine ∷ [] },
      )

  unfoldable pub roll_back : String → List String → Consumer E → Bool × Consumer E
  roll_back chain_id hashes c =
      let (fine, e) = on_reorg chain_id hashes c.outside in
      (fine, record c { outside = e; trace = c.trace ++ rolled_back chain_id hashes fine ∷ [] })

  -- One call, and the next unless it failed.
  unfoldable pub both : Bool × Consumer E → (Consumer E → Bool × Consumer E) → Bool × Consumer E
  both (true, c) next = next c
  both (false, c) next = (false, c)

  unfoldable pub run_and_commit : Batch → Consumer E → Bool × Consumer E
  unfolding both
  run_and_commit b c = elim b.deltas [
    | [] ↦ (true, c)
    | d ∷ ds ↦ both (run_pipeline b c) (commit b.messages)
  ]

  unfoldable pub flush_batch : Consumer E → Bool × Consumer E
  unfolding run_and_commit
  flush_batch c =
      let (batch, batcher) = flush c.batcher in
      run_and_commit batch (record c { batcher = batcher })

  unfoldable pub handle : KafkaMessage → Consumer E → Bool × Consumer E
  unfolding both flush_batch
  handle m c = elim (parse_message m.value) [
    | invalid ↦ commit (m ∷ []) c
    | reorg chain_id hashes ↦
        both (flush_batch c) (λ c1. both (roll_back chain_id hashes c1) (commit (m ∷ [])))
    | delta d ↦
        let (batch, batcher) = add c.batcher d m in
        run_and_commit batch (record c { batcher = batcher })
  ]

  abbrev pub outcome : Outcome → Bool × Consumer E → Outcome × Consumer E
  outcome success (fine, c) = (if fine then success else failed, c)

  -- One round of Run's loop. A periodic flush that fails is only logged. A fetch that fails while the
  -- context is cancelled is `cancelled`.
  unfoldable pub step : Event → Consumer E → Outcome × Consumer E
  unfolding flush_batch handle
  step tick c = let (fine, c1) = flush_batch c in (running, c1)
  step fetch_failed c = (failed, c)
  step cancelled c = outcome stopped (flush_batch c)
  step (fetched m) c = outcome running (handle m c)

  -- Run, for the events that it receives.
  unfoldable pub run : List Event → Consumer E → Outcome × Consumer E
  unfolding step
  run [] c = (running, c)
  run (event ∷ events) c =
      let (o, c1) = step event c in
      elim o [ running ↦ run events c1 | stopped ↦ (stopped, c1) | failed ↦ (failed, c1) ]
