-- ===== src/Consumer/Covered.antt =====
-- blockchain_cluster/internal/consumer/consumer.go: a delta whose message is passed by a commit was
-- processed, unless a periodic flush failed or a message did not decode.
use blockchain_clustering.Base.{
  ◌≡◌, ◌⊎◌, refl, sym, subst, inl, inr, ◌<◌, String, Bool, true, false, List, [], ◌∷◌, Memᴰ,
  Memᴰ-cons, Memᴰ-nil, Bool-cases,
}
use blockchain_clustering.Consumer.{
  Action, Consumer, Event, both, commit, flush_batch, handle, new_batcher, roll_back, run, step,
}
use blockchain_clustering.Consumer.Batches.{none_left}
use blockchain_clustering.Consumer.Event.{tick, fetch_failed, cancelled, fetched}
use blockchain_clustering.Consumer.Message.{KafkaMessage, Parsed, parse_message}
use blockchain_clustering.Consumer.Message.Parsed.{delta, reorg, invalid}
use blockchain_clustering.Consumer.Offsets.{IsPassed, Known, Safe, WasProcessed}
use blockchain_clustering.Consumer.Handled.{Ready-add, Stepped-roll_back}
use blockchain_clustering.Consumer.Tracked.{
  Next, Next-unpassed, Stepped, Stepped-flush_batch, Stepped-run_and_commit, Tracks,
}
use blockchain_clustering.Domain.{BalanceDelta}

abbrev pub fetches : List Event → List KafkaMessage
fetches [] = []
fetches (fetched m ∷ events) = m ∷ fetches events
fetches (tick ∷ events) = fetches events
fetches (fetch_failed ∷ events) = fetches events
fetches (cancelled ∷ events) = fetches events

-- The offsets of a partition rise.
abbrev pub Rising : List KafkaMessage → Type 0
Rising [] = Unit
Rising (m ∷ ms) =
    ((n : KafkaMessage) → Memᴰ n ms → n.partition ≡ m.partition → m.offset < n.offset) × Rising ms

abbrev AllNext : List KafkaMessage → List KafkaMessage → Type 0
AllNext seen ms = (m : KafkaMessage) → Memᴰ m ms → Next seen m

-- Of the messages seen and to come, what is passed was processed.
abbrev Covered : List KafkaMessage → List KafkaMessage → List Action → Type 0
Covered seen ms t =
    (m : KafkaMessage) (d : BalanceDelta)
    → Memᴰ m seen ⊎ Memᴰ m ms
    → parse_message m.value ≡ delta d
    → IsPassed m t
    → WasProcessed m d t

Covered-now :
    (seen ms : List KafkaMessage) (t : List Action)
    → Safe seen t
    → Known seen t
    → AllNext seen ms
    → Covered seen ms t
Covered-now seen ms t safe known next m d (inl old) e passed = safe m d old e passed
Covered-now seen ms t safe known next m d (inr new) e passed =
    absurd (Next-unpassed seen m t (next m new) known passed)

module _ {E : Type 0} (pipeline_run : String → List BalanceDelta → E → Bool × E)
    (on_reorg : String → List String → E → Bool × E)
    (commit_messages : List KafkaMessage → E → Bool × E) where
  -- No periodic flush of the run fails.
  abbrev pub TicksWork : List Event → Consumer E → Type 0
  TicksWork [] c = Unit
  TicksWork (tick ∷ events) c =
      ((flush_batch pipeline_run on_reorg commit_messages c).0 ≡ true)
      × TicksWork events (flush_batch pipeline_run on_reorg commit_messages c).1
  TicksWork (fetched m ∷ events) c =
      (handle pipeline_run on_reorg commit_messages m c).0 ≡ true
      → TicksWork events (handle pipeline_run on_reorg commit_messages m c).1
  TicksWork (fetch_failed ∷ events) c = Unit
  TicksWork (cancelled ∷ events) c = Unit

  Stepped-handle :
      (seen : List KafkaMessage) (m : KafkaMessage) (c : Consumer E) (p : Parsed)
      → parse_message m.value ≡ p
      → ¬ (p ≡ invalid)
      → Next seen m
      → Tracks seen c
      → Stepped (m ∷ seen) (handle pipeline_run on_reorg commit_messages m c)
  unfolding handle both
  Stepped-handle seen m c invalid e decodes next tr = absurd (decodes refl)
  Stepped-handle seen m c (delta d) e decodes next tr =
      rw (e, handle)
        (Stepped-run_and_commit pipeline_run on_reorg commit_messages (m ∷ seen) _ _
          (Ready-add pipeline_run on_reorg commit_messages seen c d m tr next e)).0
  Stepped-handle seen m c (reorg chain hashes) e decodes next tr =
      rw (e, handle)
        (let (flushed, empty) =
            Stepped-flush_batch pipeline_run on_reorg commit_messages seen c tr in
          after_flush (flush_batch pipeline_run on_reorg commit_messages c) flushed empty)
    where
      after_flush :
          (r : Bool × Consumer E)
          → Stepped seen r
          → r.1.batcher.messages ≡ []
          → Stepped (m ∷ seen) (
              both pipeline_run on_reorg commit_messages r (λ c1.
                both pipeline_run on_reorg commit_messages
                  (roll_back pipeline_run on_reorg commit_messages chain hashes c1)
                  (commit pipeline_run on_reorg commit_messages (m ∷ []))))
      after_flush (true, c1) s empty =
          Stepped-roll_back pipeline_run on_reorg commit_messages seen c1 m chain hashes
            (s.tracks refl) empty (λ d same. cc (e, same))
      after_flush (false, c1) s empty = record {
        safe = λ x d at p passed. elim ((Memᴰ-cons x m seen).0 at) [
          | inl same ↦ absurd (
              let q = subst (λ (y : KafkaMessage). parse_message y.value ≡ delta d) same p in
              cc (e, q))
          | inr old ↦ s.safe x d old p passed
        ];
        known = λ ms fine x in_t in_ms. Memᴰ.tail (s.known ms fine x in_t in_ms);
        tracks = λ no_run. absurd (cc (no_run));
      }

  Covered-run :
      (events : List Event) (seen : List KafkaMessage) (c : Consumer E)
      → Tracks seen c
      → AllNext seen (fetches events)
      → Rising (fetches events)
      → ((m : KafkaMessage) → Memᴰ m (fetches events) → ¬ (parse_message m.value ≡ invalid))
      → TicksWork events c
      → Covered seen (fetches events) (run pipeline_run on_reorg commit_messages events c).1.trace
  unfolding run step
  Covered-run [] seen c tr next rising decode work =
      Covered-now seen [] c.trace tr.safe tr.known next
  Covered-run (tick ∷ events) seen c tr next rising decode work =
      let (s, _) = Stepped-flush_batch pipeline_run on_reorg commit_messages seen c tr in
      Covered-run events seen _ (s.tracks work.0) next rising decode work.1
  Covered-run (fetch_failed ∷ events) seen c tr next rising decode work =
      Covered-now seen (fetches events) c.trace tr.safe tr.known next
  Covered-run (cancelled ∷ events) seen c tr next rising decode work =
      let (s, _) = Stepped-flush_batch pipeline_run on_reorg commit_messages seen c tr in
      let r = flush_batch pipeline_run on_reorg commit_messages c in
      elim (Bool-cases r.0) [
        | inl fine ↦
            rw (fine, run, step) (Covered-now seen (fetches events) r.1.trace s.safe s.known next)
        | inr broken ↦
            rw (broken, run, step) (Covered-now seen (fetches events) r.1.trace s.safe s.known next)
      ]
  Covered-run (fetched m ∷ events) seen c tr next rising decode work =
      let s =
        Stepped-handle seen m c (parse_message m.value) refl (decode m (Memᴰ.head refl))
          (next m (Memᴰ.head refl)) tr in
      let r = handle pipeline_run on_reorg commit_messages m c in
      let next' : AllNext (m ∷ seen) (fetches events) = (λ n at x in_seen.
        elim ((Memᴰ-cons x m seen).0 in_seen) [
          | inl same ↦
              subst (λ (y : KafkaMessage). n.partition ≡ y.partition → y.offset < n.offset)
                (sym same) (rising.0 n at)
          | inr old ↦ next n (Memᴰ.tail at) x old
        ]) in
      let moved : (t : List Action)
          → Covered (m ∷ seen) (fetches events) t
          → Covered seen (m ∷ fetches events) t =
        (λ t covered x d at. covered x d (elim at [
          | inl old ↦ inl (Memᴰ.tail old)
          | inr new ↦ elim ((Memᴰ-cons x m (fetches events)).0 new) [
            | inl same ↦ inl (Memᴰ.head same)
            | inr later ↦ inr later
          ]
        ])) in
      elim (Bool-cases r.0) [
        | inl fine ↦
            rw (fine, run, step)
              (moved _ (
                Covered-run events (m ∷ seen) r.1 (s.tracks fine) next' rising.1
                  (λ n at. decode n (Memᴰ.tail at)) (work fine)))
        | inr broken ↦
            rw (broken, run, step)
              (moved _ (Covered-now (m ∷ seen) (fetches events) r.1.trace s.safe s.known next'))
      ]

  -- From a consumer that has just started, where the offsets of each partition rise, every message
  -- decodes and no periodic flush fails, whatever other calls fail: a delta whose message some commit
  -- passes, of that message or of a later one of its partition, was in a batch, with that message, on
  -- which the pipeline ran with success.
  pub run_passes_processed :
      (events : List Event) (start : E) (m : KafkaMessage) (d : BalanceDelta)
      → Rising (fetches events)
      → ((n : KafkaMessage) → Memᴰ n (fetches events) → ¬ (parse_message n.value ≡ invalid))
      → TicksWork events (record { batcher = new_batcher; outside = start; trace = [] })
      → Memᴰ m (fetches events)
      → parse_message m.value ≡ delta d
      → IsPassed m
          (run pipeline_run on_reorg commit_messages events
            (record { batcher = new_batcher; outside = start; trace = [] })).1.trace
      → WasProcessed m d
          (run pipeline_run on_reorg commit_messages events
            (record { batcher = new_batcher; outside = start; trace = [] })).1.trace
  unfolding new_batcher
  run_passes_processed events start m d rising decode work at =
      Covered-run events [] _
        (record {
          held = none_left;
          pending = λ x in_batch. absurd (Memᴰ-nil in_batch);
          kept = λ x f in_seen. absurd (Memᴰ-nil in_seen);
          safe = λ x f in_seen. absurd (Memᴰ-nil in_seen);
          known = λ ms fine x in_t. absurd (Memᴰ-nil in_t);
        })
        (λ n at s in_seen. absurd (Memᴰ-nil in_seen)) rising decode work m d (inr at)
