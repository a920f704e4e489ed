-- ===== src/Consumer/Tracked.antt =====
-- blockchain_cluster/internal/consumer/consumer.go: what each step makes of the messages seen so far.
use blockchain_clustering.Base.{
  ◌≡◌, ◌⊎◌, refl, ap, subst, inl, inr, ◌<◌, String, Bool, true, List, [], ◌∷◌, ◌++◌, Memᴰ,
  Memᴰ-cons, Memᴰ-nil, arith, Bool-cases, List-cases,
}
use blockchain_clustering.Consumer.{
  Action, Batch, Batcher, Consumer, both, commit, flush, flush_batch, run_and_commit, run_pipeline,
}
use blockchain_clustering.Consumer.Action.{ran, committed}
use blockchain_clustering.Consumer.Batches.{Decodes, none_left}
use blockchain_clustering.Consumer.Message.{KafkaMessage}
use blockchain_clustering.Consumer.Offsets.{
  Covers, IsPassed, KeptOf, KeptOf-concat, Known, Known-committed, Known-quiet, Quiet-ran, Safe,
  Safe-committed, Safe-quiet, ran_processed,
}
use blockchain_clustering.Domain.{BalanceDelta}

-- What was seen and not processed is pending in the batcher.
pub record Tracks {E : Type 0} (seen : List KafkaMessage) (c : Consumer E) : Type 0 where
  pub held : Decodes c.batcher.messages c.batcher.deltas
  pub pending : (m : KafkaMessage) → Memᴰ m c.batcher.messages → Memᴰ m seen
  pub kept : KeptOf seen c.trace (λ m. Memᴰ m c.batcher.messages)
  pub safe : Safe seen c.trace
  pub known : Known seen c.trace

-- After a step that may have failed.
pub record Stepped {E : Type 0} (seen : List KafkaMessage) (r : Bool × Consumer E) : Type 0 where
  pub safe : Safe seen r.1.trace
  pub known : Known seen r.1.trace
  pub tracks : r.0 ≡ true → Tracks seen r.1

-- A batch is handed over, and the batcher holds only messages that a commit of it does not pass.
pub record Ready {E : Type 0} (seen : List KafkaMessage) (b : Batch) (c : Consumer E) : Type 0 where
  pub source : Decodes b.messages b.deltas
  pub held : Decodes c.batcher.messages c.batcher.deltas
  pub handed : (m : KafkaMessage) → Memᴰ m b.messages → Memᴰ m seen
  pub pending : (m : KafkaMessage) → Memᴰ m c.batcher.messages → Memᴰ m seen
  pub kept : KeptOf seen c.trace (λ m. Memᴰ m b.messages ⊎ Memᴰ m c.batcher.messages)
  pub apart : (n m : KafkaMessage) → Memᴰ n b.messages → Memᴰ m c.batcher.messages → ¬ Covers n m
  pub safe : Safe seen c.trace
  pub known : Known seen c.trace

-- The next message comes after all that were seen of its partition.
abbrev pub Next : List KafkaMessage → KafkaMessage → Type 0
Next seen m = (s : KafkaMessage) → Memᴰ s seen → m.partition ≡ s.partition → s.offset < m.offset

pub not_passed :
    (seen : List KafkaMessage) (m s : KafkaMessage) → Next seen m → Memᴰ s seen → ¬ Covers s m
not_passed seen m s next at (same, below) = omega (arith, next s at same, below)

pub Next-unpassed :
    (seen : List KafkaMessage) (m : KafkaMessage) (t : List Action)
    → Next seen m
    → Known seen t
    → ¬ IsPassed m t
Next-unpassed seen m t next known (ms, fine, c, in_t, in_ms, covers) =
    not_passed seen m c next (known ms fine c in_t in_ms) covers

Decodes-nil : (ms : List KafkaMessage) → Decodes ms [] → (m : KafkaMessage) → ¬ Memᴰ m ms
Decodes-nil [] none_left m at = Memᴰ-nil at
Decodes-nil (_ ∷ _) h m at = elim h [ ]

-- One message more, which holds no delta that a commit passed.
pub Safe-cons :
    (seen : List KafkaMessage) (m : KafkaMessage) (t : List Action)
    → (¬ IsPassed m t)
    → Safe seen t
    → Safe (m ∷ seen) t
Safe-cons seen m t never safe x d at e passed = elim ((Memᴰ-cons x m seen).0 at) [
  | inl same ↦ absurd (never (subst (λ (y : KafkaMessage). IsPassed y t) same passed))
  | inr old ↦ safe x d old e passed
]

pub Known-cons :
    (seen : List KafkaMessage) (m : KafkaMessage) (t : List Action)
    → Known seen t
    → Known (m ∷ seen) t
Known-cons seen m t known ms fine c in_t in_ms = Memᴰ.tail (known ms fine c in_t in_ms)

module _ {E : Type 0} (pipeline_run : String → List BalanceDelta → E → Bool × E)
    (on_reorg : String → List String → E → Bool × E)
    (commit_messages : List KafkaMessage → E → Bool × E) where
  ran_and_committed :
      (seen : List KafkaMessage) (b : Batch) (c : Consumer E) (e : E) (fine : Bool)
      → Ready seen b c
      → Tracks seen (record c {
        outside = e;
        trace =
            (c.trace ++ ran b.chain_id b.deltas b.messages true ∷ [])
            ++ committed b.messages fine ∷ [];
      })
  ran_and_committed seen b c e fine r =
      let a = ran b.chain_id b.deltas b.messages true in
      let t = c.trace ++ a ∷ [] in
      let kept : KeptOf seen t (λ m. Memᴰ m c.batcher.messages) = (λ m d at p.
        elim (KeptOf-concat a r.kept m d at p) [
          | inl done ↦ inl done
          | inr (inl here) ↦ inl (ran_processed c.trace b r.source here p)
          | inr (inr left) ↦ inr left
        ]) in
      record {
        held = r.held;
        pending = r.pending;
        kept = KeptOf-concat (committed b.messages fine) kept;
        safe =
            Safe-committed b.messages fine (Safe-quiet (Quiet-ran _ _ _ _) r.safe)
              (λ n m d in_b at p covers. elim (kept m d at p) [
                | inl done ↦ done
                | inr left ↦ absurd (r.apart n m in_b left covers)
              ]);
        known = Known-committed b.messages fine (Known-quiet (Quiet-ran _ _ _ _) r.known) r.handed;
      }

  pub Stepped-run_and_commit :
      (seen : List KafkaMessage) (b : Batch) (c : Consumer E)
      → Ready seen b c
      → Stepped seen (run_and_commit pipeline_run on_reorg commit_messages b c)
        × ((run_and_commit pipeline_run on_reorg commit_messages b c).1.batcher ≡ c.batcher)
  unfolding run_and_commit run_pipeline both commit
  Stepped-run_and_commit seen b c r = elim (List-cases b.deltas) [
    | inl empty ↦
        let none = Decodes-nil b.messages (subst (Decodes b.messages) empty r.source) in
        rw (empty, run_and_commit)
          (
            record {
              safe = r.safe;
              known = r.known;
              tracks = λ _. record {
                held = r.held;
                pending = r.pending;
                kept = λ m d at p. elim (r.kept m d at p) [
                  | inl done ↦ inl done
                  | inr (inl here) ↦ absurd (none m here)
                  | inr (inr left) ↦ inr left
                ];
                safe = r.safe;
                known = r.known;
              };
            },
            refl,
          )
    | inr (d, ds, some_left) ↦ elim (Bool-cases (pipeline_run b.chain_id b.deltas c.outside).0) [
      | inl fine ↦
          let e = (pipeline_run b.chain_id b.deltas c.outside).1 in
          let tracked =
            ran_and_committed seen b c (commit_messages b.messages e).1
              (commit_messages b.messages e).0 r in
          rw (some_left, run_and_commit, run_pipeline, fine, both, commit)
            (record { safe = tracked.safe; known = tracked.known; tracks = λ _. tracked }, refl)
      | inr broken ↦
          rw (some_left, run_and_commit, run_pipeline, broken, both)
            (
              record {
                safe = Safe-quiet (Quiet-ran _ _ _ _) r.safe;
                known = Known-quiet (Quiet-ran _ _ _ _) r.known;
                tracks = λ e. absurd (cc (e));
              },
              refl,
            )
    ]
  ]

  pub Stepped-flush_batch :
      (seen : List KafkaMessage) (c : Consumer E)
      → Tracks seen c
      → Stepped seen (flush_batch pipeline_run on_reorg commit_messages c)
        × ((flush_batch pipeline_run on_reorg commit_messages c).1.batcher.messages ≡ [])
  unfolding flush_batch flush
  Stepped-flush_batch seen c tr =
      let (stepped, same) = Stepped-run_and_commit seen _ _ (record {
        source = tr.held;
        held = none_left;
        handed = tr.pending;
        pending = λ m at. absurd (Memᴰ-nil at);
        kept =
            λ m d at e. elim (tr.kept m d at e) [ inl done ↦ inl done | inr left ↦ inr (inl left) ];
        apart = λ n m in_b at. absurd (Memᴰ-nil at);
        safe = tr.safe;
        known = tr.known;
      }) in
      (stepped, ap (λ (b : Batcher). b.messages) same)
