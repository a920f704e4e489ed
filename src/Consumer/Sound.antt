-- ===== src/Consumer/Sound.antt =====
-- blockchain_cluster/internal/consumer/consumer.go: the calls that a consumer makes, step by step.
use blockchain_clustering.Base.{
  ◌≡◌, refl, ◌⊎◌, inl, inr, String, Bool, true, false, List, [], ◌∷◌, ◌++◌, Bool-cases, List-cases,
}
use blockchain_clustering.Consumer.{
  Action, Batcher, Batch, Consumer, Event, Outcome, add, both, commit, flush, flush_batch, handle,
  is_boundary, roll_back, run, run_and_commit, run_pipeline, step,
}
use blockchain_clustering.Consumer.Action.{ran, rolled_back, committed}
use blockchain_clustering.Consumer.Event.{tick, fetch_failed, cancelled, fetched}
use blockchain_clustering.Consumer.Outcome.{running, stopped, failed}
use blockchain_clustering.Consumer.Batches.{Decodes, none_left, Decodes-concat}
use blockchain_clustering.Consumer.Message.{KafkaMessage, Parsed, parse_message}
use blockchain_clustering.Consumer.Message.Parsed.{delta, reorg, invalid}
use blockchain_clustering.Domain.{BalanceDelta}

-- The calls that a consumer may make, in their order.
pub data Sound : List Action → Type 0 where
  nothing : Sound []
  tried :
      {t : List Action}
      → Sound t
      → (chain : String) (ds : List BalanceDelta) (ms : List KafkaMessage) (fine : Bool)
      → Sound (t ++ ran chain ds ms fine ∷ [])
  processed :
      {t : List Action}
      → Sound t
      → (chain : String) (ds : List BalanceDelta) (ms : List KafkaMessage) (fine : Bool)
      → Decodes ms ds
      → Sound ((t ++ ran chain ds ms true ∷ []) ++ committed ms fine ∷ [])
  undone :
      {t : List Action}
      → Sound t
      → (chain : String) (hashes : List String) (fine : Bool)
      → Sound (t ++ rolled_back chain hashes fine ∷ [])
  obeyed :
      {t : List Action}
      → Sound t
      → (m : KafkaMessage) (chain : String) (hashes : List String) (fine : Bool)
      → parse_message m.value ≡ reorg chain hashes
      → Sound ((t ++ rolled_back chain hashes true ∷ []) ++ committed (m ∷ []) fine ∷ [])
  skipped :
      {t : List Action}
      → Sound t
      → (m : KafkaMessage) (fine : Bool) → parse_message m.value ≡ invalid
      → Sound (t ++ committed (m ∷ []) fine ∷ [])

Outcome-cases : (o : Outcome) → (o ≡ running) ⊎ ((o ≡ stopped) ⊎ (o ≡ failed))
Outcome-cases running = inl refl
Outcome-cases stopped = inr (inl refl)
Outcome-cases failed = inr (inr refl)

-- The calls so far are sound, and every pending delta is what its message decodes to.
pub record Good {E : Type 0} (c : Consumer E) : Type 0 where
  pub sound : Sound c.trace
  pub held : Decodes c.batcher.messages c.batcher.deltas

module _ {E : Type 0} (pipeline_run : String → List BalanceDelta → E → Bool × E)
    (on_reorg : String → List String → E → Bool × E)
    (commit_messages : List KafkaMessage → E → Bool × E) where
  Good-both :
      (r : Bool × Consumer E) (next : Consumer E → Bool × Consumer E)
      → (r.0 ≡ true → Good (next r.1).1)
      → Good r.1
      → Good (both pipeline_run on_reorg commit_messages r next).1
  unfolding both
  Good-both (true, c) next h g = h refl
  Good-both (false, c) next h g = g

  Good-run_pipeline :
      (b : Batch) (c : Consumer E)
      → Good c
      → Good (run_pipeline pipeline_run on_reorg commit_messages b c).1
  unfolding run_pipeline
  Good-run_pipeline b c g = record {
    sound =
        tried g.sound b.chain_id b.deltas b.messages (pipeline_run b.chain_id b.deltas c.outside).0;
    held = g.held;
  }

  Good-processed :
      (b : Batch) (c : Consumer E)
      → Good c
      → Decodes b.messages b.deltas
      → (run_pipeline pipeline_run on_reorg commit_messages b c).0 ≡ true
      → Good
          (commit pipeline_run on_reorg commit_messages b.messages
            (run_pipeline pipeline_run on_reorg commit_messages b c).1).1
  unfolding run_pipeline commit
  Good-processed b c g h fine = record {
    sound = rw fine (
        processed g.sound b.chain_id b.deltas b.messages
          (commit_messages b.messages (pipeline_run b.chain_id b.deltas c.outside).1).0 h);
    held = g.held;
  }

  pub Good-run_and_commit :
      (b : Batch) (c : Consumer E)
      → Good c
      → Decodes b.messages b.deltas
      → Good (run_and_commit pipeline_run on_reorg commit_messages b c).1
  unfolding run_and_commit
  Good-run_and_commit b c g h = elim (List-cases b.deltas) [
    | inl empty ↦ rw (empty, run_and_commit) g
    | inr (d, ds, some_left) ↦
        rw (some_left, run_and_commit)
          (Good-both (run_pipeline pipeline_run on_reorg commit_messages b c)
            (commit pipeline_run on_reorg commit_messages b.messages) (Good-processed b c g h)
            (Good-run_pipeline b c g))
  ]

  Good-flush_batch :
      (c : Consumer E) → Good c → Good (flush_batch pipeline_run on_reorg commit_messages c).1
  unfolding flush_batch flush
  Good-flush_batch c g =
      Good-run_and_commit _ _ (record { sound = g.sound; held = none_left }) g.held

  Good-add :
      (b : Batcher) (d : BalanceDelta) (m : KafkaMessage)
      → Decodes b.messages b.deltas
      → parse_message m.value ≡ delta d
      → Decodes (add b d m).0.messages (add b d m).0.deltas
        × Decodes (add b d m).1.messages (add b d m).1.deltas
  unfolding add
  Good-add b d m h e = elim (Bool-cases (is_boundary b d)) [
    | inl boundary ↦ rw (boundary, add) (h, Decodes-concat m d none_left e)
    | inr inside ↦ rw (inside, add) (none_left, Decodes-concat m d h e)
  ]

  Good-obeyed :
      (m : KafkaMessage) (chain : String) (hashes : List String) (c : Consumer E)
      → Good c
      → parse_message m.value ≡ reorg chain hashes
      → Good
          (both pipeline_run on_reorg commit_messages
            (roll_back pipeline_run on_reorg commit_messages chain hashes c)
            (commit pipeline_run on_reorg commit_messages (m ∷ []))).1
  unfolding roll_back commit
  Good-obeyed m chain hashes c g e =
      Good-both (roll_back pipeline_run on_reorg commit_messages chain hashes c)
        (commit pipeline_run on_reorg commit_messages (m ∷ []))
        (λ fine. record { sound = rw fine (obeyed g.sound m chain hashes _ e); held = g.held })
        (record { sound = undone g.sound chain hashes _; held = g.held })

  Good-handle :
      (m : KafkaMessage) (c : Consumer E) (p : Parsed)
      → parse_message m.value ≡ p
      → Good c
      → Good (handle pipeline_run on_reorg commit_messages m c).1
  unfolding handle commit
  Good-handle m c invalid e g =
      rw (e, handle) (record { sound = skipped g.sound m _ e; held = g.held })
  Good-handle m c (reorg chain hashes) e g =
      rw (e, handle)
        (Good-both (flush_batch pipeline_run on_reorg commit_messages c) _
          (λ _. Good-obeyed m chain hashes _ (Good-flush_batch c g) e) (Good-flush_batch c g))
  Good-handle m c (delta d) e g =
      let (out, kept) = Good-add c.batcher d m g.held e in
      rw (e, handle) (Good-run_and_commit _ _ (record { sound = g.sound; held = kept }) out)

  Good-step :
      (event : Event) (c : Consumer E)
      → Good c
      → Good (step pipeline_run on_reorg commit_messages event c).1
  unfolding step
  Good-step tick c g = Good-flush_batch c g
  Good-step fetch_failed c g = g
  Good-step cancelled c g = Good-flush_batch c g
  Good-step (fetched m) c g = Good-handle m c (parse_message m.value) refl g

  pub Good-run :
      (events : List Event) (c : Consumer E)
      → Good c
      → Good (run pipeline_run on_reorg commit_messages events c).1
  unfolding run
  Good-run [] c g = g
  Good-run (event ∷ events) c g =
      let (o, c1) = step pipeline_run on_reorg commit_messages event c in
      let after = Good-step event c g in
      elim (Outcome-cases o) [
        | inl on ↦ rw (on, run) (Good-run events c1 after)
        | inr (inl stop) ↦ rw (stop, run) after
        | inr (inr fault) ↦ rw (fault, run) after
      ]
