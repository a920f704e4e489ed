-- ===== src/Consumer/Handled.antt =====
-- blockchain_cluster/internal/consumer: a delta is added to the batcher, and a rollback is handled.
use mathlib.Core.List.Memᴰ
use blockchain_clustering.Base.{
  ◌≡◌, subst, inl, inr, String, Bool, true, List, [], ◌∷◌, Memᴰ, Memᴰ-concat, Memᴰ-cons, Memᴰ-nil,
  Bool-cases,
}
use blockchain_clustering.Consumer.{Consumer, add, both, commit, is_boundary, roll_back}
use blockchain_clustering.Consumer.Action.{rolled_back, committed}
use blockchain_clustering.Consumer.Batches.{Decodes-concat, none_left}
use blockchain_clustering.Consumer.Message.{KafkaMessage, parse_message}
use blockchain_clustering.Consumer.Message.Parsed.{delta}
use blockchain_clustering.Consumer.Offsets.{
  Covers, KeptOf, KeptOf-concat, Known-committed, Known-quiet, Quiet-rolled_back, Safe,
  Safe-committed, Safe-quiet,
}
use blockchain_clustering.Domain.{BalanceDelta}
use blockchain_clustering.Consumer.Tracked.{
  Known-cons, Next, Next-unpassed, Ready, Safe-cons, Stepped, Tracks, not_passed,
}

module _ {E : Type 0} (pipeline_run : String → List BalanceDelta → E → Bool × E)
    (on_reorg : String → List String → E → Bool × E)
    (commit_messages : List KafkaMessage → E → Bool × E) where
  -- A batcher that takes a delta more hands over what is then ready.
  pub Ready-add :
      (seen : List KafkaMessage) (c : Consumer E) (d : BalanceDelta) (m : KafkaMessage)
      → Tracks seen c
      → Next seen m
      → parse_message m.value ≡ delta d
      → Ready (m ∷ seen) (add c.batcher d m).0 (record c { batcher = (add c.batcher d m).1 })
  unfolding add
  Ready-add seen c d m tr next e =
      let safe = Safe-cons seen m c.trace (Next-unpassed seen m c.trace next tr.known) tr.safe in
      let known = Known-cons seen m c.trace tr.known in
      elim (Bool-cases (is_boundary c.batcher d)) [
        | inl boundary ↦
            rw (boundary, add)
              (record {
                source = tr.held;
                held = Decodes-concat m d none_left e;
                handed = λ n at. Memᴰ.tail (tr.pending n at);
                pending = λ n at. Memᴰ.head (Memᴰ.eq_of_singleton at);
                kept = λ n f at p. elim ((Memᴰ-cons n m seen).0 at) [
                  | inl same ↦ inr (inr (Memᴰ.head same))
                  | inr old ↦ elim (tr.kept n f old p) [
                    | inl done ↦ inl done
                    | inr left ↦ inr (inl left)
                  ]
                ];
                apart = λ n x in_b at covers.
                    not_passed seen m n next (tr.pending n in_b)
                      (subst (Covers n) (Memᴰ.eq_of_singleton at) covers);
                safe = safe;
                known = known;
              })
        | inr inside ↦
            rw (inside, add)
              (record {
                source = none_left;
                held = Decodes-concat m d tr.held e;
                handed = λ n at. absurd (Memᴰ-nil at);
                pending = λ n at. elim ((Memᴰ-concat n m c.batcher.messages).0 at) [
                  | inl old ↦ Memᴰ.tail (tr.pending n old)
                  | inr new ↦ Memᴰ.head new
                ];
                kept = λ n f at p. elim ((Memᴰ-cons n m seen).0 at) [
                  | inl same ↦ inr (inr ((Memᴰ-concat n m c.batcher.messages).1 (inr same)))
                  | inr old ↦ elim (tr.kept n f old p) [
                    | inl done ↦ inl done
                    | inr left ↦ inr (inr ((Memᴰ-concat n m c.batcher.messages).1 (inl left)))
                  ]
                ];
                apart = λ n x in_b at. absurd (Memᴰ-nil in_b);
                safe = safe;
                known = known;
              })
      ]

  -- A notice of a rollback, where nothing is pending.
  pub Stepped-roll_back :
      (seen : List KafkaMessage) (c : Consumer E) (m : KafkaMessage) (chain : String)
      (hashes : List String)
      → Tracks seen c
      → c.batcher.messages ≡ []
      → ((d : BalanceDelta) → ¬ (parse_message m.value ≡ delta d))
      → Stepped (m ∷ seen) (
          both pipeline_run on_reorg commit_messages
            (roll_back pipeline_run on_reorg commit_messages chain hashes c)
            (commit pipeline_run on_reorg commit_messages (m ∷ [])))
  unfolding both roll_back commit
  Stepped-roll_back seen c m chain hashes tr empty no_delta =
      let here : (x : KafkaMessage) (d : BalanceDelta)
          → Memᴰ x (m ∷ seen)
          → parse_message x.value ≡ delta d
          → Memᴰ x seen =
        λ x d at e. elim ((Memᴰ-cons x m seen).0 at) [
          | inl same ↦
              absurd
                (no_delta d (subst (λ (y : KafkaMessage). parse_message y.value ≡ delta d) same e))
          | inr old ↦ old
        ] in
      let safe : Safe (m ∷ seen) c.trace = λ x d at e. tr.safe x d (here x d at e) e in
      let known = Known-cons seen m c.trace tr.known in
      let kept : KeptOf (m ∷ seen) c.trace (λ x. Memᴰ x c.batcher.messages) =
        (λ x d at e. tr.kept x d (here x d at e) e) in
      elim (Bool-cases (on_reorg chain hashes c.outside).0) [
        | inr broken ↦
            rw (broken, both, roll_back)
              (record {
                safe = Safe-quiet (Quiet-rolled_back _ _ _) safe;
                known = Known-quiet (Quiet-rolled_back _ _ _) known;
                tracks = λ e. absurd (cc (e));
              })
        | inl fine ↦
            let a = rolled_back chain hashes true in
            let safe' =
              Safe-committed (m ∷ [])
                (commit_messages (m ∷ []) (on_reorg chain hashes c.outside).1).0
                (Safe-quiet (Quiet-rolled_back chain hashes true) safe)
                (λ n x d in_ms at e covers. elim (KeptOf-concat a kept x d at e) [
                  | inl done ↦ done
                  | inr left ↦ absurd (Memᴰ-nil (subst (Memᴰ x) empty left))
                ]) in
            let known' =
              Known-committed (m ∷ [])
                (commit_messages (m ∷ []) (on_reorg chain hashes c.outside).1).0
                (Known-quiet (Quiet-rolled_back chain hashes true) known)
                (λ n at. Memᴰ.head (Memᴰ.eq_of_singleton at)) in
            rw (fine, both, roll_back, commit)
              (record {
                safe = safe';
                known = known';
                tracks = λ _. record {
                  held = tr.held;
                  pending = λ n at. Memᴰ.tail (tr.pending n at);
                  kept = KeptOf-concat (committed (m ∷ []) _) (KeptOf-concat a kept);
                  safe = safe';
                  known = known';
                };
              })
      ]
