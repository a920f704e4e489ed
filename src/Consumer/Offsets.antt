-- ===== src/Consumer/Offsets.antt =====
-- blockchain_cluster/internal/consumer: what the commits of a consumer pass. Kafka keeps one offset for
-- each partition, so a commit of a message passes every message before it in its partition.
use blockchain_clustering.Base.{
  ◌≡◌, ◌⊎◌, refl, subst, inl, inr, ◌≤◌, String, Bool, true, List, [], ◌∷◌, ◌++◌, Memᴰ, Memᴰ-concat,
}
use blockchain_clustering.Consumer.{Action, Batch}
use blockchain_clustering.Consumer.Action.{ran, rolled_back, committed}
use blockchain_clustering.Consumer.Batches.{Decodes, Decodes-mem}
use blockchain_clustering.Consumer.Message.{KafkaMessage, parse_message}
use blockchain_clustering.Consumer.Message.Parsed.{delta}
use blockchain_clustering.Domain.{BalanceDelta}

abbrev pub Covers : KafkaMessage → KafkaMessage → Type 0
Covers c m = (m.partition ≡ c.partition) × (m.offset ≤ c.offset)

-- Some commit was asked for that passes the message, whether or not it succeeded.
abbrev pub IsPassed : KafkaMessage → List Action → Type 0
IsPassed m t =
    (ms : List KafkaMessage) × (fine : Bool) × (c : KafkaMessage) × Memᴰ (committed ms fine) t
    × Memᴰ c ms
    × Covers c m

-- A successful run of the pipeline on a delta, from the message that is asked for.
abbrev pub WasProcessed : KafkaMessage → BalanceDelta → List Action → Type 0
WasProcessed m d t =
    (chain : String) × (ds : List BalanceDelta) × (ms : List KafkaMessage) × Memᴰ
      (ran chain ds ms true) t
    × Memᴰ d ds
    × Memᴰ m ms

-- Of the messages seen, what is passed was processed;
abbrev pub Safe : List KafkaMessage → List Action → Type 0
Safe seen t =
    (m : KafkaMessage) (d : BalanceDelta)
    → Memᴰ m seen
    → parse_message m.value ≡ delta d
    → IsPassed m t
    → WasProcessed m d t

-- only they are committed;
abbrev pub Known : List KafkaMessage → List Action → Type 0
Known seen t =
    (ms : List KafkaMessage) (fine : Bool) (c : KafkaMessage)
    → Memᴰ (committed ms fine) t
    → Memᴰ c ms
    → Memᴰ c seen

-- and what was not processed is pending.
abbrev pub KeptOf : List KafkaMessage → List Action → (KafkaMessage → Type 0) → Type 0
KeptOf seen t pending =
    (m : KafkaMessage) (d : BalanceDelta)
    → Memᴰ m seen
    → parse_message m.value ≡ delta d
    → WasProcessed m d t ⊎ pending m

pub WasProcessed-concat :
    (m : KafkaMessage) (d : BalanceDelta) (t : List Action) (a : Action)
    → WasProcessed m d t
    → WasProcessed m d (t ++ a ∷ [])
WasProcessed-concat m d t a (chain, ds, ms, at, in_ds, in_ms) =
    (chain, ds, ms, (Memᴰ-concat _ a t).1 (inl at), in_ds, in_ms)

-- The actions that commit nothing.
abbrev pub Quiet : Action → Type 0
Quiet a = (ms : List KafkaMessage) (fine : Bool) → ¬ (committed ms fine ≡ a)

pub Quiet-ran :
    (chain : String) (ds : List BalanceDelta) (ms : List KafkaMessage) (fine : Bool)
    → Quiet (ran chain ds ms fine)
Quiet-ran chain ds ms fine _ _ same = cc (same)

pub Quiet-rolled_back :
    (chain : String) (hashes : List String) (fine : Bool) → Quiet (rolled_back chain hashes fine)
Quiet-rolled_back chain hashes fine _ _ same = cc (same)

module _ {seen : List KafkaMessage} {t : List Action} {a : Action} (quiet : Quiet a) where
  pub Safe-quiet : Safe seen t → Safe seen (t ++ a ∷ [])
  Safe-quiet safe m d at e (ms, fine, c, in_t, in_ms, covers) = elim ((Memᴰ-concat _ a t).0 in_t) [
    | inl old ↦ WasProcessed-concat m d t a (safe m d at e (ms, fine, c, old, in_ms, covers))
    | inr new ↦ absurd (quiet ms fine new)
  ]

  pub Known-quiet : Known seen t → Known seen (t ++ a ∷ [])
  Known-quiet known ms fine c in_t in_ms = elim ((Memᴰ-concat _ a t).0 in_t) [
    | inl old ↦ known ms fine c old in_ms
    | inr new ↦ absurd (quiet ms fine new)
  ]

pub KeptOf-concat :
    {seen : List KafkaMessage} {t : List Action} {P : KafkaMessage → Type 0} (a : Action)
    → KeptOf seen t P
    → KeptOf seen (t ++ a ∷ []) P
KeptOf-concat {t = t} a kept m d at e = elim (kept m d at e) [
  | inl done ↦ inl (WasProcessed-concat m d t a done)
  | inr left ↦ inr left
]

-- A commit is safe where all that it passes was processed.
pub Safe-committed :
    {seen : List KafkaMessage} {t : List Action} (ms : List KafkaMessage) (fine : Bool)
    → Safe seen t
    → ((c m : KafkaMessage) (d : BalanceDelta)
        → Memᴰ c ms
        → Memᴰ m seen
        → parse_message m.value ≡ delta d
        → Covers c m
        → WasProcessed m d t)
    → Safe seen (t ++ committed ms fine ∷ [])
Safe-committed {seen} {t} ms fine safe done m d at e (ns, ok, c, in_t, in_ns, covers) =
    WasProcessed-concat m d t (committed ms fine)
      (elim ((Memᴰ-concat _ (committed ms fine) t).0 in_t) [
        | inl old ↦ safe m d at e (ns, ok, c, old, in_ns, covers)
        | inr new ↦ done c m d (subst (Memᴰ c) (cc (new)) in_ns) at e covers
      ])

pub Known-committed :
    {seen : List KafkaMessage} {t : List Action} (ms : List KafkaMessage) (fine : Bool)
    → Known seen t
    → ((c : KafkaMessage) → Memᴰ c ms → Memᴰ c seen)
    → Known seen (t ++ committed ms fine ∷ [])
Known-committed {seen} {t} ms fine known here ns ok c in_t in_ns =
    elim ((Memᴰ-concat _ (committed ms fine) t).0 in_t) [
      | inl old ↦ known ns ok c old in_ns
      | inr new ↦ here c (subst (Memᴰ c) (cc (new)) in_ns)
    ]

-- A run of the pipeline on a batch processes its messages.
pub ran_processed :
    {m : KafkaMessage} {d : BalanceDelta} (t : List Action) (b : Batch)
    → Decodes b.messages b.deltas
    → Memᴰ m b.messages
    → parse_message m.value ≡ delta d
    → WasProcessed m d (t ++ ran b.chain_id b.deltas b.messages true ∷ [])
ran_processed t b h at e =
    (b.chain_id, b.deltas, b.messages, (Memᴰ-concat _ _ t).1 (inr refl), Decodes-mem h at e, at)
