-- ===== src/Consumer/Batches.antt =====
-- blockchain_cluster/internal/consumer/batcher.go: what a batch holds.
use blockchain_clustering.Base.{
  ◌≡◌, refl, sym, ap, subst, ◌∙◌, ◌≢◌, ◌⊎◌, inl, inr, String, false, List, [], ◌∷◌, ◌++◌, ==_iff,
  string_eq, Bool-cases, Memᴰ, Memᴰ-concat, Memᴰ-nil, arith,
}
use mathlib.Core.List.Memᴰ
use blockchain_clustering.Consumer.{Batcher, Batch, add, flush, new_batcher, is_boundary}
use blockchain_clustering.Consumer.Message.{KafkaMessage, parse_message}
use blockchain_clustering.Consumer.Message.Parsed.{delta}
use blockchain_clustering.Domain.{BalanceDelta}

-- Each message decodes to the delta at its place.
pub data Decodes : List KafkaMessage → List BalanceDelta → Type 0 where
  none_left : Decodes [] []
  decodes :
      {m : KafkaMessage} {d : BalanceDelta} {ms : List KafkaMessage} {ds : List BalanceDelta}
      → parse_message m.value ≡ delta d
      → Decodes ms ds
      → Decodes (m ∷ ms) (d ∷ ds)

pub Decodes-concat :
    (m : KafkaMessage) (d : BalanceDelta) {ms : List KafkaMessage} {ds : List BalanceDelta}
    → Decodes ms ds
    → parse_message m.value ≡ delta d
    → Decodes (ms ++ m ∷ []) (ds ++ d ∷ [])
Decodes-concat m d none_left e = decodes e none_left
Decodes-concat m d (decodes e h) e' = decodes e (Decodes-concat m d h e')

-- A message of a batch stands for one of its deltas.
pub Decodes-mem :
    {m : KafkaMessage} {d : BalanceDelta} {ms : List KafkaMessage} {ds : List BalanceDelta}
    → Decodes ms ds
    → Memᴰ m ms
    → parse_message m.value ≡ delta d
    → Memᴰ d ds
Decodes-mem none_left x e = absurd (Memᴰ-nil x)
Decodes-mem (decodes e h) (Memᴰ.head same) e' = Memᴰ.head (cc (e, e', same))
Decodes-mem (decodes e h) (Memᴰ.tail x) e' = Memᴰ.tail (Decodes-mem h x e')

-- The deltas of one block of one chain, and the messages that they came from.
pub record Uniform (b : Batch) (block_hash : String) : Type 0 where
  pub sources : Decodes b.messages b.deltas
  pub one_block :
      (d : BalanceDelta) → Memᴰ d b.deltas → (d.chain_id ≡ b.chain_id) × (d.block_hash ≡ block_hash)

abbrev pub pending : Batcher → Batch
pending b = record { chain_id = b.chain_id; deltas = b.deltas; messages = b.messages }

-- A batcher that has no block to compare with is empty.
pub record Valid (b : Batcher) : Type 0 where
  pub uniform : Uniform (pending b) b.block_hash
  pub fresh : b.block_hash ≡ "" → b.deltas ≡ []

pub Uniform-empty :
    (chain_id block_hash : String)
    → Uniform (record { chain_id = chain_id; deltas = []; messages = [] }) block_hash
Uniform-empty chain_id block_hash = record {
  sources = none_left;
  one_block = λ d x. absurd (Memᴰ-nil x);
}

pub Valid-new : Valid new_batcher
unfolding new_batcher
Valid-new = record { uniform = Uniform-empty "" ""; fresh = λ _. refl }

pub Valid-flush : (b : Batcher) → Valid (flush b).1
unfolding flush
Valid-flush b = record { uniform = Uniform-empty b.chain_id ""; fresh = λ _. refl }

Uniform-single :
    (d : BalanceDelta) (m : KafkaMessage)
    → parse_message m.value ≡ delta d
    → Uniform (record { chain_id = d.chain_id; deltas = d ∷ []; messages = m ∷ [] }) d.block_hash
Uniform-single d m e = record {
  sources = decodes e none_left;
  one_block = λ x at.
      let same = Memᴰ.eq_of_singleton at in
      (ap (λ (y : BalanceDelta). y.chain_id) same, ap (λ (y : BalanceDelta). y.block_hash) same);
}

-- Where no boundary is, the batcher is empty or holds the block of the delta.
pub no_boundary :
    (b : Batcher) (d : BalanceDelta)
    → Valid b
    → is_boundary b d ≡ false
    → (b.deltas ≡ []) ⊎ ((d.chain_id ≡ b.chain_id) × (d.block_hash ≡ b.block_hash))
no_boundary b d v none_here = ground (
  arith,
  v.fresh,
  ==_iff b.block_hash "",
  ==_iff d.block_hash b.block_hash,
  ==_iff d.chain_id b.chain_id,
)

Uniform-kept :
    (b : Batcher) (d : BalanceDelta) (m : KafkaMessage)
    → Valid b
    → parse_message m.value ≡ delta d
    → (b.deltas ≡ []) ⊎ ((d.chain_id ≡ b.chain_id) × (d.block_hash ≡ b.block_hash))
    → Uniform
        (record {
          chain_id = d.chain_id;
          deltas = b.deltas ++ d ∷ [];
          messages = b.messages ++ m ∷ [];
        })
        d.block_hash
Uniform-kept b d m v e here = record {
  sources = Decodes-concat m d v.uniform.sources e;
  one_block = λ x at. elim ((Memᴰ-concat x d b.deltas).0 at) [
    | inr same ↦
        (ap (λ (y : BalanceDelta). y.chain_id) same, ap (λ (y : BalanceDelta). y.block_hash) same)
    | inl old ↦ elim here [
      | inl empty ↦ absurd (Memᴰ-nil (subst (Memᴰ x) empty old))
      | inr (chain, block) ↦
          let (c, h) = v.uniform.one_block x old in (c ∙ sym chain, h ∙ sym block)
    ]
  ];
}

-- The batch that is handed over holds the deltas of one block of one chain, with the messages that
-- they came from; and so does what the batcher keeps, where every delta names its block.
pub add-Valid :
    (b : Batcher) (d : BalanceDelta) (m : KafkaMessage)
    → Valid b
    → parse_message m.value ≡ delta d
    → d.block_hash ≢ ""
    → Uniform (add b d m).0 b.block_hash × Valid (add b d m).1
unfolding add
add-Valid b d m v e named = elim (Bool-cases (is_boundary b d)) [
  | inl boundary ↦
      rw (boundary, add)
        (v.uniform, record { uniform = Uniform-single d m e; fresh = λ h. absurd (named h) })
  | inr inside ↦
      rw (inside, add)
        (
          Uniform-empty "" b.block_hash,
          record {
            uniform = Uniform-kept b d m v e (no_boundary b d v inside);
            fresh = λ h. absurd (named h);
          },
        )
]
