-- ===== src/Consumer/Message.antt =====
-- blockchain_cluster/internal/consumer/message.go: one message of the topic balance-deltas.
use blockchain_clustering.Base.{ℕ, String, List, Option, none, some, ◌==◌, string_eq, if◌then◌else◌}
use blockchain_clustering.Base.Int.{pos}
use blockchain_clustering.Base.Decimal.{parse_int}
use blockchain_clustering.Base.Json.{
  RawMessage, Fields, absent, doc, fields_of, key, string_field, int_field, strings_field,
}
use blockchain_clustering.Domain.{BalanceDelta}

-- kafka.Message, as far as it is read.
pub record KafkaMessage : Type 0 where
  pub partition : ℕ
  pub offset : ℕ
  pub value : RawMessage

pub data Parsed : Type 0 where
  delta : BalanceDelta → Parsed
  reorg : String → List String → Parsed
  invalid : Parsed

module _ {A B : Type 0} where
  infixl 5 ◌>>=◌
  abbrev ◌>>=◌ : Option A → (A → Option B) → Option B
  none >>= f = none
  some a >>= f = f a

-- `json.RawMessage`, as it stands
unfoldable pub raw_field : String → Fields → RawMessage
unfolding key
raw_field k fs = elim (key k fs) [ none ↦ absent | some v ↦ doc v ]

unfoldable pub balance_delta_of : Fields → Option BalanceDelta
unfolding raw_field
balance_delta_of fs = do
  chain_id ← string_field "chain_id" "" fs
  tx_id ← string_field "txid" "" fs
  delta_index ← int_field 31 "delta_index" (pos 0) fs
  address ← string_field "address" "" fs
  text ← string_field "amount" "" fs
  kind ← string_field "kind" "" fs
  block_height ← int_field 63 "block_height" (pos 0) fs
  block_hash ← string_field "block_hash" "" fs
  amount ← parse_int text
  some (record {
    chain_id = chain_id;
    tx_id = tx_id;
    delta_index = delta_index;
    address = address;
    amount = some amount;
    kind = kind;
    block_height = block_height;
    block_hash = block_hash;
    meta = raw_field "meta" fs;
  })

unfoldable pub reorg_of : Fields → Option (String × List String)
reorg_of fs = do
  chain_id ← string_field "chain_id" "" fs
  hashes ← strings_field "rolled_back_block_hashes" fs
  some (chain_id, hashes)

unfoldable pub parse_as : String → Fields → Parsed
unfolding balance_delta_of reorg_of
parse_as kind fs =
    if kind == "balance_delta"
    then (elim (balance_delta_of fs) [ none ↦ invalid | some d ↦ delta d ])
    else if kind == "reorg"
    then (elim (reorg_of fs) [ none ↦ invalid | some (chain_id, hashes) ↦ reorg chain_id hashes ])
    else invalid

unfoldable pub parse_message : RawMessage → Parsed
unfolding parse_as
parse_message raw = elim (fields_of raw) [
  | none ↦ invalid
  | some fs ↦ elim (string_field "type" "" fs) [ none ↦ invalid | some kind ↦ parse_as kind fs ]
]
