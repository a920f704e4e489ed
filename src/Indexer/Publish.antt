-- ===== src/Indexer/Publish.antt =====
-- blockchain-indexer/internal/kafka/publisher.go: the messages of deltas and of rollbacks, with
-- domain.ReorgEvent of internal/domain/delta.go. `encoding/json` writes the fields of a struct in their
-- order and the keys of a map sorted; a message's value is the document that it writes.
-- `write_messages` is the writer of kafka-go, on the state `E` of everything outside; it tells whether
-- it succeeded.
pub mod Decoded
pub mod Balance
pub mod Indices
use blockchain_clustering.Base.{
  ℕ, ◌-◌, ◌^◌, String, Bool, true, false, List, [], ◌∷◌, ltb, if◌then◌else◌, map, string_leb,
}
use blockchain_clustering.Base.GoMap.{GoMap}
use blockchain_clustering.Base.Int.{ℤ, pos, negsuc}
use blockchain_clustering.Base.Json.{
  Json, Items, Fields, RawMessage, null, str, int, arr, obj, nil, cons, end, field, doc,
}
use blockchain_clustering.Indexer.Extract.{ExtractedDelta}

pub record ReorgEvent : Type 0 where
  pub chain_id : String
  pub rolled_back_block_hashes : List String

-- kafkago.Message
pub record Message : Type 0 where
  pub key : String
  pub value : RawMessage

-- The integer of an int32.
abbrev pub signed32 : ℕ → ℤ
signed32 w = if ltb w (2 ^ 31) then pos w else negsuc (2 ^ 32 - w - 1)

abbrev insert_key : String × Json → List (String × Json) → List (String × Json)
insert_key e [] = e ∷ []
insert_key e (x ∷ xs) =
    let rest = insert_key e xs in if string_leb e.0 x.0 then e ∷ x ∷ xs else x ∷ rest

abbrev sort_keys : List (String × Json) → List (String × Json)
sort_keys [] = []
sort_keys (e ∷ es) = insert_key e (sort_keys es)

abbrev fields : List (String × Json) → Fields
fields [] = end
fields ((k, v) ∷ es) = field k v (fields es)

-- `omitempty`
unfoldable pub encode_meta : GoMap String Json → Fields
encode_meta [] = end
encode_meta (e ∷ es) = field "meta" (obj (fields (sort_keys (e ∷ es)))) end

abbrev items : List String → Items
items [] = nil
items (s ∷ ss) = cons (str s) (items ss)

-- A slice to which nothing was appended is nil, and written as null.
unfoldable pub encode_strings : List String → Json
encode_strings [] = null
encode_strings (s ∷ ss) = arr (items (s ∷ ss))

unfoldable pub encode_delta : ExtractedDelta → Json
encode_delta d = obj (
    field "type" (str "balance_delta") (
      field "chain_id" (str d.chain_id) (
        field "txid" (str d.txid) (
          field "delta_index" (int (signed32 d.delta_index)) (
            field "address" (str d.address) (
              field "amount" (str d.amount) (
                field "kind" (str d.kind) (
                  field "block_height" (int d.block_height)
                    (field "block_hash" (str d.block_hash) (encode_meta d.meta))))))))))

unfoldable pub encode_reorg : ReorgEvent → Json
encode_reorg e = obj (
    field "type" (str "reorg") (
      field "chain_id" (str e.chain_id)
        (field "rolled_back_block_hashes" (encode_strings e.rolled_back_block_hashes) end)))

unfoldable pub delta_message : ExtractedDelta → Message
delta_message d = record { key = d.chain_id; value = doc (encode_delta d) }

unfoldable pub reorg_message : ReorgEvent → Message
reorg_message e = record { key = e.chain_id; value = doc (encode_reorg e) }

module _ {E : Type 0} (write_messages : List Message → E → Bool × E) where
  unfoldable pub publish_deltas : List ExtractedDelta → E → Bool × E
  publish_deltas ds = write_messages (map delta_message ds)

  unfoldable pub publish_reorg : ReorgEvent → E → Bool × E
  publish_reorg e = write_messages (reorg_message e ∷ [])
