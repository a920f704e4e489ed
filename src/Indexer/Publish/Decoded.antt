-- ===== src/Indexer/Publish/Decoded.antt =====
-- blockchain-indexer/internal/kafka/publisher.go against
-- blockchain_cluster/internal/consumer/message.go: what the consumer reads in a published message.
use blockchain_clustering.Base.{
  ◌≡◌, refl, ℕ, ◌<◌, ◌^◌, String, true, List, [], ◌∷◌, some, Bool-cases, inl, inr, arith, ltb,
}
use blockchain_clustering.Base.Decimal.{parse_int}
use blockchain_clustering.Base.GoMap.{GoMap}
use blockchain_clustering.Base.Int.{ℤ}
use blockchain_clustering.Base.Json.{
  Json, RawMessage, absent, doc, obj, key, fields_of, string_field, int_field, strings_field,
  strings, in_range,
}
use blockchain_clustering.Consumer.Message.{
  balance_delta_of, parse_as, parse_message, raw_field, reorg_of,
}
use blockchain_clustering.Consumer.Message.Parsed.{delta, reorg}
use blockchain_clustering.Domain.{BalanceDelta}
use blockchain_clustering.Indexer.Extract.{ExtractedDelta}
use blockchain_clustering.Indexer.Publish.{
  ReorgEvent, encode_delta, encode_meta, encode_reorg, encode_strings, fields, items, signed32,
  sort_keys,
}

-- The meta of a delta as the consumer has it.
abbrev pub meta_message : GoMap String Json → RawMessage
meta_message [] = absent
meta_message (e ∷ es) = doc (obj (fields (sort_keys (e ∷ es))))

-- A published delta, and its amount, as the consumer has them.
abbrev pub decoded : ExtractedDelta → ℤ → BalanceDelta
decoded d amount = record {
  chain_id = d.chain_id;
  tx_id = d.txid;
  delta_index = signed32 d.delta_index;
  address = d.address;
  amount = some amount;
  kind = d.kind;
  block_height = d.block_height;
  block_hash = d.block_hash;
  meta = meta_message d.meta;
}

signed32-in_range : (w : ℕ) → w < 2 ^ 32 → in_range 31 (signed32 w) ≡ true
signed32-in_range w h = elim (Bool-cases (ltb w (2 ^ 31))) [
  | inl small ↦ rw small (ground arith)
  | inr large ↦ rw large (ground arith)
]

-- Split by whether there is a meta.
parse_encoded :
    (d : ExtractedDelta) (m : GoMap String Json) (amount : ℤ)
    → d.delta_index < 2 ^ 32
    → in_range 63 d.block_height ≡ true
    → parse_int d.amount ≡ some amount
    → parse_message (doc (encode_delta (record d { meta = m })))
      ≡ delta (decoded (record d { meta = m }) amount)
unfolding parse_message encode_delta encode_meta fields_of string_field parse_as balance_delta_of
    int_field raw_field key
parse_encoded d [] amount h k e = rw (signed32-in_range d.delta_index h, k, e) refl
parse_encoded d (x ∷ xs) amount h k e = rw (signed32-in_range d.delta_index h, k, e) refl

-- The consumer reads a published delta as it was extracted, its index as a signed number, where the
-- index has 32 bits, the height fits in an int64 and the amount is an integer in decimal.
pub parse_message-encode_delta :
    (d : ExtractedDelta) (amount : ℤ)
    → d.delta_index < 2 ^ 32
    → in_range 63 d.block_height ≡ true
    → parse_int d.amount ≡ some amount
    → parse_message (doc (encode_delta d)) ≡ delta (decoded d amount)
parse_message-encode_delta d amount h k e = parse_encoded d d.meta amount h k e

strings-items : (ss : List String) → strings (items ss) ≡ some ss
unfolding strings
strings-items [] = refl
strings-items (s ∷ ss) = rw (strings-items ss) refl

parse_encoded_reorg :
    (chain_id : String) (hashes : List String)
    → parse_message
        (doc (encode_reorg (record { chain_id = chain_id; rolled_back_block_hashes = hashes })))
      ≡ reorg chain_id hashes
unfolding parse_message encode_reorg encode_strings fields_of string_field parse_as reorg_of
    strings_field key
parse_encoded_reorg chain_id [] = refl
parse_encoded_reorg chain_id (h ∷ hs) = rw (strings-items hs) refl

-- The consumer reads a published notice of a rollback as it was sent.
pub parse_message-encode_reorg :
    (e : ReorgEvent)
    → parse_message (doc (encode_reorg e)) ≡ reorg e.chain_id e.rolled_back_block_hashes
parse_message-encode_reorg e = parse_encoded_reorg e.chain_id e.rolled_back_block_hashes
