-- ===== src/Tests/Extraction.antt =====
-- A transaction with a value and a token transfer, of the Ethereum adapter.
use mathlib.Core.Option
use blockchain_clustering.Base.{
  ◌≡◌, ◌≢◌, refl, map, ◌==◌, string_eq, arith, ℕ, String, Bool, false, List, [], ◌∷◌, Option, none,
  some, if◌then◌else◌,
}
use blockchain_clustering.Base.Int.{ℤ, pos, negsuc}
use blockchain_clustering.Base.Decimal.{parse_int}
use blockchain_clustering.Base.Json.{Json, doc}
use blockchain_clustering.Consumer.Message.{parse_message}
use blockchain_clustering.Consumer.Message.Parsed.{delta, reorg}
use blockchain_clustering.Domain.{BalanceDelta}
use blockchain_clustering.Indexer.{Node, World, collect_deltas}
use blockchain_clustering.Indexer.Collect.{collect_deltas_skips}
use blockchain_clustering.Indexer.Ethereum.{Client, adapter, extract}
use blockchain_clustering.Indexer.Publish.{ReorgEvent, encode_delta, encode_reorg}
use blockchain_clustering.Indexer.Publish.Balance.{
  credits, debits, received, received_conserves, spelled,
}
use blockchain_clustering.Indexer.Publish.Decoded.{
  decoded, parse_message-encode_delta, parse_message-encode_reorg,
}
use blockchain_clustering.Indexer.Publish.Indices.{counting, extract_deltas-indices, indices}
use blockchain_clustering.Indexer.Extract.{
  ExtractedDelta, Log, RawBlock, Receipt, Transaction, extract_deltas,
}
use blockchain_clustering.Indexer.Extract.Balance.{extract_deltas_balance, given, taken}
use blockchain_clustering.Indexer.Extract.Movements.{
  Movement, extract_deltas_lem, movements, numbered,
}

abbrev block : RawBlock
block = record { height = pos 7; hash = "0xh"; parent_hash = "0xp" }

abbrev payment : Transaction
payment = record { hash = "0xt"; value = 5; to = some "0xB" }

abbrev transfer : Log
transfer = record { address = "0xT"; topics = "transfer" ∷ "0xa" ∷ "0xb" ∷ []; bytes = 1 ∷ 0 ∷ [] }

abbrev receipt : Receipt
receipt = record { failed = false; contract_address = "0x0"; logs = transfer ∷ [] }

abbrev topic_address : String → String
topic_address topic = topic

abbrev sender : Transaction → Option String
sender _ = some "0xA"

extract_deltas_lem_example :
    extract_deltas "transfer" topic_address "eth" block sender payment receipt ≡ (
      if false
      then some []
      else Option.map
          (λ from.
            numbered "transfer" topic_address "eth" block payment 0
              (movements "transfer" topic_address "eth" block payment receipt from))
          (some "0xA"))
extract_deltas_lem_example =
    extract_deltas_lem "transfer" topic_address "eth" block sender payment receipt

paid_somewhere :
    payment.to ≡ none → receipt.contract_address ≢ "0x0000000000000000000000000000000000000000"
paid_somewhere e = absurd (cc (e))

extract_deltas_balance_example :
    (ms : List Movement) × (numbered "transfer" topic_address "eth" block payment 0
        (movements "transfer" topic_address "eth" block payment receipt "0xA")
      ≡ numbered "transfer" topic_address "eth" block payment 0 ms)
    × ((p : Option String → Bool) → taken p ms ≡ given p ms)
extract_deltas_balance_example =
    extract_deltas_balance "transfer" topic_address "eth" block sender payment receipt _
      paid_somewhere
      (extract_deltas_lem "transfer" topic_address "eth" block sender payment receipt)

abbrev paid : List ExtractedDelta
paid =
    numbered "transfer" topic_address "eth" block payment 0
      (movements "transfer" topic_address "eth" block payment receipt "0xA")

received_conserves_example :
    (bs : List BalanceDelta) × (amounts : List ℤ) × (received paid ≡ map delta bs)
    × (map (λ (b : BalanceDelta). b.amount) bs ≡ map some amounts)
    × (spelled paid ≡ map some amounts)
    × ((p : Option Json → Bool) → debits p bs ≡ credits p bs)
received_conserves_example =
    received_conserves "transfer" topic_address "eth" block payment refl sender receipt paid
      paid_somewhere
      (extract_deltas_lem "transfer" topic_address "eth" block sender payment receipt)

extract_deltas_indices_example : indices paid ≡ counting 0 paid
unfolding blockchain_clustering.Indexer.Extract.transfer_of
extract_deltas_indices_example =
    extract_deltas-indices "transfer" topic_address "eth" block sender payment receipt paid
      (extract_deltas_lem "transfer" topic_address "eth" block sender payment receipt) (omega arith)

abbrev seven : ExtractedDelta
seven = record {
  chain_id = "eth";
  txid = "0xt";
  delta_index = 4294967295;
  address = "0xa";
  amount = "-7";
  kind = "native";
  block_height = pos 7;
  block_hash = "0xh";
  meta = [];
}

seven_read : parse_int seven.amount ≡ some (negsuc 6)
unfolding parse_int
seven_read = refl

parse_message-encode_delta_example :
    parse_message (doc (encode_delta seven)) ≡ delta (decoded seven (negsuc 6))
parse_message-encode_delta_example =
    parse_message-encode_delta seven (negsuc 6) (omega arith) refl seven_read

abbrev notice : ReorgEvent
notice = record { chain_id = "eth"; rolled_back_block_hashes = "0xh" ∷ [] }

parse_message-encode_reorg_example :
    parse_message (doc (encode_reorg notice)) ≡ reorg "eth" ("0xh" ∷ [])
parse_message-encode_reorg_example = parse_message-encode_reorg notice

-- The node gives no receipt of the second transaction.
abbrev lost : Transaction
lost = record { hash = "0xl"; value = 1; to = some "0xB" }

abbrev client : Client
client = record {
  network_id = some 1;
  block_number = λ _. some 7;
  block_by_number = λ _ _. none;
  header_by_number = λ _ _. none;
  transaction_receipt = λ _ tx. if tx.hash == "0xt" then some receipt else none;
}

abbrev ethereum : Node
ethereum = adapter "transfer" topic_address (λ _. sender) client 1

abbrev found : Transaction → Option (List ExtractedDelta)
found = extract "transfer" topic_address (λ _. sender) client 1 0 "eth" block

lost_fails : found lost ≡ none
unfolding extract
lost_fails = refl

found_steady : (t : ℕ) (tx : Transaction) → ethereum.extract t "eth" block tx ≡ found tx
unfolding extract
found_steady t tx = refl

abbrev start : World
start = record { block = []; cursor = []; published = []; instant = 0 }

collect_deltas_skips_example :
    (collect_deltas ethereum (λ _. false) "eth" block [] (payment ∷ lost ∷ []) start).0
    ≡ (collect_deltas ethereum (λ _. false) "eth" block [] (payment ∷ []) start).0
collect_deltas_skips_example =
    collect_deltas_skips ethereum (λ _. false) "eth" block found found_steady (payment ∷ []) [] lost
      start lost_fails
