-- ===== src/Indexer/Ethereum.antt =====
-- blockchain-indexer/internal/adapter/ethereum/ethereum.go: the adapter as the node of a loop. `Client`
-- is the client of go-ethereum, whose calls answer for the chain as it is when they are made, none
-- where they fail; `dial` connects to it, and `sender` recovers the signer of a transaction for a
-- network.
use blockchain_clustering.Base.{ℕ, ◌-◌, ◌^◌, String, List, Option, none, some, ltb, if◌then◌else◌}
use blockchain_clustering.Base.Int.{ℤ, pos, negsuc}
use blockchain_clustering.Indexer.{Fetched, Node}
use blockchain_clustering.Indexer.Extract.{
  ExtractedDelta, RawBlock, Receipt, Transaction, extract_deltas,
}

-- types.Block
pub record ClientBlock : Type 0 where
  pub number : ℕ
  pub hash : String
  pub parent_hash : String
  pub transactions : List Transaction

pub record Client : Type 0 where
  pub network_id : Option ℕ
  pub block_number : ℕ → Option ℕ
  pub block_by_number : ℕ → ℤ → Option ClientBlock
  pub header_by_number : ℕ → ℤ → Option String
  pub transaction_receipt : ℕ → Transaction → Option Receipt

-- The int64 of a uint64.
abbrev pub signed64 : ℕ → ℤ
signed64 n = if ltb n (2 ^ 63) then pos n else negsuc (2 ^ 64 - n - 1)

unfoldable pub raw_block : ClientBlock → RawBlock
raw_block b = record { height = signed64 b.number; hash = b.hash; parent_hash = b.parent_hash }

unfoldable pub latest_height : Client → ℕ → Option ℤ
latest_height client t = elim (client.block_number t) [
  | none ↦ none
  | some height ↦ some (signed64 height)
]

unfoldable pub fetch_block : Client → ℕ → ℤ → Option Fetched
unfolding raw_block
fetch_block client t height = elim (client.block_by_number t height) [
  | none ↦ none
  | some b ↦ some (record { raw = raw_block b; transactions = b.transactions })
]

-- The hash of a header.
abbrev pub block_hash : Client → ℕ → ℤ → Option String
block_hash client t height = client.header_by_number t height

module _ (transfer_topic : String) (topic_address : String → String)
    (sender : ℕ → Transaction → Option String) where
  unfoldable pub extract :
      Client → ℕ → ℕ → String → RawBlock → Transaction → Option (List ExtractedDelta)
  extract client network t chain_id block tx = elim (client.transaction_receipt t tx) [
    | none ↦ none
    | some receipt ↦
        extract_deltas transfer_topic topic_address chain_id block (sender network) tx receipt
  ]

  abbrev pub adapter : Client → ℕ → Node
  adapter client network = record {
    latest_height = latest_height client;
    fetch_block = fetch_block client;
    block_hash = block_hash client;
    extract = extract client network;
  }

  -- `ethereum.New`
  unfoldable pub new : (String → Option Client) → String → Option Node
  unfolding latest_height fetch_block extract
  new dial rpc_url = elim (dial rpc_url) [
    | none ↦ none
    | some client ↦ elim client.network_id [
      | none ↦ none
      | some network ↦ some (adapter client network)
    ]
  ]
