-- ===== src/Indexer/Extract.antt =====
-- blockchain-indexer/internal/adapter/ethereum/ethereum.go: the balance deltas of a transaction, with
-- the types of internal/domain/delta.go. What go-ethereum answers about a transaction and its receipt
-- is given as records, an address or a hash by its `Hex()`, a value, which no transaction has below
-- 0, as a number; `sender` recovers the signer of a
-- transaction for a network, and `topic_address` is the address in a topic of a log. Recovering the
-- signer may fail.
pub mod Movements
pub mod Balance
use Prim.Native.Char.{Char, code}
use Prim.Native.String.{[], ◌∷◌, char_at}
use blockchain_clustering.Base.{
  ℕ, suc, ◌+◌, ◌-◌, ◌*◌, ◌%◌, ◌^◌, String, Bool, true, false, List, [], ◌∷◌, ◌++◌, Option, none,
  some, foldl, ◌==◌, string_eq, nat_eq, leb, ltb, if◌then◌else◌, ◌&&◌, ◌||◌, not, length, ◌<>◌,
}
use blockchain_clustering.Base.Decimal.{print_decimal}
use blockchain_clustering.Base.GoMap.{GoMap}
use blockchain_clustering.Base.Int.{ℤ, pos, negsuc, neg, is_pos}
use blockchain_clustering.Base.Json.{Json, bool, str}

-- domain.BalanceDelta; `delta_index` is an int32, given by its 32 bits, and `type`, which the
-- publisher sets, is left out.
pub record ExtractedDelta : Type 0 where
  pub chain_id : String
  pub txid : String
  pub delta_index : ℕ
  pub address : String
  pub amount : String
  pub kind : String
  pub block_height : ℤ
  pub block_hash : String
  pub meta : GoMap String Json

pub record RawBlock : Type 0 where
  pub height : ℤ
  pub hash : String
  pub parent_hash : String

pub record Transaction : Type 0 where
  pub hash : String
  pub value : ℕ
  pub to : Option String

pub record Log : Type 0 where
  pub address : String
  pub topics : List String
  pub bytes : List ℕ

pub record Receipt : Type 0 where
  pub failed : Bool
  pub contract_address : String
  pub logs : List Log

abbrev pub kind_native : String
kind_native = "native"

abbrev pub kind_token : String
kind_token = "token"

abbrev pub meta_contract_creation : String
meta_contract_creation = "contract_creation"

abbrev pub meta_token_contract : String
meta_token_contract = "token_contract"

-- `common.Address{}`
abbrev pub zero_address : String
zero_address = "0x0000000000000000000000000000000000000000"

-- `strings.ToLower`, on ASCII
abbrev pub lower : Char → Char
lower c =
    if leb 65 (code c) && leb (code c) 90
    then char_at "abcdefghijklmnopqrstuvwxyz" (code c - 65)
    else c

unfoldable pub normalize : String → String
normalize [] = []
normalize (c ∷ cs) = lower c ∷ normalize cs

-- `x.String()`
unfoldable pub print_int : ℤ → String
unfolding print_decimal
print_int (pos n) = print_decimal n
print_int (negsuc n) = "-" <> print_decimal (suc n)

abbrev pub neg_string : ℕ → String
neg_string v = print_int (neg (pos v))

abbrev pub pos_string : ℕ → String
pos_string v = print_int (pos v)

-- `new(big.Int).SetBytes`
unfoldable pub set_bytes : List ℕ → ℕ
set_bytes = foldl (λ n byte. n * 256 + byte) 0

unfoldable pub new_delta :
    String → String → ℕ → String → String → String → RawBlock → GoMap String Json → ExtractedDelta
new_delta chain_id tx_id di address amount kind block meta = record {
  chain_id = chain_id;
  txid = tx_id;
  delta_index = di;
  address = normalize address;
  amount = amount;
  kind = kind;
  block_height = block.height;
  block_hash = block.hash;
  meta = meta;
}

-- The deltas so far, and `di`.
abbrev pub Extracting : Type 0
Extracting = List ExtractedDelta × ℕ

-- deltas = append(deltas, newDelta(…, di, …)); di++
unfoldable pub emit : (ℕ → ExtractedDelta) → Extracting → Extracting
emit delta (deltas, di) = (deltas ++ delta di ∷ [], suc di % 2 ^ 32)

module _ (transfer_topic : String) (topic_address : String → String) (chain_id : String)
    (block : RawBlock) where
  -- The spending side of a transfer.
  unfoldable pub emit_spend : Transaction → String → Extracting → Extracting
  emit_spend tx from s =
      if ltb 0 tx.value
      then emit
          (λ di. new_delta chain_id tx.hash di from (neg_string tx.value) kind_native block []) s
      else s

  -- The receiving side, or the deployment of a contract.
  unfoldable pub emit_receive : Transaction → Receipt → Extracting → Extracting
  emit_receive tx receipt s = elim tx.to [
    | some to ↦
        (if ltb 0 tx.value
          then emit
              (λ di. new_delta chain_id tx.hash di to (pos_string tx.value) kind_native block []) s
          else s)
    | none ↦
        (if receipt.contract_address == zero_address
          then s
          else emit
              (λ di.
                new_delta chain_id tx.hash di receipt.contract_address (pos_string tx.value)
                  kind_native block ((meta_contract_creation, bool true) ∷ []))
              s)
  ]

  -- The two addresses of a log that is an ERC-20 transfer.
  unfoldable pub transfer_of : Log → Option (String × String)
  transfer_of l = elim l.topics [
    | [] ↦ none
    | topic ∷ rest ↦ elim rest [
      | [] ↦ none
      | from ∷ more ↦ elim more [
        | [] ↦ none
        | to ∷ extra ↦ elim extra [
          | [] ↦
              (if topic == transfer_topic
                then some (topic_address from, topic_address to)
                else none)
          | _ ∷ _ ↦ none
        ]
      ]
    ]
  ]

  -- The body of the loop over the logs.
  unfoldable pub emit_log : Transaction → Extracting → Log → Extracting
  emit_log tx s l = elim (transfer_of l) [
    | none ↦ s
    | some (from, to) ↦
        let value = print_decimal (set_bytes l.bytes) in
        let meta : GoMap String Json = (meta_token_contract, str (normalize l.address)) ∷ [] in
        emit (λ di. new_delta chain_id tx.hash di to value kind_token block meta)
          (emit (λ di. new_delta chain_id tx.hash di from ("-" <> value) kind_token block meta) s)
  ]

  -- extractDeltas for the network of the adapter; `none` is an error.
  unfoldable pub extract_deltas :
      (Transaction → Option String) → Transaction → Receipt → Option (List ExtractedDelta)
  extract_deltas sender tx receipt = if receipt.failed then some [] else (elim (sender tx) [
    | none ↦ none
    | some from ↦
        some
          (foldl (emit_log tx) (emit_receive tx receipt (emit_spend tx from ([], 0)))
            receipt.logs).0
  ])
