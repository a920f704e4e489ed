-- ===== src/Indexer/Extract/Movements.antt =====
-- blockchain-indexer/internal/adapter/ethereum/ethereum.go: the deltas of extractDeltas, against the
-- movements of value of a transaction.
use mathlib.Core.List.{append_assoc, append-nil}
use mathlib.Core.Option
use blockchain_clustering.Base.{
  ◌≡◌, refl, ap, ◌∙◌, sym, inl, inr, ℕ, zero, suc, ◌+◌, ◌%◌, ◌^◌, String, Bool, true, false, List,
  [], ◌∷◌, ◌++◌, Option, none, some, foldl, length, length-append, ltb, leb, if◌then◌else◌,
  Bool-cases, Option-cases, ◌-◌, ◌==◌, string_eq, ◌<>◌, arith,
}
use blockchain_clustering.Base.Decimal.{print_decimal}
use blockchain_clustering.Base.GoMap.{GoMap}
use blockchain_clustering.Base.Int.{neg, negsuc, pos}
use blockchain_clustering.Base.Json.{Json, bool, str}
use blockchain_clustering.Indexer.Extract.{
  ExtractedDelta, Extracting, Log, RawBlock, Receipt, Transaction, emit, emit_log, emit_receive,
  emit_spend, extract_deltas, kind_native, kind_token, meta_contract_creation, meta_token_contract,
  new_delta, normalize, print_int, set_bytes, transfer_of, zero_address,
}

-- An amount that an address gives up or gets, of a token or, with `none`, of the chain's own coin.
pub record Movement : Type 0 where
  pub address : String
  pub outgoing : Bool
  pub value : ℕ
  pub token : Option String
  pub creation : Bool

abbrev pub meta_of : Option String → Bool → GoMap String Json
meta_of (some t) creation = (meta_token_contract, str t) ∷ []
meta_of none true = (meta_contract_creation, bool true) ∷ []
meta_of none false = []

abbrev pub kind_of : Option String → String
kind_of none = kind_native
kind_of (some _) = kind_token

module _ (transfer_topic : String) (topic_address : String → String) (chain_id : String)
    (block : RawBlock) where
  abbrev pub delta_of : Transaction → Movement → ℕ → ExtractedDelta
  delta_of tx m di = record {
    chain_id = chain_id;
    txid = tx.hash;
    delta_index = di;
    address = normalize m.address;
    amount = if m.outgoing then "-" <> print_decimal m.value else print_decimal m.value;
    kind = kind_of m.token;
    block_height = block.height;
    block_hash = block.hash;
    meta = meta_of m.token m.creation;
  }

  -- The deltas of movements, numbered from `i`.
  abbrev pub numbered : Transaction → ℕ → List Movement → List ExtractedDelta
  numbered tx i [] = []
  numbered tx i (m ∷ ms) = delta_of tx m (i % 2 ^ 32) ∷ numbered tx (suc i) ms

  abbrev pub coin : String → Bool → ℕ → Bool → Movement
  coin address outgoing value creation = record {
    address = address;
    outgoing = outgoing;
    value = value;
    token = none;
    creation = creation;
  }

  abbrev pub spend_movements : Transaction → String → List Movement
  spend_movements tx from = if ltb 0 tx.value then coin from true tx.value false ∷ [] else []

  abbrev pub receive_to : Transaction → Receipt → Option String → List Movement
  receive_to tx receipt (some to) = if ltb 0 tx.value then coin to false tx.value false ∷ [] else []
  receive_to tx receipt none =
      if receipt.contract_address == zero_address
      then []
      else coin receipt.contract_address false tx.value true ∷ []

  abbrev movement_of : String → Bool → Log → Movement
  movement_of address outgoing l = record {
    address = address;
    outgoing = outgoing;
    value = set_bytes l.bytes;
    token = some (normalize l.address);
    creation = false;
  }

  abbrev transfer_movements : Log → Option (String × String) → List Movement
  transfer_movements l none = []
  transfer_movements l (some (from, to)) = movement_of from true l ∷ movement_of to false l ∷ []

  abbrev pub log_movements : List Log → List Movement
  log_movements [] = []
  log_movements (l ∷ ls) =
      transfer_movements l (transfer_of transfer_topic topic_address chain_id block l)
      ++ log_movements ls

  -- The movements of a transaction that was not reverted: of its own value, and of its logs.
  abbrev pub movements : Transaction → Receipt → String → List Movement
  movements tx receipt from =
      (spend_movements tx from ++ receive_to tx receipt tx.to) ++ log_movements receipt.logs

  abbrev state_of : Transaction → List Movement → Extracting
  state_of tx ms = (numbered tx 0 ms, length ms % 2 ^ 32)

  numbered-append :
      (tx : Transaction) (i : ℕ) (ms : List Movement) (m : Movement)
      → numbered tx i (ms ++ m ∷ [])
        ≡ numbered tx i ms ++ delta_of tx m ((i + length ms) % 2 ^ 32) ∷ []
  numbered-append tx i [] m = ap (λ n. delta_of tx m (n % 2 ^ 32) ∷ []) (omega arith)
  numbered-append tx i (x ∷ ms) m =
      ap (λ rest. delta_of tx x (i % 2 ^ 32) ∷ rest)
        (numbered-append tx (suc i) ms m
          ∙ ap (λ n. numbered tx (suc i) ms ++ delta_of tx m (n % 2 ^ 32) ∷ []) (omega arith))

  next_index : (n : ℕ) → suc (n % 2 ^ 32) % 2 ^ 32 ≡ suc n % 2 ^ 32
  next_index n = omega arith

  emit-state_of :
      (tx : Transaction) (ms : List Movement) (m : Movement)
      → emit (delta_of tx m) (state_of tx ms) ≡ state_of tx (ms ++ m ∷ [])
  unfolding emit
  emit-state_of tx ms m =
      let more : numbered tx 0 (ms ++ m ∷ [])
          ≡ numbered tx 0 ms ++ delta_of tx m (length ms % 2 ^ 32) ∷ [] =
        numbered-append tx 0 ms m
        ∙ ap (λ n. numbered tx 0 ms ++ delta_of tx m (n % 2 ^ 32) ∷ []) (omega arith) in
      let count : length (ms ++ m ∷ []) ≡ suc (length ms) =
        omega (arith, length-append ms (m ∷ [])) in
      let next : suc (length ms % 2 ^ 32) % 2 ^ 32 ≡ length (ms ++ m ∷ []) % 2 ^ 32 =
        next_index (length ms) ∙ ap (λ n. n % 2 ^ 32) (sym count) in
      cc (more, next)

  neg_amount : (v : ℕ) → ltb 0 v ≡ true → print_int (neg (pos v)) ≡ "-" <> print_decimal v
  unfolding print_int
  neg_amount zero h = absurd (ground (arith))
  neg_amount (suc v) h =
      let before : suc v - 0 - 1 ≡ v = omega arith in
      let big : leb (suc v) 0 ≡ false = ground arith in
      rw big (ap (λ n. print_int (negsuc n)) before)

  emit_spend-movements :
      (tx : Transaction) (from : String)
      → emit_spend transfer_topic topic_address chain_id block tx from ([], 0)
        ≡ state_of tx (spend_movements tx from)
  unfolding emit_spend emit new_delta
  emit_spend-movements tx from = elim (Bool-cases (ltb 0 tx.value)) [
    | inl some_value ↦ rw (some_value, neg_amount tx.value some_value) refl
    | inr no_value ↦ rw no_value refl
  ]

  emit_receive-movements :
      (tx : Transaction) (receipt : Receipt) (ms : List Movement)
      → emit_receive transfer_topic topic_address chain_id block tx receipt (state_of tx ms)
        ≡ state_of tx (ms ++ receive_to tx receipt tx.to)
  unfolding emit_receive emit new_delta print_int
  emit_receive-movements tx receipt ms = elim (Option-cases tx.to) [
    | inr (to, sent) ↦ elim (Bool-cases (ltb 0 tx.value)) [
      | inl some_value ↦ rw (sent, some_value) (emit-state_of tx ms (coin to false tx.value false))
      | inr no_value ↦ rw (sent, no_value) (ap (state_of tx) (sym (append-nil ms)))
    ]
    | inl deployed ↦ elim (Bool-cases (receipt.contract_address == zero_address)) [
      | inl nowhere ↦ rw (deployed, nowhere) (ap (state_of tx) (sym (append-nil ms)))
      | inr somewhere ↦
          rw (deployed, somewhere)
            (emit-state_of tx ms (coin receipt.contract_address false tx.value true))
    ]
  ]

  emit_log-movements :
      (tx : Transaction) (ms : List Movement) (l : Log)
      → emit_log transfer_topic topic_address chain_id block tx (state_of tx ms) l
        ≡ state_of tx
            (ms ++ transfer_movements l (transfer_of transfer_topic topic_address chain_id block l))
  unfolding emit_log new_delta
  emit_log-movements tx ms l =
      elim (Option-cases (transfer_of transfer_topic topic_address chain_id block l)) [
        | inl other ↦ rw (other, emit_log) (ap (state_of tx) (sym (append-nil ms)))
        | inr ((from, to), transfer) ↦
            let ms' = ms ++ movement_of from true l ∷ [] in
            rw (transfer, emit_log)
              (ap (emit (delta_of tx (movement_of to false l)))
                  (emit-state_of tx ms (movement_of from true l))
                ∙ emit-state_of tx ms' (movement_of to false l)
                ∙ ap (state_of tx)
                    (append_assoc ms (movement_of from true l ∷ []) (movement_of to false l ∷ [])))
      ]

  logs-movements :
      (tx : Transaction) (ls : List Log) (ms : List Movement)
      → foldl (emit_log transfer_topic topic_address chain_id block tx) (state_of tx ms) ls
        ≡ state_of tx (ms ++ log_movements ls)
  logs-movements tx [] ms = ap (state_of tx) (sym (append-nil ms))
  logs-movements tx (l ∷ ls) ms =
      ap (λ s. foldl (emit_log transfer_topic topic_address chain_id block tx) s ls)
        (emit_log-movements tx ms l)
      ∙ logs-movements tx ls _
      ∙ ap (state_of tx) (append_assoc ms _ (log_movements ls))

  extracted :
      (tx : Transaction) (receipt : Receipt) (from : String)
      → foldl
          (emit_log transfer_topic topic_address chain_id block tx)
          (emit_receive transfer_topic topic_address chain_id block tx receipt
            (emit_spend transfer_topic topic_address chain_id block tx from ([], 0)))
          receipt.logs
        ≡ state_of tx (movements tx receipt from)
  extracted tx receipt from =
      rw (emit_spend-movements tx from, emit_receive-movements tx receipt (spend_movements tx from))
        (logs-movements tx receipt.logs _)

  -- A reverted transaction has no deltas; another has an error where its signer cannot be recovered,
  -- and else the deltas of its movements, in order, each with its position as its index, as an int32.
  pub extract_deltas_lem :
      (sender : Transaction → Option String) (tx : Transaction) (receipt : Receipt)
      → extract_deltas transfer_topic topic_address chain_id block sender tx receipt ≡ (
          if receipt.failed
          then some []
          else Option.map (λ from. numbered tx 0 (movements tx receipt from)) (sender tx))
  unfolding extract_deltas
  extract_deltas_lem sender tx receipt = elim (Bool-cases receipt.failed) [
    | inl reverted ↦ rw reverted refl
    | inr fine ↦ elim (Option-cases (sender tx)) [
      | inl unknown ↦ rw (fine, unknown) refl
      | inr (from, signed) ↦
          rw (fine, signed) (ap (λ (s : Extracting). some s.0) (extracted tx receipt from))
    ]
  ]
