-- ===== src/Indexer/Extract/Balance.antt =====
-- blockchain-indexer/internal/adapter/ethereum/ethereum.go: what a transaction takes and gives.
use blockchain_clustering.Base.{
  ◌≡◌, ◌≢◌, refl, ◌∙◌, sym, inl, inr, ℕ, ◌+◌, String, Bool, not, List, [], ◌∷◌, ◌++◌, Option, none,
  some, ltb, if◌then◌else◌, ◌&&◌, Bool-cases, Option-cases, ◌==◌, ==_iff, string_eq, arith,
}
use blockchain_clustering.Indexer.Extract.{
  ExtractedDelta, Log, RawBlock, Receipt, Transaction, extract_deltas, transfer_of, zero_address,
}
use blockchain_clustering.Indexer.Extract.Movements.{
  Movement, extract_deltas_lem, log_movements, movements, numbered, receive_to, spend_movements,
}

-- The value that movements take, or give, of the tokens that `p` chooses.
abbrev pub taken : (Option String → Bool) → List Movement → ℕ
taken p [] = 0
taken p (m ∷ ms) = (if p m.token && m.outgoing then m.value else 0) + taken p ms

abbrev pub given : (Option String → Bool) → List Movement → ℕ
given p [] = 0
given p (m ∷ ms) = (if p m.token && not m.outgoing then m.value else 0) + given p ms

taken-append :
    (p : Option String → Bool) (ms ns : List Movement)
    → taken p (ms ++ ns) ≡ taken p ms + taken p ns
taken-append p [] ns = omega arith
taken-append p (m ∷ ms) ns = omega (arith, taken-append p ms ns)

given-append :
    (p : Option String → Bool) (ms ns : List Movement)
    → given p (ms ++ ns) ≡ given p ms + given p ns
given-append p [] ns = omega arith
given-append p (m ∷ ms) ns = omega (arith, given-append p ms ns)

module _ (transfer_topic : String) (topic_address : String → String) (chain_id : String)
    (block : RawBlock) (p : Option String → Bool) where
  logs_balance :
      (ls : List Log)
      → taken p (log_movements transfer_topic topic_address chain_id block ls)
        ≡ given p (log_movements transfer_topic topic_address chain_id block ls)
  logs_balance [] = refl
  logs_balance (l ∷ ls) =
      elim (Option-cases (transfer_of transfer_topic topic_address chain_id block l)) [
        | inl other ↦ rw other (logs_balance ls)
        | inr ((from, to), transfer) ↦ rw transfer (ground (arith, logs_balance ls))
      ]

  coin_balances :
      (tx : Transaction) (receipt : Receipt) (from : String)
      → (tx.to ≡ none → receipt.contract_address ≢ zero_address)
      → taken p (
          spend_movements transfer_topic topic_address chain_id block tx from
          ++ receive_to transfer_topic topic_address chain_id block tx receipt tx.to)
        ≡ given p (
            spend_movements transfer_topic topic_address chain_id block tx from
            ++ receive_to transfer_topic topic_address chain_id block tx receipt tx.to)
  coin_balances tx receipt from somewhere = elim (Bool-cases (ltb 0 tx.value)) [
    | inl some_value ↦ elim (Option-cases tx.to) [
      | inr (to, sent) ↦ rw (sent, some_value) (ground arith)
      | inl deployed ↦ elim (Bool-cases (receipt.contract_address == zero_address)) [
        | inl nowhere ↦ absurd (somewhere deployed ((==_iff _ _).0 nowhere))
        | inr placed ↦ rw (deployed, some_value, placed) (ground arith)
      ]
    ]
    | inr no_value ↦ elim (Option-cases tx.to) [
      | inr (to, sent) ↦ rw (sent, no_value) refl
      | inl deployed ↦ elim (Bool-cases (receipt.contract_address == zero_address)) [
        | inl nowhere ↦ rw (deployed, no_value, nowhere) refl
        | inr placed ↦ rw (deployed, no_value, placed) (ground arith)
      ]
    ]
  ]

  movements_balance :
      (tx : Transaction) (receipt : Receipt) (from : String)
      → (tx.to ≡ none → receipt.contract_address ≢ zero_address)
      → taken p (movements transfer_topic topic_address chain_id block tx receipt from)
        ≡ given p (movements transfer_topic topic_address chain_id block tx receipt from)
  movements_balance tx receipt from somewhere =
      taken-append p _ (log_movements transfer_topic topic_address chain_id block receipt.logs)
      ∙ cc (coin_balances tx receipt from somewhere, logs_balance receipt.logs)
      ∙ sym (
          given-append p _ (log_movements transfer_topic topic_address chain_id block receipt.logs))

module _ (transfer_topic : String) (topic_address : String → String) (chain_id : String)
    (block : RawBlock) where
  -- Where a transaction without a receiver has a contract, the deltas that are extracted are those of
  -- movements, numbered from 0, which take as much as they give, of every token and of the coin.
  pub extract_deltas_balance :
      (sender : Transaction → Option String) (tx : Transaction) (receipt : Receipt)
      (ds : List ExtractedDelta)
      → (tx.to ≡ none → receipt.contract_address ≢ zero_address)
      → extract_deltas transfer_topic topic_address chain_id block sender tx receipt ≡ some ds
      → (ms : List Movement) × (ds ≡ numbered transfer_topic topic_address chain_id block tx 0 ms)
        × ((p : Option String → Bool) → taken p ms ≡ given p ms)
  extract_deltas_balance sender tx receipt ds somewhere fine =
      let known =
        sym fine
        ∙ extract_deltas_lem transfer_topic topic_address chain_id block sender tx receipt in
      elim (Bool-cases receipt.failed) [
        | inl reverted ↦ ([], cc (known, reverted), λ p. refl)
        | inr passed ↦ elim (Option-cases (sender tx)) [
          | inl unknown ↦ absurd (cc (known, passed, unknown))
          | inr (from, signed) ↦ (
            movements transfer_topic topic_address chain_id block tx receipt from,
            cc (known, passed, signed),
            λ p.
                movements_balance transfer_topic topic_address chain_id block p tx receipt from
                  somewhere,
          )
        ]
      ]
