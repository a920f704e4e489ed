-- ===== src/Indexer/Publish/Balance.antt =====
-- From blockchain-indexer/internal/adapter/ethereum/ethereum.go by
-- blockchain-indexer/internal/kafka/publisher.go to
-- blockchain_cluster/internal/consumer/message.go: the amounts that the consumer reads of a transaction.
use mathlib.Core.Option
use blockchain_clustering.Base.{
  ◌≡◌, ◌≢◌, refl, ap, ◌∙◌, sym, ℕ, zero, suc, ◌+◌, ◌%◌, ◌^◌, String, Bool, true, false, List, [],
  ◌∷◌, Option, none, some, map, if◌then◌else◌, ◌<>◌, Bool-cases, inl, inr, arith, leb, not, ◌&&◌,
}
use blockchain_clustering.Base.Decimal.{parse_int, print_decimal}
use blockchain_clustering.Base.Decimal.RoundTrip.{parse_int-minus, parse_int-print_decimal}
use blockchain_clustering.Base.Int.{ℤ, pos, neg, pos_part, neg_part}
use blockchain_clustering.Base.Json.{Json, RawMessage, str, fields_of, key, in_range}
use blockchain_clustering.Consumer.Message.{Parsed, parse_message}
use blockchain_clustering.Consumer.Message.Parsed.{delta}
use blockchain_clustering.Domain.{BalanceDelta}
use blockchain_clustering.Indexer.Extract.{
  ExtractedDelta, RawBlock, Receipt, Transaction, extract_deltas, zero_address,
}
use blockchain_clustering.Indexer.Extract.Balance.{extract_deltas_balance, given, taken}
use blockchain_clustering.Indexer.Extract.Movements.{Movement, delta_of, meta_of, numbered}
use blockchain_clustering.Indexer.Publish.{delta_message}
use blockchain_clustering.Indexer.Publish.Decoded.{
  decoded, meta_message, parse_message-encode_delta,
}

-- The token contract that a meta names.
abbrev pub token_in : RawMessage → Option Json
unfolding fields_of key
token_in meta = elim (fields_of meta) [ none ↦ none | some fs ↦ key "token_contract" fs ]

-- What the deltas give, and take, of the tokens that `p` chooses; `none` is the coin of the chain.
abbrev pub credits : (Option Json → Bool) → List BalanceDelta → ℕ
credits p [] = 0
credits p (b ∷ bs) =
    (if p (token_in b.meta) then (elim b.amount [ none ↦ 0 | some a ↦ pos_part a ]) else 0)
    + credits p bs

abbrev pub debits : (Option Json → Bool) → List BalanceDelta → ℕ
debits p [] = 0
debits p (b ∷ bs) =
    (if p (token_in b.meta) then (elim b.amount [ none ↦ 0 | some a ↦ neg_part a ]) else 0)
    + debits p bs

-- What the consumer reads in the published deltas.
abbrev pub received : List ExtractedDelta → List Parsed
received ds = map (λ d. parse_message (delta_message d).value) ds

-- The amounts that the text of the deltas spells.
abbrev pub spelled : List ExtractedDelta → List (Option ℤ)
spelled ds = map (λ (d : ExtractedDelta). parse_int d.amount) ds

abbrev signed : Movement → ℤ
signed m = if m.outgoing then neg (pos m.value) else pos m.value

token_in-meta_of :
    (token : Option String) (creation : Bool)
    → token_in (meta_message (meta_of token creation)) ≡ Option.map str token
unfolding fields_of key token_in
token_in-meta_of (some t) creation = refl
token_in-meta_of none true = refl
token_in-meta_of none false = refl

neg_part-neg : (v : ℕ) → (pos_part (neg (pos v)) ≡ 0) × (neg_part (neg (pos v)) ≡ v)
neg_part-neg zero = (refl, refl)
neg_part-neg (suc v) = let big : leb (suc v) 0 ≡ false = ground arith in rw big (refl, omega arith)

parse_int-signed :
    (m : Movement)
    → parse_int (if m.outgoing then "-" <> print_decimal m.value else print_decimal m.value)
      ≡ some (signed m)
parse_int-signed m = elim (Bool-cases m.outgoing) [
  | inl out ↦ simp (out) (parse_int-minus m.value)
  | inr inside ↦ simp (inside) (parse_int-print_decimal m.value)
]

signed_parts :
    (m : Movement)
    → (neg_part (signed m) ≡ (if m.outgoing then m.value else 0))
      × (pos_part (signed m) ≡ (if not m.outgoing then m.value else 0))
signed_parts m = elim (Bool-cases m.outgoing) [
  | inl out ↦ simp (out) (let (gives, takes) = neg_part-neg m.value in (takes, gives))
  | inr inside ↦ simp (inside) (refl, refl)
]

guard_both :
    (b c : Bool) (v : ℕ) → (if b then (if c then v else 0) else 0) ≡ (if b && c then v else 0)
guard_both b c v = ground arith

module _ (transfer_topic : String) (topic_address : String → String) (chain_id : String)
    (block : RawBlock) (tx : Transaction) (small : in_range 63 block.height ≡ true) where
  abbrev of_movement : Movement → ℕ → BalanceDelta
  of_movement m i =
      decoded (delta_of transfer_topic topic_address chain_id block tx m (i % 2 ^ 32)) (signed m)

  abbrev of_movements : ℕ → List Movement → List BalanceDelta
  of_movements i [] = []
  of_movements i (m ∷ ms) = of_movement m i ∷ of_movements (suc i) ms

  received-numbered :
      (i : ℕ) (ms : List Movement)
      → received (numbered transfer_topic topic_address chain_id block tx i ms)
        ≡ map delta (of_movements i ms)
  unfolding delta_message
  received-numbered i [] = refl
  received-numbered i (m ∷ ms) =
      let first =
        parse_message-encode_delta
          (delta_of transfer_topic topic_address chain_id block tx m (i % 2 ^ 32)) (signed m)
          (omega arith) small (parse_int-signed m) in
      cc (first, received-numbered (suc i) ms)

  debits-taken :
      (p : Option Json → Bool) (i : ℕ) (ms : List Movement)
      → debits p (of_movements i ms) ≡ taken (λ t. p (Option.map str t)) ms
  debits-taken p i [] = refl
  debits-taken p i (m ∷ ms) =
      rw (token_in-meta_of m.token m.creation, (signed_parts m).0, debits-taken p (suc i) ms)
        (ap (λ n. n + taken (λ t. p (Option.map str t)) ms)
          (guard_both (p (Option.map str m.token)) m.outgoing m.value))

  credits-given :
      (p : Option Json → Bool) (i : ℕ) (ms : List Movement)
      → credits p (of_movements i ms) ≡ given (λ t. p (Option.map str t)) ms
  credits-given p i [] = refl
  credits-given p i (m ∷ ms) =
      rw (token_in-meta_of m.token m.creation, (signed_parts m).1, credits-given p (suc i) ms)
        (ap (λ n. n + given (λ t. p (Option.map str t)) ms)
          (guard_both (p (Option.map str m.token)) (not m.outgoing) m.value))

  -- The amounts read are those that the text of the deltas spells.
  amounts-of_movements :
      (i : ℕ) (ms : List Movement)
      → spelled (numbered transfer_topic topic_address chain_id block tx i ms)
        ≡ map some (map signed ms)
  amounts-of_movements i [] = refl
  amounts-of_movements i (m ∷ ms) = cc (parse_int-signed m, amounts-of_movements (suc i) ms)

  read-of_movements :
      (i : ℕ) (ms : List Movement)
      → map (λ (b : BalanceDelta). b.amount) (of_movements i ms) ≡ map some (map signed ms)
  read-of_movements i [] = refl
  read-of_movements i (m ∷ ms) = ap (λ xs. some (signed m) ∷ xs) (read-of_movements (suc i) ms)

  -- Where the height fits in an int64 and a transaction without a receiver has a contract, the consumer
  -- reads every delta that is extracted and published, each with an amount, which is the one that its
  -- text spells, and what these deltas take is what they give, of every token and of the coin.
  pub received_conserves :
      (sender : Transaction → Option String) (receipt : Receipt) (ds : List ExtractedDelta)
      → (tx.to ≡ none → receipt.contract_address ≢ zero_address)
      → extract_deltas transfer_topic topic_address chain_id block sender tx receipt ≡ some ds
      → (bs : List BalanceDelta) × (amounts : List ℤ) × (received ds ≡ map delta bs)
        × (map (λ (b : BalanceDelta). b.amount) bs ≡ map some amounts)
        × (spelled ds ≡ map some amounts)
        × ((p : Option Json → Bool) → debits p bs ≡ credits p bs)
  received_conserves sender receipt ds somewhere fine =
      let (ms, same, balanced) =
        extract_deltas_balance transfer_topic topic_address chain_id block sender tx receipt ds
          somewhere fine in
      (
        of_movements 0 ms,
        map signed ms,
        ap received same ∙ received-numbered 0 ms,
        read-of_movements 0 ms,
        ap spelled same ∙ amounts-of_movements 0 ms,
        λ p.
            debits-taken p 0 ms ∙ balanced (λ t. p (Option.map str t)) ∙ sym (credits-given p 0 ms),
      )
