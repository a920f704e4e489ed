-- ===== src/Tests/Consuming.antt =====
-- Runs of the consumer. Outside is a number, which a successful run of the pipeline raises.
use mathlib.Core.List.Memᴰ
use blockchain_clustering.Base.{
  ap, arith, Memᴰ-nil, ◌≡◌, ◌≢◌, refl, ℕ, suc, String, Bool, true, false, List, [], ◌∷◌, Memᴰ,
  string_eq,
}
use blockchain_clustering.Base.Int.{pos, negsuc}
use blockchain_clustering.Base.Decimal.{parse_int}
use blockchain_clustering.Base.Json.{Json, doc, fields_of, int_field, string_field}
use blockchain_clustering.Base.Json.Json.{str, int, obj}
use blockchain_clustering.Base.Json.Fields.{field, end}
use blockchain_clustering.Consumer.{
  Consumer, Event, add, both, commit, flush, flush_batch, handle, new_batcher, run, run_and_commit,
  run_pipeline, step,
}
use blockchain_clustering.Consumer.Action.{ran}
use blockchain_clustering.Consumer.Batches.{Uniform, Valid, Valid-new, add-Valid}
use blockchain_clustering.Consumer.Commits.{run-Sound, tick_drops_batch}
use blockchain_clustering.Consumer.Sound.{Sound}
use blockchain_clustering.Consumer.Offsets.{IsPassed, WasProcessed}
use blockchain_clustering.Consumer.Covered.{TicksWork, fetches, run_passes_processed}
use blockchain_clustering.Consumer.Event.{tick, fetched}
use blockchain_clustering.Consumer.Message.{KafkaMessage, parse_message}
use blockchain_clustering.Consumer.Message.Parsed.{delta as parsed_delta, invalid}
use blockchain_clustering.Consumer.Outcome.{running}
use blockchain_clustering.Domain.{BalanceDelta}
use blockchain_clustering.Tests.Samples.{delta}

abbrev payload : Json
payload = obj (
    field "type" (str "balance_delta") (
      field "chain_id" (str "btc") (
        field "txid" (str "t1") (
          field "address" (str "a") (
            field "amount" (str "-5") (
              field "kind" (str "native")
                (field "block_height" (int (pos 5)) (field "block_hash" (str "h1") end))))))))

abbrev message : KafkaMessage
message = record { partition = 0; offset = 3; value = doc payload }

abbrev decoded : BalanceDelta
decoded = delta "t1" "a" (negsuc 4) "h1"

message_decodes : parse_message message.value ≡ parsed_delta decoded
unfolding parse_message fields_of string_field int_field parse_int
message_decodes = refl

abbrev succeeds : String → List BalanceDelta → ℕ → Bool × ℕ
succeeds _ _ n = (true, suc n)

abbrev breaks : String → List BalanceDelta → ℕ → Bool × ℕ
breaks _ _ n = (false, n)

abbrev rolls_back : String → List String → ℕ → Bool × ℕ
rolls_back _ _ n = (true, n)

abbrev commits : List KafkaMessage → ℕ → Bool × ℕ
commits _ n = (true, n)

abbrev started : Consumer ℕ
started = record { batcher = new_batcher; outside = 0; trace = [] }

run-Sound_example :
    Sound (run succeeds rolls_back commits (fetched message ∷ tick ∷ []) started).1.trace
run-Sound_example = run-Sound succeeds rolls_back commits (fetched message ∷ tick ∷ []) 0

abbrev two_events : List Event
two_events = fetched message ∷ tick ∷ []

two_decode : (n : KafkaMessage) → Memᴰ n (fetches two_events) → ¬ (parse_message n.value ≡ invalid)
two_decode n at e =
    let same = ap (λ (x : KafkaMessage). parse_message x.value) (Memᴰ.eq_of_singleton at) in
    cc (message_decodes, same, e)

two_work : TicksWork succeeds rolls_back commits two_events started
unfolding handle flush_batch flush run_and_commit run_pipeline both commit add new_batcher
    parse_message fields_of string_field int_field parse_int
two_work _ = (refl, tt)

message-IsPassed : IsPassed message (run succeeds rolls_back commits two_events started).1.trace
unfolding run step handle flush_batch flush run_and_commit run_pipeline both commit add new_batcher
    parse_message fields_of string_field int_field parse_int
message-IsPassed =
    (message ∷ [], true, message, Memᴰ.tail (Memᴰ.head refl), Memᴰ.head refl, (refl, omega arith))

run_passes_processed_example :
    WasProcessed message decoded (run succeeds rolls_back commits two_events started).1.trace
run_passes_processed_example =
    run_passes_processed succeeds rolls_back commits two_events 0 message decoded
      ((λ n at. absurd (Memᴰ-nil at)), tt) two_decode two_work (Memᴰ.head refl) message_decodes
      message-IsPassed

abbrev holding : Consumer ℕ
holding = record {
  batcher = record {
    chain_id = "btc";
    block_hash = "h1";
    deltas = decoded ∷ [];
    messages = message ∷ [];
  };
  outside = 0;
  trace = [];
}

one_left : holding.batcher.deltas ≢ []
one_left e = cc (e)

tick_drops_batch_example : step breaks rolls_back commits tick holding ≡ (
  running,
  record {
    batcher = record holding.batcher { block_hash = ""; deltas = []; messages = [] };
    outside = 0;
    trace = ran "btc" (decoded ∷ []) (message ∷ []) false ∷ [];
  },
)
tick_drops_batch_example = tick_drops_batch breaks rolls_back commits holding 0 one_left refl

named : decoded.block_hash ≢ ""
named e = cc (e)

add-Valid_example :
    Uniform (add new_batcher decoded message).0 new_batcher.block_hash
    × Valid (add new_batcher decoded message).1
add-Valid_example = add-Valid new_batcher decoded message Valid-new message_decodes named
