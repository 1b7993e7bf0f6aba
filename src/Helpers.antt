-- ===== src/Helpers.antt =====
-- The futures for calls and transactions, and the other helpers of bridge/src/helpers.rs.
pub mod Spend
use parity_bridge.Base.{ℕ, Option, none, some, List}
use parity_bridge.Base.Bytes.{Bytes}
use parity_bridge.Async.{
  Poll, ready, not_ready, failed, panicked, out_of_rounds, Flow, done, again, loop, map_err,
}
use parity_bridge.Error.{Error, Result, ok, err, ethabi, chained, text}
use parity_bridge.Web3.{
  Web3, Chain, Log, Net, CallRequest, TransactionRequest, call, send_transaction, request, await,
}
use parity_bridge.Contracts.{RawLog}

unfoldable pub parse_log : {R : Type 0} → (RawLog → R) → Log → R
parse_log parse web3_log = parse (record { topics = web3_log.topics; content = web3_log.content })

-- `Result`s and polls: `decode(..).chain_err(..)?` and `Ok(Async::Ready(_))`.
abbrev pub from_result {ℓ κ} : {E : Type ℓ} {A : Type κ} → Result E A → Poll E A
from_result (ok a) = ready a
from_result (err e) = failed e

module _ (w : Web3) where
  open w use {World, Fault, Waiting, poll_bytes, poll_hash}

  pub record AsyncCall (A : Type 0) : Type 0 where
    pub future : Waiting
    pub output_decoder : Bytes → Result Fault A

  abbrev pub call_request : Bytes → Bytes → CallRequest
  call_request contract_address payload = record {
    from = none;
    to = contract_address;
    gas = none;
    gas_price = none;
    value = none;
    payload = some payload;
  }

  unfoldable pub new_call :
      {A : Type 0}
      → Chain
      → Bytes
      → ℕ
      → Bytes
      → (Bytes → Result Fault A)
      → Net World
      → AsyncCall A × Net World
  new_call transport contract_address timeout payload output_decoder net =
      let (future, net') =
        request w transport (call (call_request contract_address payload)) timeout net in
      (record { future = future; output_decoder = output_decoder }, net')

  -- The response is left out of the text of the error.
  abbrev pub decoded :
      {A : Type 0} → (Bytes → Result Fault A) → Poll (Error Fault) Bytes → Poll (Error Fault) A
  decoded output_decoder (ready encoded) =
      map_err (λ x. chained (text "failed to decode response {:?}") (ethabi x))
        (from_result (output_decoder encoded))
  decoded output_decoder not_ready = not_ready
  decoded output_decoder (failed e) = failed e
  decoded output_decoder panicked = panicked
  decoded output_decoder out_of_rounds = out_of_rounds

  unfoldable pub poll_call :
      {A : Type 0} → AsyncCall A → Net World → Poll (Error Fault) A × AsyncCall A × Net World
  poll_call c net =
      let (p, future, net') = await w poll_bytes c.future net in
      (
        decoded c.output_decoder
            (map_err (chained (text "failed to poll inner web3 CallFuture future")) p),
        record c { future = future },
        net',
      )

  pub record AsyncTransaction : Type 0 where
    pub future : Waiting

  abbrev pub transaction_request : Bytes → Bytes → ℕ → ℕ → Bytes → TransactionRequest
  transaction_request contract_address authority_address gas gas_price payload = record {
    from = authority_address;
    to = some contract_address;
    gas = some gas;
    gas_price = some gas_price;
    value = none;
    payload = some payload;
    nonce = none;
  }

  unfoldable pub new_transaction :
      Chain → Bytes → Bytes → ℕ → ℕ → ℕ → Bytes → Net World → AsyncTransaction × Net World
  new_transaction transport contract_address authority_address gas gas_price timeout payload net =
      let (future, net') =
        request w transport
          (send_transaction
            (transaction_request contract_address authority_address gas gas_price payload))
          timeout net in
      (record { future = future }, net')

  unfoldable pub poll_transaction :
      AsyncTransaction → Net World → Poll (Error Fault) Bytes × AsyncTransaction × Net World
  poll_transaction t net =
      let (p, future, net') = await w poll_hash t.future net in
      (p, record { future = future }, net')

-- `Future` that wraps a `Stream` and completes with its last item.
pub record Last (S I : Type 0) : Type 0 where
  pub stream : S
  pub last : Option I

module _ {E S I : Type 0} (poll_stream : S → Poll E (Option I) × S) where
  unfoldable pub last : S → Last S I
  last s = record { stream = s; last = none }

  abbrev pub got_item : Poll E (Option I) → Last S I → Flow (Poll E (Option I)) × Last S I
  got_item (failed e) s = (done (failed e), s)
  got_item not_ready s = (done not_ready, s)
  got_item (ready none) s = (done (ready s.last), record s { last = none })
  got_item (ready item) s = (again, record s { last = item })
  got_item panicked s = (done panicked, s)
  got_item out_of_rounds s = (done out_of_rounds, s)

  unfoldable pub poll_last : ℕ → Last S I → Poll E (Option I) × Last S I
  unfolding loop
  poll_last rounds s =
      loop rounds
        (λ s. let (p, stream) = poll_stream s.stream in got_item p (record s { stream = stream })) s
