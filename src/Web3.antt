-- ===== src/Web3.antt =====
-- What the bridge uses of `web3`, `tokio_timer` and the JSON-RPC nodes, which are not part of the
-- repository: a parameter of every definition that talks to a chain. The world keeps whatever the
-- nodes, the timers and the other participants do between two polls.
pub mod Finite
pub mod Sent
use parity_bridge.Base.{ℕ, ◌≡◌, Option, none, some, List, [], ◌∷◌, ◌++◌}
use parity_bridge.Base.Bytes.{Bytes}
use parity_bridge.Async.{Poll, ready, not_ready, failed, panicked, out_of_rounds, map_err}
use parity_bridge.Async.Loop.{map_err-ready}
use parity_bridge.Error.{Error, WaitError, from_timeout_error}

-- The two chains, each with its transport.
pub data Chain : Type 0 where
  main side : Chain

-- `web3::types::Log`, as far as the bridge reads it
pub record Log : Type 0 where
  pub topics : List Bytes
  pub content : Bytes
  pub transaction_hash : Option Bytes

-- `web3::types::TransactionReceipt`, as far as the bridge reads it
pub record TransactionReceipt : Type 0 where
  pub transaction_hash : Bytes
  pub block_number : Option ℕ
  pub contract_address : Option Bytes

-- `web3::types::CallRequest`
pub record CallRequest : Type 0 where
  pub from : Option Bytes
  pub to : Bytes
  pub gas : Option ℕ
  pub gas_price : Option ℕ
  pub value : Option ℕ
  pub payload : Option Bytes

-- `web3::types::TransactionRequest`
pub record TransactionRequest : Type 0 where
  pub from : Bytes
  pub to : Option Bytes
  pub gas : Option ℕ
  pub gas_price : Option ℕ
  pub value : Option ℕ
  pub payload : Option Bytes
  pub nonce : Option ℕ

-- `web3::types::Filter`; a topic that is `none` fits everything
pub record Filter : Type 0 where
  pub address : List Bytes
  pub topics : List (Option (List Bytes))
  pub from_block : ℕ
  pub to_block : ℕ

-- The calls of `web3::api::Eth` that the bridge makes.
pub data Request : Type 0 where
  call : CallRequest → Request
  send_transaction : TransactionRequest → Request
  block_number : Request
  logs : Filter → Request
  transaction_receipt : Bytes → Request
  sign : Bytes → Bytes → Request

pub record Web3 : Type 1 where
  pub World : Type 0
  -- an error of one of the libraries
  pub Fault : Type 0
  -- `Timeout<FromErr<CallFuture<_>>>`
  pub Waiting : Type 0
  -- `tokio_timer::Interval`
  pub Interval : Type 0
  -- sends the request, and waits for its answer at most the given time
  pub send : Chain → Request → ℕ → World → Waiting × World
  pub poll_bytes : Waiting → World → Poll (WaitError Fault) Bytes × Waiting × World
  pub poll_hash : Waiting → World → Poll (WaitError Fault) Bytes × Waiting × World
  pub poll_number : Waiting → World → Poll (WaitError Fault) ℕ × Waiting × World
  pub poll_logs : Waiting → World → Poll (WaitError Fault) (List Log) × Waiting × World
  pub poll_receipt :
      Waiting → World → Poll (WaitError Fault) (Option TransactionReceipt) × Waiting × World
  pub interval : ℕ → Interval
  pub poll_interval : Interval → World → Poll Fault (Option (Unit {0})) × Interval × World

-- The world with the requests that the bridge has sent so far, the oldest first.
pub record Net (World : Type 0) : Type 0 where
  pub world : World
  pub sent : List (Chain × Request)

module _ (w : Web3) where
  open w use {World, Fault, Waiting, send}

  -- Sends a request of `Eth::new(transport)` under a `Timer::timeout`.
  unfoldable pub request : Chain → Request → ℕ → Net World → Waiting × Net World
  request chain r timeout net =
      let (f, world') = send chain r timeout net.world in
      (f, record { world = world'; sent = net.sent ++ (chain, r) ∷ [] })

  -- Polls such a future, with the error conversions of bridge/src/error.rs.
  unfoldable pub await :
      {A : Type 0}
      → (Waiting → World → Poll (WaitError Fault) A × Waiting × World)
      → Waiting
      → Net World
      → Poll (Error Fault) A × Waiting × Net World
  unfolding from_timeout_error
  await poll f net =
      let (p, f', world') = poll f net.world in
      (map_err from_timeout_error p, f', record net { world = world' })

  -- An answer of a future is one of the library's.
  pub await-ready :
      {A : Type 0} (poll : Waiting → World → Poll (WaitError Fault) A × Waiting × World)
      (f : Waiting) (net : Net World) {a : A}
      → (await poll f net).0 ≡ ready a
      → (poll f net.world).0 ≡ ready a
  unfolding await
  await-ready poll f net h = map_err-ready from_timeout_error (poll f net.world).0 h
