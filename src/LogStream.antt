-- ===== src/LogStream.antt =====
-- `LogStream` of bridge/src/log_stream.rs: asks for the logs of every range of newly confirmed
-- blocks, and yields them with the range.
pub mod Ranges
pub mod Cover
pub mod Ends
use parity_bridge.Base.{ℕ, ◌+◌, ◌%◌, ◌^◌, ◌≡◌, refl, Option, none, some, List, [], ◌∷◌}
use parity_bridge.Base.Bytes.{Bytes}
use parity_bridge.Async.{Poll, ready, map_err, Flow, done, again, try_ready, try_stream, loop}
use parity_bridge.Error.{Error, chained, text}
use parity_bridge.Web3.{Web3, Chain, Log, Filter, Net, logs, request, await}
use parity_bridge.BlockNumber
use parity_bridge.BlockNumber.{BlockNumberStream}

-- `ethabi::Topic` and `ethabi::TopicFilter`
pub data Topic : Type 0 where
  any : Topic
  one_of : List Bytes → Topic
  this : Bytes → Topic

pub record TopicFilter : Type 0 where
  pub topic0 : Topic
  pub topic1 : Topic
  pub topic2 : Topic
  pub topic3 : Topic

unfoldable pub ethabi_topic_to_web3 : Topic → Option (List Bytes)
ethabi_topic_to_web3 any = none
ethabi_topic_to_web3 (one_of options) = some options
ethabi_topic_to_web3 (this hash) = some (hash ∷ [])

-- A `FilterBuilder` before its range is put in.
pub record FilterBuilder : Type 0 where
  pub address : List Bytes
  pub topics : List (Option (List Bytes))

unfoldable pub filter_to_builder : TopicFilter → Bytes → FilterBuilder
unfolding ethabi_topic_to_web3
filter_to_builder filter address = record {
  address = address ∷ [];
  topics =
      ethabi_topic_to_web3 filter.topic0
      ∷ ethabi_topic_to_web3 filter.topic1
      ∷ ethabi_topic_to_web3 filter.topic2
      ∷ ethabi_topic_to_web3 filter.topic3
      ∷ [];
}

-- `.from_block(_).to_block(_).build()`
abbrev pub build : FilterBuilder → ℕ → ℕ → Filter
build b from to = record {
  address = b.address;
  topics = b.topics;
  from_block = from;
  to_block = to;
}

pub record LogStreamOptions : Type 0 where
  pub filter : TopicFilter
  pub request_timeout : ℕ
  pub poll_interval : ℕ
  pub confirmations : ℕ
  pub transport : Chain
  pub contract_address : Bytes
  pub after : ℕ

-- All logs of the filter in the blocks from `from` to `to`, both included.
pub record LogsInBlockRange : Type 0 where
  pub from : ℕ
  pub to : ℕ
  pub logs : List Log

module _ (w : Web3) where
  open w use {World, Fault, Waiting, poll_logs}

  pub data State : Type 0 where
    await_block_number : State
    await_logs : ℕ → ℕ → Waiting → State

  pub record LogStream : Type 0 where
    pub block_number_stream : BlockNumberStream w
    pub request_timeout : ℕ
    pub transport : Chain
    pub last_checked_block : ℕ
    pub state : State
    pub filter_builder : FilterBuilder
    pub topic : List Bytes

  -- `none` where `expect` panics: the filter has no first topic.
  unfoldable pub new : LogStreamOptions → Option LogStream
  unfolding ethabi_topic_to_web3 filter_to_builder BlockNumber.new
  new options = elim (ethabi_topic_to_web3 options.filter.topic0) [
    | none ↦ none
    | some topic ↦ some (record {
      block_number_stream = BlockNumber.new w (record {
        request_timeout = options.request_timeout;
        poll_interval = options.poll_interval;
        confirmations = options.confirmations;
        transport = options.transport;
        after = options.after;
      });
      request_timeout = options.request_timeout;
      transport = options.transport;
      last_checked_block = options.after;
      state = await_block_number;
      filter_builder = filter_to_builder options.filter options.contract_address;
      topic = topic;
    })
  ]

  abbrev pub Machine : Type 0
  Machine = LogStream × Net World

  abbrev pub Answer : Type 0
  Answer = Poll (Error Fault) (Option LogsInBlockRange)

  -- asks for the logs up to the new block; the addition is one of 64 bits
  pub got_block : Poll (Error Fault) (Option ℕ) → Machine → Flow Answer × Machine
  got_block p (s, net) =
      try_stream
        (map_err (chained (text "LogStream: fetching of last confirmed block number failed")) p)
        (s, net)
        λ last_block.
          let from = (s.last_checked_block + 1) % 2 ^ 64 in
          let filter = build s.filter_builder from last_block in
          let (future, net') = request w s.transport (logs filter) s.request_timeout net in
          (again, (record s { state = await_logs from last_block future }, net'))

  pub on_block_number : ℕ → Machine → Flow Answer × Machine
  on_block_number rounds (s, net) =
      let (p, (blocks, net')) = BlockNumber.poll w rounds (s.block_number_stream, net) in
      got_block p (record s { block_number_stream = blocks }, net')

  pub got_logs : ℕ → ℕ → Poll (Error Fault) (List Log) → Machine → Flow Answer × Machine
  got_logs from to p (s, net) =
      try_ready (map_err (chained (text "LogStream: polling web3 logs failed")) p) (s, net)
        λ found. (
          done (ready (some (record { from = from; to = to; logs = found }))),
          (record s { last_checked_block = to; state = await_block_number }, net),
        )

  pub on_logs : ℕ → ℕ → Waiting → Machine → Flow Answer × Machine
  on_logs from to future (s, net) =
      let (p, future', net') = await w poll_logs future net in
      got_logs from to p (record s { state = await_logs from to future' }, net')

  pub dispatch : ℕ → State → Machine → Flow Answer × Machine
  dispatch rounds await_block_number m = on_block_number rounds m
  dispatch rounds (await_logs from to future) m = on_logs from to future m

  -- One round of the loop. `rounds` bounds the inner loop of the block numbers.
  pub step : ℕ → Machine → Flow Answer × Machine
  step rounds m = dispatch rounds m.0.state m

  unfoldable pub poll : ℕ → Machine → Answer × Machine
  unfolding step dispatch on_block_number got_block on_logs got_logs request await loop
      BlockNumber.poll
  poll rounds m = loop rounds (step rounds) m

  pub poll_lem : (rounds : ℕ) (m : Machine) → poll rounds m ≡ loop rounds (step rounds) m
  unfolding poll
  poll_lem rounds m = refl
