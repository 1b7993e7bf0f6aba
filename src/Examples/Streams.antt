-- ===== src/Examples/Streams.antt =====
-- The streams of block numbers and of logs, at a node that reports the blocks 20 and 30.
use parity_bridge.Base.{◌≡◌, refl, none, some, [], ◌∷◌, length, arith}
use parity_bridge.Async.{ready}
use parity_bridge.Async.Spend.{Spends}
use parity_bridge.Web3.{main, Log, Net}
use parity_bridge.BlockNumber as BlockNumber
use parity_bridge.BlockNumber.{BlockNumberStream}
use parity_bridge.BlockNumber.Progress as Progress
use parity_bridge.BlockNumber.Progress.{number_poll-Outcome}
use parity_bridge.BlockNumber.Ends.{number_poll-Spends}
use parity_bridge.LogStream as LogStream
use parity_bridge.LogStream.{this, any, LogStreamOptions, filter_to_builder}
use parity_bridge.LogStream.Ranges as Ranges
use parity_bridge.LogStream.Ranges.{range_poll-Outcome}
use parity_bridge.LogStream.Cover.{Chains, run, new-run-Chains}
use parity_bridge.LogStream.Ends.{range_poll-Spends}
use parity_bridge.Examples.Node.{scripted, scripted_finite, script, tick, number_is, logs_are}

abbrev pub blocks_from_5 : BlockNumberStream scripted
blocks_from_5 = record {
  request_timeout = 5;
  confirmations = 12;
  transport = main;
  last_checked_block = 5;
  ticks = tt;
  state = BlockNumber.await_interval;
}

abbrev two_blocks : Net scripted.World
two_blocks = script (tick ∷ number_is 20 ∷ tick ∷ number_is 30 ∷ [])

abbrev pub log_of_1 : Log
log_of_1 = record { topics = []; content = 7 ∷ []; transaction_hash = some (1 ∷ []) }

abbrev pub two_ranges : Net scripted.World
two_ranges =
    script (tick ∷ number_is 20 ∷ logs_are (log_of_1 ∷ []) ∷ tick ∷ number_is 30 ∷ logs_are [] ∷ [])

abbrev options_after_5 : LogStreamOptions
options_after_5 = record {
  filter = record { topic0 = this (9 ∷ []); topic1 = any; topic2 = any; topic3 = any };
  request_timeout = 5;
  poll_interval = 1;
  confirmations = 12;
  transport = main;
  contract_address = 3 ∷ [];
  after = 5;
}

abbrev pub logs_from_5 : LogStream.LogStream scripted
logs_from_5 = record {
  block_number_stream = blocks_from_5;
  request_timeout = 5;
  transport = main;
  last_checked_block = 5;
  state = LogStream.await_block_number;
  filter_builder = record {
    address = (3 ∷ []) ∷ [];
    topics = some ((9 ∷ []) ∷ []) ∷ none ∷ none ∷ none ∷ [];
  };
  topic = (9 ∷ []) ∷ [];
}

logs_from_5-new : LogStream.new scripted options_after_5 ≡ some logs_from_5
unfolding LogStream.new filter_to_builder LogStream.ethabi_topic_to_web3 BlockNumber.new
logs_from_5-new = refl

-- The first poll yields the block that is 12 below the one reported.
first_block : (BlockNumber.poll scripted 9 (blocks_from_5, two_blocks)).0 ≡ ready (some 8)
unfolding BlockNumber.poll
first_block = refl

number_poll-Outcome_example :
    let (p, (b', _)) = BlockNumber.poll scripted 9 (blocks_from_5, two_blocks) in
    Progress.Outcome scripted blocks_from_5 p b'
number_poll-Outcome_example = number_poll-Outcome scripted 9 blocks_from_5 two_blocks

number_poll-Spends_example :
    let (p, (_, net')) = BlockNumber.poll scripted 9 (blocks_from_5, two_blocks) in
    Spends 4 p (length net'.world)
number_poll-Spends_example =
    number_poll-Spends scripted scripted_finite 9 blocks_from_5 two_blocks (omega arith)

range_poll-Outcome_example :
    let (p, (s', _)) = LogStream.poll scripted 9 (logs_from_5, two_ranges) in
    Ranges.Outcome scripted logs_from_5 p s'
range_poll-Outcome_example =
    range_poll-Outcome scripted 9 logs_from_5 two_ranges (refl, omega arith)

range_poll-Spends_example :
    let (p, (_, net')) = LogStream.poll scripted 9 (logs_from_5, two_ranges) in
    Spends 6 p (length net'.world)
range_poll-Spends_example =
    range_poll-Spends scripted scripted_finite 9 logs_from_5 two_ranges (omega arith)

new-run-Chains_example :
    let (rs, (s', _)) = run scripted 9 3 (logs_from_5, two_ranges) in
    Chains 5 rs s'.last_checked_block
new-run-Chains_example =
    new-run-Chains scripted options_after_5 9 3 logs_from_5 two_ranges (omega arith) logs_from_5-new
