-- ===== src/Examples/Start.antt =====
-- A bridge that starts behind block 5 of both chains.
use parity_bridge.Base.{ℕ, ◌≡◌, refl, none, some, [], ◌∷◌, length, replicate, arith}
use parity_bridge.Async.{ready}
use parity_bridge.Web3.{Chain, main, side}
use parity_bridge.BlockNumber as BlockNumber
use parity_bridge.LogStream as LogStream
use parity_bridge.LogStream.{LogStream, filter_to_builder, ethabi_topic_to_web3}
use parity_bridge.MainContract.{MainContract, main_to_side_log_stream}
use parity_bridge.SideContract.{side_to_main_sign_log_stream, side_to_main_signatures_log_stream}
use parity_bridge.SideToMainSignatures.{JoinAll}
use parity_bridge.Bridge.Start as Start
use parity_bridge.Bridge.Start.{bridge_new-Valid}
use parity_bridge.Examples.Node.{scripted}
use parity_bridge.Examples.BigEndian.{big_endian}
use parity_bridge.Examples.Relays.{state_at_5, abi, side_contract}

-- The calls are joined by their number, and are ready with as many signatures at once.
abbrev joined_at_once : JoinAll scripted
joined_at_once = record {
  Joined = ℕ;
  join_all = λ calls. length calls;
  poll_joined = λ n net. (ready (replicate n (replicate 65 1)), n, net);
}

abbrev pub main_contract : MainContract
main_contract = record {
  transport = main;
  contract_address = 2 ∷ [];
  authority_address = 3 ∷ [];
  submit_collected_signatures_gas = 100;
  request_timeout = 5;
  logs_poll_interval = 1;
  required_log_confirmations = 12;
}

abbrev pub fresh_logs : Chain → LogStream scripted
fresh_logs chain = record {
  block_number_stream = record {
    request_timeout = 5;
    confirmations = 12;
    transport = chain;
    last_checked_block = 5;
    ticks = tt;
    state = BlockNumber.await_interval;
  };
  request_timeout = 5;
  transport = chain;
  last_checked_block = 5;
  state = LogStream.await_block_number;
  filter_builder = record {
    address = (2 ∷ []) ∷ [];
    topics = some ((9 ∷ []) ∷ []) ∷ none ∷ none ∷ none ∷ [];
  };
  topic = (9 ∷ []) ∷ [];
}

abbrev started : Start.Running scripted big_endian abi joined_at_once (λ b. b) 9
started =
    Start.relays_over scripted big_endian abi joined_at_once (λ b. b) 9 state_at_5 (fresh_logs main)
      (fresh_logs side) (fresh_logs side)

started-new :
    Start.new scripted big_endian abi joined_at_once
      (λ b. b)
      9
      state_at_5
      main_contract
      side_contract
    ≡ some started
unfolding Start.new LogStream.new main_to_side_log_stream side_to_main_sign_log_stream
    side_to_main_signatures_log_stream filter_to_builder ethabi_topic_to_web3 BlockNumber.new
started-new = refl

bridge_new-Valid_example :
    Start.Valid scripted big_endian abi joined_at_once
      (λ b. b)
      9
      main_contract
      side_contract
      started
    × (started.state ≡ state_at_5)
bridge_new-Valid_example =
    bridge_new-Valid scripted big_endian abi joined_at_once (λ b. b) 9 state_at_5 main_contract
      side_contract started (omega arith) (omega arith) (omega arith) started-new
