-- ===== src/Examples/Cli.antt =====
-- A node that is started from the command line by a small runtime.
use Prim.Native.String.{String}
use parity_bridge.Base.{◌≡◌, refl, none, some, true, [], ◌∷◌, arith}
use parity_bridge.Base.Bytes.{Bytes}
use parity_bridge.Async.{Poll, ready, not_ready, failed, panicked, out_of_rounds}
use parity_bridge.BlockNumber as BlockNumber
use parity_bridge.Bridge.Persist.{Extends}
use parity_bridge.Bridge.Start as Start
use parity_bridge.Config.Load as Load
use parity_bridge.Database.{State}
use parity_bridge.Error.{Result, ok, err}
use parity_bridge.LogStream as LogStream
use parity_bridge.LogStream.{LogStream, filter_to_builder, ethabi_topic_to_web3}
use parity_bridge.MainContract.{MainContract, main_to_side_log_stream}
use parity_bridge.Os.{Os}
use parity_bridge.SideContract.{
  SideContract, side_to_main_sign_log_stream, side_to_main_signatures_log_stream,
}
use parity_bridge.Web3.{Chain, main, side, Net, Request, call, await, request}
use parity_bridge.Cli.Crates.{Runtime, IsLawful, Outcome, Answers, here, after, continue}
use parity_bridge.Cli.{Started, start, poll_node, node_of}
use parity_bridge.Cli.Persisted.{node_poll-Extends}
use parity_bridge.Examples.Node.{scripted, script, tick, number_is, bytes_are}
use parity_bridge.Examples.BigEndian.{big_endian}
use parity_bridge.Examples.Relays.{state_at_5, abi}
use parity_bridge.Examples.Collected.{join_one}

-- A future is polled once.
abbrev answered : {E F A : Type 0} → Poll E A × F → Outcome E A F
answered (ready a, f) = some (ok a, f)
answered (failed e, f) = some (err e, f)
answered (_, f) = none

abbrev pub polls_once : Runtime scripted.Fault
polls_once = record {
  parse_args = λ command. ok (record { arg_config = "config"; arg_database = "database" });
  core = true;
  connect = λ chain http. ok tt;
  run = λ poll f. answered (poll f);
  AndThen = λ S. S;
  and_then = λ s. s;
  poll_and_then =
      λ poll f s w. let (p, s', w') = poll s w in let (q, w'') = after f p w' in (q, s', w'');
}

answered-Answers :
    {E F A : Type 0} (x : Poll E A × F) (r : Result E A) (h : F)
    → answered x ≡ some (r, h)
    → Answers x.0 r × (h ≡ x.1)
answered-Answers (ready a, f) r h e = (cc, cc)
answered-Answers (failed a, f) r h e = (cc, cc)
answered-Answers (not_ready, f) r h e = cc
answered-Answers (panicked, f) r h e = cc
answered-Answers (out_of_rounds, f) r h e = cc

pub polls_once-IsLawful : IsLawful polls_once
polls_once-IsLawful = record {
  runs = λ poll f h r e. let (a, b) = answered-Answers (poll f) r h e in (f, here, a, b);
  stream_of = λ s. s;
  stream_of_new = λ s. refl;
  polls = λ poll f a w. (refl, refl, refl);
}

abbrev Text : Type 0
Text = String

-- Every file holds the same text.
abbrev disk_of_text : Os scripted.Fault
disk_of_text = record {
  Disk = Text;
  File = Unit {0};
  open_file = λ path disk. (ok tt, disk);
  read_to_string = λ file disk. (ok disk, disk);
  open_for_write = λ path disk. (ok tt, disk);
  write_all = λ file s disk. (ok tt, s);
  flush = λ file disk. (ok tt, disk);
}

abbrev node_config : Load.NodeConfig
node_config = record {
  contract = record { bin = "bin" };
  http = "localhost";
  request_timeout = some 5;
  poll_interval = none;
  required_confirmations = none;
}

abbrev pub config_of_text : String → Result scripted.Fault Load.Config
config_of_text s = ok (record {
  address = 3 ∷ [];
  main = node_config;
  side = node_config;
  authorities = record { accounts = (3 ∷ []) ∷ []; required_signatures = 1 };
  transactions = none;
  estimated_gas_cost_of_withdraw = 100;
  max_total_main_contract_balance = 1000;
  max_single_deposit_value = 10;
})

abbrev pub state_of_text : String → Result scripted.Fault State
state_of_text s = ok state_at_5

-- Both contracts answer, and then main has a new block.
abbrev both_answer : Net scripted.World
both_answer = script (bytes_are (1 ∷ []) ∷ bytes_are (1 ∷ []) ∷ tick ∷ number_is 20 ∷ [])

abbrev logs_behind_5 : Chain → Bytes → LogStream scripted
logs_behind_5 chain address = record {
  block_number_stream = record {
    request_timeout = 5;
    confirmations = 12;
    transport = chain;
    last_checked_block = 5;
    ticks = tt;
    state = BlockNumber.await_interval;
  };
  request_timeout = 5;
  transport = chain;
  last_checked_block = 5;
  state = LogStream.await_block_number;
  filter_builder = record {
    address = address ∷ [];
    topics = some ((9 ∷ []) ∷ []) ∷ none ∷ none ∷ none ∷ [];
  };
  topic = (9 ∷ []) ∷ [];
}

abbrev main_contract : MainContract
main_contract = record {
  transport = main;
  contract_address = 1 ∷ [];
  authority_address = 3 ∷ [];
  submit_collected_signatures_gas = 100;
  request_timeout = 5;
  logs_poll_interval = 1;
  required_log_confirmations = 12;
}

abbrev side_contract : SideContract
side_contract = record {
  transport = side;
  contract_address = 2 ∷ [];
  authority_address = 3 ∷ [];
  required_signatures = 1;
  request_timeout = 5;
  logs_poll_interval = 1;
  required_log_confirmations = 12;
  sign_main_to_side_gas = 0;
  sign_main_to_side_gas_price = 0;
  sign_side_to_main_gas = 0;
  sign_side_to_main_gas_price = 0;
}

abbrev from_hex : String → Result scripted.Fault Bytes
from_hex s = ok (1 ∷ [])

abbrev to_string : State → String
to_string s = "state"

abbrev started :
    Started scripted big_endian abi join_one
      (λ b. b)
      9
      disk_of_text
      from_hex
      config_of_text
      state_of_text
      to_string
      polls_once
started = record {
  database = record { filepath = "database"; state = state_at_5 };
  main_contract = main_contract;
  side_contract = side_contract;
  bridge =
      Start.relays_over scripted big_endian abi join_one (λ b. b) 9 state_at_5
        (logs_behind_5 main (1 ∷ [])) (logs_behind_5 side (2 ∷ [])) (logs_behind_5 side (2 ∷ []));
}

abbrev asking : Bytes → Bytes → Request
asking to payload = call (record {
  from = none;
  to = to;
  gas = none;
  gas_price = none;
  value = none;
  payload = some payload;
})

-- The chains after both contracts have been asked.
abbrev asked : Net scripted.World
asked = record {
  world = tick ∷ number_is 20 ∷ [];
  sent = (main, asking (1 ∷ []) (1 ∷ [])) ∷ (side, asking (2 ∷ []) (4 ∷ [])) ∷ [];
}

start-started :
    start scripted big_endian abi join_one
      (λ b. b)
      9
      disk_of_text
      from_hex
      config_of_text
      state_of_text
      to_string
      polls_once
      []
      (both_answer, "text")
    ≡ some (ok started, (asked, "text"))
unfolding start continue Start.new LogStream.new main_to_side_log_stream
    side_to_main_sign_log_stream side_to_main_signatures_log_stream filter_to_builder
    ethabi_topic_to_web3 BlockNumber.new await request
start-started = refl

node_poll-Extends_example :
    let poll =
      poll_node scripted big_endian abi join_one
        (λ b. b)
        9
        disk_of_text
        from_hex
        config_of_text
        state_of_text
        to_string
        polls_once
        main_contract
        side_contract in
    let node =
      node_of scripted big_endian abi join_one
        (λ b. b)
        9
        disk_of_text
        from_hex
        config_of_text
        state_of_text
        to_string
        polls_once
        main_contract
        side_contract
        started.bridge
        (asked, started.database, "text") in
    Extends state_at_5 (poll node).1.stream.1.1.state
node_poll-Extends_example =
    node_poll-Extends scripted big_endian abi join_one (λ b. b) 9 disk_of_text from_hex
      config_of_text state_of_text to_string polls_once polls_once-IsLawful [] (both_answer, "text")
      started asked "text" start-started (omega arith) (omega arith) (omega arith) _ here
