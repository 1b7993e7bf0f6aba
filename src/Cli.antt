-- ===== src/Cli.antt =====
-- The executable that runs a node: cli/src/main.rs. The event loop, the parser of the command line,
-- the transports and the combinator `and_then` of the futures library are parameters.
pub mod Crates
pub mod Begun
pub mod InStep
pub mod Persisted
use Prim.Native.String.{String}
use parity_bridge.Base.{ℕ, ◌≡◌, refl, Option, none, some, Bool, true, false, if◌then◌else◌, List}
use parity_bridge.Base.Bytes.{Bytes}
use parity_bridge.Async.{Poll}
use parity_bridge.Config as Config
use parity_bridge.Config.{Config}
use parity_bridge.Config.Load as Load
use parity_bridge.Contracts.{Contracts}
use parity_bridge.Database as Database
use parity_bridge.Database.{State, TomlFileDatabase}
use parity_bridge.Error.{Error, Result, ok, err, msg, web3, chained, text}
use parity_bridge.Helpers.{AsyncCall, poll_call, Last, last, poll_last}
use parity_bridge.Message.{BigEndian}
use parity_bridge.Os.{Os}
use parity_bridge.Web3.{Web3, Chain, main, side, Net}
use parity_bridge.MainContract as MainContract
use parity_bridge.MainContract.{MainContract}
use parity_bridge.SideContract as SideContract
use parity_bridge.SideContract.{SideContract}
use parity_bridge.SideToMainSignatures.{JoinAll}
use parity_bridge.Relay.Logs.{poll_logs}
use parity_bridge.Bridge as Bridge
use parity_bridge.Bridge.Relays.{poll_relay}
use parity_bridge.Bridge.Start as Start
use parity_bridge.Cli.Crates.{Args, Runtime, Outcome, continue, lift}

module _ (w : Web3) (be : BigEndian) (abi : Contracts w.Fault) (j : JoinAll w)
    (hash : Bytes → Bytes) (rounds : ℕ) (os : Os w.Fault) (from_hex : String → Result w.Fault Bytes)
    (config_from_str : String → Result w.Fault Load.Config)
    (state_from_str : String → Result w.Fault State) (to_string : State → String)
    (runtime : Runtime w.Fault) where
  open w use {World, Fault}
  open os use {Disk}

  -- What the program acts on: the chains and the disk.
  abbrev pub Around : Type 0
  Around = Net World × Disk

  -- What is there when the polling of logs starts.
  pub record Started : Type 0 where
    pub database : TomlFileDatabase
    pub main_contract : MainContract
    pub side_contract : SideContract
    pub bridge : Start.Running w be abi j hash rounds

  -- `event_loop.run` of a call; its answer is dropped.
  unfoldable pub run_call :
      String → AsyncCall w Bool → Around → Outcome (Error Fault) (Unit {0}) Around
  unfolding poll_call
  run_call failure future (net, disk) =
      elim (runtime.run
        (λ (f : AsyncCall w Bool × Net World).
          let (p, f', net') = poll_call w f.0 f.1 in (p, (f', net')))
        (future, net)) [
          | none ↦ none
          | some (ok _, (_, net')) ↦ some (ok tt, (net', disk))
          | some (err e, (_, net')) ↦ some (err (chained (text failure) e), (net', disk))
        ]

  -- `chain_err` on `Http::with_event_loop`; the address is left out of the text.
  unfoldable pub connect :
      String → Chain → String → Around → Outcome (Error Fault) (Unit {0}) Around
  connect failure chain http around = elim (runtime.connect chain http) [
    | ok _ ↦ some (ok tt, around)
    | err x ↦ some (err (chained (text failure) (web3 x)), around)
  ]

  -- The contracts are asked, and the streams made. Addresses and paths are left out of the texts.
  unfoldable pub start_bridge :
      Config → TomlFileDatabase → Around → Outcome (Error Fault) Started Around
  unfolding run_call Database.read MainContract.new MainContract.is_main_contract SideContract.new
      SideContract.is_side_contract Start.new
  start_bridge config database (net, disk) =
      let initial_state = Database.read os state_from_str to_string database in
      let main_contract = MainContract.new main config initial_state in
      let (asked_main, net') = MainContract.is_main_contract w be abi main_contract net in
      continue
        (run_call "call to main contract `is_main_bridge_contract` failed" asked_main (net', disk))
        λ _ (net, disk).
          let side_contract = SideContract.new side config initial_state in
          let (asked_side, net') = SideContract.is_side_contract w be abi side_contract net in
          continue
            (run_call "call to side contract `is_side_bridge_contract` failed" asked_side
              (net', disk))
            λ _ around.
              elim (Start.new w be abi j hash rounds initial_state main_contract side_contract) [
                | none ↦ none
                | some bridge ↦ some (
                  ok (record {
                    database = database;
                    main_contract = main_contract;
                    side_contract = side_contract;
                    bridge = bridge;
                  }),
                  around,
                )
              ]

  -- `execute` from the first connection to the polling of logs
  unfoldable pub connect_both : Config → String → Around → Outcome (Error Fault) Started Around
  unfolding connect start_bridge Database.from_path
  connect_both config arg_database around =
      continue
        (connect "Cannot connect to parity node connected to main chain at {}" main config.main.http
          around)
        λ _ around.
          continue
            (connect "Cannot connect to parity node connected to side chain at {}" side
              config.side.http around)
            λ _ (net, disk).
              let (opened, disk') =
                Database.from_path os state_from_str to_string arg_database disk in
              continue (some (opened, (net, disk')))
                λ database around. start_bridge config database around

  -- `execute` up to the polling of logs
  unfoldable pub start : List String → Around → Outcome (Error Fault) Started Around
  unfolding connect_both Config.load
  start command (net, disk) = elim (runtime.parse_args command) [
    | err usage ↦ some (err (msg (text usage)), (net, disk))
    | ok args ↦
        continue
          (lift (Config.load os from_hex config_from_str args.arg_config disk)
            (λ disk. (net, disk)))
          λ config around. elim runtime.core [
            | true ↦ connect_both config args.arg_database around
            | false ↦ none
          ]
  ]

  -- What the polls of the stream act on: the closure writes the database.
  abbrev pub Surroundings : Type 0
  Surroundings = Net World × TomlFileDatabase × Disk

  module _ (main_contract : MainContract) (side_contract : SideContract) where
    unfoldable pub poll_bridge :
        Start.Running w be abi j hash rounds
        → Surroundings
        → Poll (Error Fault) (Option State) × Start.Running w be abi j hash rounds × Surroundings
    unfolding Bridge.poll poll_logs
    poll_bridge bridge (net, database, disk) =
        let (p, (bridge', net')) =
          Bridge.poll
            (poll_relay (poll_logs w rounds)
              (Start.log_to_main_to_side_sign w be abi j hash rounds side_contract) rounds)
            (poll_relay (poll_logs w rounds)
              (Start.log_to_side_to_main_sign w be abi j hash rounds side_contract) rounds)
            (poll_relay (poll_logs w rounds)
              (Start.log_to_side_to_main_signatures w be abi j hash rounds main_contract
                side_contract)
              rounds)
            (bridge, net) in
        (p, bridge', (net', database, disk))

    -- The closure of `and_then`.
    unfoldable pub persist : State → Surroundings → Result (Error Fault) (Unit {0}) × Surroundings
    unfolding Database.write
    persist state (net, database, disk) =
        let (r, database', disk') =
          Database.write os state_from_str to_string state database disk in
        (r, (net, database', disk'))

    abbrev pub Stream : Type 0
    Stream = runtime.AndThen (Start.Running w be abi j hash rounds) × Surroundings

    -- `persisted_bridge_stream`
    unfoldable pub poll_persisted : Stream → Poll (Error Fault) (Option (Unit {0})) × Stream
    unfolding poll_bridge persist
    poll_persisted (stream, around) =
        let (p, stream', around') = runtime.poll_and_then poll_bridge persist stream around in
        (p, (stream', around'))

    unfoldable pub poll_node :
        Last Stream (Unit {0}) → Poll (Error Fault) (Option (Unit {0})) × Last Stream (Unit {0})
    unfolding poll_last poll_persisted
    poll_node node = poll_last poll_persisted rounds node

    unfoldable pub node_of :
        Start.Running w be abi j hash rounds → Surroundings → Last Stream (Unit {0})
    unfolding last poll_persisted
    node_of bridge around = last poll_persisted (runtime.and_then bridge, around)

  -- Polls logs until the stream ends or fails.
  unfoldable pub run_node :
      (s : Started)
      → Around
      → Outcome
          (Error Fault)
          (Option (Unit {0}))
          (Last (Stream s.main_contract s.side_contract) (Unit {0}))
  unfolding node_of poll_node
  run_node s (net, disk) =
      runtime.run (poll_node s.main_contract s.side_contract)
        (node_of s.main_contract s.side_contract s.bridge (net, s.database, disk))

  unfoldable pub execute : List String → Around → Outcome (Error Fault) String Around
  unfolding start run_node
  execute command around = continue (start command around) λ started around.
      elim (run_node started around) [
        | none ↦ none
        | some (r, node) ↦
            let (net, _, disk) = node.stream.1 in
            elim r [ ok _ ↦ some (ok "Done", (net, disk)) | err e ↦ some (err e, (net, disk)) ]
      ]
