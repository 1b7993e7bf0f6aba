-- ===== src/Deployer.antt =====
-- The executable that deploys both contracts: deploy/src/main.rs. The event loop, the parser of the
-- command line, the transports and the file system are parameters.
pub mod Succeeds
pub mod Runs
pub mod Sent
use Prim.Native.String.{String}
use parity_bridge.Base.{ℕ, Option, none, some, Bool, true, false, List, ◌++◌}
use parity_bridge.Base.Bytes.{Bytes}
use parity_bridge.Async.{Poll}
use parity_bridge.Config as Config
use parity_bridge.Config.{Config}
use parity_bridge.Config.Load as Load
use parity_bridge.Database as Database
use parity_bridge.Database.{State}
use parity_bridge.Error.{Error, Result, ok, err, io, msg, web3, chained, text, and_then, or_err}
use parity_bridge.Os.{Os, Folders}
use parity_bridge.Web3.{Web3, Chain, main, side, Net}
use parity_bridge.Deploy.Contract.{Compiled, DeployedContract, as_bytes}
use parity_bridge.Deploy.Chains.{DeployMain, new_main, poll_main}
use parity_bridge.Deploy.Side.{DeploySide, new_side, poll_side}
use parity_bridge.Deploy.Info.{Versions, dump_info}
use parity_bridge.Cli.Crates.{Runtime, Outcome, continue, lift}

module _ (w : Web3) (compiled : Compiled) (versions : Versions) (rounds : ℕ) (os : Os w.Fault)
    (folders : Folders os) (from_hex : String → Result w.Fault Bytes)
    (config_from_str : String → Result w.Fault Load.Config)
    (state_from_str : String → Result w.Fault State) (to_string : State → String)
    (runtime : Runtime w.Fault) where
  open w use {World, Fault}
  open os use {Disk}
  open folders use {FilePath, from_text, from_string, create_file}

  abbrev pub Around : Type 0
  Around = Net World × Disk

  unfoldable pub connect :
      String → Chain → String → Around → Outcome (Error Fault) (Unit {0}) Around
  connect failure chain http around = elim (runtime.connect chain http) [
    | ok _ ↦ some (ok tt, around)
    | err x ↦ some (err (chained (text failure) (web3 x)), around)
  ]

  abbrev pub main_future :
      DeployMain w × Net World → Poll (Error Fault) DeployedContract × (DeployMain w × Net World)
  main_future (f, net) = let (p, f', net') = poll_main compiled w rounds (f, net) in (p, (f', net'))

  abbrev pub side_future :
      DeploySide w × Net World → Poll (Error Fault) DeployedContract × (DeploySide w × Net World)
  side_future (f, net) = let (p, f', net') = poll_side compiled w rounds (f, net) in (p, (f', net'))

  -- `event_loop.run(DeployMain::new(config.clone(), main_transport))`
  unfoldable pub run_main : Config → Around → Outcome (Error Fault) DeployedContract Around
  unfolding new_main
  run_main config (net, disk) =
      elim (runtime.run main_future (new_main compiled w config main, net)) [
        | none ↦ none
        | some (r, (_, net')) ↦ some (r, (net', disk))
      ]

  unfoldable pub run_side : Config → Around → Outcome (Error Fault) DeployedContract Around
  unfolding new_side
  run_side config (net, disk) =
      elim (runtime.run side_future (new_side compiled w config side, net)) [
        | none ↦ none
        | some (r, (_, net')) ↦ some (r, (net', disk))
      ]

  -- `dump_info(format!("deployment-main-{}", contract_address))`
  unfoldable pub dump : String → DeployedContract → Around → Outcome (Error Fault) (Unit {0}) Around
  unfolding dump_info
  dump prefix c (net, disk) =
      let dir = from_text (as_bytes prefix ++ c.contract_address) in
      lift (dump_info os folders versions compiled.to_hex c dir disk) (λ disk. (net, disk))

  -- The state behind both deployments, written to a file that is made or emptied.
  unfoldable pub write_state :
      DeployedContract → DeployedContract → String → Around → Outcome (Error Fault) String Around
  unfolding Database.from_transaction_receipts Database.write_state
  write_state main_deployed side_deployed arg_database (net, disk) =
      elim (Database.from_transaction_receipts main_deployed.receipt side_deployed.receipt) [
        | none ↦ none
        | some state ↦
            let (r, disk') =
              and_then (or_err io (create_file (from_string arg_database) disk))
                λ file disk. Database.write_state os state_from_str to_string state file disk in
            elim r [ ok _ ↦ some (ok "Done", (net, disk')) | err e ↦ some (err e, (net, disk')) ]
      ]

  -- `execute` behind the connections
  unfoldable pub deploy : Config → String → Around → Outcome (Error Fault) String Around
  unfolding run_main run_side dump write_state
  deploy config arg_database around = continue (run_main config around) λ main_deployed around.
      continue (dump "deployment-main-" main_deployed around) λ _ around.
        continue (run_side config around) λ side_deployed around.
          continue (dump "deployment-side-" side_deployed around)
            λ _ around. write_state main_deployed side_deployed arg_database around

  -- `execute` behind the start of the event loop
  unfoldable pub connect_both : Config → String → Around → Outcome (Error Fault) String Around
  unfolding connect deploy
  connect_both config arg_database around =
      continue (connect "Cannot connect to main at {}" main config.main.http around) λ _ around.
        continue (connect "Cannot connect to side at {}" side config.side.http around)
          λ _ around. deploy config arg_database around

  unfoldable pub execute : List String → Around → Outcome (Error Fault) String Around
  unfolding connect_both Config.load
  execute command (net, disk) = elim (runtime.parse_args command) [
    | err usage ↦ some (err (msg (text usage)), (net, disk))
    | ok args ↦
        continue
          (lift (Config.load os from_hex config_from_str args.arg_config disk)
            (λ disk. (net, disk)))
          λ config around. elim runtime.core [
            | true ↦ connect_both config args.arg_database around
            | false ↦ none
          ]
  ]
