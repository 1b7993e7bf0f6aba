-- ===== src/Deployer/Sent.antt =====
-- What the deployment has sent when it is done (deploy/src/main.rs).
use Prim.Native.String.{String}
use parity_bridge.Base.{ℕ, ◌≡◌, ◌∙◌, refl, subst, ap, Option, none, some, Bool, true, false, List}
use parity_bridge.Base.Bytes.{Bytes}
use parity_bridge.Config as Config
use parity_bridge.Config.{Config}
use parity_bridge.Config.Load as Load
use parity_bridge.Database as Database
use parity_bridge.Database.{State}
use parity_bridge.Error.{Error, Result, ok, err, msg, io, web3, chained, text, and_then, or_err}
use parity_bridge.Os.{Os, Folders}
use parity_bridge.Web3.{Web3, Chain, main, side, Net}
use parity_bridge.Web3.Sent.{transactions}
use parity_bridge.Deploy.Contract.{Compiled, DeployedContract}
use parity_bridge.Deploy.Chains.{main_plan, side_plan}
use parity_bridge.Deploy.Info.{Versions}
use parity_bridge.Deploy.Rounds.Trace.{now}
use parity_bridge.Cli.Crates.{Runtime, Outcome, IsLawful, continue, lift, Args}
use parity_bridge.Deployer.{Around, connect, dump, write_state, deploy, connect_both, execute}
use parity_bridge.Deployer.Succeeds.{
  Succeeds, none-Succeeds, err-Succeeds, ok-Succeeds, continue-Succeeds, weaken-Succeeds,
  lift-Succeeds,
}
use parity_bridge.Deployer.Runs.{MainSent, SideSent, run_main-Succeeds, run_side-Succeeds}

module _ (w : Web3) (compiled : Compiled) (versions : Versions) (rounds : ℕ) (os : Os w.Fault)
    (folders : Folders os) (from_hex : String → Result w.Fault Bytes)
    (config_from_str : String → Result w.Fault Load.Config)
    (state_from_str : String → Result w.Fault State) (to_string : State → String)
    (runtime : Runtime w.Fault) (law : IsLawful runtime) where
  open w use {World, Fault}
  open os use {Disk}

  -- The chains are left as they are.
  abbrev Leaves :
      {A : Type 0}
      → Net World
      → A
      → Around w compiled versions rounds os folders from_hex config_from_str state_from_str
          to_string runtime
      → Type 0
  Leaves net a around = around.0 ≡ net

  dump-Succeeds :
      (prefix : String) (c : DeployedContract) (net : Net World) (disk : Disk)
      → Succeeds (Leaves net) (
          dump w compiled versions rounds os folders from_hex config_from_str state_from_str
            to_string runtime prefix c
            (net, disk))
  unfolding dump
  dump-Succeeds prefix c net disk = lift-Succeeds (Leaves net) _ _ (λ a e. refl)

  connect-Succeeds :
      (failure : String) (chain : Chain) (http : String) (net : Net World) (disk : Disk)
      → Succeeds (Leaves net) (
          connect w compiled versions rounds os folders from_hex config_from_str state_from_str
            to_string runtime failure chain http
            (net, disk))
  unfolding connect
  connect-Succeeds failure chain http net disk = connected (runtime.connect chain http)
    where
      connected :
          (r : Result Fault (Unit {0}))
          → let x : Outcome (Error Fault) (Unit {0}) (Net World × Disk) = elim r [
            | ok _ ↦ some (ok tt, (net, disk))
            | err x ↦ some (err (chained (text failure) (web3 x)), (net, disk))
          ] in
            Succeeds (Leaves net) x
      connected (ok _) = ok-Succeeds (Leaves net) tt (net, disk) refl
      connected (err x) = err-Succeeds (Leaves net) _ (net, disk)

  written-Succeeds :
      (net : Net World) (disk : Disk) (r : Result (Error Fault) (Unit {0}))
      → let x : Outcome (Error Fault) String (Net World × Disk) = elim r [
        | ok _ ↦ some (ok "Done", (net, disk))
        | err e ↦ some (err e, (net, disk))
      ] in
        Succeeds (Leaves net) x
  written-Succeeds net disk (ok _) = ok-Succeeds (Leaves net) "Done" (net, disk) refl
  written-Succeeds net disk (err e) = err-Succeeds (Leaves net) e (net, disk)

  stated-Succeeds :
      (net : Net World) (state : Option State)
      (next : State → Result (Error Fault) (Unit {0}) × Disk)
      → let x : Outcome (Error Fault) String (Net World × Disk) = elim state [
        | none ↦ none
        | some state ↦
            let (r, disk') = next state in
            elim r [ ok _ ↦ some (ok "Done", (net, disk')) | err e ↦ some (err e, (net, disk')) ]
      ] in
        Succeeds (Leaves net) x
  stated-Succeeds net none next = none-Succeeds (Leaves net)
  stated-Succeeds net (some state) next = written-Succeeds net (next state).1 (next state).0

  write_state-Succeeds :
      (a b : DeployedContract) (path : String) (net : Net World) (disk : Disk)
      → Succeeds (Leaves net) (
          write_state w compiled versions rounds os folders from_hex config_from_str state_from_str
            to_string runtime a b path
            (net, disk))
  unfolding write_state
  write_state-Succeeds a b path net disk =
      stated-Succeeds net (Database.from_transaction_receipts a.receipt b.receipt) λ state.
        and_then (or_err io (folders.create_file (folders.from_string path) disk))
          λ file disk. Database.write_state os state_from_str to_string state file disk

  -- The two creations, in the order in which they are sent.
  abbrev pub BothSent :
      {A : Type 0}
      → Config
      → Net World
      → A
      → Around w compiled versions rounds os folders from_hex config_from_str state_from_str
          to_string runtime
      → Type 0
  BothSent config net a around =
      transactions around.0.sent
      ≡ now w compiled.to_hex (side_plan compiled config side)
          (now w compiled.to_hex (main_plan compiled config main) (transactions net.sent))

  both :
      (config : Config) (net net1 net2 net3 net5 : Net World)
      → transactions net1.sent
        ≡ now w compiled.to_hex (main_plan compiled config main) (transactions net.sent)
      → net2 ≡ net1
      → transactions net3.sent
        ≡ now w compiled.to_hex (side_plan compiled config side) (transactions net2.sent)
      → net5 ≡ net3
      → transactions net5.sent
        ≡ now w compiled.to_hex
            (side_plan compiled config side)
            (now w compiled.to_hex (main_plan compiled config main) (transactions net.sent))
  both config net net1 net2 net3 net5 sent1 same2 sent3 same5 =
      ap (λ (n : Net World). transactions n.sent) same5
      ∙ sent3
      ∙ ap
          (λ (n : Net World).
            now w compiled.to_hex (side_plan compiled config side) (transactions n.sent))
          same2
      ∙ ap (λ t. now w compiled.to_hex (side_plan compiled config side) t) sent1

  deploy-Succeeds :
      (config : Config) (path : String) (net : Net World) (disk : Disk)
      → Succeeds (BothSent config net) (
          deploy w compiled versions rounds os folders from_hex config_from_str state_from_str
            to_string runtime config path
            (net, disk))
  unfolding deploy
  deploy-Succeeds config path net disk =
      continue-Succeeds
        (MainSent w compiled versions rounds os folders from_hex config_from_str state_from_str
          to_string runtime law config net)
        (BothSent config net) _ _
        (run_main-Succeeds w compiled versions rounds os folders from_hex config_from_str
          state_from_str to_string runtime law config net disk)
        λ c (net1, disk1) sent1.
          continue-Succeeds (Leaves net1) (BothSent config net) _ _
            (dump-Succeeds "deployment-main-" c net1 disk1)
            λ _ (net2, disk2) same2.
              continue-Succeeds
                (SideSent w compiled versions rounds os folders from_hex config_from_str
                  state_from_str to_string runtime law config net2)
                (BothSent config net) _ _
                (run_side-Succeeds w compiled versions rounds os folders from_hex config_from_str
                  state_from_str to_string runtime law config net2 disk2)
                λ d (net3, disk3) sent3.
                  continue-Succeeds (Leaves net3) (BothSent config net) _ _
                    (dump-Succeeds "deployment-side-" d net3 disk3)
                    λ _ (net4, disk4) same4.
                      weaken-Succeeds (Leaves net4) (BothSent config net) _
                        (write_state-Succeeds c d path net4 disk4)
                        λ _ (net5, disk5) same5.
                          both config net net1 net2 net3 net5 sent1 same2 sent3 (same5 ∙ same4)

  connect_both-Succeeds :
      (config : Config) (path : String) (net : Net World) (disk : Disk)
      → Succeeds (BothSent config net) (
          connect_both w compiled versions rounds os folders from_hex config_from_str state_from_str
            to_string runtime config path
            (net, disk))
  unfolding connect_both
  connect_both-Succeeds config path net disk =
      continue-Succeeds (Leaves net) (BothSent config net) _ _
        (connect-Succeeds "Cannot connect to main at {}" main config.main.http net disk)
        λ _ (net1, disk1) same1.
          continue-Succeeds (Leaves net1) (BothSent config net) _ _
            (connect-Succeeds "Cannot connect to side at {}" side config.side.http net1 disk1)
            λ _ (net2, disk2) same2.
              weaken-Succeeds (BothSent config net2) (BothSent config net) _
                (deploy-Succeeds config path net2 disk2)
                λ _ around sent.
                  subst
                    (λ (n : Net World).
                      transactions around.0.sent
                      ≡ now w compiled.to_hex (side_plan compiled config side) (
                          now w compiled.to_hex (main_plan compiled config main)
                            (transactions n.sent)))
                    (same2 ∙ same1) sent

  -- What the command line and the configuration file say has been sent.
  abbrev pub Done :
      List String
      → Net World
      → Disk
      → String
      → Around w compiled versions rounds os folders from_hex config_from_str state_from_str
          to_string runtime
      → Type 0
  Done command net disk a around =
      (args : Args) × (config : Config) × (runtime.parse_args command ≡ ok args)
      × ((Config.load os from_hex config_from_str args.arg_config disk).0 ≡ some (ok config))
      × BothSent config net a around

  core-Succeeds :
      (core : Bool) (config : Config) (path : String) (net : Net World) (disk : Disk)
      → let x : Outcome (Error Fault) String (Net World × Disk) = elim core [
        | true ↦
            connect_both w compiled versions rounds os folders from_hex config_from_str
              state_from_str to_string runtime config path
              (net, disk)
        | false ↦ none
      ] in
        Succeeds (BothSent config net) x
  core-Succeeds true config path net disk = connect_both-Succeeds config path net disk
  core-Succeeds false config path net disk = none-Succeeds (BothSent config net)

  parsed-Succeeds :
      (r : Result String Args) (command : List String) (net : Net World) (disk : Disk)
      → runtime.parse_args command ≡ r
      → let x : Outcome (Error Fault) String (Net World × Disk) = elim r [
        | err usage ↦ some (err (msg (text usage)), (net, disk))
        | ok args ↦
            continue
              (lift
                (Config.load os from_hex config_from_str args.arg_config disk)
                (λ disk. (net, disk)))
              λ config around. elim runtime.core [
                | true ↦
                    connect_both w compiled versions rounds os folders from_hex config_from_str
                      state_from_str to_string runtime config args.arg_database around
                | false ↦ none
              ]
      ] in
        Succeeds (Done command net disk) x
  parsed-Succeeds (err usage) command net disk e = err-Succeeds (Done command net disk) _ _
  parsed-Succeeds (ok args) command net disk e =
      continue-Succeeds
        (λ (config : Config) (v : Net World × Disk).
          (v.0 ≡ net)
          × ((Config.load os from_hex config_from_str args.arg_config disk).0 ≡ some (ok config)))
        (Done command net disk) _ _ (lift-Succeeds _ _ _ (λ a found. (refl, found)))
        λ config (net1, disk1) (same, found).
          weaken-Succeeds (BothSent config net1) (Done command net disk) _
            (core-Succeeds runtime.core config args.arg_database net1 disk1)
            λ _ around sent. (
              args,
              config,
              e,
              found,
              subst
                  (λ (n : Net World).
                    transactions around.0.sent
                    ≡ now w compiled.to_hex (side_plan compiled config side) (
                        now w compiled.to_hex (main_plan compiled config main)
                          (transactions n.sent)))
                  same sent,
            )

  -- A deployment that succeeds has sent two transactions, in this order and no other: the creations
  -- of the contracts on main and on side, as the configuration that was loaded says.
  pub execute-Done :
      (command : List String) (net : Net World) (disk : Disk) (s : String)
      (around : Around w compiled versions rounds os folders from_hex config_from_str state_from_str
        to_string runtime)
      → execute w compiled versions rounds os folders from_hex config_from_str state_from_str
          to_string runtime command
          (net, disk)
        ≡ some (ok s, around)
      → Done command net disk s around
  unfolding execute
  execute-Done command net disk s around e =
      (parsed-Succeeds (runtime.parse_args command) command net disk refl).on s around e
