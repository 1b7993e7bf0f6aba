-- ===== src/Deployer/Runs.antt =====
-- What the runs of both deployment futures send (deploy/src/main.rs).
use Prim.Native.String.{String}
use parity_bridge.Base.{ℕ, suc, ◌≡◌, refl, subst, ap, none, some}
use parity_bridge.Base.Bytes.{Bytes}
use parity_bridge.Async.{Poll, ready, not_ready, failed, panicked, out_of_rounds}
use parity_bridge.Config.{Config}
use parity_bridge.Config.Load as Load
use parity_bridge.Database.{State}
use parity_bridge.Error.{Error, Result, ok, err}
use parity_bridge.Os.{Os, Folders}
use parity_bridge.Web3.{Web3, main, side, Net}
use parity_bridge.Web3.Sent.{transactions}
use parity_bridge.Deploy.Contract.{Compiled, DeployedContract}
use parity_bridge.Deploy.Chains.{DeployMain, main_plan, side_plan, new_main}
use parity_bridge.Deploy.Side.{DeploySide, new_side}
use parity_bridge.Deploy.Info.{Versions}
use parity_bridge.Deploy.Rounds.Trace.{now}
use parity_bridge.Deploy.Once.{main_polls, side_polls, main-DeploysOnce, side-DeploysOnce}
use parity_bridge.Cli.Crates.{Runtime, Outcome, IsLawful, Answers, Reached, here, more}
use parity_bridge.Deployer.{Around, main_future, side_future, run_main, run_side}
use parity_bridge.Deployer.Succeeds.{Succeeds, none-Succeeds, err-Succeeds, ok-Succeeds}

module _ (w : Web3) (compiled : Compiled) (versions : Versions) (rounds : ℕ) (os : Os w.Fault)
    (folders : Folders os) (from_hex : String → Result w.Fault Bytes)
    (config_from_str : String → Result w.Fault Load.Config)
    (state_from_str : String → Result w.Fault State) (to_string : State → String)
    (runtime : Runtime w.Fault) (law : IsLawful runtime) where
  open w use {World, Fault}
  open os use {Disk}

  ready_of :
      (p : Poll (Error Fault) DeployedContract) (c : DeployedContract)
      → Answers p (ok c)
      → p ≡ ready c
  ready_of (ready a) c h = cc
  ready_of (failed e) c h = cc
  ready_of not_ready c h = absurd h
  ready_of panicked c h = absurd h
  ready_of out_of_rounds c h = absurd h

  Reached-main_polls :
      (m g : DeployMain w × Net World)
      → Reached
          (main_future w compiled versions rounds os folders from_hex config_from_str state_from_str
            to_string runtime)
          m
          g
      → (n : ℕ) × (main_polls w compiled rounds n m ≡ g)
  unfolding main_polls
  Reached-main_polls m g here = (0, refl)
  Reached-main_polls m g (more {g = k} r e) =
      let (n, q) = Reached-main_polls m k r in (suc n, rw q (ap (λ x. x.1) e))

  -- The creation on main has been added to the transactions.
  abbrev pub MainSent :
      Config
      → Net World
      → DeployedContract
      → Around w compiled versions rounds os folders from_hex config_from_str state_from_str
          to_string runtime
      → Type 0
  MainSent config net c around =
      transactions around.0.sent
      ≡ now w compiled.to_hex (main_plan compiled config main) (transactions net.sent)

  main_answer-MainSent :
      (config : Config) (net : Net World) (g : DeployMain w × Net World) (n : ℕ)
      (c : DeployedContract)
      → main_polls w compiled rounds n (new_main compiled w config main, net) ≡ g
      → (main_future w compiled versions rounds os folders from_hex config_from_str state_from_str
          to_string runtime g).0
        ≡ ready c
      → transactions
          (main_future w compiled versions rounds os folders from_hex config_from_str state_from_str
            to_string runtime g).1.1.sent
        ≡ now w compiled.to_hex (main_plan compiled config main) (transactions net.sent)
  main_answer-MainSent config net g n c q e =
      subst
        (λ g.
          (main_future w compiled versions rounds os folders from_hex config_from_str state_from_str
              to_string runtime g).0
            ≡ ready c
          → transactions
              (main_future w compiled versions rounds os folders from_hex config_from_str
                state_from_str to_string runtime g).1.1.sent
            ≡ now w compiled.to_hex (main_plan compiled config main) (transactions net.sent))
        q (λ e. ((main-DeploysOnce w compiled rounds n config main net).1 c e).0) e

  ran_main-Succeeds :
      (config : Config) (net : Net World) (disk : Disk)
      (x : Outcome (Error Fault) DeployedContract (DeployMain w × Net World))
      → ((c : DeployedContract) (h : DeployMain w × Net World)
          → x ≡ some (ok c, h)
          → transactions h.1.sent
            ≡ now w compiled.to_hex (main_plan compiled config main) (transactions net.sent))
      → let r : Outcome (Error Fault) DeployedContract (Net World × Disk) = elim x [
        | none ↦ none
        | some (r, (_, net')) ↦ some (r, (net', disk))
      ] in
        Succeeds (MainSent config net) r
  ran_main-Succeeds config net disk none h = none-Succeeds (MainSent config net)
  ran_main-Succeeds config net disk (some (ok c, (f, net'))) h =
      ok-Succeeds (MainSent config net) c (net', disk) (h c (f, net') refl)
  ran_main-Succeeds config net disk (some (err e, (f, net'))) h =
      err-Succeeds (MainSent config net) e (net', disk)

  pub run_main-Succeeds :
      (config : Config) (net : Net World) (disk : Disk)
      → Succeeds (MainSent config net) (
          run_main w compiled versions rounds os folders from_hex config_from_str state_from_str
            to_string runtime config
            (net, disk))
  unfolding run_main
  run_main-Succeeds config net disk =
      let poll =
        main_future w compiled versions rounds os folders from_hex config_from_str state_from_str
          to_string runtime in
      let start : DeployMain w × Net World = (new_main compiled w config main, net) in
      ran_main-Succeeds config net disk (runtime.run poll start) λ c h e.
        let (g, r, a, at) = law.runs poll start h (ok c) e in
        let (n, q) = Reached-main_polls start g r in
        rw at (main_answer-MainSent config net g n c q (ready_of (poll g).0 c a))

  Reached-side_polls :
      (m g : DeploySide w × Net World)
      → Reached
          (side_future w compiled versions rounds os folders from_hex config_from_str state_from_str
            to_string runtime)
          m
          g
      → (n : ℕ) × (side_polls w compiled rounds n m ≡ g)
  unfolding side_polls
  Reached-side_polls m g here = (0, refl)
  Reached-side_polls m g (more {g = k} r e) =
      let (n, q) = Reached-side_polls m k r in (suc n, rw q (ap (λ x. x.1) e))

  -- The creation on side has been added to the transactions.
  abbrev pub SideSent :
      Config
      → Net World
      → DeployedContract
      → Around w compiled versions rounds os folders from_hex config_from_str state_from_str
          to_string runtime
      → Type 0
  SideSent config net c around =
      transactions around.0.sent
      ≡ now w compiled.to_hex (side_plan compiled config side) (transactions net.sent)

  side_answer-SideSent :
      (config : Config) (net : Net World) (g : DeploySide w × Net World) (n : ℕ)
      (c : DeployedContract)
      → side_polls w compiled rounds n (new_side compiled w config side, net) ≡ g
      → (side_future w compiled versions rounds os folders from_hex config_from_str state_from_str
          to_string runtime g).0
        ≡ ready c
      → transactions
          (side_future w compiled versions rounds os folders from_hex config_from_str state_from_str
            to_string runtime g).1.1.sent
        ≡ now w compiled.to_hex (side_plan compiled config side) (transactions net.sent)
  side_answer-SideSent config net g n c q e =
      subst
        (λ g.
          (side_future w compiled versions rounds os folders from_hex config_from_str state_from_str
              to_string runtime g).0
            ≡ ready c
          → transactions
              (side_future w compiled versions rounds os folders from_hex config_from_str
                state_from_str to_string runtime g).1.1.sent
            ≡ now w compiled.to_hex (side_plan compiled config side) (transactions net.sent))
        q (λ e. ((side-DeploysOnce w compiled rounds n config side net).1 c e).0) e

  ran_side-Succeeds :
      (config : Config) (net : Net World) (disk : Disk)
      (x : Outcome (Error Fault) DeployedContract (DeploySide w × Net World))
      → ((c : DeployedContract) (h : DeploySide w × Net World)
          → x ≡ some (ok c, h)
          → transactions h.1.sent
            ≡ now w compiled.to_hex (side_plan compiled config side) (transactions net.sent))
      → let r : Outcome (Error Fault) DeployedContract (Net World × Disk) = elim x [
        | none ↦ none
        | some (r, (_, net')) ↦ some (r, (net', disk))
      ] in
        Succeeds (SideSent config net) r
  ran_side-Succeeds config net disk none h = none-Succeeds (SideSent config net)
  ran_side-Succeeds config net disk (some (ok c, (f, net'))) h =
      ok-Succeeds (SideSent config net) c (net', disk) (h c (f, net') refl)
  ran_side-Succeeds config net disk (some (err e, (f, net'))) h =
      err-Succeeds (SideSent config net) e (net', disk)

  pub run_side-Succeeds :
      (config : Config) (net : Net World) (disk : Disk)
      → Succeeds (SideSent config net) (
          run_side w compiled versions rounds os folders from_hex config_from_str state_from_str
            to_string runtime config
            (net, disk))
  unfolding run_side
  run_side-Succeeds config net disk =
      let poll =
        side_future w compiled versions rounds os folders from_hex config_from_str state_from_str
          to_string runtime in
      let start : DeploySide w × Net World = (new_side compiled w config side, net) in
      ran_side-Succeeds config net disk (runtime.run poll start) λ c h e.
        let (g, r, a, at) = law.runs poll start h (ok c) e in
        let (n, q) = Reached-side_polls start g r in
        rw at (side_answer-SideSent config net g n c q (ready_of (poll g).0 c a))
