-- ===== src/Cli/Persisted.antt =====
-- The database of a running node (cli/src/main.rs): the blocks in it only grow.
use Prim.Native.String.{String}
use parity_bridge.Base.{ℕ, ◌<◌, ◌^◌, ◌≡◌, some, List}
use parity_bridge.Base.Bytes.{Bytes}
use parity_bridge.Async.{Poll, not_ready}
use parity_bridge.Config.Load as Load
use parity_bridge.Contracts.{Contracts}
use parity_bridge.Database.{State, TomlFileDatabase}
use parity_bridge.Error.{Error, Result, ok}
use parity_bridge.Helpers.{Last, last}
use parity_bridge.Message.{BigEndian}
use parity_bridge.Os.{Os}
use parity_bridge.Web3.{Web3, Net}
use parity_bridge.MainContract.{MainContract}
use parity_bridge.SideContract.{SideContract}
use parity_bridge.SideToMainSignatures.{JoinAll}
use parity_bridge.Bridge.Persist.{Extends}
use parity_bridge.Bridge.Start as Start
use parity_bridge.Bridge.Start.{bridge_new-Valid}
use parity_bridge.Cli.Crates.{Runtime, IsLawful, Reached}
use parity_bridge.Cli.Begun.{start-Begun}
use parity_bridge.Cli.{start, poll_node, node_of}
use parity_bridge.Cli.InStep.{
  Extends-refl, StartedHere, Node, Grown, NodeInStep, NodeKept, node_poll-NodeKept, Reached-InStep,
}

module _ (w : Web3) (be : BigEndian) (abi : Contracts w.Fault) (j : JoinAll w)
    (hash : Bytes → Bytes) (rounds : ℕ) (os : Os w.Fault) (from_hex : String → Result w.Fault Bytes)
    (config_from_str : String → Result w.Fault Load.Config)
    (state_from_str : String → Result w.Fault State) (to_string : State → String)
    (runtime : Runtime w.Fault) where
  open w use {World, Fault}
  open os use {Disk}

  module _ (law : IsLawful runtime) where
    fresh-NodeInStep :
        (s : StartedHere w be abi j hash rounds os from_hex config_from_str state_from_str to_string
          runtime)
        (net : Net World) (disk : Disk)
        → Start.Valid w be abi j hash rounds s.main_contract s.side_contract s.bridge
        → s.bridge.state ≡ s.database.state
        → NodeInStep w be abi j hash rounds os from_hex config_from_str state_from_str to_string
            runtime law s.main_contract s.side_contract s.database.state
            (node_of w be abi j hash rounds os from_hex config_from_str state_from_str to_string
              runtime s.main_contract s.side_contract s.bridge
              (net, s.database, disk))
    unfolding node_of last
    fresh-NodeInStep s net disk v e =
        rw (law.stream_of_new s.bridge) (v, e, Extends-refl s.database.state)

    NodeKept-Grown :
        {A : Type 0} (main_contract : MainContract) (side_contract : SideContract) (initial : State)
        (p : Poll (Error Fault) A)
        (m : Node w be abi j hash rounds os from_hex config_from_str state_from_str to_string
          runtime law main_contract side_contract initial)
        → NodeKept w be abi j hash rounds os from_hex config_from_str state_from_str to_string
            runtime law main_contract side_contract initial p m
        → Grown w be abi j hash rounds os from_hex config_from_str state_from_str to_string runtime
            law main_contract side_contract initial m.stream.1
    NodeKept-Grown main_contract side_contract initial not_ready m h = h.2
    NodeKept-Grown main_contract side_contract initial _ m h = h

    -- Where the node has started, with a database whose blocks have 64 bits: after any number of
    -- polls that were not ready, one more poll, however it ends, leaves a database in which no block
    -- has fallen and the contracts are those at the start.
    pub node_poll-Extends :
        (command : List String) (around : Net World × Disk)
        (s : StartedHere w be abi j hash rounds os from_hex config_from_str state_from_str to_string
          runtime)
        (net : Net World) (disk : Disk)
        → start w be abi j hash rounds os from_hex config_from_str state_from_str to_string runtime
            command around
          ≡ some (ok s, (net, disk))
        → s.database.state.last_main_to_side_sign_at_block < 2 ^ 64
        → s.database.state.last_side_to_main_sign_at_block < 2 ^ 64
        → s.database.state.last_side_to_main_signatures_at_block < 2 ^ 64
        → let poll =
            poll_node w be abi j hash rounds os from_hex config_from_str state_from_str to_string
              runtime s.main_contract s.side_contract in
          (g : Last
            (runtime.AndThen (Start.Running w be abi j hash rounds)
              × (Net World × TomlFileDatabase × Disk))
            (Unit {0}))
          → Reached poll
              (node_of w be abi j hash rounds os from_hex config_from_str state_from_str to_string
                runtime s.main_contract s.side_contract s.bridge
                (net, s.database, disk))
              g
          → Extends s.database.state (poll g).1.stream.1.1.state
    node_poll-Extends command around s net disk started a b c g r =
        let begun =
          (start-Begun w be abi j hash rounds os from_hex config_from_str state_from_str to_string
              runtime command around).on
            s (net, disk) started in
        let (v, e) =
          bridge_new-Valid w be abi j hash rounds s.database.state s.main_contract s.side_contract
            s.bridge a b c begun in
        let initial = s.database.state in
        let main_contract = s.main_contract in
        let side_contract = s.side_contract in
        NodeKept-Grown main_contract side_contract initial _ _ (
          node_poll-NodeKept w be abi j hash rounds os from_hex config_from_str state_from_str
            to_string runtime law main_contract side_contract initial g
            (Reached-InStep w be abi j hash rounds os from_hex config_from_str state_from_str
              to_string runtime law main_contract side_contract initial _
              (fresh-NodeInStep s net disk v e) g r))
