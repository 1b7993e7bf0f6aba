-- ===== src/Bridge/Start/Kept.antt =====
-- What a poll of the program's bridge does to its state (bridge/src/bridge.rs).
use parity_bridge.Base.{ℕ, ◌≡◌, Option, none, some}
use parity_bridge.Base.Bytes.{Bytes}
use parity_bridge.Async.{Poll, ready, not_ready, failed, panicked, out_of_rounds}
use parity_bridge.Error.{Error}
use parity_bridge.Web3.{Web3, Net}
use parity_bridge.Contracts.{Contracts}
use parity_bridge.Database.{State}
use parity_bridge.Message.{BigEndian}
use parity_bridge.MainContract.{MainContract}
use parity_bridge.SideContract.{SideContract}
use parity_bridge.SideToMainSignatures.{JoinAll}
use parity_bridge.Relay.Logs.{poll_logs, log_ranges}
use parity_bridge.Bridge as Bridge
use parity_bridge.Bridge.Persist.{Extends, bridge_poll-Outcome}
use parity_bridge.Bridge.Relays.{poll_relay, relay_ascends}
use parity_bridge.Bridge.Start.{
  log_to_main_to_side_sign, log_to_side_to_main_sign, log_to_side_to_main_signatures, Running,
  Valid,
}

module _ (w : Web3) (be : BigEndian) (abi : Contracts w.Fault) (j : JoinAll w)
    (hash : Bytes → Bytes) (rounds : ℕ) (main_contract : MainContract)
    (side_contract : SideContract) where
  open w use {World, Fault}

  abbrev pub Kept :
      State → Poll (Error Fault) (Option State) → Running w be abi j hash rounds → Type 0
  Kept before (ready (some state)) b =
      (b.state ≡ state)
      × Extends before state
      × Valid w be abi j hash rounds main_contract side_contract b
  Kept before (ready none) b = b.state ≡ before
  Kept before not_ready b =
      (b.state ≡ before) × Valid w be abi j hash rounds main_contract side_contract b
  Kept before (failed e) b = b.state ≡ before
  Kept before panicked b = b.state ≡ before
  Kept before out_of_rounds b = b.state ≡ before

  pub running_poll-Kept :
      (b : Running w be abi j hash rounds) (net : Net World)
      → Valid w be abi j hash rounds main_contract side_contract b
      → let (p, (b', _)) =
          Bridge.poll
            (poll_relay
              (poll_logs w rounds)
              (log_to_main_to_side_sign w be abi j hash rounds side_contract)
              rounds)
            (poll_relay
              (poll_logs w rounds)
              (log_to_side_to_main_sign w be abi j hash rounds side_contract)
              rounds)
            (poll_relay
              (poll_logs w rounds)
              (log_to_side_to_main_signatures w be abi j hash rounds main_contract side_contract)
              rounds)
            (b, net) in
        Kept b.state p b'
  running_poll-Kept b net v =
      let logs = poll_logs w rounds in
      let deposits = log_to_main_to_side_sign w be abi j hash rounds side_contract in
      let withdrawals = log_to_side_to_main_sign w be abi j hash rounds side_contract in
      let collected =
        log_to_side_to_main_signatures w be abi j hash rounds main_contract side_contract in
      let source = log_ranges w rounds in
      bridge_poll-Outcome (poll_relay logs deposits rounds) (poll_relay logs withdrawals rounds)
        (poll_relay logs collected rounds) (relay_ascends logs deposits rounds source)
        (relay_ascends logs withdrawals rounds source) (relay_ascends logs collected rounds source)
        b net v
