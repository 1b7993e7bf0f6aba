-- ===== src/Bridge/Start.antt =====
-- `Bridge::new` of bridge/src/bridge.rs, with the relays that it is made of: the implementations
-- of `LogToFuture` in main_to_side_sign.rs, side_to_main_sign.rs and side_to_main_signatures.rs of
-- bridge/src.
pub mod Ends
pub mod Kept
use parity_bridge.Base.{ℕ, ◌<◌, ◌^◌, ◌≡◌, refl, subst, Option, none, some, arith}
use parity_bridge.Base.Bytes.{Bytes}
use parity_bridge.Error.{Error}
use parity_bridge.Web3.{Web3, Net}
use parity_bridge.Contracts.{Contracts}
use parity_bridge.Database.{State}
use parity_bridge.Message.{BigEndian}
use parity_bridge.MainContract.{MainContract, main_to_side_log_stream}
use parity_bridge.SideContract.{
  SideContract, side_to_main_sign_log_stream, side_to_main_signatures_log_stream,
}
use parity_bridge.LogStream as LogStream
use parity_bridge.LogStream.{LogStream}
use parity_bridge.LogStream.Cover.{new-IsValid}
use parity_bridge.Ordered as Ordered
use parity_bridge.Relay as Relay
use parity_bridge.Relay.{LogToFuture, RelayStream}
use parity_bridge.Relay.Inv.{Holds}
use parity_bridge.Relay.Logs.{poll_logs, log_ranges}
use parity_bridge.MainToSideSign as MainToSideSign
use parity_bridge.MainToSideSign.{MainToSideSign}
use parity_bridge.SideToMainSign as SideToMainSign
use parity_bridge.SideToMainSign.{SideToMainSign}
use parity_bridge.SideToMainSignatures as SideToMainSignatures
use parity_bridge.SideToMainSignatures.{JoinAll, SideToMainSignatures}
use parity_bridge.Bridge.{Bridge}
use parity_bridge.Bridge.Persist as Persist
use parity_bridge.Bridge.Relays.{poll_relay, relay_ascends}

module _ (w : Web3) (be : BigEndian) (abi : Contracts w.Fault) (j : JoinAll w)
    (hash : Bytes → Bytes) (rounds : ℕ) where
  open w use {World, Fault}

  abbrev pub log_to_main_to_side_sign :
      SideContract → LogToFuture (Net World) (Error Fault) (MainToSideSign w) (Option Bytes)
  log_to_main_to_side_sign side = record {
    log_to_future = λ log net. MainToSideSign.new w be abi log side net;
    poll_future =
        λ f net. let (p, m) = MainToSideSign.poll w be abi rounds (f, net) in (p, m.0, m.1);
  }

  abbrev pub log_to_side_to_main_sign :
      SideContract → LogToFuture (Net World) (Error Fault) (SideToMainSign w) (Option Bytes)
  log_to_side_to_main_sign side = record {
    log_to_future = λ log net. SideToMainSign.new w be abi log side net;
    poll_future =
        λ f net. let (p, m) = SideToMainSign.poll w be abi rounds (f, net) in (p, m.0, m.1);
  }

  abbrev pub log_to_side_to_main_signatures :
      MainContract
      → SideContract
      → LogToFuture (Net World) (Error Fault) (SideToMainSignatures w j) (Option Bytes)
  log_to_side_to_main_signatures main side = record {
    log_to_future = λ log net. SideToMainSignatures.new w be abi j hash log main side net;
    poll_future = λ f net.
        let (p, m) = SideToMainSignatures.poll w be abi j hash rounds (f, net) in (p, m.0, m.1);
  }

  abbrev pub Running : Type 0
  Running =
      Bridge (RelayStream (LogStream w) (MainToSideSign w) (Option Bytes))
        (RelayStream (LogStream w) (SideToMainSign w) (Option Bytes))
        (RelayStream (LogStream w) (SideToMainSignatures w j) (Option Bytes))

  abbrev pub relays_over : State → LogStream w → LogStream w → LogStream w → Running
  relays_over initial_state deposits withdrawals collected = record {
    main_to_side_sign = Relay.new deposits;
    side_to_main_sign = Relay.new withdrawals;
    side_to_main_signatures = Relay.new collected;
    state = initial_state;
  }

  -- `none` where one of the three panics.
  abbrev pub assemble :
      State → Option (LogStream w) → Option (LogStream w) → Option (LogStream w) → Option Running
  assemble state (some deposits) (some withdrawals) (some collected) =
      some (relays_over state deposits withdrawals collected)
  assemble state _ _ _ = none

  unfoldable pub new : State → MainContract → SideContract → Option Running
  unfolding LogStream.new Relay.new main_to_side_log_stream side_to_main_sign_log_stream
      side_to_main_signatures_log_stream
  new initial_state main_contract side_contract =
      assemble initial_state
        (LogStream.new w (
          main_to_side_log_stream w be abi main_contract
            initial_state.last_main_to_side_sign_at_block))
        (LogStream.new w (
          side_to_main_sign_log_stream w be abi side_contract
            initial_state.last_side_to_main_sign_at_block))
        (LogStream.new w (
          side_to_main_signatures_log_stream w be abi side_contract
            initial_state.last_side_to_main_signatures_at_block main_contract.authority_address))

  fresh-Holds :
      {F : Type 0} (relay : LogToFuture (Net World) (Error Fault) F (Option Bytes))
      (options : LogStream.LogStreamOptions) (logs : LogStream w)
      → options.after < 2 ^ 64
      → LogStream.new w options ≡ some logs
      → Holds (poll_logs w rounds) relay (log_ranges w rounds) options.after (Relay.new logs)
  unfolding log_ranges Relay.new Ordered.new
  fresh-Holds relay options logs fits e =
      let (valid, start) = new-IsValid w options fits e in (valid, omega arith, tt)

  -- The bridge's relays, each with what it promises.
  abbrev pub Valid : MainContract → SideContract → Running → Type 0
  Valid main_contract side_contract =
      Persist.IsValid
        (poll_relay (poll_logs w rounds) (log_to_main_to_side_sign side_contract) rounds)
        (poll_relay (poll_logs w rounds) (log_to_side_to_main_sign side_contract) rounds)
        (poll_relay (poll_logs w rounds)
          (log_to_side_to_main_signatures main_contract side_contract) rounds)
        (relay_ascends (poll_logs w rounds) (log_to_main_to_side_sign side_contract) rounds
          (log_ranges w rounds))
        (relay_ascends (poll_logs w rounds) (log_to_side_to_main_sign side_contract) rounds
          (log_ranges w rounds))
        (relay_ascends (poll_logs w rounds)
          (log_to_side_to_main_signatures main_contract side_contract) rounds (log_ranges w rounds))

  assemble-Valid :
      (state : State) (main_contract : MainContract) (side_contract : SideContract) (b : Running)
      (deposits withdrawals collected : Option (LogStream w))
      (first second third : LogStream.LogStreamOptions)
      → assemble state deposits withdrawals collected ≡ some b
      → LogStream.new w first ≡ deposits
      → LogStream.new w second ≡ withdrawals
      → LogStream.new w third ≡ collected
      → (state.last_main_to_side_sign_at_block ≡ first.after) × (first.after < 2 ^ 64)
      → (state.last_side_to_main_sign_at_block ≡ second.after) × (second.after < 2 ^ 64)
      → (state.last_side_to_main_signatures_at_block ≡ third.after) × (third.after < 2 ^ 64)
      → Valid main_contract side_contract b × (b.state ≡ state)
  assemble-Valid state main_contract side_contract b (some d) (some x) (some c) first second third e
        ed ex ec (df, fits_d) (xf, fits_x) (cf, fits_c) =
      let same : relays_over state d x c ≡ b = cc in
      subst (λ b. Valid main_contract side_contract b × (b.state ≡ state)) same
        (
          (
            rw df (fresh-Holds (log_to_main_to_side_sign side_contract) first d fits_d ed),
            rw xf (fresh-Holds (log_to_side_to_main_sign side_contract) second x fits_x ex),
            rw cf (
                fresh-Holds (log_to_side_to_main_signatures main_contract side_contract) third c
                  fits_c ec),
          ),
          refl,
        )
  assemble-Valid state main_contract side_contract b _ _ _ first second third e ed ex ec f g h = cc

  -- A new bridge whose blocks have 64 bits is valid, over the relays that it is made of, and has
  -- the initial state.
  pub bridge_new-Valid :
      (state : State) (main_contract : MainContract) (side_contract : SideContract) (b : Running)
      → state.last_main_to_side_sign_at_block < 2 ^ 64
      → state.last_side_to_main_sign_at_block < 2 ^ 64
      → state.last_side_to_main_signatures_at_block < 2 ^ 64
      → new state main_contract side_contract ≡ some b
      → Valid main_contract side_contract b × (b.state ≡ state)
  unfolding new main_to_side_log_stream side_to_main_sign_log_stream
      side_to_main_signatures_log_stream
  bridge_new-Valid state main_contract side_contract b f g h e =
      assemble-Valid state main_contract side_contract b _ _ _
        (main_to_side_log_stream w be abi main_contract state.last_main_to_side_sign_at_block)
        (side_to_main_sign_log_stream w be abi side_contract state.last_side_to_main_sign_at_block)
        (side_to_main_signatures_log_stream w be abi side_contract
          state.last_side_to_main_signatures_at_block main_contract.authority_address)
        e refl refl refl (refl, f) (refl, g) (refl, h)
