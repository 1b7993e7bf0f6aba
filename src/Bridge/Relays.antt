-- ===== src/Bridge/Relays.antt =====
-- `RelayStream` as a relay of `Bridge` (bridge/src/bridge.rs, bridge/src/relay_stream.rs).
use parity_bridge.Base.{ℕ, Option}
use parity_bridge.Async.{Poll}
use parity_bridge.Error.{Error}
use parity_bridge.LogStream.{LogsInBlockRange}
use parity_bridge.Relay as Relay
use parity_bridge.Relay.{LogToFuture, RelayStream}
use parity_bridge.Relay.Inv.{RangeSource, Holds, relay_poll-After}
use parity_bridge.Bridge.Persist.{Ascends}

module _ {W X S F A : Type 0} (poll_logs : S → W → Poll (Error X) (Option LogsInBlockRange) × S × W)
    (relay : LogToFuture W (Error X) F A) (rounds : ℕ) where
  abbrev pub poll_relay : RelayStream S F A → W → Poll (Error X) (Option ℕ) × RelayStream S F A × W
  poll_relay s w = let (p, m) = Relay.poll poll_logs relay rounds (s, w) in (p, m.0, m.1)

  abbrev pub relay_ascends : RangeSource poll_logs → Ascends poll_relay
  relay_ascends source = record {
    Holds = Holds poll_logs relay source;
    yields = λ last n s w h e. rw e at (relay_poll-After poll_logs relay source rounds last s w h);
    waits = λ last s w h e. rw e at (relay_poll-After poll_logs relay source rounds last s w h);
  }
