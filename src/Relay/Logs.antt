-- ===== src/Relay/Logs.antt =====
-- `LogStream` as the stream of ranges below `RelayStream` (bridge/src/log_stream.rs,
-- bridge/src/relay_stream.rs).
use parity_bridge.Base.{ℕ, ◌≡◌, ◌≢◌, Option, some, arith}
use parity_bridge.Async.{Poll, ready, not_ready}
use parity_bridge.Error.{Error}
use parity_bridge.Web3.{Web3, Net}
use parity_bridge.LogStream
use parity_bridge.LogStream.{LogStream, LogsInBlockRange}
use parity_bridge.LogStream.Ranges.{IsValid, range_poll-Outcome}
use parity_bridge.Relay.Inv.{RangeSource}

pub apart : {E A : Type 0} (p : Poll E A) → p ≡ not_ready → (a : A) → p ≢ ready a
apart p e a = λ x. cc

module _ (w : Web3) (rounds : ℕ) where
  open w use {World, Fault}

  unfoldable pub poll_logs :
      LogStream w
      → Net World
      → Poll (Error Fault) (Option LogsInBlockRange) × LogStream w × Net World
  unfolding LogStream.poll
  poll_logs s net = let (p, m) = LogStream.poll w rounds (s, net) in (p, m.0, m.1)

  unfoldable pub log_ranges : RangeSource poll_logs
  unfolding poll_logs
  log_ranges = record {
    IsValid = λ s. IsValid w s;
    position = λ s. s.last_checked_block;
    keeps_valid = λ s net v. (range_poll-Outcome w rounds s net v).valid;
    moves = λ s net r v e.
        let c = (range_poll-Outcome w rounds s net v).checks r e in
        (omega (arith, c.adjacent, c.nonempty), c.checked);
    rests = λ s net v e. (range_poll-Outcome w rounds s net v).stays (λ r. apart _ e (some r));
  }
