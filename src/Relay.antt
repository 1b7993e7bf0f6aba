-- ===== src/Relay.antt =====
-- `RelayStream` of bridge/src/relay_stream.rs: makes a relay future of every log, and yields the
-- block numbers in whose order the futures complete.
pub mod Inv
pub mod Logs
pub mod Ends
use parity_bridge.Base.{
  ℕ, ◌≡◌, refl, Option, none, some, Bool, true, false, List, [], ◌∷◌, is_some, if◌then◌else◌,
}
use parity_bridge.Async.{
  Poll, ready, not_ready, panicked, map_err, Flow, done, again, try_maybe_stream, loop,
}
use parity_bridge.Error.{Error, chained, text}
use parity_bridge.Web3.{Log}
use parity_bridge.LogStream.{LogsInBlockRange}
use parity_bridge.Ordered
use parity_bridge.Ordered.{OrderedStream}

-- The trait `LogToFuture` with the trait `Future` of the futures that it makes. The first answers
-- `none` where it panics.
pub record LogToFuture (W E F A : Type 0) : Type 0 where
  pub log_to_future : Log → W → Option F × W
  pub poll_future : F → W → Poll E A × F × W

pub record RelayStream (S F A : Type 0) : Type 0 where
  pub stream_of_logs : S
  pub ordered_stream : OrderedStream F A

unfoldable pub new : {S F A : Type 0} → S → RelayStream S F A
unfolding Ordered.new
new stream_of_logs = record { stream_of_logs = stream_of_logs; ordered_stream = Ordered.new }

module _ {W X S F A : Type 0} (poll_logs : S → W → Poll (Error X) (Option LogsInBlockRange) × S × W)
    (relay : LogToFuture W (Error X) F A) where
  abbrev pub Machine : Type 0
  Machine = RelayStream S F A × W

  abbrev pub Answer : Type 0
  Answer = Poll (Error X) (Option ℕ)

  -- The loop over the logs of a range. `false` says that one of them made `log_to_future` panic.
  pub insert_all : ℕ → List Log → OrderedStream F A → W → Bool × OrderedStream F A × W
  insert_all to [] o w = (true, o, w)
  insert_all to (log ∷ logs) o w =
      let (relay_future, w') = relay.log_to_future log w in
      elim relay_future [
        | none ↦ (false, o, w')
        | some f ↦ insert_all to logs (Ordered.insert to f o) w'
      ]

  -- `has_logs` is `maybe_logs_in_block_range.is_some()`
  pub got_block : Bool → Poll (Error X) (Option (ℕ × A)) → Machine → Flow Answer × Machine
  got_block has_logs p m =
      try_maybe_stream (map_err (chained (text "RelayStream: relaying logs failed")) p) m
        λ maybe_block. elim maybe_block [
          | some (fully_relayed_until_block, _) ↦ (done (ready (some fully_relayed_until_block)), m)
          | none ↦ if has_logs then (again, m) else (done not_ready, m)
        ]

  pub on_ordered : Bool → Machine → Flow Answer × Machine
  on_ordered has_logs (s, w) =
      let (p, o, w') = Ordered.poll relay.poll_future s.ordered_stream w in
      got_block has_logs p (record s { ordered_stream = o }, w')

  pub got_range : Option LogsInBlockRange → Machine → Flow Answer × Machine
  got_range none m = on_ordered false m
  got_range (some range) (s, w) =
      let (inserted, o, w') = insert_all range.to range.logs s.ordered_stream w in
      let m' : Machine = (record s { ordered_stream = o }, w') in
      if inserted then on_ordered true m' else (done panicked, m')

  pub got_logs : Poll (Error X) (Option LogsInBlockRange) → Machine → Flow Answer × Machine
  got_logs p m =
      try_maybe_stream (map_err (chained (text "RelayStream: fetching logs failed")) p) m
        λ maybe_range. got_range maybe_range m

  -- One round of the loop.
  pub step : Machine → Flow Answer × Machine
  step (s, w) =
      let (p, logs, w') = poll_logs s.stream_of_logs w in
      got_logs p (record s { stream_of_logs = logs }, w')

  unfoldable pub poll : ℕ → Machine → Answer × Machine
  unfolding step got_logs got_range insert_all on_ordered got_block loop Ordered.insert Ordered.poll
      Ordered.scan Ordered.advance Ordered.visit
  poll rounds m = loop rounds step m

  pub poll_lem : (rounds : ℕ) (m : Machine) → poll rounds m ≡ loop rounds step m
  unfolding poll
  poll_lem rounds m = refl
