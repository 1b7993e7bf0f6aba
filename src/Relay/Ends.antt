-- ===== src/Relay/Ends.antt =====
-- Every poll of `RelayStream` ends (bridge/src/relay_stream.rs): it goes round again only with a new
-- range of logs.
use parity_bridge.Base.{
  ℕ, ◌≤◌, ◌<◌, Option, none, some, Bool, true, false, List, [], ◌∷◌, if◌then◌else◌, inl, inr,
  Option-cases, arith,
}
use parity_bridge.Async.{Poll, ready, not_ready, failed, panicked, out_of_rounds, Flow, done}
use parity_bridge.Async.Spend.{Spends}
use parity_bridge.Async.Ending.{Ends, FlowEnds, loop-Ends}
use parity_bridge.Error.{Error}
use parity_bridge.Web3.{Log}
use parity_bridge.LogStream.{LogsInBlockRange}
use parity_bridge.Ordered
use parity_bridge.Ordered.{OrderedStream}
use parity_bridge.Ordered.Ends.{poll-Ends as ordered-Ends}
use parity_bridge.Relay.{
  LogToFuture, RelayStream, insert_all, got_block, on_ordered, got_range, got_logs, step, poll,
  poll_lem,
}

-- What the parts of a relay do to the budget: the stream of logs spends, and the futures end.
pub record Thrifty {W X S F A : Type 0}
    (poll_logs : S → W → Poll (Error X) (Option LogsInBlockRange) × S × W)
    (relay : LogToFuture W (Error X) F A) (budget : W → ℕ) (bound : ℕ) : Type 0 where
  pub logs_spend :
      (s : S) (w : W)
      → budget w < bound
      → Spends (budget w) (poll_logs s w).0 (budget (poll_logs s w).2)
  pub makes_le : (log : Log) (w : W) → budget (relay.log_to_future log w).1 ≤ budget w
  pub future_ends :
      (f : F) (w : W) → Ends (budget w) (relay.poll_future f w).0 (budget (relay.poll_future f w).2)

module _ {W X S F A : Type 0} (poll_logs : S → W → Poll (Error X) (Option LogsInBlockRange) × S × W)
    (relay : LogToFuture W (Error X) F A) (budget : W → ℕ) (bound : ℕ)
    (thrifty : Thrifty poll_logs relay budget bound) where
  abbrev RoundEnds : ℕ → Flow (Poll (Error X) (Option ℕ)) × (RelayStream S F A × W) → Type 0
  RoundEnds before r = FlowEnds before r.0 (budget r.1.1)

  insert_all-le :
      (to : ℕ) (logs : List Log) (o : OrderedStream F A) (w : W)
      → budget (insert_all poll_logs relay to logs o w).2 ≤ budget w
  unfolding insert_all
  insert_all-le to [] o w = omega arith
  insert_all-le to (log ∷ logs) o w =
      let (relay_future, w') = relay.log_to_future log w in
      elim (Option-cases relay_future) [
        | inl e ↦ rw (e, insert_all) (thrifty.makes_le log w)
        | inr (f, e) ↦
            rw (e, insert_all)
              (omega
                (arith, thrifty.makes_le log w, insert_all-le to logs (Ordered.insert to f o) w'))
      ]

  -- To go round again, an answer of the stream of logs has been used up.
  abbrev Paid : Bool → ℕ → ℕ → Type 0
  Paid true before middle = middle < before
  Paid false before middle = middle ≤ before

  block-Ends :
      (has_logs : Bool) (before middle : ℕ) (p : Poll (Error X) (Option (ℕ × A)))
      (m : RelayStream S F A × W)
      → Paid has_logs before middle
      → Ends middle p (budget m.1)
      → RoundEnds before (got_block poll_logs relay has_logs p m)
  unfolding got_block
  block-Ends true before middle (ready (some (n, a))) m k h = omega arith
  block-Ends false before middle (ready (some (n, a))) m k h = omega arith
  block-Ends true before middle (ready none) m k h = omega arith
  block-Ends false before middle (ready none) m k h = omega arith
  block-Ends true before middle not_ready m k h = omega arith
  block-Ends false before middle not_ready m k h = omega arith
  block-Ends true before middle (failed x) m k h = omega arith
  block-Ends false before middle (failed x) m k h = omega arith
  block-Ends true before middle panicked m k h = omega arith
  block-Ends false before middle panicked m k h = omega arith
  block-Ends has_logs before middle out_of_rounds m k h = absurd h

  on_ordered-Ends :
      (has_logs : Bool) (before : ℕ) (m : RelayStream S F A × W)
      → Paid has_logs before (budget m.1)
      → RoundEnds before (on_ordered poll_logs relay has_logs m)
  unfolding on_ordered
  on_ordered-Ends has_logs before (s, w) k =
      block-Ends has_logs before (budget w) _ _ k
        (ordered-Ends relay.poll_future budget thrifty.future_ends s.ordered_stream w)

  inserted-Ends :
      (inserted : Bool) (before : ℕ) (m : RelayStream S F A × W)
      → budget m.1 < before
      → RoundEnds before
          (if inserted then on_ordered poll_logs relay true m else (done panicked, m))
  inserted-Ends true before m k = on_ordered-Ends true before m k
  inserted-Ends false before m k = omega arith

  logs-Ends :
      (before : ℕ) (p : Poll (Error X) (Option LogsInBlockRange)) (m : RelayStream S F A × W)
      → Spends before p (budget m.1)
      → RoundEnds before (got_logs poll_logs relay p m)
  unfolding got_logs got_range
  logs-Ends before (ready (some range)) (s, w) h =
      inserted-Ends _ before _ (omega (arith, insert_all-le range.to range.logs s.ordered_stream w))
  logs-Ends before (ready none) m h = omega arith
  logs-Ends before not_ready m h = on_ordered-Ends false before m h
  logs-Ends before (failed x) m h = h
  logs-Ends before panicked m h = h
  logs-Ends before out_of_rounds m h = h

  step-Ends :
      (m : RelayStream S F A × W)
      → budget m.1 < bound
      → RoundEnds (budget m.1) (step poll_logs relay m)
  unfolding step
  step-Ends (s, w) h = logs-Ends (budget w) _ _ (thrifty.logs_spend s.stream_of_logs w h)

  -- Where the stream of logs spends and the futures end, a poll of the relay ends, with more rounds
  -- than there is budget left.
  pub relay_poll-Ends :
      (rounds : ℕ) (s : RelayStream S F A) (w : W)
      → budget w < rounds
      → budget w < bound
      → let (p, (_, w')) = poll poll_logs relay rounds (s, w) in Ends (budget w) p (budget w')
  relay_poll-Ends rounds s w h k =
      rw (poll_lem poll_logs relay rounds (s, w))
        (loop-Ends (λ m. budget m.1) bound (step poll_logs relay) step-Ends rounds (s, w) h k)
