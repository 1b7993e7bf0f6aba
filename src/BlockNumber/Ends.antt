-- ===== src/BlockNumber/Ends.antt =====
-- Every poll of `BlockNumberStream` ends (bridge/src/block_number_stream.rs).
use parity_bridge.Base.{ℕ, ◌<◌, Option, none, some, arith}
use parity_bridge.Async.{Poll, ready, not_ready, failed, panicked, out_of_rounds, Flow}
use parity_bridge.Async.Spend.{Spends, FlowSpends, loop-Spends}
use parity_bridge.Error.{Error}
use parity_bridge.Web3.{Web3, Net, block_number}
use parity_bridge.Web3.Finite.{Finite, left, request-le, await-Spends}
use parity_bridge.BlockNumber.{
  State, await_interval, await_block_number, BlockNumberStream, Machine, on_interval, got_tick,
  on_block_number, got_number, on_number, dispatch, step, poll, poll_lem,
}

module _ (w : Web3) (fin : Finite w) where
  open w use {World, Fault, Waiting, poll_number, poll_interval}

  -- What a round has used up.
  abbrev RoundSpends : ℕ → Flow (Poll (Error Fault) (Option ℕ)) × Machine w → Type 0
  RoundSpends before r = FlowSpends before r.0 (left w fin r.1.1)

  tick-Spends :
      (before : ℕ) (p : Poll Fault (Option (Unit {0}))) (m : Machine w)
      → Spends before p (left w fin m.1)
      → RoundSpends before (got_tick w p m)
  unfolding got_tick
  tick-Spends before (ready none) m h = h
  tick-Spends before (ready (some _)) m h =
      omega (arith, request-le w fin m.0.transport block_number m.0.request_timeout m.1)
  tick-Spends before not_ready m h = h
  tick-Spends before (failed e) m h = h
  tick-Spends before panicked m h = h
  tick-Spends before out_of_rounds m h = h

  on_number-Spends :
      (before n : ℕ) (m : Machine w)
      → left w fin m.1 < before
      → RoundSpends before (on_number w n m)
  unfolding on_number
  on_number-Spends before n m h = ground arith

  number-Spends :
      (before : ℕ) (p : Poll (Error Fault) ℕ) (m : Machine w)
      → Spends before p (left w fin m.1)
      → RoundSpends before (got_number w p m)
  unfolding got_number
  number-Spends before (ready n) m h = on_number-Spends before n m h
  number-Spends before not_ready m h = h
  number-Spends before (failed e) m h = h
  number-Spends before panicked m h = h
  number-Spends before out_of_rounds m h = h

  dispatch-Spends : (s : State w) (m : Machine w) → RoundSpends (left w fin m.1) (dispatch w s m)
  unfolding dispatch on_interval on_block_number
  dispatch-Spends await_interval m =
      tick-Spends (left w fin m.1) _ _ (fin.interval_spends m.0.ticks m.1.world)
  dispatch-Spends (await_block_number f) m =
      number-Spends (left w fin m.1) _ _
        (await-Spends w fin poll_number f m.1 (fin.number_spends f m.1.world))

  step-Spends : (m : Machine w) → RoundSpends (left w fin m.1) (step w m)
  unfolding step
  step-Spends m = dispatch-Spends m.0.state m

  -- Where only finitely many answers come in during a poll, the loop of the poll ends, and a poll
  -- that yields a number has used up an answer.
  pub number_poll-Spends :
      (rounds : ℕ) (b : BlockNumberStream w) (net : Net World)
      → left w fin net < rounds
      → let (p, (_, net')) = poll w rounds (b, net) in Spends (left w fin net) p (left w fin net')
  number_poll-Spends rounds b net h =
      rw (poll_lem w rounds (b, net)) (
        loop-Spends (λ m. left w fin m.1) rounds (step w) (λ m _. step-Spends m) rounds (b, net) h
          h)
