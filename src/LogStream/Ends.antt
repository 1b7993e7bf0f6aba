-- ===== src/LogStream/Ends.antt =====
-- Every poll of `LogStream` ends (bridge/src/log_stream.rs).
use parity_bridge.Base.{ℕ, ◌<◌, Option, none, some, List, arith}
use parity_bridge.Async.{Poll, ready, not_ready, failed, panicked, out_of_rounds, Flow}
use parity_bridge.Async.Spend.{Spends, FlowSpends, loop-Spends}
use parity_bridge.Error.{Error}
use parity_bridge.Web3.{Web3, Log, Net}
use parity_bridge.Web3.Finite.{Finite, left, request-le, await-Spends}
use parity_bridge.BlockNumber.Ends.{number_poll-Spends as blocks-Spends}
use parity_bridge.LogStream.{
  State, await_block_number, await_logs, LogStream, Machine, Answer, got_block, on_block_number,
  got_logs, on_logs, dispatch, step, poll, poll_lem,
}

module _ (w : Web3) (fin : Finite w) where
  open w use {World, Fault, Waiting, poll_logs}

  abbrev RoundSpends : ℕ → Flow (Answer w) × Machine w → Type 0
  RoundSpends before r = FlowSpends before r.0 (left w fin r.1.1)

  block-Spends :
      (before : ℕ) (p : Poll (Error Fault) (Option ℕ)) (m : Machine w)
      → Spends before p (left w fin m.1)
      → RoundSpends before (got_block w p m)
  unfolding got_block
  block-Spends before (ready none) m h = h
  block-Spends before (ready (some n)) m h = omega (arith, request-le w fin)
  block-Spends before not_ready m h = h
  block-Spends before (failed e) m h = h
  block-Spends before panicked m h = h
  block-Spends before out_of_rounds m h = h

  logs-Spends :
      (before from to : ℕ) (p : Poll (Error Fault) (List Log)) (m : Machine w)
      → Spends before p (left w fin m.1)
      → RoundSpends before (got_logs w from to p m)
  unfolding got_logs
  logs-Spends before from to (ready found) m h = h
  logs-Spends before from to not_ready m h = h
  logs-Spends before from to (failed e) m h = h
  logs-Spends before from to panicked m h = h
  logs-Spends before from to out_of_rounds m h = h

  dispatch-Spends :
      (rounds : ℕ) (s : State w) (m : Machine w)
      → left w fin m.1 < rounds
      → RoundSpends (left w fin m.1) (dispatch w rounds s m)
  unfolding dispatch on_block_number on_logs
  dispatch-Spends rounds await_block_number m h =
      block-Spends (left w fin m.1) _ _ (blocks-Spends w fin rounds m.0.block_number_stream m.1 h)
  dispatch-Spends rounds (await_logs from to f) m h =
      logs-Spends (left w fin m.1) from to _ _
        (await-Spends w fin poll_logs f m.1 (fin.logs_spends f m.1.world))

  step-Spends :
      (rounds : ℕ) (m : Machine w)
      → left w fin m.1 < rounds
      → RoundSpends (left w fin m.1) (step w rounds m)
  unfolding step
  step-Spends rounds m h = dispatch-Spends rounds m.0.state m h

  -- Where only finitely many answers come in during a poll, the loops of the poll end, and a poll
  -- that yields a range has used up an answer.
  pub range_poll-Spends :
      (rounds : ℕ) (s : LogStream w) (net : Net World)
      → left w fin net < rounds
      → let (p, (_, net')) = poll w rounds (s, net) in Spends (left w fin net) p (left w fin net')
  range_poll-Spends rounds s net h = rw (poll_lem w rounds (s, net)) (
      loop-Spends (λ m. left w fin m.1) rounds (step w rounds) (step-Spends rounds) rounds (s, net)
        h h)
