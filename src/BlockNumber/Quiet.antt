-- ===== src/BlockNumber/Quiet.antt =====
-- A poll of `BlockNumberStream` sends no transaction (bridge/src/block_number_stream.rs).
use parity_bridge.Base.{ℕ, ◌≡◌, ◌∙◌, refl, Option, none, some, List, arith}
use parity_bridge.Async.{Poll, ready, not_ready, failed, panicked, out_of_rounds}
use parity_bridge.Async.Loop.{loop_holds}
use parity_bridge.Error.{Error}
use parity_bridge.Web3.{Web3, Chain, Net, TransactionRequest, block_number, await}
use parity_bridge.Web3.Sent.{transactions, request-quiet}
use parity_bridge.BlockNumber.{
  State, await_interval, await_block_number, BlockNumberStream, Machine, got_tick, on_interval,
  on_number, got_number, on_block_number, dispatch, step, poll, poll_lem,
}

module _ (w : Web3) (before : List (Chain × TransactionRequest)) where
  open w use {World, Fault, Waiting}

  -- No transaction has been sent but those before.
  abbrev IsQuiet : Machine w → Type 0
  IsQuiet m = transactions m.1.sent ≡ before

  tick-IsQuiet :
      (p : Poll Fault (Option (Unit {0}))) (m : Machine w) → IsQuiet m → IsQuiet (got_tick w p m).1
  unfolding got_tick
  tick-IsQuiet (ready none) m h = h
  tick-IsQuiet (ready (some _)) m h =
      request-quiet w m.0.transport block_number m.0.request_timeout m.1 refl ∙ h
  tick-IsQuiet not_ready m h = h
  tick-IsQuiet (failed e) m h = h
  tick-IsQuiet panicked m h = h
  tick-IsQuiet out_of_rounds m h = h

  on_number-IsQuiet : (n : ℕ) (m : Machine w) → IsQuiet m → IsQuiet (on_number w n m).1
  unfolding on_number
  on_number-IsQuiet n m h = ground arith

  number-IsQuiet :
      (p : Poll (Error Fault) ℕ) (m : Machine w) → IsQuiet m → IsQuiet (got_number w p m).1
  unfolding got_number
  number-IsQuiet (ready n) m h = on_number-IsQuiet n m h
  number-IsQuiet not_ready m h = h
  number-IsQuiet (failed e) m h = h
  number-IsQuiet panicked m h = h
  number-IsQuiet out_of_rounds m h = h

  dispatch-IsQuiet : (s : State w) (m : Machine w) → IsQuiet m → IsQuiet (dispatch w s m).1
  unfolding dispatch on_interval on_block_number await
  dispatch-IsQuiet await_interval m h = tick-IsQuiet _ _ h
  dispatch-IsQuiet (await_block_number f) m h = number-IsQuiet _ _ h

  step-IsQuiet : (m : Machine w) → IsQuiet m → IsQuiet (step w m).1
  unfolding step
  step-IsQuiet m h = dispatch-IsQuiet m.0.state m h

  pub number_poll-IsQuiet :
      (rounds : ℕ) (s : BlockNumberStream w) (net : Net World)
      → transactions net.sent ≡ before
      → transactions (poll w rounds (s, net)).1.1.sent ≡ before
  number_poll-IsQuiet rounds s net h =
      rw (poll_lem w rounds (s, net)) (loop_holds IsQuiet (step w) step-IsQuiet rounds (s, net) h)
