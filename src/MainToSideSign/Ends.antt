-- ===== src/MainToSideSign/Ends.antt =====
-- Every poll of `MainToSideSign` ends (bridge/src/main_to_side_sign.rs).
use parity_bridge.Base.{ℕ, ◌<◌, ◌≡◌, Bool, true, false, arith}
use parity_bridge.Base.Bytes.{Bytes}
use parity_bridge.Async.{Poll, ready, not_ready, failed, panicked, out_of_rounds, Flow, again}
use parity_bridge.Async.Spend.{Spends, FlowSpends, ranked-Spends}
use parity_bridge.Error.{Error}
use parity_bridge.Web3.{Web3, Net}
use parity_bridge.Web3.Finite.{Finite, left, request-le}
use parity_bridge.Contracts.{Contracts}
use parity_bridge.Helpers.{new_transaction}
use parity_bridge.Helpers.Spend.{call-Spends, transaction-Spends}
use parity_bridge.Message.{BigEndian}
use parity_bridge.SideContract.{sign_main_to_side}
use parity_bridge.MainToSideSign.{
  State, await_already_signed, await_tx_sent, MainToSideSign, Machine, Answer, got_signed,
  on_already_signed, got_sent, on_tx_sent, dispatch, step, poll, poll_lem,
}

module _ (w : Web3) (be : BigEndian) (abi : Contracts w.Fault) (fin : Finite w) where
  open w use {World, Fault}

  -- The number of rounds that may follow.
  abbrev rank : State w → ℕ
  rank (await_already_signed future) = 1
  rank (await_tx_sent future) = 0

  abbrev RoundSpends : ℕ → ℕ → Flow (Answer w be abi) × Machine w be abi → Type 0
  RoundSpends before ranked (f, m) =
      FlowSpends before f (left w fin m.1) × (f ≡ again → rank m.0.state < ranked)

  signed-Spends :
      (before : ℕ) (p : Poll (Error Fault) Bool) (m : Machine w be abi)
      → Spends before p (left w fin m.1)
      → RoundSpends before 1 (got_signed w be abi p m)
  unfolding got_signed sign_main_to_side new_transaction
  signed-Spends before (ready true) m h = (h, λ e. cc)
  signed-Spends before (ready false) m h = (omega (arith, request-le w fin), λ e. omega arith)
  signed-Spends before not_ready m h = (h, λ e. cc)
  signed-Spends before (failed e) m h = (h, λ e. cc)
  signed-Spends before panicked m h = (h, λ e. cc)
  signed-Spends before out_of_rounds m h = (h, λ e. cc)

  sent-Spends :
      (before ranked : ℕ) (p : Poll (Error Fault) Bytes) (m : Machine w be abi)
      → Spends before p (left w fin m.1)
      → RoundSpends before ranked (got_sent w be abi p m)
  unfolding got_sent
  sent-Spends before ranked (ready x) m h = (h, λ e. cc)
  sent-Spends before ranked not_ready m h = (h, λ e. cc)
  sent-Spends before ranked (failed e) m h = (h, λ e. cc)
  sent-Spends before ranked panicked m h = (h, λ e. cc)
  sent-Spends before ranked out_of_rounds m h = (h, λ e. cc)

  dispatch-Spends :
      (st : State w) (m : Machine w be abi)
      → RoundSpends (left w fin m.1) (rank st) (dispatch w be abi st m)
  unfolding dispatch on_already_signed on_tx_sent
  dispatch-Spends (await_already_signed future) m =
      signed-Spends _ _ _ (call-Spends w fin future m.1)
  dispatch-Spends (await_tx_sent future) m =
      sent-Spends _ _ _ _ (transaction-Spends w fin future m.1)

  step-Spends :
      (m : Machine w be abi) → RoundSpends (left w fin m.1) (rank m.0.state) (step w be abi m)
  unfolding step
  step-Spends m = dispatch-Spends m.0.state m

  -- A poll is over after at most two rounds, and has used up an answer if it is ready.
  pub deposit_poll-Spends :
      (rounds : ℕ) (s : MainToSideSign w) (net : Net World)
      → 1 < rounds
      → let (p, (_, net')) = poll w be abi rounds (s, net) in
        Spends (left w fin net) p (left w fin net')
  deposit_poll-Spends rounds s net h = rw (poll_lem w be abi rounds (s, net)) (
      ranked-Spends (λ m. left w fin m.1) (λ m. rank m.0.state) (step w be abi)
        (λ m. (step-Spends m).0) (λ m. (step-Spends m).1) rounds (s, net) (rank-lt s.state))
    where
      rank-lt : (st : State w) → rank st < rounds
      rank-lt (await_already_signed future) = h
      rank-lt (await_tx_sent future) = omega arith
