-- ===== src/Deploy/Rounds/Ends.antt =====
-- Every poll of a deployment ends (bridge/src/deploy.rs).
use parity_bridge.Base.{ℕ, ◌≤◌, ◌<◌, ◌≡◌, Option, none, some, arith}
use parity_bridge.Base.Bytes.{Bytes}
use parity_bridge.Async.{
  Poll, ready, not_ready, failed, panicked, out_of_rounds, Flow, done, again, loop,
}
use parity_bridge.Async.Spend.{Spends}
use parity_bridge.Async.Ending.{Ends, RankedEnds, ranked-Ends, Ends-ne-out_of_rounds}
use parity_bridge.Async.Loop.{loop-enough}
use parity_bridge.Error.{Error}
use parity_bridge.Web3.{Web3, Net, TransactionReceipt, block_number}
use parity_bridge.Web3.Finite.{Finite, left, request-le}
use parity_bridge.SendTx as SendTx
use parity_bridge.SendTx.Ends.{sent_poll-Spends}
use parity_bridge.Deploy.Contract.{DeployedContract}
use parity_bridge.Deploy.Rounds.{
  DeployState, not_deployed, deploying, deployed, Plan, Machine, Answer, made, got_receipt,
  on_deploying, on_not_deployed, dispatch, step, poll, poll_lem,
}

module _ (w : Web3) (to_hex : Bytes → Bytes) (plan : Plan) (fin : Finite w) where
  open w use {World, Fault}

  -- The number of rounds that may follow.
  abbrev rank : DeployState w → ℕ
  rank not_deployed = 2
  rank (deploying payload future) = 1
  rank (deployed c) = 0

  abbrev RoundEnds : ℕ → ℕ → Flow (Answer w to_hex plan) × Machine w to_hex plan → Type 0
  RoundEnds before ranked r = RankedEnds before ranked r.0 (left w fin r.1.1) (rank r.1.0)

  sent-le :
      (options : SendTx.SendTransactionWithReceiptOptions) (net : Net World)
      → left w fin (SendTx.new w options net).1 ≤ left w fin net
  unfolding SendTx.new
  sent-le options net = request-le w fin options.transport block_number options.request_timeout net

  made-Ends :
      (before : ℕ) (m : Machine w to_hex plan) (c : Option DeployedContract)
      → left w fin m.1 < before
      → RoundEnds before 1
          (elim c [ none ↦ (done panicked, m) | some contract ↦ (again, (deployed contract, m.1)) ])
  made-Ends before m none h = omega arith
  made-Ends before m (some c) h = omega arith

  receipt-Ends :
      (before : ℕ) (payload : Bytes) (p : Poll (Error Fault) TransactionReceipt)
      (m : Machine w to_hex plan)
      → Spends before p (left w fin m.1)
      → RoundEnds before 1 (got_receipt w to_hex plan payload p m)
  unfolding got_receipt
  receipt-Ends before payload (ready r) m h = made-Ends before m (made w to_hex plan payload r) h
  receipt-Ends before payload not_ready m h = h
  receipt-Ends before payload (failed e) m h = h
  receipt-Ends before payload panicked m h = h
  receipt-Ends before payload out_of_rounds m h = h

  dispatch-Ends :
      (rounds : ℕ) (st : DeployState w) (net : Net World)
      → left w fin net < rounds
      → RoundEnds (left w fin net) (rank st) (dispatch w to_hex plan rounds st (st, net))
  unfolding dispatch on_not_deployed on_deploying
  dispatch-Ends rounds not_deployed net h = (sent-le plan.options net, omega arith)
  dispatch-Ends rounds (deploying payload future) net h =
      receipt-Ends (left w fin net) payload _ _ (sent_poll-Spends w fin rounds future net h)
  dispatch-Ends rounds (deployed c) net h = omega arith

  step-Ends :
      (rounds : ℕ) (m : Machine w to_hex plan)
      → left w fin m.1 < rounds
      → RoundEnds (left w fin m.1) (rank m.0) (step w to_hex plan rounds m)
  unfolding step
  step-Ends rounds (st, net) h = dispatch-Ends rounds st net h

  -- The rounds that are given are those of the futures and those of the poll itself.
  rounds-Ends :
      (rounds n : ℕ) (st : DeployState w) (net : Net World)
      → 2 < n
      → left w fin net < rounds
      → let (p, (_, net')) = loop n (step w to_hex plan rounds) (st, net) in
        Ends (left w fin net) p (left w fin net')
  rounds-Ends rounds n st net h k =
      ranked-Ends (λ m. left w fin m.1) (λ m. rank m.0) rounds (step w to_hex plan rounds)
        (step-Ends rounds) n (st, net) (rank-lt st) k
    where
      rank-lt : (st : DeployState w) → rank st < n
      rank-lt not_deployed = h
      rank-lt (deploying payload future) = omega arith
      rank-lt (deployed c) = omega arith

  -- Where the rounds are three or more, and more than the answers that come in during a poll, the
  -- poll ends and is over after at most three rounds of its loop: it is what three rounds make of
  -- the deployment.
  pub deploy_poll-Ends :
      (rounds : ℕ) (st : DeployState w) (net : Net World)
      → 2 < rounds
      → left w fin net < rounds
      → let (p, (_, net')) = poll w to_hex plan rounds (st, net) in
        Ends (left w fin net) p (left w fin net')
        × (poll w to_hex plan rounds (st, net) ≡ loop 3 (step w to_hex plan rounds) (st, net))
  deploy_poll-Ends rounds st net h k =
      let three = rounds-Ends rounds 3 st net (omega arith) k in
      let r = loop 3 (step w to_hex plan rounds) (st, net) in
      rw (poll_lem w to_hex plan rounds (st, net)) (
        rounds-Ends rounds rounds st net h k,
        loop-enough (step w to_hex plan rounds) rounds 3 (st, net) (omega arith)
            (Ends-ne-out_of_rounds (left w fin net) r.0 (left w fin r.1.1) three),
      )
