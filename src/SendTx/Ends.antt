-- ===== src/SendTx/Ends.antt =====
-- Every poll of `SendTransactionWithReceipt` ends (bridge/src/send_tx_with_receipt.rs).
use parity_bridge.Base.{ℕ, ◌≤◌, ◌<◌, Option, none, some, arith}
use parity_bridge.Async.{Poll, ready, not_ready, failed, panicked, out_of_rounds, Flow}
use parity_bridge.Async.Spend.{Spends, FlowSpends, loop-Spends}
use parity_bridge.Error.{Error}
use parity_bridge.Web3.{Web3, Net, TransactionRequest, send_transaction}
use parity_bridge.Web3.Finite.{Finite, left, request-le, await-Spends}
use parity_bridge.SendTx.Inner as Inner
use parity_bridge.SendTx.Inner.Ends.{receipt_poll-Spends}
use parity_bridge.SendTx.{
  State, await_block_number, await_receipt, SendTransactionWithReceipt, Machine, Answer, on_number,
  got_number, on_block_number, on_receipt, dispatch, step, poll, poll_lem,
}

module _ (w : Web3) (fin : Finite w) where
  open w use {World, Fault, Waiting, poll_number}

  abbrev RoundSpends : ℕ → Flow (Answer w) × Machine w → Type 0
  RoundSpends before r = FlowSpends before r.0 (left w fin r.1.1)

  new-le :
      (options : Inner.SendTransactionWithReceiptOptions) (net : Net World)
      → left w fin (Inner.new w options net).1 ≤ left w fin net
  unfolding Inner.new
  new-le options net =
      request-le w fin options.transport (send_transaction options.transaction)
        options.request_timeout net

  on_number-Spends :
      (before : ℕ) (f : Waiting) (t : Option TransactionRequest) (n : ℕ) (m : Machine w)
      → left w fin m.1 < before
      → RoundSpends before (on_number w f t n m)
  unfolding on_number
  on_number-Spends before f none n m h = omega arith
  on_number-Spends before f (some t) n m h = ground (
    arith,
    new-le
        (record {
          transport = m.0.transport;
          request_timeout = m.0.request_timeout;
          poll_interval = m.0.poll_interval;
          confirmations = m.0.confirmations;
          transaction = t;
          after = n;
        })
        m.1,
  )

  number-Spends :
      (before : ℕ) (f : Waiting) (t : Option TransactionRequest) (p : Poll (Error Fault) ℕ)
      (m : Machine w)
      → Spends before p (left w fin m.1)
      → RoundSpends before (got_number w f t p m)
  unfolding got_number
  number-Spends before f t (ready n) m h = on_number-Spends before f t n m h
  number-Spends before f t not_ready m h = h
  number-Spends before f t (failed e) m h = h
  number-Spends before f t panicked m h = h
  number-Spends before f t out_of_rounds m h = h

  dispatch-Spends :
      (rounds : ℕ) (s : State w) (m : Machine w)
      → left w fin m.1 < rounds
      → RoundSpends (left w fin m.1) (dispatch w rounds s m)
  unfolding dispatch on_block_number on_receipt
  dispatch-Spends rounds (await_block_number f t) m h =
      number-Spends (left w fin m.1) _ t _ _
        (await-Spends w fin poll_number f m.1 (fin.number_spends f m.1.world))
  dispatch-Spends rounds (await_receipt inner) m h = receipt_poll-Spends w fin rounds inner m.1 h

  step-Spends :
      (rounds : ℕ) (m : Machine w)
      → left w fin m.1 < rounds
      → RoundSpends (left w fin m.1) (step w rounds m)
  unfolding step
  step-Spends rounds m h = dispatch-Spends rounds m.0.state m h

  -- Where only finitely many answers come in during a poll, the loops of the poll end, and a poll
  -- that yields a receipt has used up an answer.
  pub sent_poll-Spends :
      (rounds : ℕ) (s : SendTransactionWithReceipt w) (net : Net World)
      → left w fin net < rounds
      → let (p, (_, net')) = poll w rounds (s, net) in Spends (left w fin net) p (left w fin net')
  sent_poll-Spends rounds s net h = rw (poll_lem w rounds (s, net)) (
      loop-Spends (λ m. left w fin m.1) rounds (step w rounds) (step-Spends rounds) rounds (s, net)
        h h)
