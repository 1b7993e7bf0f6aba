-- ===== src/SendTx/Inner/Ends.antt =====
-- Every poll of the inner `SendTransactionWithReceipt` ends (bridge/src/send_tx_with_receipt.rs).
use parity_bridge.Base.{ℕ, ◌<◌, Option, none, some, arith}
use parity_bridge.Base.Bytes.{Bytes}
use parity_bridge.Async.{Poll, ready, not_ready, failed, panicked, out_of_rounds, Flow, again}
use parity_bridge.Async.Spend.{Spends, FlowSpends, loop-Spends}
use parity_bridge.Error.{Error}
use parity_bridge.Web3.{Web3, Net, TransactionReceipt, transaction_receipt}
use parity_bridge.Web3.Finite.{Finite, left, request-le, await-Spends}
use parity_bridge.BlockNumber.Ends.{number_poll-Spends as blocks-Spends}
use parity_bridge.SendTx.Inner.{
  State, await_send_transaction, await_block_number, await_transaction_receipt,
  SendTransactionWithReceipt, Machine, Answer, got_hash, on_send, got_block, on_block_number,
  on_mined, got_receipt, on_receipt, dispatch, step, poll, poll_lem,
}

module _ (w : Web3) (fin : Finite w) where
  open w use {World, Fault, Waiting, poll_hash, poll_receipt}

  abbrev RoundSpends : ℕ → Flow (Answer w) × Machine w → Type 0
  RoundSpends before r = FlowSpends before r.0 (left w fin r.1.1)

  hash-Spends :
      (before : ℕ) (p : Poll (Error Fault) Bytes) (m : Machine w)
      → Spends before p (left w fin m.1)
      → RoundSpends before (got_hash w p m)
  unfolding got_hash
  hash-Spends before (ready hash) m h = h
  hash-Spends before not_ready m h = h
  hash-Spends before (failed e) m h = h
  hash-Spends before panicked m h = h
  hash-Spends before out_of_rounds m h = h

  block-Spends :
      (before : ℕ) (hash : Bytes) (p : Poll (Error Fault) (Option ℕ)) (m : Machine w)
      → Spends before p (left w fin m.1)
      → RoundSpends before (got_block w hash p m)
  unfolding got_block
  block-Spends before hash (ready none) m h = omega arith
  block-Spends before hash (ready (some n)) m h =
      omega
        (arith, request-le w fin m.0.transport (transaction_receipt hash) m.0.request_timeout m.1)
  block-Spends before hash not_ready m h = h
  block-Spends before hash (failed e) m h = h
  block-Spends before hash panicked m h = h
  block-Spends before hash out_of_rounds m h = h

  mined-Spends :
      (before : ℕ) (hash : Bytes) (last n : ℕ) (r : TransactionReceipt) (m : Machine w)
      → left w fin m.1 < before
      → RoundSpends before (on_mined w hash last r n m)
  unfolding on_mined
  mined-Spends before hash last n r m h = ground arith

  found-Spends :
      (before : ℕ) (hash : Bytes) (last : ℕ) (r : TransactionReceipt) (m : Machine w)
      (block : Option ℕ)
      → left w fin m.1 < before
      → RoundSpends before (elim block [
        | none ↦ (again, (record m.0 { state = await_block_number hash }, m.1))
        | some n ↦ on_mined w hash last r n m
      ])
  found-Spends before hash last r m none h = h
  found-Spends before hash last r m (some n) h = mined-Spends before hash last n r m h

  receipt-Spends :
      (before : ℕ) (hash : Bytes) (last : ℕ) (p : Poll (Error Fault) (Option TransactionReceipt))
      (m : Machine w)
      → Spends before p (left w fin m.1)
      → RoundSpends before (got_receipt w hash last p m)
  unfolding got_receipt
  receipt-Spends before hash last (ready none) m h = h
  receipt-Spends before hash last (ready (some r)) m h =
      found-Spends before hash last r m r.block_number h
  receipt-Spends before hash last not_ready m h = h
  receipt-Spends before hash last (failed e) m h = h
  receipt-Spends before hash last panicked m h = h
  receipt-Spends before hash last out_of_rounds m h = h

  dispatch-Spends :
      (rounds : ℕ) (s : State w) (m : Machine w)
      → left w fin m.1 < rounds
      → RoundSpends (left w fin m.1) (dispatch w rounds s m)
  unfolding dispatch on_send on_block_number on_receipt
  dispatch-Spends rounds (await_send_transaction f) m h =
      hash-Spends (left w fin m.1) _ _
        (await-Spends w fin poll_hash f m.1 (fin.hash_spends f m.1.world))
  dispatch-Spends rounds (await_block_number hash) m h =
      block-Spends (left w fin m.1) hash _ _
        (blocks-Spends w fin rounds m.0.block_number_stream m.1 h)
  dispatch-Spends rounds (await_transaction_receipt f hash last) m h =
      receipt-Spends (left w fin m.1) hash last _ _
        (await-Spends w fin poll_receipt f m.1 (fin.receipt_spends f m.1.world))

  step-Spends :
      (rounds : ℕ) (m : Machine w)
      → left w fin m.1 < rounds
      → RoundSpends (left w fin m.1) (step w rounds m)
  unfolding step
  step-Spends rounds m h = dispatch-Spends rounds m.0.state m h

  -- Where only finitely many answers come in during a poll, the loops of the poll end, and a poll
  -- that yields a receipt has used up an answer.
  pub receipt_poll-Spends :
      (rounds : ℕ) (s : SendTransactionWithReceipt w) (net : Net World)
      → left w fin net < rounds
      → let (p, (_, net')) = poll w rounds (s, net) in Spends (left w fin net) p (left w fin net')
  receipt_poll-Spends rounds s net h = rw (poll_lem w rounds (s, net)) (
      loop-Spends (λ m. left w fin m.1) rounds (step w rounds) (step-Spends rounds) rounds (s, net)
        h h)
