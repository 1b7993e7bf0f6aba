-- ===== src/SendTx/Inner/Quiet.antt =====
-- A poll of the inner `SendTransactionWithReceipt` sends no transaction: `new` has sent it
-- (bridge/src/send_tx_with_receipt.rs).
use parity_bridge.Base.{ℕ, ◌≡◌, ◌∙◌, refl, Option, none, some, List, arith}
use parity_bridge.Base.Bytes.{Bytes}
use parity_bridge.Async.{Poll, ready, Flow, again}
use parity_bridge.Async.Loop.{loop_holds}
use parity_bridge.Error.{Error}
use parity_bridge.Web3.{
  Web3, Chain, Net, TransactionRequest, TransactionReceipt, transaction_receipt, await,
}
use parity_bridge.Web3.Sent.{transactions, request-quiet}
use parity_bridge.BlockNumber.Quiet.{number_poll-IsQuiet}
use parity_bridge.SendTx.Inner.{
  State, await_send_transaction, await_block_number, await_transaction_receipt,
  SendTransactionWithReceipt, Machine, Answer, got_hash, on_send, got_block, on_block_number,
  on_mined, got_receipt, on_receipt, dispatch, step, poll, poll_lem,
}

module _ (w : Web3) (before : List (Chain × TransactionRequest)) where
  open w use {World, Fault, Waiting}

  -- No transaction has been sent but those before.
  abbrev IsQuiet : Machine w → Type 0
  IsQuiet m = transactions m.1.sent ≡ before

  hash-IsQuiet :
      (p : Poll (Error Fault) Bytes) (m : Machine w) → IsQuiet m → IsQuiet (got_hash w p m).1
  unfolding got_hash
  hash-IsQuiet (ready hash) m h = h
  hash-IsQuiet _ m h = h

  block-IsQuiet :
      (hash : Bytes) (p : Poll (Error Fault) (Option ℕ)) (m : Machine w)
      → IsQuiet m
      → IsQuiet (got_block w hash p m).1
  unfolding got_block
  block-IsQuiet hash (ready (some n)) m h =
      request-quiet w m.0.transport (transaction_receipt hash) m.0.request_timeout m.1 refl ∙ h
  block-IsQuiet hash (ready none) m h = h
  block-IsQuiet hash _ m h = h

  mined-IsQuiet :
      (hash : Bytes) (last n : ℕ) (r : TransactionReceipt) (m : Machine w)
      → IsQuiet m
      → IsQuiet (on_mined w hash last r n m).1
  unfolding on_mined
  mined-IsQuiet hash last n r m h = ground arith

  found-IsQuiet :
      (hash : Bytes) (last : ℕ) (r : TransactionReceipt) (m : Machine w) (block : Option ℕ)
      → IsQuiet m
      → let next : Flow (Answer w) × Machine w = elim block [
        | none ↦ (again, (record m.0 { state = await_block_number hash }, m.1))
        | some n ↦ on_mined w hash last r n m
      ] in
        IsQuiet next.1
  found-IsQuiet hash last r m none h = h
  found-IsQuiet hash last r m (some n) h = mined-IsQuiet hash last n r m h

  receipt-IsQuiet :
      (hash : Bytes) (last : ℕ) (p : Poll (Error Fault) (Option TransactionReceipt)) (m : Machine w)
      → IsQuiet m
      → IsQuiet (got_receipt w hash last p m).1
  unfolding got_receipt
  receipt-IsQuiet hash last (ready none) m h = h
  receipt-IsQuiet hash last (ready (some r)) m h = found-IsQuiet hash last r m r.block_number h
  receipt-IsQuiet hash last _ m h = h

  dispatch-IsQuiet :
      (rounds : ℕ) (s : State w) (m : Machine w) → IsQuiet m → IsQuiet (dispatch w rounds s m).1
  unfolding dispatch on_send on_block_number on_receipt await
  dispatch-IsQuiet rounds (await_send_transaction f) m h = hash-IsQuiet _ _ h
  dispatch-IsQuiet rounds (await_block_number hash) m h =
      block-IsQuiet hash _ _ (number_poll-IsQuiet w before rounds m.0.block_number_stream m.1 h)
  dispatch-IsQuiet rounds (await_transaction_receipt f hash last) m h =
      receipt-IsQuiet hash last _ _ h

  step-IsQuiet : (rounds : ℕ) (m : Machine w) → IsQuiet m → IsQuiet (step w rounds m).1
  unfolding step
  step-IsQuiet rounds m h = dispatch-IsQuiet rounds m.0.state m h

  pub receipt_poll-IsQuiet :
      (rounds : ℕ) (s : SendTransactionWithReceipt w) (net : Net World)
      → transactions net.sent ≡ before
      → transactions (poll w rounds (s, net)).1.1.sent ≡ before
  receipt_poll-IsQuiet rounds s net h =
      rw (poll_lem w rounds (s, net))
        (loop_holds IsQuiet (step w rounds) (step-IsQuiet rounds) rounds (s, net) h)
