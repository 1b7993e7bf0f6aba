-- ===== src/SendTx.antt =====
-- `SendTransactionWithReceipt` of bridge/src/send_tx_with_receipt.rs: looks up the last block, and
-- then sends the transaction and waits for its receipt from that block on.
pub mod Inner
pub mod Ends
pub mod Trace
use parity_bridge.Base.{
  ℕ, ◌^◌, ◌≡◌, refl, Option, none, some, Bool, true, false, ltb, if◌then◌else◌,
}
use parity_bridge.Async.{Poll, ready, panicked, Flow, done, again, map_err, try_ready, loop}
use parity_bridge.Error.{Error, chained, text}
use parity_bridge.Web3.{
  Web3, Chain, Net, TransactionRequest, TransactionReceipt, block_number, request, await,
}
use parity_bridge.SendTx.Inner as Inner

pub record SendTransactionWithReceiptOptions : Type 0 where
  pub transport : Chain
  pub request_timeout : ℕ
  pub poll_interval : ℕ
  pub confirmations : ℕ
  pub transaction : TransactionRequest

pub data State (w : Web3) : Type 0 where
  await_block_number : w.Waiting → Option TransactionRequest → State w
  await_receipt : Inner.SendTransactionWithReceipt w → State w

pub record SendTransactionWithReceipt (w : Web3) : Type 0 where
  pub request_timeout : ℕ
  pub poll_interval : ℕ
  pub transport : Chain
  pub state : State w
  pub confirmations : ℕ

module _ (w : Web3) where
  open w use {World, Fault, Waiting, poll_number}

  unfoldable pub new :
      SendTransactionWithReceiptOptions → Net World → SendTransactionWithReceipt w × Net World
  unfolding request
  new options net =
      let (future, net') = request w options.transport block_number options.request_timeout net in
      (
        record {
          request_timeout = options.request_timeout;
          poll_interval = options.poll_interval;
          transport = options.transport;
          state = await_block_number future (some options.transaction);
          confirmations = options.confirmations;
        },
        net',
      )

  abbrev pub Machine : Type 0
  Machine = SendTransactionWithReceipt w × Net World

  abbrev pub Answer : Type 0
  Answer = Poll (Error Fault) TransactionReceipt

  -- `transaction.take().expect(_)` and `as_u64` panic; the transaction is taken in either case.
  pub on_number : Waiting → Option TransactionRequest → ℕ → Machine → Flow Answer × Machine
  on_number future none n (s, net) = (done panicked, (s, net))
  on_number future (some transaction) n (s, net) =
      let (inner, net') =
        Inner.new w
          (record {
            transport = s.transport;
            request_timeout = s.request_timeout;
            poll_interval = s.poll_interval;
            confirmations = s.confirmations;
            transaction = transaction;
            after = n;
          })
          net in
      if ltb n (2 ^ 64)
      then (again, (record s { state = await_receipt inner }, net'))
      else (done panicked, (record s { state = await_block_number future none }, net))

  pub got_number :
      Waiting → Option TransactionRequest → Poll (Error Fault) ℕ → Machine → Flow Answer × Machine
  got_number future transaction p m =
      try_ready
        (map_err (chained (text "SendTransactionWithReceipt: fetching last block number failed")) p)
        m λ n. on_number future transaction n m

  pub on_block_number : Waiting → Option TransactionRequest → Machine → Flow Answer × Machine
  on_block_number future transaction (s, net) =
      let (p, future', net') = await w poll_number future net in
      got_number future' transaction p
        (record s { state = await_block_number future' transaction }, net')

  pub on_receipt : ℕ → Inner.SendTransactionWithReceipt w → Machine → Flow Answer × Machine
  on_receipt rounds inner (s, net) =
      let (p, (inner', net')) = Inner.poll w rounds (inner, net) in
      (done p, (record s { state = await_receipt inner' }, net'))

  pub dispatch : ℕ → State w → Machine → Flow Answer × Machine
  dispatch rounds (await_block_number future transaction) m = on_block_number future transaction m
  dispatch rounds (await_receipt inner) m = on_receipt rounds inner m

  -- One round of the loop. `rounds` bounds the loops of the inner future.
  pub step : ℕ → Machine → Flow Answer × Machine
  step rounds m = dispatch rounds m.0.state m

  unfoldable pub poll : ℕ → Machine → Answer × Machine
  unfolding loop step dispatch on_block_number got_number on_number on_receipt request await
      Inner.new Inner.poll
  poll rounds m = loop rounds (step rounds) m

  pub poll_lem : (rounds : ℕ) (m : Machine) → poll rounds m ≡ loop rounds (step rounds) m
  unfolding poll
  poll_lem rounds m = refl
