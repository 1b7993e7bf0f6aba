-- ===== src/SendTx/Inner.antt =====
-- The module `inner` of bridge/src/send_tx_with_receipt.rs: sends a transaction, and asks for its
-- receipt at every newly confirmed block until the receipt's block is confirmed.
pub mod Confirmed
pub mod Ends
pub mod Quiet
use parity_bridge.Base.{
  ℕ, ◌^◌, ◌≡◌, refl, Option, none, some, Bool, true, false, ltb, if◌then◌else◌,
}
use parity_bridge.Base.Bytes.{Bytes}
use parity_bridge.Async.{Poll, ready, failed, panicked, Flow, done, again, map_err, try_ready, loop}
use parity_bridge.Error.{Error, msg, chained, text}
use parity_bridge.Web3.{
  Web3, Chain, Net, TransactionRequest, TransactionReceipt, send_transaction, transaction_receipt,
  request, await,
}
use parity_bridge.BlockNumber as BlockNumber
use parity_bridge.BlockNumber.{BlockNumberStream}

pub record SendTransactionWithReceiptOptions : Type 0 where
  pub transport : Chain
  pub request_timeout : ℕ
  pub poll_interval : ℕ
  pub confirmations : ℕ
  pub transaction : TransactionRequest
  pub after : ℕ

pub data State (w : Web3) : Type 0 where
  await_send_transaction : w.Waiting → State w
  await_block_number : Bytes → State w
  await_transaction_receipt : w.Waiting → Bytes → ℕ → State w

pub record SendTransactionWithReceipt (w : Web3) : Type 0 where
  pub transport : Chain
  pub state : State w
  pub block_number_stream : BlockNumberStream w
  pub request_timeout : ℕ

module _ (w : Web3) where
  open w use {World, Fault, Waiting, poll_hash, poll_receipt}

  unfoldable pub new :
      SendTransactionWithReceiptOptions → Net World → SendTransactionWithReceipt w × Net World
  unfolding request BlockNumber.new
  new options net =
      let (future, net') =
        request w options.transport (send_transaction options.transaction) options.request_timeout
          net in
      (
        record {
          transport = options.transport;
          state = await_send_transaction future;
          block_number_stream = BlockNumber.new w (record {
            request_timeout = options.request_timeout;
            poll_interval = options.poll_interval;
            confirmations = options.confirmations;
            transport = options.transport;
            after = options.after;
          });
          request_timeout = options.request_timeout;
        },
        net',
      )

  abbrev pub Machine : Type 0
  Machine = SendTransactionWithReceipt w × Net World

  abbrev pub Answer : Type 0
  Answer = Poll (Error Fault) TransactionReceipt

  pub got_hash : Poll (Error Fault) Bytes → Machine → Flow Answer × Machine
  got_hash p (s, net) =
      try_ready
        (map_err (chained (text "SendTransactionWithReceipt: sending transaction failed")) p)
        (s, net) λ hash. (again, (record s { state = await_block_number hash }, net))

  pub on_send : Waiting → Machine → Flow Answer × Machine
  on_send future (s, net) =
      let (p, future', net') = await w poll_hash future net in
      got_hash p (record s { state = await_send_transaction future' }, net')

  pub got_block : Bytes → Poll (Error Fault) (Option ℕ) → Machine → Flow Answer × Machine
  got_block hash p (s, net) =
      try_ready
        (map_err
          (chained (text "SendTransactionWithReceipt: fetching of last confirmed block failed")) p)
        (s, net)
        λ maybe_block. elim maybe_block [
          | none ↦ (
            done (
                failed (
                  msg
                    (text "SendTransactionWithReceipt: fetching of last confirmed block failed"))),
            (s, net),
          )
          | some last_block ↦
              let (future, net') =
                request w s.transport (transaction_receipt hash) s.request_timeout net in
              (again, (record s { state = await_transaction_receipt future hash last_block }, net'))
        ]

  pub on_block_number : ℕ → Bytes → Machine → Flow Answer × Machine
  on_block_number rounds hash (s, net) =
      let (p, (blocks, net')) = BlockNumber.poll w rounds (s.block_number_stream, net) in
      got_block hash p (record s { block_number_stream = blocks }, net')

  -- `as_u64`, which panics where the number has more bits, and the test of the confirmations
  pub on_mined : Bytes → ℕ → TransactionReceipt → ℕ → Machine → Flow Answer × Machine
  on_mined hash last_block receipt n (s, net) =
      if ltb n (2 ^ 64)
      then if ltb last_block n
        then (again, (record s { state = await_block_number hash }, net))
        else (done (ready receipt), (s, net))
      else (done panicked, (s, net))

  pub got_receipt :
      Bytes → ℕ → Poll (Error Fault) (Option TransactionReceipt) → Machine → Flow Answer × Machine
  got_receipt hash last_block p (s, net) =
      try_ready
        (map_err (chained (text "SendTransactionWithReceipt: getting transaction receipt failed"))
          p)
        (s, net)
        λ maybe_receipt.
          let wait : Flow Answer × Machine =
            (again, (record s { state = await_block_number hash }, net)) in
          elim maybe_receipt [
            | none ↦ wait
            | some receipt ↦ elim receipt.block_number [
              | none ↦ wait
              | some n ↦ on_mined hash last_block receipt n (s, net)
            ]
          ]

  pub on_receipt : Waiting → Bytes → ℕ → Machine → Flow Answer × Machine
  on_receipt future hash last_block (s, net) =
      let (p, future', net') = await w poll_receipt future net in
      got_receipt hash last_block p
        (record s { state = await_transaction_receipt future' hash last_block }, net')

  pub dispatch : ℕ → State w → Machine → Flow Answer × Machine
  dispatch rounds (await_send_transaction future) m = on_send future m
  dispatch rounds (await_block_number hash) m = on_block_number rounds hash m
  dispatch rounds (await_transaction_receipt future hash last_block) m =
      on_receipt future hash last_block m

  -- One round of the loop. `rounds` bounds the inner loop of the block numbers.
  pub step : ℕ → Machine → Flow Answer × Machine
  step rounds m = dispatch rounds m.0.state m

  unfoldable pub poll : ℕ → Machine → Answer × Machine
  unfolding loop step dispatch on_send got_hash on_block_number got_block on_receipt got_receipt
      on_mined request await BlockNumber.poll
  poll rounds m = loop rounds (step rounds) m

  pub poll_lem : (rounds : ℕ) (m : Machine) → poll rounds m ≡ loop rounds (step rounds) m
  unfolding poll
  poll_lem rounds m = refl
