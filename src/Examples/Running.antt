-- ===== src/Examples/Running.antt =====
-- A poll of the bridge over its three relays, and the polls of a transaction that is sent.
use parity_bridge.Base.{◌≡◌, refl, none, some, [], ◌∷◌, length, arith}
use parity_bridge.Async.{ready}
use parity_bridge.Async.Spend.{Spends}
use parity_bridge.Async.Ending.{Ends}
use parity_bridge.Web3.{main, side, Net, TransactionRequest, TransactionReceipt}
use parity_bridge.SendTx as SendTx
use parity_bridge.SendTx.Ends.{sent_poll-Spends}
use parity_bridge.Relay.Logs.{poll_logs}
use parity_bridge.Bridge as Bridge
use parity_bridge.Bridge.Relays.{poll_relay}
use parity_bridge.Bridge.Start as Start
use parity_bridge.Bridge.Start.Ends.{running_poll-Ends}
use parity_bridge.Examples.Node.{
  scripted, scripted_finite, script, tick, number_is, hash_is, receipt_is, logs_are,
}
use parity_bridge.Examples.BigEndian.{big_endian}
use parity_bridge.Examples.Relays.{state_at_5, abi, side_contract}
use parity_bridge.Examples.Start.{main_contract, fresh_logs}
use parity_bridge.Examples.Collected.{join_one, join_one-Finite}

abbrev running : Start.Running scripted big_endian abi join_one (λ b. b) 9
running =
    Start.relays_over scripted big_endian abi join_one (λ b. b) 9 state_at_5 (fresh_logs main)
      (fresh_logs side) (fresh_logs side)

-- A range without logs on main.
abbrev empty_range : Net scripted.World
empty_range = script (tick ∷ number_is 20 ∷ logs_are [] ∷ [])

running_poll-Ends_example :
    let (p, (_, net')) =
      Bridge.poll
        (poll_relay
          (poll_logs scripted 9)
          (Start.log_to_main_to_side_sign scripted big_endian abi join_one (λ b. b) 9 side_contract)
          9)
        (poll_relay
          (poll_logs scripted 9)
          (Start.log_to_side_to_main_sign scripted big_endian abi join_one (λ b. b) 9 side_contract)
          9)
        (poll_relay
          (poll_logs scripted 9)
          (Start.log_to_side_to_main_signatures scripted big_endian abi join_one
            (λ b. b)
            9
            main_contract
            side_contract)
          9)
        (running, empty_range) in
    Ends 3 p (length net'.world)
running_poll-Ends_example =
    running_poll-Ends scripted big_endian abi join_one (λ b. b) 9 scripted_finite join_one-Finite
      (omega arith) main_contract side_contract running empty_range (omega arith)

abbrev pub creating : TransactionRequest
creating = record {
  from = 3 ∷ [];
  to = none;
  gas = some 100;
  gas_price = some 1;
  value = none;
  payload = some (1 ∷ 2 ∷ 7 ∷ []);
  nonce = none;
}

abbrev sending_options : SendTx.SendTransactionWithReceiptOptions
sending_options = record {
  transport = main;
  request_timeout = 5;
  poll_interval = 1;
  confirmations = 12;
  transaction = creating;
}

abbrev to_be_sent : SendTx.SendTransactionWithReceipt scripted
to_be_sent = record {
  request_timeout = 5;
  poll_interval = 1;
  transport = main;
  state = SendTx.await_block_number tt (some creating);
  confirmations = 12;
}

abbrev pub receipt_in_20 : TransactionReceipt
receipt_in_20 = record {
  transaction_hash = 6 ∷ [];
  block_number = some 20;
  contract_address = some (2 ∷ []);
}

-- The last block, the transaction's hash, a new block, and the receipt.
abbrev pub mined_in_20 : Net scripted.World
mined_in_20 =
    script
      (number_is 10 ∷ hash_is (6 ∷ []) ∷ tick ∷ number_is 40 ∷ receipt_is (some receipt_in_20) ∷ [])

receipt_answered : (SendTx.poll scripted 9 (to_be_sent, mined_in_20)).0 ≡ ready receipt_in_20
unfolding SendTx.poll
receipt_answered = refl

sent_poll-Spends_example :
    let (p, (_, net')) = SendTx.poll scripted 9 (to_be_sent, mined_in_20) in
    Spends 5 p (length net'.world)
sent_poll-Spends_example =
    sent_poll-Spends scripted scripted_finite 9 to_be_sent mined_in_20 (omega arith)
