-- ===== src/Examples/Relays.antt =====
-- Relays and the bridge at a scripted node.
use parity_bridge.Base.{
  ℕ, zero, suc, ◌≡◌, refl, none, some, Bool, true, false, [], ◌∷◌, length, replicate, arith,
}
use parity_bridge.Base.Bytes.{Bytes}
use parity_bridge.Async.{ready}
use parity_bridge.Async.Spend.{Spends}
use parity_bridge.Error.{Error, Result, ok, err}
use parity_bridge.Web3.{main, side, Net, TransactionReceipt}
use parity_bridge.Contracts.{Contracts}
use parity_bridge.Database.{State}
use parity_bridge.LogStream as LogStream
use parity_bridge.LogStream.{LogsInBlockRange, this, any, TopicFilter}
use parity_bridge.Relay as Relay
use parity_bridge.Relay.{LogToFuture, RelayStream}
use parity_bridge.Relay.Inv.{After, Holds, relay_poll-After}
use parity_bridge.Relay.Logs.{poll_logs, log_ranges}
use parity_bridge.Bridge as Bridge
use parity_bridge.Bridge.Persist as Persist
use parity_bridge.Bridge.Persist.{bridge_poll-Outcome}
use parity_bridge.Bridge.Relays.{poll_relay, relay_ascends}
use parity_bridge.Examples.Node.{
  scripted, scripted_finite, script, tick, number_is, bytes_are, hash_is, receipt_is,
}
use parity_bridge.Examples.BigEndian.{big_endian}
use parity_bridge.Examples.Streams.{blocks_from_5, logs_from_5, two_ranges}
use parity_bridge.SideContract.{SideContract}
use parity_bridge.MainToSideSign as MainToSideSign
use parity_bridge.MainToSideSign.Trace as Trace
use parity_bridge.MainToSideSign.Trace.{deposit_poll-Outcome}
use parity_bridge.MainToSideSign.Ends.{deposit_poll-Spends}
use parity_bridge.SideToMainSign as SideToMainSign
use parity_bridge.SideToMainSign.Trace as SignTrace
use parity_bridge.SideToMainSign.Trace.{withdraw_poll-Outcome}
use parity_bridge.SideToMainSign.Ends.{withdraw_poll-Spends}
use parity_bridge.SendTx.Inner as Inner
use parity_bridge.SendTx.Inner.Confirmed as Confirmed
use parity_bridge.SendTx.Inner.Confirmed.{receipt_poll-Outcome}

-- Every log makes a future that is ready with 40 after no poll more.
abbrev at_once : LogToFuture (Net scripted.World) (Error scripted.Fault) ℕ ℕ
at_once = record {
  log_to_future = λ log net. (some 0, net);
  poll_future = λ f net. (ready 40, f, net);
}

abbrev relay_from_5 : RelayStream (LogStream.LogStream scripted) ℕ ℕ
relay_from_5 = record { stream_of_logs = logs_from_5; ordered_stream = record { entries = [] } }

-- The first block relayed is the end of the first range.
first_relayed :
    (Relay.poll (poll_logs scripted 9) at_once 9 (relay_from_5, two_ranges)).0 ≡ ready (some 8)
unfolding Relay.poll poll_logs
first_relayed = refl

relay_from_5-Holds : Holds (poll_logs scripted 9) at_once (log_ranges scripted 9) 5 relay_from_5
unfolding log_ranges
relay_from_5-Holds = ((refl, omega arith), omega arith, tt)

relay_poll-After_example :
    let (p, (s', _)) = Relay.poll (poll_logs scripted 9) at_once 9 (relay_from_5, two_ranges) in
    After (poll_logs scripted 9) at_once (log_ranges scripted 9) 5 p s'
relay_poll-After_example =
    relay_poll-After (poll_logs scripted 9) at_once (log_ranges scripted 9) 9 5 relay_from_5
      two_ranges relay_from_5-Holds

abbrev pub state_at_5 : State
state_at_5 = record {
  main_contract_address = 1 ∷ [];
  side_contract_address = 2 ∷ [];
  main_deployed_at_block = 5;
  side_deployed_at_block = 5;
  last_main_to_side_sign_at_block = 5;
  last_side_to_main_signatures_at_block = 5;
  last_side_to_main_sign_at_block = 5;
}

abbrev Relayed : Type 0
Relayed = RelayStream (LogStream.LogStream scripted) ℕ ℕ

abbrev bridge_at_5 : Bridge.Bridge Relayed Relayed Relayed
bridge_at_5 = record {
  main_to_side_sign = relay_from_5;
  side_to_main_sign = relay_from_5;
  side_to_main_signatures = relay_from_5;
  state = state_at_5;
}

bridge_poll-Outcome_example :
    let poll = poll_relay (poll_logs scripted 9) at_once 9 in
    let ascends = relay_ascends (poll_logs scripted 9) at_once 9 (log_ranges scripted 9) in
    let (p, (b', _)) = Bridge.poll poll poll poll (bridge_at_5, two_ranges) in
    Persist.Outcome poll poll poll ascends ascends ascends state_at_5 p b'
bridge_poll-Outcome_example =
    bridge_poll-Outcome (poll_relay (poll_logs scripted 9) at_once 9)
      (poll_relay (poll_logs scripted 9) at_once 9) (poll_relay (poll_logs scripted 9) at_once 9)
      (relay_ascends (poll_logs scripted 9) at_once 9 (log_ranges scripted 9))
      (relay_ascends (poll_logs scripted 9) at_once 9 (log_ranges scripted 9))
      (relay_ascends (poll_logs scripted 9) at_once 9 (log_ranges scripted 9)) bridge_at_5
      two_ranges (relay_from_5-Holds, relay_from_5-Holds, relay_from_5-Holds)

abbrev any_filter : TopicFilter
any_filter = record { topic0 = this (9 ∷ []); topic1 = any; topic2 = any; topic3 = any }

-- A boolean is one byte.
abbrev decode_bool : Bytes → Result scripted.Fault Bool
decode_bool [] = err tt
decode_bool (zero ∷ _) = ok false
decode_bool (suc _ ∷ _) = ok true

abbrev pub abi : Contracts scripted.Fault
abi = record {
  deposit_filter = any_filter;
  withdraw_filter = any_filter;
  collected_signatures_filter = λ a. any_filter;
  parse_deposit = λ l. ok (record { recipient = l.content; value = 1 });
  parse_withdraw = λ l. ok (record { recipient = l.content; value = 1; main_gas_price = 2 });
  parse_collected_signatures =
      λ l. ok (record { authority_responsible_for_relay = l.content; message_hash = l.content });
  is_main_bridge_contract = 1 ∷ [];
  withdraws = λ h. 2 ∷ h;
  withdraw_input = λ vs rs ss m. 3 ∷ m;
  is_side_bridge_contract = 4 ∷ [];
  has_authority_signed_side_to_main = λ a m. 5 ∷ m;
  has_authority_signed_main_to_side = λ a r v h. 6 ∷ v ∷ r;
  deposit_input = λ r v h. 7 ∷ v ∷ r;
  submit_signature_input = λ s m. 8 ∷ s;
  message = λ h. 9 ∷ h;
  signature = λ h i. 10 ∷ i ∷ h;
  decode_bool = decode_bool;
  decode_bytes = λ b. ok b;
}

abbrev pub side_contract : SideContract
side_contract = record {
  transport = side;
  contract_address = 2 ∷ [];
  authority_address = 3 ∷ [];
  required_signatures = 1;
  request_timeout = 5;
  logs_poll_interval = 1;
  required_log_confirmations = 12;
  sign_main_to_side_gas = 100;
  sign_main_to_side_gas_price = 2;
  sign_side_to_main_gas = 100;
  sign_side_to_main_gas_price = 2;
}

abbrev deposit_of_1 : MainToSideSign.MainToSideSign scripted
deposit_of_1 = record {
  main_tx_hash = 1 ∷ [];
  recipient = 7 ∷ [];
  value = 1;
  state =
      MainToSideSign.await_already_signed (record { future = tt; output_decoder = decode_bool });
  side = side_contract;
}

abbrev unsigned_deposit : Net scripted.World
unsigned_deposit = script (bytes_are (0 ∷ []) ∷ hash_is (6 ∷ []) ∷ [])

-- The deposit is signed in one poll, in the transaction with the hash that the node gives.
deposit_signed :
    (MainToSideSign.poll scripted big_endian abi 2 (deposit_of_1, unsigned_deposit)).0
    ≡ ready (some (6 ∷ []))
unfolding MainToSideSign.poll
deposit_signed = refl

deposit_poll-Outcome_example :
    let (p, m) = MainToSideSign.poll scripted big_endian abi 2 (deposit_of_1, unsigned_deposit) in
    Trace.Outcome scripted big_endian abi deposit_of_1 unsigned_deposit p m
deposit_poll-Outcome_example =
    deposit_poll-Outcome scripted big_endian abi 2 deposit_of_1 unsigned_deposit

deposit_poll-Spends_example :
    let (p, (_, net')) =
      MainToSideSign.poll scripted big_endian abi 2 (deposit_of_1, unsigned_deposit) in
    Spends 2 p (length net'.world)
deposit_poll-Spends_example =
    deposit_poll-Spends scripted big_endian abi scripted_finite 2 deposit_of_1 unsigned_deposit
      (omega arith)

abbrev withdraw_of_1 : SideToMainSign.SideToMainSign scripted
withdraw_of_1 = record {
  tx_hash = 1 ∷ [];
  side = side_contract;
  message = record { recipient = 7 ∷ []; value = 1; side_tx_hash = 1 ∷ []; main_gas_price = 2 };
  state =
      SideToMainSign.await_check_already_signed
        (record { future = tt; output_decoder = decode_bool });
}

-- The node signs with 65 ones; the signature is submitted in the same poll.
abbrev unsigned_withdraw : Net scripted.World
unsigned_withdraw = script (bytes_are (0 ∷ []) ∷ bytes_are (replicate 65 1) ∷ hash_is (6 ∷ []) ∷ [])

withdraw_signed :
    (SideToMainSign.poll scripted big_endian abi 3 (withdraw_of_1, unsigned_withdraw)).0
    ≡ ready (some (6 ∷ []))
unfolding SideToMainSign.poll
withdraw_signed = refl

withdraw_poll-Outcome_example :
    let (p, m) = SideToMainSign.poll scripted big_endian abi 3 (withdraw_of_1, unsigned_withdraw) in
    SignTrace.Outcome scripted big_endian abi withdraw_of_1 unsigned_withdraw p m
withdraw_poll-Outcome_example =
    withdraw_poll-Outcome scripted big_endian abi 3 withdraw_of_1 unsigned_withdraw

withdraw_poll-Spends_example :
    let (p, (_, net')) =
      SideToMainSign.poll scripted big_endian abi 3 (withdraw_of_1, unsigned_withdraw) in
    Spends 3 p (length net'.world)
withdraw_poll-Spends_example =
    withdraw_poll-Spends scripted big_endian abi scripted_finite 3 withdraw_of_1 unsigned_withdraw
      (omega arith)

abbrev receipt_in_7 : TransactionReceipt
receipt_in_7 = record { transaction_hash = 6 ∷ []; block_number = some 7; contract_address = none }

abbrev transaction_sent : Inner.SendTransactionWithReceipt scripted
transaction_sent = record {
  transport = main;
  state = Inner.await_send_transaction tt;
  block_number_stream = blocks_from_5;
  request_timeout = 5;
}

abbrev receipt_follows : Net scripted.World
receipt_follows =
    script (hash_is (6 ∷ []) ∷ tick ∷ number_is 20 ∷ receipt_is (some receipt_in_7) ∷ [])

receipt_found : (Inner.poll scripted 9 (transaction_sent, receipt_follows)).0 ≡ ready receipt_in_7
unfolding Inner.poll
receipt_found = refl

receipt_poll-Outcome_example :
    let (p, (s', _)) = Inner.poll scripted 9 (transaction_sent, receipt_follows) in
    Confirmed.Outcome scripted p s'
receipt_poll-Outcome_example = receipt_poll-Outcome scripted 9 transaction_sent receipt_follows tt
