-- ===== src/Message/Log.antt =====
-- `MessageToMain::from_log` of bridge/src/message_to_main.rs.
use parity_bridge.Base.{none, some}
use parity_bridge.Error.{Error, Result, ok, err, ethabi, msg, text}
use parity_bridge.Web3.{Log}
use parity_bridge.Contracts.{Contracts}
use parity_bridge.Helpers.{parse_log}
use parity_bridge.Message.{MessageToMain}

unfoldable pub from_log : {X : Type 0} → Contracts X → Log → Result (Error X) MessageToMain
unfolding parse_log
from_log abi raw_log = elim raw_log.transaction_hash [
  | none ↦ err (msg (text "`log` must be mined and contain `transaction_hash`"))
  | some hash ↦ elim (parse_log abi.parse_withdraw raw_log) [
    | err e ↦ err (ethabi e)
    | ok log ↦ ok (record {
      recipient = log.recipient;
      value = log.value;
      side_tx_hash = hash;
      main_gas_price = log.main_gas_price;
    })
  ]
]
