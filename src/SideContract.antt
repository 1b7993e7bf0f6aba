-- ===== src/SideContract.antt =====
-- `SideContract` of bridge/src/side_contract.rs: the requests to the bridge contract on `side`.
use parity_bridge.Base.{ℕ, zero, suc, Bool, List, [], ◌∷◌}
use parity_bridge.Base.Bytes.{Bytes}
use parity_bridge.Error.{Result}
use parity_bridge.Web3.{Web3, Chain, Net}
use parity_bridge.Config.{Config}
use parity_bridge.Database.{State}
use parity_bridge.Contracts.{Contracts}
use parity_bridge.Helpers.{AsyncCall, AsyncTransaction, new_call, new_transaction}
use parity_bridge.LogStream.{TopicFilter, LogStreamOptions}
use parity_bridge.Message
use parity_bridge.Message.{MessageToMain, BigEndian}
use parity_bridge.Signature
use parity_bridge.Signature.{Signature}

pub record SideContract : Type 0 where
  pub transport : Chain
  pub contract_address : Bytes
  pub authority_address : Bytes
  pub required_signatures : ℕ
  pub request_timeout : ℕ
  pub logs_poll_interval : ℕ
  pub required_log_confirmations : ℕ
  pub sign_main_to_side_gas : ℕ
  pub sign_main_to_side_gas_price : ℕ
  pub sign_side_to_main_gas : ℕ
  pub sign_side_to_main_gas_price : ℕ

unfoldable pub new : Chain → Config → State → SideContract
new transport config state = record {
  transport = transport;
  contract_address = state.side_contract_address;
  authority_address = config.address;
  required_signatures = config.authorities.required_signatures;
  request_timeout = config.side.request_timeout;
  logs_poll_interval = config.side.poll_interval;
  required_log_confirmations = config.side.required_confirmations;
  sign_main_to_side_gas = config.txs.deposit_relay.gas;
  sign_main_to_side_gas_price = config.txs.deposit_relay.gas_price;
  sign_side_to_main_gas = config.txs.withdraw_confirm.gas;
  sign_side_to_main_gas_price = config.txs.withdraw_confirm.gas_price;
}

module _ (w : Web3) (be : BigEndian) (abi : Contracts w.Fault) (c : SideContract) where
  open w use {World, Fault}

  unfoldable pub call_side :
      {A : Type 0} → Bytes → (Bytes → Result Fault A) → Net World → AsyncCall w A × Net World
  unfolding new_call
  call_side payload output_decoder net =
      new_call w c.transport c.contract_address c.request_timeout payload output_decoder net

  unfoldable pub is_side_contract : Net World → AsyncCall w Bool × Net World
  unfolding call_side
  is_side_contract net = call_side abi.is_side_bridge_contract abi.decode_bool net

  unfoldable pub is_side_to_main_signed_on_side :
      MessageToMain → Net World → AsyncCall w Bool × Net World
  unfolding call_side Message.to_bytes
  is_side_to_main_signed_on_side message net =
      call_side
        (abi.has_authority_signed_side_to_main c.authority_address (Message.to_bytes be message))
        abi.decode_bool net

  unfoldable pub is_main_to_side_signed_on_side :
      Bytes → ℕ → Bytes → Net World → AsyncCall w Bool × Net World
  unfolding call_side
  is_main_to_side_signed_on_side recipient value main_tx_hash net =
      call_side
        (abi.has_authority_signed_main_to_side c.authority_address recipient value main_tx_hash)
        abi.decode_bool net

  unfoldable pub sign_main_to_side : Bytes → ℕ → Bytes → Net World → AsyncTransaction w × Net World
  unfolding new_transaction
  sign_main_to_side recipient value breakout_tx_hash net =
      new_transaction w c.transport c.contract_address c.authority_address c.sign_main_to_side_gas
        c.sign_main_to_side_gas_price c.request_timeout
        (abi.deposit_input recipient value breakout_tx_hash) net

  abbrev log_stream : TopicFilter → ℕ → LogStreamOptions
  log_stream filter after = record {
    filter = filter;
    request_timeout = c.request_timeout;
    poll_interval = c.logs_poll_interval;
    confirmations = c.required_log_confirmations;
    transport = c.transport;
    contract_address = c.contract_address;
    after = after;
  }

  unfoldable pub side_to_main_sign_log_stream : ℕ → LogStreamOptions
  side_to_main_sign_log_stream after = log_stream abi.withdraw_filter after

  unfoldable pub side_to_main_signatures_log_stream : ℕ → Bytes → LogStreamOptions
  side_to_main_signatures_log_stream after address =
      log_stream (abi.collected_signatures_filter address) after

  unfoldable pub submit_side_to_main_signature :
      MessageToMain → Signature → Net World → AsyncTransaction w × Net World
  unfolding new_transaction Message.to_bytes Signature.to_bytes
  submit_side_to_main_signature message signature net =
      new_transaction w c.transport c.contract_address c.authority_address c.sign_side_to_main_gas
        c.sign_side_to_main_gas_price c.request_timeout
        (abi.submit_signature_input (Signature.to_bytes signature) (Message.to_bytes be message))
        net

  -- The calls for the signatures from `index` on, `n` of them, in that order.
  unfoldable pub signature_calls : Bytes → ℕ → ℕ → Net World → List (AsyncCall w Bytes) × Net World
  unfolding call_side
  signature_calls message_hash index zero net = ([], net)
  signature_calls message_hash index (suc n) net =
      let (first, net') = call_side (abi.signature message_hash index) abi.decode_bytes net in
      let (others, net'') = signature_calls message_hash (suc index) n net' in
      (first ∷ others, net'')

  -- The calls that `join_all` is given.
  unfoldable pub get_signatures : Bytes → Net World → List (AsyncCall w Bytes) × Net World
  unfolding signature_calls
  get_signatures message_hash net = signature_calls message_hash 0 c.required_signatures net
