-- ===== src/MainContract.antt =====
-- `MainContract` of bridge/src/main_contract.rs: the requests to the bridge contract on `main`.
use parity_bridge.Base.{ℕ, Bool, List, map}
use parity_bridge.Base.Bytes.{Bytes}
use parity_bridge.Error.{Result}
use parity_bridge.Web3.{Web3, Chain, Net}
use parity_bridge.Config.{Config}
use parity_bridge.Database.{State}
use parity_bridge.Contracts.{Contracts}
use parity_bridge.Helpers.{AsyncCall, AsyncTransaction, new_call, new_transaction}
use parity_bridge.LogStream.{LogStreamOptions}
use parity_bridge.Message
use parity_bridge.Message.{MessageToMain, BigEndian}
use parity_bridge.Signature.{Signature}

pub record MainContract : Type 0 where
  pub transport : Chain
  pub contract_address : Bytes
  pub authority_address : Bytes
  pub submit_collected_signatures_gas : ℕ
  pub request_timeout : ℕ
  pub logs_poll_interval : ℕ
  pub required_log_confirmations : ℕ

unfoldable pub new : Chain → Config → State → MainContract
new transport config state = record {
  transport = transport;
  contract_address = state.main_contract_address;
  authority_address = config.address;
  submit_collected_signatures_gas = config.estimated_gas_cost_of_withdraw;
  request_timeout = config.main.request_timeout;
  logs_poll_interval = config.main.poll_interval;
  required_log_confirmations = config.main.required_confirmations;
}

module _ (w : Web3) (be : BigEndian) (abi : Contracts w.Fault) (c : MainContract) where
  open w use {World, Fault}

  unfoldable pub call_main :
      {A : Type 0} → Bytes → (Bytes → Result Fault A) → Net World → AsyncCall w A × Net World
  unfolding new_call
  call_main payload output_decoder net =
      new_call w c.transport c.contract_address c.request_timeout payload output_decoder net

  unfoldable pub is_main_contract : Net World → AsyncCall w Bool × Net World
  unfolding call_main
  is_main_contract net = call_main abi.is_main_bridge_contract abi.decode_bool net

  -- The options of the stream of all transactions on main that need to be relayed to side.
  unfoldable pub main_to_side_log_stream : ℕ → LogStreamOptions
  main_to_side_log_stream after = record {
    filter = abi.deposit_filter;
    request_timeout = c.request_timeout;
    poll_interval = c.logs_poll_interval;
    confirmations = c.required_log_confirmations;
    transport = c.transport;
    contract_address = c.contract_address;
    after = after;
  }

  unfoldable pub relay_side_to_main :
      MessageToMain → List Signature → Net World → AsyncTransaction w × Net World
  unfolding new_transaction Message.to_bytes
  relay_side_to_main message signatures net =
      let payload =
        abi.withdraw_input (map (λ x. x.v) signatures) (map (λ x. x.r) signatures)
          (map (λ x. x.s) signatures) (Message.to_bytes be message) in
      new_transaction w c.transport c.contract_address c.authority_address
        c.submit_collected_signatures_gas message.main_gas_price c.request_timeout payload net
