-- ===== src/Deploy/Chains.antt =====
-- `DeployMain` of bridge/src/deploy.rs, and what its loop and that of `DeploySide` differ in.
use parity_bridge.Base.{ℕ, none, some}
use parity_bridge.Base.Bytes.{Bytes}
use parity_bridge.Async.{Poll}
use parity_bridge.Config.{Config, NodeConfig, TransactionConfig}
use parity_bridge.Error.{Error, text}
use parity_bridge.Web3.{Web3, Chain, Net, TransactionRequest}
use parity_bridge.SendTx.{SendTransactionWithReceiptOptions}
use parity_bridge.Deploy.Contract.{Compiled, DeployedContract, as_bytes}
use parity_bridge.Deploy.Rounds as Rounds
use parity_bridge.Deploy.Rounds.{DeployState, not_deployed, Plan}

pub record DeployMain (w : Web3) : Type 0 where
  pub config : Config
  pub main_transport : Chain
  pub state : DeployState w

-- The transaction that makes a contract: it has no receiver.
abbrev pub creation : Bytes → TransactionConfig → Bytes → TransactionRequest
creation from cfg payload = record {
  from = from;
  to = none;
  gas = some cfg.gas;
  gas_price = some cfg.gas_price;
  value = none;
  payload = some payload;
  nonce = none;
}

abbrev pub sending : Chain → NodeConfig → TransactionRequest → SendTransactionWithReceiptOptions
sending transport node tx_request = record {
  transport = transport;
  request_timeout = node.request_timeout;
  poll_interval = node.poll_interval;
  confirmations = node.required_confirmations;
  transaction = tx_request;
}

module _ (compiled : Compiled) where
  unfoldable pub main_plan : Config → Chain → Plan
  main_plan config main_transport =
      let payload =
        compiled.main_constructor config.main.contract.bin config.authorities.required_signatures
          config.authorities.accounts config.estimated_gas_cost_of_withdraw
          config.max_total_main_contract_balance config.max_single_deposit_value in
      record {
        payload = payload;
        options =
            sending main_transport config.main
              (creation config.address config.txs.main_deploy payload);
        failure = text "DeployMain: deployment transaction failed";
        contract_name = as_bytes "MainBridge";
        contract_source = compiled.bridge_sol;
        abi = compiled.main_bridge_abi;
        bytecode_hex = compiled.main_bridge_bin;
      }

  unfoldable pub side_plan : Config → Chain → Plan
  side_plan config side_transport =
      let payload =
        compiled.side_constructor config.side.contract.bin config.authorities.required_signatures
          config.authorities.accounts config.estimated_gas_cost_of_withdraw in
      record {
        payload = payload;
        options =
            sending side_transport config.side
              (creation config.address config.txs.side_deploy payload);
        failure = text "DeploySide: deployment transaction failed";
        contract_name = as_bytes "SideBridge";
        contract_source = compiled.bridge_sol;
        abi = compiled.side_bridge_abi;
        bytecode_hex = compiled.side_bridge_bin;
      }

  module _ (w : Web3) where
    open w use {World, Fault}

    unfoldable pub new_main : Config → Chain → DeployMain w
    new_main config main_transport = record {
      config = config;
      main_transport = main_transport;
      state = not_deployed;
    }

    unfoldable pub poll_main :
        ℕ
        → DeployMain w × Net World
        → Poll (Error Fault) DeployedContract × DeployMain w × Net World
    unfolding main_plan Rounds.poll
    poll_main rounds (s, net) =
        let (p, (state, net')) =
          Rounds.poll w compiled.to_hex (main_plan s.config s.main_transport) rounds
            (s.state, net) in
        (p, record s { state = state }, net')
