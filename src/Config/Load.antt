-- ===== src/Config/Load.antt =====
-- The structs of the module `load` of bridge/src/config.rs: the configuration as a file holds it.
use Prim.Native.String.{String}
use parity_bridge.Base.{ℕ, Option, List}
use parity_bridge.Base.Bytes.{Bytes}

pub record TransactionConfig : Type 0 where
  pub gas : ℕ
  pub gas_price : ℕ

pub record Transactions : Type 0 where
  pub main_deploy : Option TransactionConfig
  pub side_deploy : Option TransactionConfig
  pub deposit_relay : Option TransactionConfig
  pub withdraw_confirm : Option TransactionConfig
  pub withdraw_relay : Option TransactionConfig

pub record ContractConfig : Type 0 where
  pub bin : String

pub record Authorities : Type 0 where
  pub accounts : List Bytes
  pub required_signatures : ℕ

pub record NodeConfig : Type 0 where
  pub contract : ContractConfig
  pub http : String
  pub request_timeout : Option ℕ
  pub poll_interval : Option ℕ
  pub required_confirmations : Option ℕ

pub record Config : Type 0 where
  pub address : Bytes
  pub main : NodeConfig
  pub side : NodeConfig
  pub authorities : Authorities
  pub transactions : Option Transactions
  pub estimated_gas_cost_of_withdraw : ℕ
  pub max_total_main_contract_balance : ℕ
  pub max_single_deposit_value : ℕ
