-- ===== src/Config.antt =====
-- The configuration of a bridge node: bridge/src/config.rs. Durations are counted in seconds, and
-- the parsers of the `toml` and `rustc_hex` crates are parameters.
pub mod Load
use Prim.Native.String.{String}
use parity_bridge.Base.{ℕ, Option, none, some, List}
use parity_bridge.Base.Bytes.{Bytes}
use parity_bridge.Error.{Error, Result, ok, err, io, toml, hex, chained, text, and_then, or_err}
use parity_bridge.Os.{Os, fault_of}
use parity_bridge.Config.Load as Load

abbrev pub default_poll_interval : ℕ
default_poll_interval = 1

abbrev pub default_timeout : ℕ
default_timeout = 5

abbrev pub default_confirmations : ℕ
default_confirmations = 12

pub record TransactionConfig : Type 0 where
  pub gas : ℕ
  pub gas_price : ℕ

pub record Transactions : Type 0 where
  pub main_deploy : TransactionConfig
  pub side_deploy : TransactionConfig
  pub deposit_relay : TransactionConfig
  pub withdraw_confirm : TransactionConfig
  pub withdraw_relay : TransactionConfig

pub record ContractConfig : Type 0 where
  pub bin : Bytes

pub record Authorities : Type 0 where
  pub accounts : List Bytes
  pub required_signatures : ℕ

pub record NodeConfig : Type 0 where
  pub contract : ContractConfig
  pub http : String
  pub request_timeout : ℕ
  pub poll_interval : ℕ
  pub required_confirmations : ℕ

pub record Config : Type 0 where
  pub address : Bytes
  pub main : NodeConfig
  pub side : NodeConfig
  pub authorities : Authorities
  pub txs : Transactions
  pub estimated_gas_cost_of_withdraw : ℕ
  pub max_total_main_contract_balance : ℕ
  pub max_single_deposit_value : ℕ

-- `#[derive(Default)]`
abbrev pub default_transaction_config : TransactionConfig
default_transaction_config = record { gas = 0; gas_price = 0 }

abbrev pub default_transactions : Transactions
default_transactions = record {
  main_deploy = default_transaction_config;
  side_deploy = default_transaction_config;
  deposit_relay = default_transaction_config;
  withdraw_confirm = default_transaction_config;
  withdraw_relay = default_transaction_config;
}

-- `Option::unwrap_or` and, after a `map`, `Option::unwrap_or_default`
abbrev pub unwrap_or {ℓ} : {A : Type ℓ} → Option A → A → A
unwrap_or none a = a
unwrap_or (some b) a = b

abbrev pub map_or {ℓ κ} : {A : Type ℓ} {B : Type κ} → Option A → (A → B) → B → B
map_or none f b = b
map_or (some a) f b = f a

unfoldable pub transaction_config_from_load_struct : Load.TransactionConfig → TransactionConfig
transaction_config_from_load_struct cfg = record { gas = cfg.gas; gas_price = cfg.gas_price }

unfoldable pub transactions_from_load_struct : Load.Transactions → Transactions
unfolding transaction_config_from_load_struct
transactions_from_load_struct cfg =
    let one : Option Load.TransactionConfig → TransactionConfig =
      λ x. map_or x transaction_config_from_load_struct default_transaction_config in
    record {
      main_deploy = one cfg.main_deploy;
      side_deploy = one cfg.side_deploy;
      deposit_relay = one cfg.deposit_relay;
      withdraw_confirm = one cfg.withdraw_confirm;
      withdraw_relay = one cfg.withdraw_relay;
    }

module _ {X : Type 0} (os : Os X) (from_hex : String → Result X Bytes) where
  open os use {Disk}

  -- The path is left out of the text of the error.
  unfoldable pub node_config_from_load_struct :
      Load.NodeConfig → Disk → Result (Error X) NodeConfig × Disk
  node_config_from_load_struct node disk =
      and_then
        (or_err (λ x. chained (text "Cannot open compiled contract file at {}") (io (fault_of x)))
          (os.open_file node.contract.bin disk))
        λ file disk. and_then (or_err io (os.read_to_string file disk)) λ contents disk.
          and_then (or_err hex (from_hex contents, disk)) λ bin disk. (
            ok (record {
              contract = record { bin = bin };
              http = node.http;
              request_timeout = unwrap_or node.request_timeout default_timeout;
              poll_interval = unwrap_or node.poll_interval default_poll_interval;
              required_confirmations = unwrap_or node.required_confirmations default_confirmations;
            }),
            disk,
          )

  unfoldable pub from_load_struct : Load.Config → Disk → Result (Error X) Config × Disk
  unfolding node_config_from_load_struct transactions_from_load_struct
  from_load_struct config disk =
      and_then (node_config_from_load_struct config.main disk) λ main disk.
        and_then (node_config_from_load_struct config.side disk) λ side disk. (
          ok (record {
            address = config.address;
            main = main;
            side = side;
            authorities = record {
              accounts = config.authorities.accounts;
              required_signatures = config.authorities.required_signatures;
            };
            txs = map_or config.transactions transactions_from_load_struct default_transactions;
            estimated_gas_cost_of_withdraw = config.estimated_gas_cost_of_withdraw;
            max_total_main_contract_balance = config.max_total_main_contract_balance;
            max_single_deposit_value = config.max_single_deposit_value;
          }),
          disk,
        )

  module _ (from_str : String → Result X Load.Config) where
    unfoldable pub load_from_str : String → Disk → Result (Error X) Config × Disk
    unfolding from_load_struct
    load_from_str s disk =
        and_then (or_err (λ x. chained (text "Cannot parse config") (toml x)) (from_str s, disk))
          λ config disk. from_load_struct config disk

    -- `none` where a file that was opened cannot be read: `expect` panics.
    unfoldable pub load : String → Disk → Option (Result (Error X) Config) × Disk
    unfolding load_from_str
    load path disk =
        let (opened, disk) = os.open_file path disk in
        elim opened [
          | err x ↦ (some (err (chained (text "Cannot open config") (io (fault_of x)))), disk)
          | ok file ↦
              let (contents, disk) = os.read_to_string file disk in
              elim contents [
                | err _ ↦ (none, disk)
                | ok buffer ↦ let (config, disk) = load_from_str buffer disk in (some config, disk)
              ]
        ]
