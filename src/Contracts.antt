-- ===== src/Contracts.antt =====
-- What the code that the `ethabi` crates generate from the contracts' interfaces offers the bridge:
-- a parameter of every definition that reads or writes contract data.
use parity_bridge.Base.{ℕ, Bool, List}
use parity_bridge.Base.Bytes.{Bytes}
use parity_bridge.Error.{Result}
use parity_bridge.LogStream.{TopicFilter}

-- `ethabi::RawLog`
pub record RawLog : Type 0 where
  pub topics : List Bytes
  pub content : Bytes

pub record Deposit : Type 0 where
  pub recipient : Bytes
  pub value : ℕ

pub record Withdraw : Type 0 where
  pub recipient : Bytes
  pub value : ℕ
  pub main_gas_price : ℕ

pub record CollectedSignatures : Type 0 where
  pub authority_responsible_for_relay : Bytes
  pub message_hash : Bytes

pub record Contracts (X : Type 0) : Type 0 where
  -- contracts::main::events::deposit, contracts::side::events::{withdraw, collected_signatures}
  pub deposit_filter : TopicFilter
  pub withdraw_filter : TopicFilter
  pub collected_signatures_filter : Bytes → TopicFilter
  pub parse_deposit : RawLog → Result X Deposit
  pub parse_withdraw : RawLog → Result X Withdraw
  pub parse_collected_signatures : RawLog → Result X CollectedSignatures
  -- contracts::main::functions: the calls without side effects, and the input of a transaction
  pub is_main_bridge_contract : Bytes
  pub withdraws : Bytes → Bytes
  pub withdraw_input : List ℕ → List Bytes → List Bytes → Bytes → Bytes
  -- contracts::side::functions
  pub is_side_bridge_contract : Bytes
  pub has_authority_signed_side_to_main : Bytes → Bytes → Bytes
  pub has_authority_signed_main_to_side : Bytes → Bytes → ℕ → Bytes → Bytes
  pub deposit_input : Bytes → ℕ → Bytes → Bytes
  pub submit_signature_input : Bytes → Bytes → Bytes
  pub message : Bytes → Bytes
  pub signature : Bytes → ℕ → Bytes
  -- the decoders of the calls' output: a boolean, or bytes
  pub decode_bool : Bytes → Result X Bool
  pub decode_bytes : Bytes → Result X Bytes
