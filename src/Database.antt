-- ===== src/Database.antt =====
-- The state of a bridge node and its file: bridge/src/database.rs. The printer and the parser of
-- the `toml` crate are parameters.
pub mod Write
pub mod Reopen
use Prim.Native.String.{String}
use parity_bridge.Base.{
  ◌^◌, ltb, ℕ, Option, none, some, List, Bool, ◌&&◌, ◌==◌, if◌then◌else◌, ◌>>=◌,
}
use parity_bridge.Base.Bytes.{Bytes, same_bytes}
use parity_bridge.Error.{
  Error, Result, ok, err, io, toml, missing_file, chained, text, and_then, or_err,
}
use parity_bridge.Os.{Os, OpenError, not_found, other}
use parity_bridge.Web3.{TransactionReceipt}

pub record State : Type 0 where
  pub main_contract_address : Bytes
  pub side_contract_address : Bytes
  pub main_deployed_at_block : ℕ
  pub side_deployed_at_block : ℕ
  pub last_main_to_side_sign_at_block : ℕ
  pub last_side_to_main_signatures_at_block : ℕ
  pub last_side_to_main_sign_at_block : ℕ

-- `U256::as_u64`; `none` where it panics
abbrev as_u64 : ℕ → Option ℕ
as_u64 n = if ltb n (2 ^ 64) then some n else none

-- `none` where one of the four `expect`s panics, or `as_u64` does.
unfoldable pub from_transaction_receipts : TransactionReceipt → TransactionReceipt → Option State
from_transaction_receipts main_receipt side_receipt = do
  main_number ← main_receipt.block_number
  main_block_number ← as_u64 main_number
  side_number ← side_receipt.block_number
  side_block_number ← as_u64 side_number
  main_contract_address ← main_receipt.contract_address
  side_contract_address ← side_receipt.contract_address
  some (record {
    main_contract_address = main_contract_address;
    side_contract_address = side_contract_address;
    main_deployed_at_block = main_block_number;
    side_deployed_at_block = side_block_number;
    last_main_to_side_sign_at_block = main_block_number;
    last_side_to_main_sign_at_block = side_block_number;
    last_side_to_main_signatures_at_block = side_block_number;
  })

-- `#[derive(PartialEq)]`
unfoldable pub same_state : State → State → Bool
same_state a b =
    same_bytes a.main_contract_address b.main_contract_address
    && same_bytes a.side_contract_address b.side_contract_address
    && a.main_deployed_at_block == b.main_deployed_at_block
    && a.side_deployed_at_block == b.side_deployed_at_block
    && a.last_main_to_side_sign_at_block == b.last_main_to_side_sign_at_block
    && a.last_side_to_main_signatures_at_block == b.last_side_to_main_signatures_at_block
    && a.last_side_to_main_sign_at_block == b.last_side_to_main_sign_at_block

pub record TomlFileDatabase : Type 0 where
  pub filepath : String
  pub state : State

module _ {X : Type 0} (os : Os X) (from_str : String → Result X State)
    (to_string : State → String) where
  open os use {Disk, File}

  unfoldable pub write_state : State → File → Disk → Result (Error X) (Unit {0}) × Disk
  write_state state file disk =
      and_then (or_err io (os.write_all file (to_string state) disk))
        λ _ disk. or_err io (os.flush file disk)

  abbrev open_error : String → OpenError X → Error X
  open_error filepath (not_found x) = missing_file filepath
  open_error filepath (other x) = chained (text "Cannot open database") (io x)

  unfoldable pub from_path : String → Disk → Result (Error X) TomlFileDatabase × Disk
  from_path filepath disk =
      and_then (or_err (open_error filepath) (os.open_file filepath disk)) λ file disk.
        and_then (or_err io (os.read_to_string file disk)) λ buffer disk.
          and_then
            (or_err (λ x. chained (text "Cannot parse database") (toml x)) (from_str buffer, disk))
            λ state disk. (ok (record { filepath = filepath; state = state }), disk)

  unfoldable pub read : TomlFileDatabase → State
  read db = db.state

  unfoldable pub write :
      State → TomlFileDatabase → Disk → Result (Error X) (Unit {0}) × TomlFileDatabase × Disk
  unfolding write_state same_state
  write state db disk =
      if same_state db.state state
      then (ok tt, db, disk)
      else let db' : TomlFileDatabase = record db { state = state } in
        let (r, disk') =
          and_then (or_err io (os.open_for_write db.filepath disk))
            λ file disk. write_state state file disk in
        (r, db', disk')
