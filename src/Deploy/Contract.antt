-- ===== src/Deploy/Contract.antt =====
-- `DeployedContract` of bridge/src/deploy.rs. Texts are given by their bytes; the generated code,
-- the compiled contracts and `to_hex` are parameters.
use Prim.Native.Char.{code}
use Prim.Native.String.{String}
use parity_bridge.Base.{
  ℕ, Option, none, some, List, [], ◌∷◌, ltb, if◌then◌else◌, ◌>>=◌, length, take, drop,
}
use parity_bridge.Base.Bytes.{Bytes, same_bytes}
use parity_bridge.Web3.{TransactionReceipt}

-- `as_bytes` of a text of ASCII characters
abbrev pub as_bytes : String → Bytes
as_bytes String.[] = []
as_bytes (String.◌∷◌ c s) = code c ∷ as_bytes s

-- What the build puts into the program: `include_str!`, and the code that is generated from the
-- interfaces of the contracts. `to_hex` is that of `rustc_hex`.
pub record Compiled : Type 0 where
  pub bridge_sol : Bytes
  pub main_bridge_abi : Bytes
  pub main_bridge_bin : Bytes
  pub side_bridge_abi : Bytes
  pub side_bridge_bin : Bytes
  -- contracts::main::constructor and contracts::side::constructor
  pub main_constructor : Bytes → ℕ → List Bytes → ℕ → ℕ → ℕ → Bytes
  pub side_constructor : Bytes → ℕ → List Bytes → ℕ → Bytes
  pub to_hex : Bytes → Bytes

pub record DeployedContract : Type 0 where
  pub contract_name : Bytes
  pub contract_address : Bytes
  pub contract_source : Bytes
  pub abi : Bytes
  pub bytecode_hex : Bytes
  pub contract_creation_code_hex : Bytes
  pub receipt : TransactionReceipt

-- `&text[..n]` and `&text[n..]`, which panic behind the end
abbrev pub slice_to : ℕ → Bytes → Option Bytes
slice_to n text = if ltb (length text) n then none else some (take n text)

abbrev pub slice_from : ℕ → Bytes → Option Bytes
slice_from n text = if ltb (length text) n then none else some (drop n text)

-- `assert_eq!`
abbrev pub assert_same : Bytes → Bytes → Option (Unit {0})
assert_same a b = if same_bytes a b then some tt else none

-- `none` where the slice, the assertion or the `expect` panics.
unfoldable pub new :
    (Bytes → Bytes)
    → Bytes
    → Bytes
    → Bytes
    → Bytes
    → Bytes
    → TransactionReceipt
    → Option DeployedContract
new to_hex contract_name contract_source abi bytecode_hex contract_creation_code_hex receipt = do
  front ← slice_to (length bytecode_hex) contract_creation_code_hex
  _ ← assert_same bytecode_hex front
  address ← receipt.contract_address
  some (record {
    contract_name = contract_name;
    contract_address = to_hex address;
    contract_source = contract_source;
    abi = abi;
    bytecode_hex = bytecode_hex;
    contract_creation_code_hex = contract_creation_code_hex;
    receipt = receipt;
  })
