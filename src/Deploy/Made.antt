-- ===== src/Deploy/Made.antt =====
-- What `DeployedContract::new` of bridge/src/deploy.rs makes of a receipt.
use parity_bridge.Base.{
  ◌≡◌, ◌∙◌, refl, sym, ap, subst, Option, none, some, Bool, true, false, ◌++◌, ltb, ◌>>=◌, length,
  take, drop, take-append-drop,
}
use parity_bridge.Base.Bytes.{Bytes, same_bytes, same_bytes_sound}
use parity_bridge.Web3.{TransactionReceipt}
use parity_bridge.Deploy.Contract.{DeployedContract, slice_from, new}

-- The contract is described as the receipt and the code say.
pub record Describes (to_hex : Bytes → Bytes) (creation bytecode : Bytes) (c : DeployedContract)
    : Type 0 where
  pub arguments : Bytes
  pub address : Bytes
  pub created : c.contract_creation_code_hex ≡ creation
  pub bytecode_kept : c.bytecode_hex ≡ bytecode
  pub split : creation ≡ bytecode ++ arguments
  pub sliced : slice_from (length bytecode) creation ≡ some arguments
  pub deployed_at : c.receipt.contract_address ≡ some address
  pub address_kept : c.contract_address ≡ to_hex address

-- The parts that it is given are kept.
abbrev pub MadeOf :
    (Bytes → Bytes)
    → Bytes
    → Bytes
    → Bytes
    → Bytes
    → Bytes
    → TransactionReceipt
    → DeployedContract
    → Type 0
MadeOf to_hex name source abi bytecode creation receipt c =
    Describes to_hex creation bytecode c
    × (c.contract_name ≡ name)
    × (c.contract_source ≡ source)
    × (c.abi ≡ abi)
    × (c.receipt ≡ receipt)

went_on :
    {A B : Type 0} (o : Option A) (f : A → Option B) {a : A} {b : B}
    → o ≡ some a
    → (o >>= f) ≡ some b
    → f a ≡ some b
went_on o f e h = rw e at h

kept-Describes :
    (to_hex : Bytes → Bytes) (name source abi bytecode creation : Bytes)
    (receipt : TransactionReceipt) (c : DeployedContract) (short same : Bool)
    (address : Option Bytes)
    → ltb (length creation) (length bytecode) ≡ short
    → same_bytes bytecode (take (length bytecode) creation) ≡ same
    → receipt.contract_address ≡ address
    → new to_hex name source abi bytecode creation receipt ≡ some c
    → MadeOf to_hex name source abi bytecode creation receipt c
unfolding new
kept-Describes to_hex name source abi bytecode creation receipt c true same address e f g h =
    let bad = rw (e, new) at h in cc
kept-Describes to_hex name source abi bytecode creation receipt c false false address e f g h =
    let bad = rw (e, new) at h in let bad' = rw (f, new) at bad in cc
kept-Describes to_hex name source abi bytecode creation receipt c false true none e f g h =
    let bad = rw (e, new) at h in let bad' = rw (f, new) at bad in cc
kept-Describes to_hex name source abi bytecode creation receipt c false true (some a) e f g h =
    let h1 = rw (e, new) at h in
    let h2 = rw (f, new) at h1 in
    let h3 = went_on receipt.contract_address _ g h2 in
    let made : DeployedContract = record {
      contract_name = name;
      contract_address = to_hex a;
      contract_source = source;
      abi = abi;
      bytecode_hex = bytecode;
      contract_creation_code_hex = creation;
      receipt = receipt;
    } in
    let same : made ≡ c = cc in
    let front = same_bytes_sound bytecode (take (length bytecode) creation) f in
    subst (MadeOf to_hex name source abi bytecode creation receipt) same (
      record {
        arguments = drop (length bytecode) creation;
        address = a;
        created = refl;
        bytecode_kept = refl;
        split =
            sym (take-append-drop (length bytecode) creation)
            ∙ ap (λ t. t ++ drop (length bytecode) creation) (sym front);
        sliced = rw e;
        deployed_at = g;
        address_kept = refl;
      },
      refl,
      refl,
      refl,
      refl,
    )

-- The contract that is made holds the creation code and the bytecode given, the first begins with
-- the second, and the address is that of the receipt.
pub new-Describes :
    (to_hex : Bytes → Bytes) (name source abi bytecode creation : Bytes)
    (receipt : TransactionReceipt) (c : DeployedContract)
    → new to_hex name source abi bytecode creation receipt ≡ some c
    → MadeOf to_hex name source abi bytecode creation receipt c
new-Describes to_hex name source abi bytecode creation receipt c h =
    kept-Describes to_hex name source abi bytecode creation receipt c _ _ _ refl refl refl h
