-- ===== src/Deploy/Info.antt =====
-- `DeployedContract::dump_info` of bridge/src/deploy.rs: the files that describe a deployment.
use parity_bridge.Base.{Option, none, some, List, [], ◌∷◌, if◌then◌else◌, length}
use parity_bridge.Base.Bytes.{Bytes}
use parity_bridge.Error.{Error, Result, ok, err, io, and_then, or_err}
use parity_bridge.Os.{Os, Folders}
use parity_bridge.Deploy.Contract.{DeployedContract, as_bytes, slice_from}

-- What the build knows of itself: `env!` of CARGO_PKG_VERSION, GIT_HASH and SOLC_VERSION
pub record Versions : Type 0 where
  pub bridge_version : Bytes
  pub commit_hash : Bytes
  pub compiler : Bytes

-- The files by their names, in the order in which they are written: those before the constructor's
-- arguments are cut off the creation code, and those after.
unfoldable pub first_files : Versions → (Bytes → Bytes) → DeployedContract → List (Bytes × Bytes)
first_files versions to_hex c =
    (as_bytes "bridge_version", versions.bridge_version)
    ∷ (as_bytes "commit_hash", versions.commit_hash)
    ∷ (as_bytes "compiler", versions.compiler)
    ∷ (as_bytes "optimization", as_bytes "yes")
    ∷ (as_bytes "contract_name", c.contract_name)
    ∷ (as_bytes "contract_address", c.contract_address)
    ∷ (as_bytes "contract_source.sol", c.contract_source)
    ∷ (as_bytes "transaction_hash", to_hex c.receipt.transaction_hash)
    ∷ (as_bytes "deployed_bytecode", c.bytecode_hex)
    ∷ []

unfoldable pub last_files : DeployedContract → Bytes → List (Bytes × Bytes)
last_files c constructor_arguments_bytecode =
    (as_bytes "constructor_arguments_bytecode", constructor_arguments_bytecode)
    ∷ (as_bytes "abi", c.abi)
    ∷ []

module _ {X : Type 0} (os : Os X) (folders : Folders os) where
  open os use {Disk}
  open folders use {FilePath, join, exists, remove_dir_all, create_dir, create_file, write_bytes}

  -- `File::create(dir.join(name))?.write_all(text)?`
  unfoldable pub write_file : FilePath → Bytes → Bytes → Disk → Result (Error X) (Unit {0}) × Disk
  write_file dir name content disk =
      and_then (or_err io (create_file (join dir name) disk))
        λ file disk. or_err io (write_bytes file content disk)

  unfoldable pub write_files :
      FilePath → List (Bytes × Bytes) → Disk → Result (Error X) (Unit {0}) × Disk
  unfolding write_file
  write_files dir [] disk = (ok tt, disk)
  write_files dir ((name, content) ∷ files) disk =
      and_then (write_file dir name content disk) λ _ disk. write_files dir files disk

  -- An existing directory is removed, and an empty one made.
  unfoldable pub prepare : FilePath → Disk → Result (Error X) (Unit {0}) × Disk
  prepare dir disk =
      let removed : Result (Error X) (Unit {0}) × Disk =
        if exists dir disk then or_err io (remove_dir_all dir disk) else (ok tt, disk) in
      and_then removed λ _ disk. or_err io (create_dir dir disk)

  -- The files that need the constructor's arguments. `none` where the slice has panicked.
  unfoldable pub write_last :
      DeployedContract
      → FilePath
      → Option Bytes
      → Disk
      → Option (Result (Error X) (Unit {0})) × Disk
  unfolding write_files last_files
  write_last c dir none disk = (none, disk)
  write_last c dir (some constructor_arguments_bytecode) disk =
      let (r, disk') = write_files dir (last_files c constructor_arguments_bytecode) disk in
      (some r, disk')

  unfoldable pub write_rest :
      DeployedContract
      → FilePath
      → Result (Error X) (Unit {0}) × Disk
      → Option (Result (Error X) (Unit {0})) × Disk
  unfolding write_last
  write_rest c dir (err e, disk) = (some (err e), disk)
  write_rest c dir (ok _, disk) =
      write_last c dir (slice_from (length c.bytecode_hex) c.contract_creation_code_hex) disk

  unfoldable pub dump_info :
      Versions
      → (Bytes → Bytes)
      → DeployedContract
      → FilePath
      → Disk
      → Option (Result (Error X) (Unit {0})) × Disk
  unfolding prepare write_files first_files write_rest
  dump_info versions to_hex c dir disk =
      write_rest c dir
        (and_then (prepare dir disk) λ _ disk. write_files dir (first_files versions to_hex c) disk)
