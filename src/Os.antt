-- ===== src/Os.antt =====
-- What the bridge uses of `std::fs` and `std::io`, which are not part of the repository: a
-- parameter of the definitions that read or write files.
use Prim.Native.String.{String}
use parity_bridge.Base.{Bool}
use parity_bridge.Base.Bytes.{Bytes}
use parity_bridge.Error.{Result}

-- `io::Error` of an `open`, by its kind.
pub data OpenError (X : Type 0) : Type 0 where
  not_found : X → OpenError X
  other : X → OpenError X

pub record Os (X : Type 0) : Type 1 where
  pub Disk : Type 0
  pub File : Type 0
  -- `fs::File::open`
  pub open_file : String → Disk → Result (OpenError X) File × Disk
  pub read_to_string : File → Disk → Result X String × Disk
  -- `OpenOptions::new().write(true).create(true).open`
  pub open_for_write : String → Disk → Result X File × Disk
  pub write_all : File → String → Disk → Result X (Unit {0}) × Disk
  pub flush : File → Disk → Result X (Unit {0}) × Disk

abbrev pub fault_of : {X : Type 0} → OpenError X → X
fault_of (not_found x) = x
fault_of (other x) = x

-- What the deployment uses beside: directories, and files that are created or emptied. Texts are
-- given by their bytes.
pub record Folders {X : Type 0} (os : Os X) : Type 1 where
  pub FilePath : Type 0
  pub from_text : Bytes → FilePath
  pub from_string : String → FilePath
  pub join : FilePath → Bytes → FilePath
  pub exists : FilePath → os.Disk → Bool
  pub remove_dir_all : FilePath → os.Disk → Result X (Unit {0}) × os.Disk
  pub create_dir : FilePath → os.Disk → Result X (Unit {0}) × os.Disk
  -- `fs::File::create`
  pub create_file : FilePath → os.Disk → Result X os.File × os.Disk
  -- `write_all` of bytes
  pub write_bytes : os.File → Bytes → os.Disk → Result X (Unit {0}) × os.Disk
