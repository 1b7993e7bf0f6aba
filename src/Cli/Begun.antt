-- ===== src/Cli/Begun.antt =====
-- What `execute` of cli/src/main.rs has made when the polling of logs starts.
use Prim.Native.String.{String}
use parity_bridge.Base.{ℕ, ◌≡◌, refl, subst, Option, none, some, Bool, true, false, List}
use parity_bridge.Base.Bytes.{Bytes}
use parity_bridge.Config as Config
use parity_bridge.Config.{Config}
use parity_bridge.Config.Load as Load
use parity_bridge.Contracts.{Contracts}
use parity_bridge.Database as Database
use parity_bridge.Database.{State, TomlFileDatabase}
use parity_bridge.Error.{Error, Result, ok, err, msg, text}
use parity_bridge.Message.{BigEndian}
use parity_bridge.Os.{Os}
use parity_bridge.Web3.{Web3, Net, main, side}
use parity_bridge.MainContract as MainContract
use parity_bridge.MainContract.{MainContract}
use parity_bridge.SideContract as SideContract
use parity_bridge.SideContract.{SideContract}
use parity_bridge.SideToMainSignatures.{JoinAll}
use parity_bridge.Bridge.Start as Start
use parity_bridge.Cli.Crates.{Runtime, Outcome, continue, lift, Args}
use parity_bridge.Cli.{Started, start_bridge, connect_both, start}

-- What holds of the value, where there is one.
pub record Always {E A W : Type 0} (P : A → Type 0) (x : Outcome E A W) : Type 0 where
  pub on : (a : A) (w : W) → x ≡ some (ok a, w) → P a

none-Always : {E A W : Type 0} (P : A → Type 0) → Always {E = E} {W = W} P none
none-Always P = record { on = λ a w e. cc }

err-Always : {E A W : Type 0} (P : A → Type 0) (x : E) (w : W) → Always P (some (err x, w))
err-Always P x w = record { on = λ a v e. cc }

ok-Always :
    {E A W : Type 0} (P : A → Type 0) (a : A) (w : W) → P a → Always {E = E} P (some (ok a, w))
ok-Always P a w h = record { on = λ b v e. let same : a ≡ b = cc in subst P same h }

continue-Always :
    {E A B W : Type 0} (P : B → Type 0) (x : Outcome E A W) (k : A → W → Outcome E B W)
    → ((a : A) (w : W) → Always P (k a w))
    → Always P (continue x k)
unfolding continue
continue-Always P none k h = none-Always P
continue-Always P (some (ok a, w)) k h = h a w
continue-Always P (some (err e, w)) k h = err-Always P e w

module _ (w : Web3) (be : BigEndian) (abi : Contracts w.Fault) (j : JoinAll w)
    (hash : Bytes → Bytes) (rounds : ℕ) (os : Os w.Fault) (from_hex : String → Result w.Fault Bytes)
    (config_from_str : String → Result w.Fault Load.Config)
    (state_from_str : String → Result w.Fault State) (to_string : State → String)
    (runtime : Runtime w.Fault) where
  open w use {World, Fault}
  open os use {Disk}

  abbrev StartedHere : Type 0
  StartedHere =
      Started w be abi j hash rounds os from_hex config_from_str state_from_str to_string runtime

  -- The bridge is made of the state in the database.
  abbrev pub Begun : StartedHere → Type 0
  Begun s =
      Start.new w be abi j hash rounds s.database.state s.main_contract s.side_contract
      ≡ some s.bridge

  made-Begun :
      (database : TomlFileDatabase) (main_contract : MainContract) (side_contract : SideContract)
      (bridge : Option (Start.Running w be abi j hash rounds)) (around : Net World × Disk)
      → Start.new w be abi j hash rounds database.state main_contract side_contract ≡ bridge
      → let made : Outcome (Error Fault) StartedHere (Net World × Disk) = elim bridge [
        | none ↦ none
        | some bridge ↦ some (
          ok (record {
            database = database;
            main_contract = main_contract;
            side_contract = side_contract;
            bridge = bridge;
          }),
          around,
        )
      ] in
        Always Begun made
  made-Begun database main_contract side_contract none around e = none-Always Begun
  made-Begun database main_contract side_contract (some b) around e = ok-Always Begun _ around e

  start_bridge-Begun :
      (config : Config) (database : TomlFileDatabase) (around : Net World × Disk)
      → Always Begun (
          start_bridge w be abi j hash rounds os from_hex config_from_str state_from_str to_string
            runtime config database around)
  unfolding start_bridge Database.read
  start_bridge-Begun config database (net, disk) =
      let main_contract = MainContract.new main config database.state in
      let side_contract = SideContract.new side config database.state in
      continue-Always Begun _ _ λ _ _. continue-Always Begun _ _ λ _ around.
        made-Begun database main_contract side_contract
          (Start.new w be abi j hash rounds database.state main_contract side_contract) around refl

  connect_both-Begun :
      (config : Config) (path : String) (around : Net World × Disk)
      → Always Begun (
          connect_both w be abi j hash rounds os from_hex config_from_str state_from_str to_string
            runtime config path around)
  unfolding connect_both
  connect_both-Begun config path around = continue-Always Begun _ _ λ _ _.
      continue-Always Begun _ _ λ _ _.
        continue-Always Begun _ _ λ database around. start_bridge-Begun config database around

  core-Begun :
      (core : Bool) (config : Config) (path : String) (around : Net World × Disk)
      → let begun : Outcome (Error Fault) StartedHere (Net World × Disk) = elim core [
        | true ↦
            connect_both w be abi j hash rounds os from_hex config_from_str state_from_str to_string
              runtime config path around
        | false ↦ none
      ] in
        Always Begun begun
  core-Begun true config path around = connect_both-Begun config path around
  core-Begun false config path around = none-Always Begun

  parsed-Begun :
      (r : Result String Args) (net : Net World) (disk : Disk)
      → let begun : Outcome (Error Fault) StartedHere (Net World × Disk) = elim r [
        | err usage ↦ some (err (msg (text usage)), (net, disk))
        | ok args ↦
            continue
              (lift
                (Config.load os from_hex config_from_str args.arg_config disk)
                (λ disk. (net, disk)))
              λ config around. elim runtime.core [
                | true ↦
                    connect_both w be abi j hash rounds os from_hex config_from_str state_from_str
                      to_string runtime config args.arg_database around
                | false ↦ none
              ]
      ] in
        Always Begun begun
  parsed-Begun (err usage) net disk = err-Always Begun _ _
  parsed-Begun (ok args) net disk =
      continue-Always Begun _ _
        λ config around. core-Begun runtime.core config args.arg_database around

  -- The bridge that is started is made of the state in the database.
  pub start-Begun :
      (command : List String) (around : Net World × Disk)
      → Always Begun (
          start w be abi j hash rounds os from_hex config_from_str state_from_str to_string runtime
            command around)
  unfolding start
  start-Begun command (net, disk) = parsed-Begun (runtime.parse_args command) net disk
