-- ===== src/Examples/Deployer.antt =====
-- Both contracts are deployed by a scripted node, on a disk that keeps nothing.
use Prim.Native.String.{String}
use parity_bridge.Base.{◌≡◌, refl, none, some, Bool, true, false, List, [], ◌∷◌}
use parity_bridge.Base.Bytes.{Bytes}
use parity_bridge.Database.{State}
use parity_bridge.Error.{Error, Result, ok, err}
use parity_bridge.Os.{Os, Folders}
use parity_bridge.Web3.{Net, await, request}
use parity_bridge.Deploy.Chains.{poll_main}
use parity_bridge.Deploy.Side.{poll_side}
use parity_bridge.Deploy.Contract.{Compiled}
use parity_bridge.Cli.Crates.{Outcome, continue}
use parity_bridge.Deployer.{execute}
use parity_bridge.Deployer.Sent.{Done, execute-Done}
use parity_bridge.Examples.Node.{Reply, scripted, script, tick, number_is, hash_is, receipt_is}
use parity_bridge.Examples.Cli.{polls_once, polls_once-IsLawful, config_of_text, state_of_text}
use parity_bridge.Examples.Deploy.{compiled, versions}
use parity_bridge.Examples.Running.{receipt_in_20}

abbrev same_code : Compiled
same_code = record compiled { side_bridge_bin = 1 ∷ 2 ∷ [] }

abbrev no_disk : Os scripted.Fault
no_disk = record {
  Disk = Unit {0};
  File = Unit {0};
  open_file = λ path disk. (ok tt, disk);
  read_to_string = λ file disk. (ok "text", disk);
  open_for_write = λ path disk. (ok tt, disk);
  write_all = λ file s disk. (ok tt, disk);
  flush = λ file disk. (ok tt, disk);
}

abbrev no_folders : Folders no_disk
no_folders = record {
  FilePath = Unit {0};
  from_text = λ t. tt;
  from_string = λ s. tt;
  join = λ dir name. tt;
  exists = λ dir disk. false;
  remove_dir_all = λ dir disk. (ok tt, disk);
  create_dir = λ dir disk. (ok tt, disk);
  create_file = λ p disk. (ok tt, disk);
  write_bytes = λ file t disk. (ok tt, disk);
}

abbrev code_of_text : String → Result scripted.Fault Bytes
code_of_text s = ok (1 ∷ 2 ∷ [])

abbrev to_string : State → String
to_string s = "state"

-- The answers to one deployment.
abbrev mined : List Reply → List Reply
mined replies =
    number_is 10
    ∷ hash_is (6 ∷ [])
    ∷ tick
    ∷ number_is 40
    ∷ receipt_is (some receipt_in_20)
    ∷ replies

abbrev both_mined : Net scripted.World
both_mined = script (mined (mined []))

-- What a run that succeeds yields, and the world at its end.
abbrev succeeded : {E A W : Type 0} → Outcome E A W → Bool
succeeded none = false
succeeded (some (ok a, w)) = true
succeeded (some (err e, w)) = false

abbrev value_of : {E A W : Type 0} → Outcome E A W → A → A
value_of none a = a
value_of (some (ok b, w)) a = b
value_of (some (err e, w)) a = a

abbrev end_of : {E A W : Type 0} → Outcome E A W → W → W
end_of none v = v
end_of (some (ok a, w)) v = w
end_of (some (err e, w)) v = v

succeeded_lem :
    {E A W : Type 0} (x : Outcome E A W) (a : A) (v : W)
    → succeeded x ≡ true
    → x ≡ some (ok (value_of x a), end_of x v)
succeeded_lem none a v h = cc
succeeded_lem (some (ok b, w)) a v h = refl
succeeded_lem (some (err e, w)) a v h = cc

deployed : Outcome (Error scripted.Fault) String (Net scripted.World × Unit {0})
deployed =
    execute scripted same_code versions 9 no_disk no_folders code_of_text config_of_text
      state_of_text to_string polls_once [] (both_mined, tt)

deployed_well : succeeded deployed ≡ true
unfolding deployed execute continue await request poll_main poll_side
deployed_well = refl

execute-Done_example :
    Done scripted same_code versions 9 no_disk no_folders code_of_text config_of_text state_of_text
      to_string polls_once polls_once-IsLawful [] both_mined tt
      (value_of deployed "")
      (end_of deployed (both_mined, tt))
unfolding deployed
execute-Done_example =
    execute-Done scripted same_code versions 9 no_disk no_folders code_of_text config_of_text
      state_of_text to_string polls_once polls_once-IsLawful [] both_mined tt (value_of deployed "")
      (end_of deployed (both_mined, tt)) (succeeded_lem deployed "" (both_mined, tt) deployed_well)
