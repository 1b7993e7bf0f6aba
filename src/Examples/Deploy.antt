-- ===== src/Examples/Deploy.antt =====
-- The contract on main is deployed by a scripted node, and its files are written to a small disk.
use parity_bridge.Base.{
  ℕ, ◌≡◌, ◌≢◌, refl, Option, none, some, false, [], ◌∷◌, ◌++◌, if◌then◌else◌, Bool-cases, inl, inr,
  arith,
}
use parity_bridge.Base.Bytes.{Bytes, same_bytes, same_bytes_self, same_bytes_sound}
use parity_bridge.Async.{ready, loop}
use parity_bridge.Async.Ending.{Ends}
use parity_bridge.Config.{Config, NodeConfig, default_transactions}
use parity_bridge.Error.{ok}
use parity_bridge.Os.{Os, Folders}
use parity_bridge.Web3.{main, side}
use parity_bridge.Deploy.Contract.{Compiled, as_bytes, DeployedContract}
use parity_bridge.Deploy.Chains.{main_plan, side_plan, new_main, poll_main}
use parity_bridge.Deploy.Side.{new_side, poll_side}
use parity_bridge.Deploy.Once.{
  DeploysOnce, main_polls, side_polls, main-DeploysOnce, side-DeploysOnce,
}
use parity_bridge.Deploy.Rounds as Rounds
use parity_bridge.Deploy.Rounds.{not_deployed}
use parity_bridge.Deploy.Rounds.Ends.{deploy_poll-Ends}
use parity_bridge.Deploy.Contract as Contract
use parity_bridge.Deploy.Info.{Versions, dump_info}
use parity_bridge.Deploy.Dump.{IsLawful, Written, dump_info-Written}
use parity_bridge.Examples.Node.{scripted, scripted_finite}
use parity_bridge.Examples.Running.{receipt_in_20, mined_in_20}

-- Hexadecimal text is the bytes themselves, and the constructors append one argument.
abbrev pub compiled : Compiled
compiled = record {
  bridge_sol = 8 ∷ [];
  main_bridge_abi = 9 ∷ [];
  main_bridge_bin = 1 ∷ 2 ∷ [];
  side_bridge_abi = 9 ∷ [];
  side_bridge_bin = 1 ∷ 3 ∷ [];
  main_constructor = λ code n accounts gas total deposit. code ++ n ∷ [];
  side_constructor = λ code n accounts gas. code ++ n ∷ [];
  to_hex = λ b. b;
}

abbrev pub node_with : Bytes → NodeConfig
node_with bin = record {
  contract = record { bin = bin };
  http = "localhost";
  request_timeout = 5;
  poll_interval = 1;
  required_confirmations = 12;
}

abbrev pub config : Config
config = record {
  address = 3 ∷ [];
  main = node_with (1 ∷ 2 ∷ []);
  side = node_with (1 ∷ 3 ∷ []);
  authorities = record { accounts = (3 ∷ []) ∷ []; required_signatures = 1 };
  txs = default_transactions;
  estimated_gas_cost_of_withdraw = 100;
  max_total_main_contract_balance = 1000;
  max_single_deposit_value = 10;
}

abbrev made_on_main : DeployedContract
made_on_main = record {
  contract_name = 77 ∷ 97 ∷ 105 ∷ 110 ∷ 66 ∷ 114 ∷ 105 ∷ 100 ∷ 103 ∷ 101 ∷ [];
  contract_address = 2 ∷ [];
  contract_source = 8 ∷ [];
  abi = 9 ∷ [];
  bytecode_hex = 1 ∷ 2 ∷ [];
  contract_creation_code_hex = 1 ∷ 2 ∷ 1 ∷ [];
  receipt = receipt_in_20;
}

deployed_on_main :
    (poll_main compiled scripted 9 (new_main compiled scripted config main, mined_in_20)).0
    ≡ ready made_on_main
unfolding poll_main new_main
deployed_on_main = refl

main-DeploysOnce_example :
    let (p, _, net') =
      poll_main compiled scripted 9
        (main_polls scripted compiled 9 0 (new_main compiled scripted config main, mined_in_20)) in
    DeploysOnce scripted compiled (main_plan compiled config main) [] 9 p net'
main-DeploysOnce_example = main-DeploysOnce scripted compiled 9 0 config main mined_in_20

side-DeploysOnce_example :
    let (p, _, net') =
      poll_side compiled scripted 9
        (side_polls scripted compiled 9 1 (new_side compiled scripted config side, mined_in_20)) in
    DeploysOnce scripted compiled (side_plan compiled config side) [] 9 p net'
side-DeploysOnce_example = side-DeploysOnce scripted compiled 9 1 config side mined_in_20

deploy_poll-Ends_example :
    let plan = main_plan compiled config main in
    let (p, (_, net')) = Rounds.poll scripted (λ b. b) plan 9 (not_deployed, mined_in_20) in
    Ends 5 p (scripted_finite.budget net'.world)
    × (Rounds.poll scripted (λ b. b) plan 9 (not_deployed, mined_in_20)
        ≡ loop 3 (Rounds.step scripted (λ b. b) plan 9) (not_deployed, mined_in_20))
deploy_poll-Ends_example =
    deploy_poll-Ends scripted (λ b. b) (main_plan compiled config main) scripted_finite 9
      not_deployed mined_in_20 (omega arith) (omega arith)

-- A disk is what its paths hold.
abbrev Paths : Type 0
Paths = Bytes → Option Bytes

abbrev put : Bytes → Bytes → Paths → Paths
put p t d q = if same_bytes q p then some t else d q

abbrev paths : Os ℕ
paths = record {
  Disk = Paths;
  File = Bytes;
  open_file = λ path disk. (ok [], disk);
  read_to_string = λ file disk. (ok "", disk);
  open_for_write = λ path disk. (ok [], disk);
  write_all = λ file s disk. (ok tt, disk);
  flush = λ file disk. (ok tt, disk);
}

abbrev folders : Folders paths
folders = record {
  FilePath = Bytes;
  from_text = λ t. t;
  from_string = λ s. as_bytes s;
  join = λ dir name. name;
  exists = λ dir disk. false;
  remove_dir_all = λ dir disk. (ok tt, disk);
  create_dir = λ dir disk. (ok tt, disk);
  create_file = λ p disk. (ok p, put p [] disk);
  write_bytes = λ file t disk. (ok tt, put file t disk);
}

put_self : (p t : Bytes) (d : Paths) → put p t d p ≡ some t
put_self p t d = rw (same_bytes_self p)

put_apart : (p q t : Bytes) (d : Paths) → q ≢ p → put p t d q ≡ d q
put_apart p q t d apart = elim (Bool-cases (same_bytes q p)) [
  | inl e ↦ absurd (apart (same_bytes_sound q p e))
  | inr e ↦ rw e
]

folders-IsLawful : IsLawful paths folders
folders-IsLawful = record {
  content = λ p d. d p;
  path_of = λ f. f;
  created = λ p d f e. (cc, put_self p [] d);
  created_apart = λ p q d apart. put_apart p q [] d apart;
  written = λ f t d e h. put_self f t d;
  written_apart = λ f t q d apart. put_apart f q t d apart;
  join_injective = λ dir a b e. e;
}

abbrev contract_of_7 : DeployedContract
contract_of_7 = record made_on_main { contract_name = 7 ∷ [] }

abbrev pub versions : Versions
versions = record { bridge_version = 48 ∷ []; commit_hash = 49 ∷ []; compiler = 50 ∷ [] }

made_well :
    Contract.new (λ b. b) (7 ∷ []) (8 ∷ []) (9 ∷ []) (1 ∷ 2 ∷ []) (1 ∷ 2 ∷ 1 ∷ []) receipt_in_20
    ≡ some contract_of_7
unfolding Contract.new
made_well = refl

dump_info-Written_example :
    let (r, disk') = dump_info paths folders versions (λ b. b) contract_of_7 (7 ∷ []) (λ p. none) in
    (r ≢ none)
    × (r ≡ some (ok tt)
        → (arguments : Bytes) × (address : Bytes) × (◌≡◌ {A = Bytes}
            (1 ∷ 2 ∷ 1 ∷ [])
            ((1 ∷ 2 ∷ []) ++ arguments))
          × (◌≡◌ {A = Option Bytes} (some (2 ∷ [])) (some address))
          × Written versions
              (λ b. b)
              (record contract_of_7 { contract_address = address })
              arguments
              (λ name. folders-IsLawful.content (as_bytes name) disk'))
dump_info-Written_example =
    dump_info-Written paths folders folders-IsLawful versions (λ b. b) (7 ∷ []) (8 ∷ []) (9 ∷ [])
      (1 ∷ 2 ∷ []) (1 ∷ 2 ∷ 1 ∷ []) receipt_in_20 contract_of_7 (7 ∷ []) (λ p. none) made_well
