-- ===== src/Deploy/Dump.antt =====
-- What `DeployedContract::dump_info` of bridge/src/deploy.rs leaves on the disk.
use Prim.Native.String.{String}
use parity_bridge.Base.{
  ◌≡◌, ◌≢◌, ◌∙◌, inl, inr, refl, sym, ap, subst, Option, none, some, Bool, true, false, List, [],
  ◌∷◌, ◌++◌, All, All-map, if◌then◌else◌, Bool-cases, length,
}
use parity_bridge.Base.Bytes.{Bytes, same_bytes, same_bytes_self}
use parity_bridge.Error.{or_err-world, or_err-ok, Error, Result, ok, err, io, and_then, or_err}
use parity_bridge.Os.{Os, Folders}
use parity_bridge.Deploy.Contract.{DeployedContract, as_bytes, slice_from, new}
use parity_bridge.Web3.{TransactionReceipt}
use parity_bridge.Deploy.Made.{new-Describes}
use parity_bridge.Deploy.Info.{
  Versions, first_files, last_files, write_file, write_files, write_last, write_rest, prepare,
  dump_info,
}

-- The documented behaviour of files: `File::create` makes an empty file at the path, `write_all`
-- fills it, and neither changes a file elsewhere.
pub record IsLawful {X : Type 0} (os : Os X) (folders : Folders os) : Type 0 where
  pub content : folders.FilePath → os.Disk → Option Bytes
  pub path_of : os.File → folders.FilePath
  pub created :
      (p : folders.FilePath) (d : os.Disk) (f : os.File)
      → (folders.create_file p d).0 ≡ ok f
      → (path_of f ≡ p) × (content p (folders.create_file p d).1 ≡ some [])
  pub created_apart :
      (p q : folders.FilePath) (d : os.Disk)
      → q ≢ p
      → content q (folders.create_file p d).1 ≡ content q d
  pub written :
      (f : os.File) (t : Bytes) (d : os.Disk)
      → (folders.write_bytes f t d).0 ≡ ok tt
      → content (path_of f) d ≡ some []
      → content (path_of f) (folders.write_bytes f t d).1 ≡ some t
  pub written_apart :
      (f : os.File) (t : Bytes) (q : folders.FilePath) (d : os.Disk)
      → q ≢ path_of f
      → content q (folders.write_bytes f t d).1 ≡ content q d
  pub join_injective :
      (dir : folders.FilePath) (a b : Bytes) → folders.join dir a ≡ folders.join dir b → a ≡ b

-- What the files of a deployment hold, by their names.
pub record Written (versions : Versions) (to_hex : Bytes → Bytes) (c : DeployedContract)
    (arguments : Bytes) (at : String → Option Bytes) : Type 0 where
  pub bridge_version : at "bridge_version" ≡ some versions.bridge_version
  pub commit_hash : at "commit_hash" ≡ some versions.commit_hash
  pub compiler : at "compiler" ≡ some versions.compiler
  pub optimization : at "optimization" ≡ some (as_bytes "yes")
  pub contract_name : at "contract_name" ≡ some c.contract_name
  pub contract_address : at "contract_address" ≡ some c.contract_address
  pub contract_source : at "contract_source.sol" ≡ some c.contract_source
  pub transaction_hash : at "transaction_hash" ≡ some (to_hex c.receipt.transaction_hash)
  pub deployed_bytecode : at "deployed_bytecode" ≡ some c.bytecode_hex
  pub constructor_arguments : at "constructor_arguments_bytecode" ≡ some arguments
  pub abi : at "abi" ≡ some c.abi

-- No file has the name, and no two files have the same name.
abbrev absent : Bytes → List (Bytes × Bytes) → Bool
absent n [] = true
absent n ((m, _) ∷ files) = let rest = absent n files in if same_bytes n m then false else rest

abbrev fresh : List (Bytes × Bytes) → Bool
fresh [] = true
fresh ((n, _) ∷ files) = let rest = fresh files in if absent n files then rest else false

abbrev Fresh : List (Bytes × Bytes) → Type 0
Fresh [] = Unit {0}
Fresh ((n, _) ∷ files) = All (λ x. n ≢ x.0) files × Fresh files

absent_sound :
    (n : Bytes) (files : List (Bytes × Bytes)) → absent n files ≡ true → All (λ x. n ≢ x.0) files
absent_sound n [] h = tt
absent_sound n ((m, t) ∷ files) h = elim (Bool-cases (same_bytes n m)) [
  | inl e ↦ let bad = rw e at h in cc
  | inr e ↦
      (λ same. let yes = rw same at (same_bytes_self n) in cc, absent_sound n files (rw e at h))
]

fresh_sound : (files : List (Bytes × Bytes)) → fresh files ≡ true → Fresh files
fresh_sound [] h = tt
fresh_sound ((n, t) ∷ files) h = elim (Bool-cases (absent n files)) [
  | inl e ↦ (absent_sound n files e, fresh_sound files (rw e at h))
  | inr e ↦ let bad = rw e at h in cc
]

all-Fresh :
    (versions : Versions) (to_hex : Bytes → Bytes) (c : DeployedContract) (arguments : Bytes)
    → Fresh (first_files versions to_hex c ++ last_files c arguments)
unfolding first_files last_files
all-Fresh versions to_hex c arguments =
    fresh_sound (first_files versions to_hex c ++ last_files c arguments) refl

module _ {X : Type 0} (os : Os X) (folders : Folders os) (law : IsLawful os folders) where
  open os use {Disk, File}
  open folders use {FilePath, join, create_file, write_bytes}

  filled :
      (p : FilePath) (t : Bytes) (made : Result X File) (d : Disk)
      → ((f : File) → made ≡ ok f → (law.path_of f ≡ p) × (law.content p d ≡ some []))
      → let r : Result (Error X) (Unit {0}) × Disk =
          and_then (or_err io (made, d)) λ file d. or_err io (write_bytes file t d) in
        r.0 ≡ ok tt
        → (law.content p r.1 ≡ some t)
          × ((q : FilePath) → q ≢ p → law.content q r.1 ≡ law.content q d)
  filled p t (err e) d fact h = cc
  filled p t (ok f) d fact h =
      let (at, empty) = fact f refl in
      let e = or_err-world io (write_bytes f t d) in
      (
        rw (e, ← at) (law.written f t d (or_err-ok io (write_bytes f t d) h) (rw at empty)),
        λ q apart. rw e (law.written_apart f t q d (rw at apart)),
      )

  file-Writes :
      (dir : FilePath) (name t : Bytes) (d : Disk)
      → let r = write_file os folders dir name t d in
        r.0 ≡ ok tt
        → (law.content (join dir name) r.1 ≡ some t)
          × ((q : FilePath) → q ≢ join dir name → law.content q r.1 ≡ law.content q d)
  unfolding write_file
  file-Writes dir name t d h =
      let p = join dir name in
      let (here, else_where) =
        filled p t (create_file p d).0 (create_file p d).1 (λ f e. law.created p d f e) h in
      (here, λ q apart. else_where q apart ∙ law.created_apart p q d apart)

  -- What is written to files of different names stays.
  abbrev Stored : FilePath → Disk → List (Bytes × Bytes) → Type 0
  Stored dir d = All (λ x. law.content (join dir x.0) d ≡ some x.1)

  chained-Writes :
      (dir : FilePath) (name t : Bytes) (files : List (Bytes × Bytes))
      (made : Result (Error X) (Unit {0})) (d0 d : Disk)
      → (made ≡ ok tt
          → (law.content (join dir name) d ≡ some t)
            × ((q : FilePath) → q ≢ join dir name → law.content q d ≡ law.content q d0))
      → ((write_files os folders dir files d).0 ≡ ok tt
          → Stored dir (write_files os folders dir files d).1 files
            × ((q : FilePath)
                → All (λ x. q ≢ join dir x.0) files
                → law.content q (write_files os folders dir files d).1 ≡ law.content q d))
      → All (λ x. name ≢ x.0) files
      → let r : Result (Error X) (Unit {0}) × Disk =
          and_then (made, d) λ _ d. write_files os folders dir files d in
        r.0 ≡ ok tt
        → Stored dir r.1 ((name, t) ∷ files)
          × ((q : FilePath)
              → All (λ x. q ≢ join dir x.0) ((name, t) ∷ files)
              → law.content q r.1 ≡ law.content q d0)
  chained-Writes dir name t files (err e) d0 d first rest new h = cc
  chained-Writes dir name t files (ok _) d0 d first rest new h =
      let (here, apart) = first refl in
      let (stored, kept) = rest h in
      (
        (
          kept (join dir name) (
                All-map (λ x. name ≢ x.0) _ files (λ x n e. n (law.join_injective dir name x.0 e))
                  new)
              ∙ here,
          stored,
        ),
        λ q away. kept q away.1 ∙ apart q away.0,
      )

  files-Writes :
      (dir : FilePath) (files : List (Bytes × Bytes)) (d : Disk)
      → Fresh files
      → let r = write_files os folders dir files d in
        r.0 ≡ ok tt
        → Stored dir r.1 files
          × ((q : FilePath)
              → All (λ x. q ≢ join dir x.0) files
              → law.content q r.1 ≡ law.content q d)
  unfolding write_files
  files-Writes dir [] d new h = (tt, λ q away. refl)
  files-Writes dir ((name, t) ∷ files) d (here, new) h =
      let (r, d') = write_file os folders dir name t d in
      chained-Writes dir name t files r d d' (file-Writes dir name t d)
        (files-Writes dir files d' new) here h

  after-append :
      (dir : FilePath) (xs ys : List (Bytes × Bytes)) (x : Result (Error X) (Unit {0}) × Disk)
      → ((d : Disk)
          → write_files os folders dir (xs ++ ys) d
            ≡ and_then (write_files os folders dir xs d) λ _ d. write_files os folders dir ys d)
      → ◌≡◌ {A = Result (Error X) (Unit {0}) × Disk}
          (and_then x λ _ d. write_files os folders dir (xs ++ ys) d)
          (and_then
            (and_then x λ _ d. write_files os folders dir xs d)
            λ _ d. write_files os folders dir ys d)
  after-append dir xs ys (ok _, d) same = same d
  after-append dir xs ys (err e, d) same = refl

  files-append :
      (dir : FilePath) (xs ys : List (Bytes × Bytes)) (d : Disk)
      → write_files os folders dir (xs ++ ys) d
        ≡ and_then (write_files os folders dir xs d) λ _ d. write_files os folders dir ys d
  unfolding write_files
  files-append dir [] ys d = refl
  files-append dir ((name, t) ∷ xs) ys d =
      after-append dir xs ys (write_file os folders dir name t d) (files-append dir xs ys)

  module _ (versions : Versions) (to_hex : Bytes → Bytes) (c : DeployedContract) (dir : FilePath)
      (arguments : Bytes)
      (sliced : slice_from (length c.bytecode_hex) c.contract_creation_code_hex
        ≡ some arguments) where
    rest_of :
        (x : Result (Error X) (Unit {0}) × Disk)
        → let r = write_rest os folders c dir x in
          let whole : Result (Error X) (Unit {0}) × Disk =
            and_then x λ _ d. write_files os folders dir (last_files c arguments) d in
          r ≡ (some whole.0, whole.1)
    unfolding write_rest write_last
    rest_of (ok _, d) = rw (sliced, write_last)
    rest_of (err e, d) = refl

    -- Where the slice does not panic, all files are written in one go.
    whole : Disk → Result (Error X) (Unit {0}) × Disk
    whole disk = and_then (prepare os folders dir disk) λ _ d.
        write_files os folders dir (first_files versions to_hex c ++ last_files c arguments) d

    dump_info-whole :
        (disk : Disk)
        → dump_info os folders versions to_hex c dir disk ≡ (some (whole disk).0, (whole disk).1)
    unfolding dump_info whole
    dump_info-whole disk =
        let first = first_files versions to_hex c in
        let last = last_files c arguments in
        let x = prepare os folders dir disk in
        rest_of (and_then x λ _ d. write_files os folders dir first d)
        ∙ ap (λ (y : Result (Error X) (Unit {0}) × Disk). (some y.0, y.1))
            (sym (after-append dir first last x (files-append dir first last)))

    whole-Stored :
        (x : Result (Error X) (Unit {0}) × Disk) (files : List (Bytes × Bytes))
        → Fresh files
        → let r : Result (Error X) (Unit {0}) × Disk =
            and_then x λ _ d. write_files os folders dir files d in
          r.0 ≡ ok tt → Stored dir r.1 files
    whole-Stored (ok _, d) files new h = (files-Writes dir files d new h).0
    whole-Stored (err e, d) files new h = cc

  Stored-Written :
      (versions : Versions) (to_hex : Bytes → Bytes) (c : DeployedContract) (arguments : Bytes)
      (dir : FilePath) (d : Disk)
      → Stored dir d (first_files versions to_hex c ++ last_files c arguments)
      → Written versions to_hex c arguments (λ name. law.content (join dir (as_bytes name)) d)
  unfolding first_files last_files
  Stored-Written versions to_hex c arguments dir d
        (a, (b, (e, (f, (g, (h, (i, (j, (k, (l, (m, _))))))))))) =
      record {
        bridge_version = a;
        commit_hash = b;
        compiler = e;
        optimization = f;
        contract_name = g;
        contract_address = h;
        contract_source = i;
        transaction_hash = j;
        deployed_bytecode = k;
        constructor_arguments = l;
        abi = m;
      }

  -- Over lawful files, the information of a contract that `DeployedContract::new` has made is
  -- written without a panic. Where no error comes, each of the eleven files has its content: the
  -- texts that `new` was given, the address and the transaction of the receipt, and what is left of
  -- the creation code behind the bytecode, which is its beginning.
  pub dump_info-Written :
      (versions : Versions) (to_hex : Bytes → Bytes) (name source abi bytecode creation : Bytes)
      (receipt : TransactionReceipt) (c : DeployedContract) (dir : FilePath) (disk : Disk)
      → new to_hex name source abi bytecode creation receipt ≡ some c
      → let (r, disk') = dump_info os folders versions to_hex c dir disk in
        (r ≢ none)
        × (r ≡ some (ok tt)
            → (arguments : Bytes) × (address : Bytes) × (creation ≡ bytecode ++ arguments)
              × (receipt.contract_address ≡ some address)
              × Written versions to_hex
                  (record {
                    contract_name = name;
                    contract_address = to_hex address;
                    contract_source = source;
                    abi = abi;
                    bytecode_hex = bytecode;
                    contract_creation_code_hex = creation;
                    receipt = receipt;
                  })
                  arguments
                  (λ file. law.content (join dir (as_bytes file)) disk'))
  dump_info-Written versions to_hex name source abi bytecode creation receipt c dir disk made =
      let (d, n, s, a, rec) =
        new-Describes to_hex name source abi bytecode creation receipt c made in
      let sliced : slice_from (length c.bytecode_hex) c.contract_creation_code_hex
          ≡ some d.arguments =
        rw (d.bytecode_kept, d.created) d.sliced in
      let e = dump_info-whole versions to_hex c dir d.arguments sliced disk in
      let same : c ≡ record {
        contract_name = name;
        contract_address = to_hex d.address;
        contract_source = source;
        abi = abi;
        bytecode_hex = bytecode;
        contract_creation_code_hex = creation;
        receipt = receipt;
      } =
        λ i. record {
          contract_name = n i;
          contract_address = d.address_kept i;
          contract_source = s i;
          abi = a i;
          bytecode_hex = d.bytecode_kept i;
          contract_creation_code_hex = d.created i;
          receipt = rec i;
        } in
      rw e (
        λ bad. cc,
        λ fine. (
          d.arguments,
          d.address,
          d.split,
          ap (λ r. r.contract_address) (sym rec) ∙ d.deployed_at,
          subst
              (λ k. Written versions to_hex k d.arguments (λ file.
                law.content (join dir (as_bytes file))
                  (whole versions to_hex c dir d.arguments sliced disk).1))
              same
              (Stored-Written versions to_hex c d.arguments dir _ (
                unfold whole in
                whole-Stored versions to_hex c dir d.arguments sliced (prepare os folders dir disk)
                  _ (all-Fresh versions to_hex c d.arguments) (cc))),
        ),
      )
