-- ===== src/Database/Reopen.antt =====
-- Reading back the file that a write has left (bridge/src/database.rs).
use Prim.Native.String.{String}
use parity_bridge.Base.{
  ℕ, ◌≤◌, ◌≡◌, ◌≢◌, ◌∙◌, ◌⊎◌, refl, inl, inr, Option, some, Bool-cases, if◌then◌else◌, arith,
}
use parity_bridge.Error.{
  Error, Result, ok, err, io, toml, chained, text, and_then, or_err, or_err-world,
}
use parity_bridge.Os.{Os, OpenError}
use parity_bridge.Database.{
  State, TomlFileDatabase, same_state, write_state, open_error, from_path, write,
}
use parity_bridge.Database.Write.{same_state_sound}

-- What is relied on of files: a file opened for writing keeps its text, and a text that is not
-- shorter replaces it when it is written at the start; what is read is the text.
pub record IsLawful {X : Type 0} (os : Os X) : Type 1 where
  pub content : String → os.Disk → Option String
  pub size : String → ℕ
  -- opened for writing and still at the start
  pub Fresh : os.File → String → os.Disk → Type 0
  pub opened :
      (p : String) (d : os.Disk) (f : os.File)
      → (os.open_for_write p d).0 ≡ ok f
      → let d' = (os.open_for_write p d).1 in
        Fresh f p d'
        × ((old : String) × (content p d' ≡ some old) × ((content p d ≡ some old) ⊎ (size old ≡ 0)))
  pub written :
      (f : os.File) (p t old : String) (d : os.Disk)
      → Fresh f p d
      → content p d ≡ some old
      → size old ≤ size t
      → (os.write_all f t d).0 ≡ ok tt
      → content p (os.write_all f t d).1 ≡ some t
  pub flushed : (f : os.File) (p : String) (d : os.Disk) → content p (os.flush f d).1 ≡ content p d
  pub read_back :
      (p t : String) (d : os.Disk) (f : os.File)
      → (os.open_file p d).0 ≡ ok f
      → (os.read_to_string f (os.open_file p d).1).0 ≡ ok t
      → content p d ≡ some t

module _ {X : Type 0} (os : Os X) (from_str : String → Result X State)
    (to_string : State → String) where
  open os use {Disk, File}

  abbrev as_io : X → Error X
  as_io x = io x

  -- The file could not be opened, or not be read.
  abbrev pub Unreadable : Result (OpenError X) File × Disk → Type 0
  Unreadable o =
      ((x : OpenError X) × (o.0 ≡ err x))
      ⊎ ((f : File) × (x : X) × (o.0 ≡ ok f) × ((os.read_to_string f o.1).0 ≡ err x))

  module _ (law : IsLawful os) (state : State) where
    flushed-content :
        (p : String) (f : File) (r : Result X (Unit {0}) × Disk)
        → (r.0 ≡ ok tt → law.content p r.1 ≡ some (to_string state))
        → let r' = and_then (or_err as_io r) λ _ disk. or_err io (os.flush f disk) in
          r'.0 ≡ ok tt → law.content p r'.1 ≡ some (to_string state)
    flushed-content p f (ok u, d) k h =
        rw (or_err-world as_io (os.flush f d)) (law.flushed f p d ∙ k refl)
    flushed-content p f (err e, d) k h = cc

    opened-content :
        (p : String) (o : Result X File × Disk)
        → ((f : File)
            → o.0 ≡ ok f
            → law.Fresh f p o.1
              × ((old : String) × (law.content p o.1 ≡ some old)
                  × (law.size old ≤ law.size (to_string state))))
        → let r =
            and_then
              (or_err as_io o)
              λ file disk. write_state os from_str to_string state file disk in
          r.0 ≡ ok tt → law.content p r.1 ≡ some (to_string state)
    unfolding write_state
    opened-content p (ok f, d) k h =
        let (fresh, (old, at, fits)) = k f refl in
        flushed-content p f (os.write_all f (to_string state) d)
          (law.written f p (to_string state) old d fresh at fits) h
    opened-content p (err e, d) k h = cc

    abbrev reopened : String → TomlFileDatabase
    reopened p = record { filepath = p; state = state }

    -- What follows the read.
    decoded :
        (p : String) (f : File) (r : Result X String × Disk)
        → from_str (to_string state) ≡ ok state
        → ((t : String) → r.0 ≡ ok t → t ≡ to_string state)
        → ((and_then {B = TomlFileDatabase} (or_err as_io r) λ buffer disk.
              and_then
                (or_err
                  (λ x. chained (text "Cannot parse database") (toml x))
                  (from_str buffer, disk))
                λ state disk. (ok (record { filepath = p; state = state }), disk)).0
            ≡ ok (reopened p))
          ⊎ ((x : X) × (r.0 ≡ err x))
    decoded p f (err e, d) round k = inr (e, refl)
    decoded p f (ok t, d) round k = inl (rw (k t refl, round))

    -- What follows the attempt to open the file.
    tried :
        (p : String) (o : Result (OpenError X) File × Disk)
        → from_str (to_string state) ≡ ok state
        → ((f : File) (t : String)
            → o.0 ≡ ok f
            → (os.read_to_string f o.1).0 ≡ ok t
            → t ≡ to_string state)
        → ((and_then {B = TomlFileDatabase}
              (or_err (open_error os from_str to_string p) o)
              λ file disk. and_then (or_err as_io (os.read_to_string file disk)) λ buffer disk.
                and_then
                  (or_err
                    (λ x. chained (text "Cannot parse database") (toml x))
                    (from_str buffer, disk))
                  λ state disk. (ok (record { filepath = p; state = state }), disk)).0
            ≡ ok (reopened p))
          ⊎ Unreadable o
    tried p (err e, d) round k = inr (inl (e, refl))
    tried p (ok f, d) round k = elim (decoded p f (os.read_to_string f d) round (λ t. k f t refl)) [
      | inl h ↦ inl h
      | inr (x, e) ↦ inr (inr (f, x, refl, e))
    ]

    from_path-cases :
        (p : String) (d : Disk)
        → from_str (to_string state) ≡ ok state
        → law.content p d ≡ some (to_string state)
        → ((from_path os from_str to_string p d).0 ≡ ok (reopened p))
          ⊎ Unreadable (os.open_file p d)
    unfolding from_path
    from_path-cases p d round at =
        tried p (os.open_file p d) round λ f t e r. let c = law.read_back p t d f e r in cc

    write-content :
        (db : TomlFileDatabase) (disk : Disk)
        → db.state ≢ state
        → ((old : String)
            → law.content db.filepath disk ≡ some old
            → law.size old ≤ law.size (to_string state))
        → let (r, db', disk') = write os from_str to_string state db disk in
          r ≡ ok tt
          → (db' ≡ reopened db.filepath) × (law.content db.filepath disk' ≡ some (to_string state))
    unfolding write
    write-content db disk new fits = elim (Bool-cases (same_state db.state state)) [
      | inl e ↦ absurd (new (same_state_sound db.state state e))
      | inr e ↦
          rw (e, if◌then◌else◌)
            λ h. (
              refl,
              opened-content db.filepath (os.open_for_write db.filepath disk)
                  (λ f o.
                    let (fresh, (old, at, was)) = law.opened db.filepath disk f o in
                    (
                      fresh,
                      (old, at, elim was [ inl same ↦ fits old same | inr empty ↦ omega arith ]),
                    ))
                  h,
            )
    ]

  -- After a write of a new state that succeeds, over lawful files, a printer of TOML that the
  -- parser reads back, and a file whose text was not longer than the new one, `from_path` at the
  -- same path gives the database that the write has left, unless the file cannot be opened or not
  -- be read.
  pub write-from_path :
      (law : IsLawful os) (state : State) (db : TomlFileDatabase) (disk : Disk)
      → from_str (to_string state) ≡ ok state
      → db.state ≢ state
      → ((old : String)
          → law.content db.filepath disk ≡ some old
          → law.size old ≤ law.size (to_string state))
      → (write os from_str to_string state db disk).0 ≡ ok tt
      → let (_, db', disk') = write os from_str to_string state db disk in
        ((from_path os from_str to_string db.filepath disk').0 ≡ ok db')
        ⊎ Unreadable (os.open_file db.filepath disk')
  write-from_path law state db disk round new fits h =
      let (_, db', disk') = write os from_str to_string state db disk in
      let (kept, at) = write-content law state db disk new fits h in
      rw kept (from_path-cases law state db.filepath disk' round at)
