-- ===== src/Database/Write.antt =====
-- Writing the state of a node (bridge/src/database.rs).
use Prim.Native.String.{String}
use parity_bridge.Base.{◌≡◌, refl, true, if◌then◌else◌, Bool-cases, inl, inr, arith}
use parity_bridge.Base.Bytes.{same_bytes_sound, same_bytes_self}
use parity_bridge.Error.{Result, ok}
use parity_bridge.Os.{Os}
use parity_bridge.Database.{State, TomlFileDatabase, same_state, read, write}

pub same_state_sound : (a b : State) → same_state a b ≡ true → a ≡ b
unfolding same_state
same_state_sound a b h =
    let main = same_bytes_sound a.main_contract_address b.main_contract_address in
    let side = same_bytes_sound a.side_contract_address b.side_contract_address in
    let e0 : a.main_contract_address ≡ b.main_contract_address = ground (arith, main) in
    let e1 : a.side_contract_address ≡ b.side_contract_address = ground (arith, side) in
    let e2 : a.main_deployed_at_block ≡ b.main_deployed_at_block = ground arith in
    let e3 : a.side_deployed_at_block ≡ b.side_deployed_at_block = ground arith in
    let e4 : a.last_main_to_side_sign_at_block ≡ b.last_main_to_side_sign_at_block = ground arith in
    let e5 : a.last_side_to_main_signatures_at_block ≡ b.last_side_to_main_signatures_at_block =
      ground arith in
    let e6 : a.last_side_to_main_sign_at_block ≡ b.last_side_to_main_sign_at_block = ground arith in
    cc

same_state_self : (a : State) → same_state a a ≡ true
unfolding same_state
same_state_self a = grind (arith, same_bytes_self)

module _ {X : Type 0} (os : Os X) (from_str : String → Result X State)
    (to_string : State → String) where
  -- After a write, whether or not the file could be written, the database reads as the state that
  -- was written, at the same path; and a write of the state that it has leaves the disk alone.
  pub write-read :
      (state : State) (db : TomlFileDatabase) (disk : os.Disk)
      → let (r, db', disk') = write os from_str to_string state db disk in
        (read os from_str to_string db' ≡ state)
        × (db'.filepath ≡ db.filepath)
        × (db.state ≡ state → (r ≡ ok tt) × (disk' ≡ disk))
  unfolding write read
  write-read state db disk = elim (Bool-cases (same_state db.state state)) [
    | inl e ↦ rw (e, if◌then◌else◌) (same_state_sound db.state state e, refl, λ _. (refl, refl))
    | inr e ↦
        rw (e, if◌then◌else◌)
          (refl, refl, λ same. let yes = rw same at (same_state_self db.state) in cc)
  ]
