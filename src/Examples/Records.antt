-- ===== src/Examples/Records.antt =====
-- Signatures, messages and the database.
use Prim.Native.String.{String}
use mathlib.Core.Option
use parity_bridge.Base.{
  ℕ, zero, suc, ◌≡◌, ◌≢◌, ◌⊎◌, inl, ap, ◌<◌, ◌↔◌, refl, Option, none, some, [], ◌∷◌, All, replicate,
  arith,
}
use parity_bridge.Base.Bytes.{Bytes}
use parity_bridge.Error.{Result, ok}
use parity_bridge.Os.{Os}
use parity_bridge.Database as Database
use parity_bridge.Database.{State, TomlFileDatabase}
use parity_bridge.Database.Reopen.{IsLawful, Unreadable, write-from_path}
use parity_bridge.Database.Write.{write-read}
use parity_bridge.Message as Message
use parity_bridge.Message.{MessageToMain}
use parity_bridge.Message.Roundtrip.{to_bytes-from_bytes, from_bytes-to_bytes}
use parity_bridge.Signature as Signature
use parity_bridge.Signature.{Signature}
use parity_bridge.Signature.Roundtrip.{from_bytes_iff, from_bytes-to_payload}
use parity_bridge.Examples.BigEndian.{big_endian, value_from}

abbrev ones : Bytes
ones = replicate 65 1

abbrev signature_of_ones : Signature
signature_of_ones = record { v = 1; r = replicate 32 1; s = replicate 32 1 }

from_bytes_iff_example :
    (Signature.from_bytes {X = ℕ} ones ≡ ok signature_of_ones)
    ↔ (Signature.IsValid signature_of_ones × (ones ≡ Signature.to_bytes signature_of_ones))
from_bytes_iff_example = from_bytes_iff {X = ℕ} ones signature_of_ones

-- An encoding that puts a one in front.
abbrev tag : Bytes → Bytes
tag b = 1 ∷ b

abbrev untag : Bytes → Option Bytes
untag [] = none
untag (x ∷ b) = some b

from_bytes-to_payload_example :
    Option.map (Signature.from_bytes {X = ℕ}) (untag (Signature.to_payload tag signature_of_ones))
    ≡ some (ok signature_of_ones)
from_bytes-to_payload_example =
    from_bytes-to_payload {X = ℕ} tag untag (λ b. refl) signature_of_ones
      (record { length_r = refl; length_s = refl })

abbrev message_of_7 : MessageToMain
message_of_7 = record {
  recipient = replicate 20 7;
  value = 1000;
  side_tx_hash = replicate 32 9;
  main_gas_price = 100;
}

from_bytes-to_bytes_example :
    Message.from_bytes big_endian {X = ℕ} (Message.to_bytes big_endian message_of_7)
    ≡ ok message_of_7
from_bytes-to_bytes_example = from_bytes-to_bytes big_endian {X = ℕ} message_of_7 (record {
  length_recipient = refl;
  value_fits = omega arith;
  length_hash = refl;
  gas_price_fits = omega arith;
})

abbrev zeros : Bytes
zeros = replicate 116 0

abbrev message_of_zeros : MessageToMain
message_of_zeros = record {
  recipient = replicate 20 0;
  value = 0;
  side_tx_hash = replicate 32 0;
  main_gas_price = 0;
}

zeros_are_bytes : (n : ℕ) → All (λ x. x < 256) (replicate n 0)
zeros_are_bytes zero = tt
zeros_are_bytes (suc n) = (omega arith, zeros_are_bytes n)

zeros-read : Message.from_bytes big_endian {X = ℕ} zeros ≡ ok message_of_zeros
unfolding Message.from_bytes big_endian value_from
zeros-read = refl

to_bytes-from_bytes_example :
    Message.IsValid message_of_zeros × (zeros ≡ Message.to_bytes big_endian message_of_zeros)
to_bytes-from_bytes_example =
    to_bytes-from_bytes big_endian {X = ℕ} zeros message_of_zeros (zeros_are_bytes 116) zeros-read

-- A disk with one file, whose text is all there is of it.
abbrev one_file : Os ℕ
one_file = record {
  Disk = String;
  File = Unit {0};
  open_file = λ path disk. (ok tt, disk);
  read_to_string = λ file disk. (ok disk, disk);
  open_for_write = λ path disk. (ok tt, disk);
  write_all = λ file s disk. (ok tt, s);
  flush = λ file disk. (ok tt, disk);
}

abbrev state_at : ℕ → State
state_at n = record {
  main_contract_address = 1 ∷ [];
  side_contract_address = 2 ∷ [];
  main_deployed_at_block = 5;
  side_deployed_at_block = 5;
  last_main_to_side_sign_at_block = n;
  last_side_to_main_signatures_at_block = n;
  last_side_to_main_sign_at_block = n;
}

abbrev database_at_5 : TomlFileDatabase
database_at_5 = record { filepath = "db.toml"; state = state_at 5 }

write-read_example :
    let from_str : String → Result ℕ State = λ s. ok (state_at 5) in
    let to_string : State → String = λ s. "state" in
    let (r, db', disk') =
      Database.write one_file from_str to_string (state_at 6) database_at_5 "old" in
    (Database.read one_file from_str to_string db' ≡ state_at 6)
    × (db'.filepath ≡ "db.toml")
    × (state_at 5 ≡ state_at 6 → (r ≡ ok tt) × (disk' ≡ "old"))
write-read_example =
    write-read one_file (λ s. ok (state_at 5)) (λ s. "state") (state_at 6) database_at_5 "old"

abbrev lawful_file : IsLawful one_file
lawful_file = record {
  content = λ path disk. some disk;
  size = λ s. 0;
  Fresh = λ file path disk. Unit {0};
  opened = λ p d f e. (tt, (d, refl, inl refl));
  written = λ f p t old d fresh at fits e. refl;
  flushed = λ f p d. refl;
  read_back = λ p t d f e r. cc;
}

state_5-ne-6 : state_at 5 ≢ state_at 6
state_5-ne-6 e =
    let n : ◌≡◌ {A = ℕ} 5 6 = ap (λ s. s.last_main_to_side_sign_at_block) e in omega arith

written_well :
    (Database.write one_file
      (λ s. ok (state_at 6))
      (λ s. "state")
      (state_at 6)
      database_at_5
      "old").0
    ≡ ok tt
unfolding Database.write
written_well = refl

write-from_path_example :
    let from_str : String → Result ℕ State = λ s. ok (state_at 6) in
    let to_string : State → String = λ s. "state" in
    let (_, db', disk') =
      Database.write one_file from_str to_string (state_at 6) database_at_5 "old" in
    ((Database.from_path one_file from_str to_string "db.toml" disk').0 ≡ ok db')
    ⊎ Unreadable one_file from_str to_string (one_file.open_file "db.toml" disk')
write-from_path_example =
    write-from_path one_file (λ s. ok (state_at 6)) (λ s. "state") lawful_file (state_at 6)
      database_at_5 "old" refl state_5-ne-6 (λ old e. omega arith) written_well
