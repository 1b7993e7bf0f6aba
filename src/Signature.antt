-- ===== src/Signature.antt =====
-- ECDSA signatures and their bytes: bridge/src/signature.rs. `H256` is a sequence of 32 bytes.
pub mod Roundtrip
use parity_bridge.Base.{ℕ, suc, ◌≡◌, List, [], ◌∷◌, length, replicate, if◌then◌else◌, ◌==◌}
use parity_bridge.Base.Bytes.{Bytes, slice, write_slice, byte_or}
use parity_bridge.Error.{Error, Result, ok, err, msg, about}

abbrev pub signature_length : ℕ
signature_length = 65

pub record Signature : Type 0 where
  pub v : ℕ
  pub r : Bytes
  pub s : Bytes

-- What the types `[u8; 32]` of the fields say.
pub record IsValid (sig : Signature) : Type 0 where
  pub length_r : length sig.r ≡ 32
  pub length_s : length sig.s ≡ 32

module _ {X : Type 0} where
  unfoldable pub from_bytes : Bytes → Result (Error X) Signature
  from_bytes bytes =
      if length bytes == signature_length
      then ok (record { v = byte_or bytes 64 0; r = slice 0 32 bytes; s = slice 32 64 bytes })
      else err (msg (about "`bytes`.len() must be {}" (signature_length ∷ [])))

unfoldable pub to_bytes : Signature → Bytes
to_bytes sig =
    let result = replicate signature_length 0 in
    let result = write_slice 0 32 sig.r result in
    let result = write_slice 32 64 sig.s result in write_slice 64 65 (sig.v ∷ []) result

-- `ethabi::encode(&[Token::Bytes(_)])` of the ABI library
unfoldable pub to_payload : (Bytes → Bytes) → Signature → Bytes
unfolding to_bytes
to_payload encode sig = encode (to_bytes sig)
