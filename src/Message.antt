-- ===== src/Message.antt =====
-- The message that is relayed from `side` to `main`, and its bytes: bridge/src/message_to_main.rs.
-- The numbers are written by the `U256` of `ethereum_types`, a parameter with its two laws.
pub mod Roundtrip
pub mod Log
use parity_bridge.Base.{
  ℕ, ◌≡◌, ◌<◌, ◌^◌, Option, none, some, List, [], ◌∷◌, All, length, replicate, if◌then◌else◌, ◌==◌,
}
use parity_bridge.Base.Bytes.{Bytes, slice, write_slice}
use parity_bridge.Error.{Error, Result, ok, err, ethabi, msg, text, about}

abbrev pub message_length : ℕ
message_length = 116

-- `U256::to_big_endian` and `U256::from_big_endian` at 32 bytes
pub record BigEndian : Type 0 where
  pub to_big_endian : ℕ → Bytes
  pub from_big_endian : Bytes → ℕ
  pub length_to : (n : ℕ) → length (to_big_endian n) ≡ 32
  pub from_to : (n : ℕ) → n < 2 ^ 256 → from_big_endian (to_big_endian n) ≡ n
  pub to_from :
      (b : Bytes) → length b ≡ 32 → All (λ x. x < 256) b → to_big_endian (from_big_endian b) ≡ b
  pub from_lt : (b : Bytes) → length b ≡ 32 → All (λ x. x < 256) b → from_big_endian b < 2 ^ 256

pub record MessageToMain : Type 0 where
  pub recipient : Bytes
  pub value : ℕ
  pub side_tx_hash : Bytes
  pub main_gas_price : ℕ

-- What the types `Address`, `H256` and `U256` of the fields say.
pub record IsValid (m : MessageToMain) : Type 0 where
  pub length_recipient : length m.recipient ≡ 20
  pub value_fits : m.value < 2 ^ 256
  pub length_hash : length m.side_tx_hash ≡ 32
  pub gas_price_fits : m.main_gas_price < 2 ^ 256

module _ (be : BigEndian) where
  open be use {to_big_endian, from_big_endian}

  unfoldable pub from_bytes : {X : Type 0} → Bytes → Result (Error X) MessageToMain
  from_bytes bytes =
      if length bytes == message_length
      then ok (record {
        recipient = slice 0 20 bytes;
        value = from_big_endian (slice 20 52 bytes);
        side_tx_hash = slice 52 84 bytes;
        main_gas_price = from_big_endian (slice 84 116 bytes);
      })
      else err (msg (about "`bytes`.len() must be {}" (message_length ∷ [])))

  unfoldable pub to_bytes : MessageToMain → Bytes
  to_bytes m =
      let result = replicate message_length 0 in
      let result = write_slice 0 20 m.recipient result in
      let result = write_slice 20 52 (to_big_endian m.value) result in
      let result = write_slice 52 84 m.side_tx_hash result in
      write_slice 84 116 (to_big_endian m.main_gas_price) result

  -- `tiny_keccak::keccak256` of the bytes
  unfoldable pub keccak256 : (Bytes → Bytes) → MessageToMain → Bytes
  unfolding to_bytes
  keccak256 hash m = hash (to_bytes m)

  -- `ethabi::encode(&[Token::Bytes(_)])` of the ABI library
  unfoldable pub to_payload : (Bytes → Bytes) → MessageToMain → Bytes
  unfolding to_bytes
  to_payload encode m = encode (to_bytes m)
