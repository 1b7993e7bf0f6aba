-- ===== src/Message/Roundtrip.antt =====
-- Reading and writing a message undo each other (bridge/src/message_to_main.rs).
use mathlib.Core.List.{append_assoc, append-nil}
use parity_bridge.Base.{
  ◌<◌, ◌≡◌, refl, sym, ap, ◌∙◌, [], ◌++◌, arith, All, length, length-append, take, drop, replicate,
}
use parity_bridge.Base.Bytes.{
  Bytes, slice, slice-append, slice-split, length-slice, All-slice, drop_all, drop-add, write_slice,
  write_slice-zeros,
}
use parity_bridge.Error.{ok, guarded-ok}
use parity_bridge.Message.{BigEndian, MessageToMain, IsValid, from_bytes, to_bytes}

-- Four fields of 20, 32, 32 and 32 bytes.
module _ (a b c d : Bytes) (ha : length a ≡ 20) (hb : length b ≡ 32) (hc : length c ≡ 32)
    (hd : length d ≡ 32) where
  write_a : write_slice 0 20 a (replicate 116 0) ≡ a ++ replicate 96 0
  write_a = rw ha at (write_slice-zeros [] a 96 0 20 (refl) (omega arith))

  write_b : write_slice 20 52 b (a ++ replicate 96 0) ≡ (a ++ b) ++ replicate 64 0
  write_b = rw hb at (write_slice-zeros a b 64 20 52 ha (rw (ha, hb)))

  length-a-b : length (a ++ b) ≡ 52
  length-a-b = rw (length-append, ha, hb)

  write_c : write_slice 52 84 c ((a ++ b) ++ replicate 64 0) ≡ ((a ++ b) ++ c) ++ replicate 32 0
  write_c = rw hc at (write_slice-zeros (a ++ b) c 32 52 84 length-a-b (rw (length-a-b, hc)))

  length-a-b-c : length ((a ++ b) ++ c) ≡ 84
  length-a-b-c = rw (length-append, length-a-b, hc)

  write_d : write_slice 84 116 d (((a ++ b) ++ c) ++ replicate 32 0) ≡ a ++ (b ++ (c ++ d))
  write_d =
      (rw hd at (write_slice-zeros ((a ++ b) ++ c) d 0 84 116 length-a-b-c (rw (length-a-b-c, hd))))
      ∙ simp (append-nil, append_assoc)

  write_all :
      write_slice 84 116 d
        (write_slice 52 84 c (write_slice 20 52 b (write_slice 0 20 a (replicate 116 0))))
      ≡ a ++ (b ++ (c ++ d))
  write_all =
      ap (λ x. write_slice 84 116 d (write_slice 52 84 c (write_slice 20 52 b x))) write_a
      ∙ ap (λ x. write_slice 84 116 d (write_slice 52 84 c x)) write_b
      ∙ ap (λ x. write_slice 84 116 d x) write_c
      ∙ write_d

  length_all : length (a ++ (b ++ (c ++ d))) ≡ 116
  length_all = rw (length-append, length-append, length-append, ha, hb, hc, hd)

  read_a : slice 0 20 (a ++ (b ++ (c ++ d))) ≡ a
  read_a = slice-append [] a (b ++ (c ++ d)) 0 20 refl (omega arith)

  read_b : slice 20 52 (a ++ (b ++ (c ++ d))) ≡ b
  read_b = slice-append a b (c ++ d) 20 52 ha (omega arith)

  read_c : slice 52 84 (a ++ (b ++ (c ++ d))) ≡ c
  read_c =
      ap (slice 52 84) (sym (append_assoc a b (c ++ d)))
      ∙ slice-append (a ++ b) c d 52 84 length-a-b (rw (length-a-b, hc))

  read_d : slice 84 116 (a ++ (b ++ (c ++ d))) ≡ d
  read_d =
      let e : a ++ (b ++ (c ++ d)) ≡ ((a ++ b) ++ c) ++ (d ++ []) =
        simp (append-nil, append_assoc) in
      ap (slice 84 116) e
      ∙ slice-append ((a ++ b) ++ c) d [] 84 116 length-a-b-c (rw (length-a-b-c, hd))

-- A sequence of 116 bytes falls into its four fields.
split_all :
    (b : Bytes)
    → length b ≡ 116
    → b ≡ take 20 b ++ (take 32 (drop 20 b) ++ (take 32 (drop 52 b) ++ take 32 (drop 84 b)))
split_all b len =
    let rest : drop 52 b ≡ take 32 (drop 52 b) ++ take 32 (drop 84 b) =
      slice-split 32 32 (drop 52 b)
      ∙ rw (← drop-add 52 32 b, ← drop-add 52 64 b, drop_all b 116 len) (rw append-nil) in
    slice-split 20 32 b ∙ ap (λ t. take 20 b ++ (take 32 (drop 20 b) ++ t)) rest

module _ (be : BigEndian) where
  open be use {to_big_endian, from_big_endian}

  -- The message that `b` is read as.
  abbrev read : Bytes → MessageToMain
  read b = record {
    recipient = take 20 b;
    value = from_big_endian (take 32 (drop 20 b));
    side_tx_hash = take 32 (drop 52 b);
    main_gas_price = from_big_endian (take 32 (drop 84 b));
  }

  -- The bytes of a message are those of its fields.
  pub to_bytes_lem :
      (m : MessageToMain)
      → IsValid m
      → to_bytes be m
        ≡ m.recipient
          ++ (to_big_endian m.value ++ (m.side_tx_hash ++ to_big_endian m.main_gas_price))
  unfolding to_bytes
  to_bytes_lem m h =
      write_all m.recipient (to_big_endian m.value) m.side_tx_hash (to_big_endian m.main_gas_price)
        h.length_recipient (be.length_to m.value) h.length_hash (be.length_to m.main_gas_price)

  read-IsValid : (b : Bytes) → length b ≡ 116 → All (λ x. x < 256) b → IsValid (read b)
  read-IsValid b len h = record {
    length_recipient = length-slice b 0 20 (omega arith);
    value_fits =
        be.from_lt (take 32 (drop 20 b)) (length-slice b 20 32 (omega arith))
          (All-slice _ 20 32 b h);
    length_hash = length-slice b 52 32 (omega arith);
    gas_price_fits =
        be.from_lt (take 32 (drop 84 b)) (length-slice b 84 32 (omega arith))
          (All-slice _ 84 32 b h);
  }

  to_bytes-read : (b : Bytes) → length b ≡ 116 → All (λ x. x < 256) b → b ≡ to_bytes be (read b)
  to_bytes-read b len h = rw (to_bytes_lem (read b) (read-IsValid b len h)) (
      rw
        (
          be.to_from (take 32 (drop 20 b)) (length-slice b 20 32 (omega arith))
              (All-slice _ 20 32 b h),
          be.to_from (take 32 (drop 84 b)) (length-slice b 84 32 (omega arith))
              (All-slice _ 84 32 b h),
        )
        (split_all b len))

  read-to_bytes : (m : MessageToMain) → IsValid m → read (to_bytes be m) ≡ m
  read-to_bytes m h =
      let p = to_big_endian m.value in
      let q = to_big_endian m.main_gas_price in
      let lp = be.length_to m.value in
      let lq = be.length_to m.main_gas_price in
      let hr = h.length_recipient in
      let hh = h.length_hash in
      rw (to_bytes_lem m h) (λ i. record {
        recipient = read_a m.recipient p m.side_tx_hash q hr lp hh lq i;
        value =
            (ap from_big_endian (read_b m.recipient p m.side_tx_hash q hr lp hh lq)
                ∙ be.from_to m.value h.value_fits)
              i;
        side_tx_hash = read_c m.recipient p m.side_tx_hash q hr lp hh lq i;
        main_gas_price =
            (ap from_big_endian (read_d m.recipient p m.side_tx_hash q hr lp hh lq)
                ∙ be.from_to m.main_gas_price h.gas_price_fits)
              i;
      })

  length-to_bytes : (m : MessageToMain) → IsValid m → length (to_bytes be m) ≡ 116
  length-to_bytes m h = rw (to_bytes_lem m h) (
      length_all m.recipient (to_big_endian m.value) m.side_tx_hash (to_big_endian m.main_gas_price)
        h.length_recipient (be.length_to m.value) h.length_hash (be.length_to m.main_gas_price))

module _ (be : BigEndian) {X : Type 0} where
  from_bytes-read : (b : Bytes) → length b ≡ 116 → from_bytes be {X = X} b ≡ ok (read be b)
  unfolding from_bytes
  from_bytes-read b len = rw len

  from_bytes-ok :
      (b : Bytes) {m : MessageToMain}
      → from_bytes be {X = X} b ≡ ok m
      → (length b ≡ 116) × (m ≡ read be b)
  unfolding from_bytes
  from_bytes-ok b h = guarded-ok _ _ _ h

  -- A sequence of bytes that is read as `m` is what `m` is written as, with fields in range.
  pub to_bytes-from_bytes :
      (b : Bytes) (m : MessageToMain)
      → All (λ x. x < 256) b
      → (from_bytes be {X = X} b ≡ ok m)
      → (IsValid m × (b ≡ to_bytes be m))
  to_bytes-from_bytes b m h r =
      let (len, e) = from_bytes-ok b r in rw e (read-IsValid be b len h, to_bytes-read be b len h)

  -- A message in range comes back from its bytes.
  pub from_bytes-to_bytes :
      (m : MessageToMain) → IsValid m → from_bytes be {X = X} (to_bytes be m) ≡ ok m
  from_bytes-to_bytes m h =
      from_bytes-read (to_bytes be m) (length-to_bytes be m h) ∙ ap ok (read-to_bytes be m h)
