-- ===== src/Signature/Roundtrip.antt =====
-- Reading and writing a signature undo each other (bridge/src/signature.rs).
use mathlib.Core.List.{append_assoc, append-nil}
use mathlib.Core.Option
use parity_bridge.Base.{
  ℕ, ◌≡◌, ◌↔◌, refl, sym, ap, ◌∙◌, [], ◌∷◌, ◌++◌, Option, some, arith, length, length-append, take,
  drop, replicate,
}
use parity_bridge.Base.Bytes.{
  Bytes, byte_or, byte_or-append, drop_last, length-slice, slice-split, slice-append, write_slice,
  write_slice-zeros,
}
use parity_bridge.Error.{ok}
use parity_bridge.Signature.{Signature, IsValid, from_bytes, to_bytes, to_payload}

module _ (r s : Bytes) (v : ℕ) (hr : length r ≡ 32) (hs : length s ≡ 32) where
  write_r : write_slice 0 32 r (replicate 65 0) ≡ r ++ replicate 33 0
  write_r = rw hr at (write_slice-zeros [] r 33 0 32 refl (omega arith))

  write_s : write_slice 32 64 s (r ++ replicate 33 0) ≡ (r ++ s) ++ (0 ∷ [])
  write_s = rw hs at (write_slice-zeros r s 1 32 64 hr (rw (hr, hs)))

  length-r-s : length (r ++ s) ≡ 64
  length-r-s = rw (length-append, hr, hs)

  write_v : write_slice 64 65 (v ∷ []) ((r ++ s) ++ (0 ∷ [])) ≡ r ++ (s ++ v ∷ [])
  write_v =
      write_slice-zeros (r ++ s) (v ∷ []) 0 64 65 length-r-s (rw length-r-s)
      ∙ simp (append-nil, append_assoc)

  length-r-s-v : length (r ++ (s ++ v ∷ [])) ≡ 65
  length-r-s-v = rw (length-append, length-append, hr, hs)

  from_bytes-append :
      {X : Type 0} → from_bytes {X = X} (r ++ (s ++ v ∷ [])) ≡ ok (record { v = v; r = r; s = s })
  unfolding from_bytes
  from_bytes-append = rw length-r-s-v (λ i. ok (record {
    v =
        (ap (λ t. byte_or t 64 0) (sym (append_assoc r s (v ∷ [])))
            ∙ byte_or-append (r ++ s) v [] 64 0 length-r-s)
          i;
    r = slice-append [] r (s ++ v ∷ []) 0 32 refl (omega arith) i;
    s = slice-append r s (v ∷ []) 32 64 hr (omega arith) i;
  }))

-- The bytes are `r`, `s` and `v`, in this order.
pub to_bytes_lem : (sig : Signature) → IsValid sig → to_bytes sig ≡ sig.r ++ (sig.s ++ sig.v ∷ [])
unfolding to_bytes
to_bytes_lem sig h =
    let last = write_slice 64 65 (sig.v ∷ []) in
    ap (λ x. last (write_slice 32 64 sig.s x)) (write_r sig.r sig.s sig.v h.length_r h.length_s)
    ∙ ap last (write_s sig.r sig.s sig.v h.length_r h.length_s)
    ∙ write_v sig.r sig.s sig.v h.length_r h.length_s

from_bytes-IsValid :
    (b : Bytes)
    → length b ≡ 65
    → let sig : Signature = record { v = byte_or b 64 0; r = take 32 b; s = take 32 (drop 32 b) } in
      IsValid sig × (b ≡ to_bytes sig)
from_bytes-IsValid b len =
    let valid : IsValid (record { v = byte_or b 64 0; r = take 32 b; s = take 32 (drop 32 b) }) =
      record {
        length_r = length-slice b 0 32 (omega arith);
        length_s = length-slice b 32 32 (omega arith);
      } in
    (
      valid,
      rw (to_bytes_lem _ valid) (
          slice-split 32 32 b
          ∙ ap (λ t. take 32 b ++ (take 32 (drop 32 b) ++ t)) (drop_last b 64 0 len)),
    )

module _ {X : Type 0} where
  from_bytes-ok :
      (b : Bytes) {sig : Signature}
      → from_bytes {X = X} b ≡ ok sig
      → (length b ≡ 65)
        × (sig ≡ record { v = byte_or b 64 0; r = take 32 b; s = take 32 (drop 32 b) })
  unfolding from_bytes
  from_bytes-ok b h = ground arith

  -- A byte sequence is read as `sig` exactly if `sig` has fields of the right length and the
  -- sequence is what `sig` is written as; so every other length is refused, and nothing is lost.
  pub from_bytes_iff :
      (b : Bytes) (sig : Signature)
      → (from_bytes {X = X} b ≡ ok sig) ↔ (IsValid sig × (b ≡ to_bytes sig))
  from_bytes_iff b sig = (
    λ h. let (len, e) = from_bytes-ok b h in rw e (from_bytes-IsValid b len),
    λ (valid, e).
        rw (e, to_bytes_lem sig valid)
          (from_bytes-append sig.r sig.s sig.v valid.length_r valid.length_s),
  )

  -- Whatever the ABI library decodes again, a signature comes back from its payload.
  pub from_bytes-to_payload :
      (encode : Bytes → Bytes) (decode : Bytes → Option Bytes)
      → ((b : Bytes) → decode (encode b) ≡ some b)
      → (sig : Signature) → IsValid sig
      → Option.map (from_bytes {X = X}) (decode (to_payload encode sig)) ≡ some (ok sig)
  unfolding to_payload
  from_bytes-to_payload encode decode law sig valid =
      rw law (ap some ((from_bytes_iff (to_bytes sig) sig).1 (valid, refl)))
