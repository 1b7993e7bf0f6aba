-- ===== src/Base/Bytes.antt =====
-- Byte sequences: reading a slice, and `dst[lo..hi].copy_from_slice(src)`.
use native.Mathlib.Nat.{zero-add, add-zero, suc-add}
use Prim.Native.Nat.{ℕ, zero, suc, ◌+◌, ◌-◌, ◌≤◌}
use mathlib.Core.Path.{◌≡◌, refl, sym, ap, ◌∙◌}
use mathlib.Core.List.{List, [], ◌∷◌, ◌++◌, append_assoc}
use native.Mathlib.Omega.{arith}
use mathlib.Core.Bool.{Bool, true, false}
use parity_bridge.Base.Tests.{◌==◌, if◌then◌else◌}
use parity_bridge.Base.Lists.{
  All, length, length-take, length-drop, take, drop, replicate, take-append_self, drop-append_self,
  take-append-drop,
}

abbrev pub Bytes : Type 0
Bytes = List ℕ

-- `==` of two byte sequences
abbrev pub same_bytes : Bytes → Bytes → Bool
same_bytes [] [] = true
same_bytes [] (y ∷ ys) = false
same_bytes (x ∷ xs) [] = false
same_bytes (x ∷ xs) (y ∷ ys) = let rest = same_bytes xs ys in if x == y then rest else false

-- `bytes[lo..hi]`, for lo ≤ hi ≤ bytes.len()
abbrev pub slice : ℕ → ℕ → Bytes → Bytes
slice lo hi bytes = take (hi - lo) (drop lo bytes)

-- `bytes[lo..hi].copy_from_slice(src)`, for src.len() = hi - lo
abbrev pub write_slice : ℕ → ℕ → Bytes → Bytes → Bytes
write_slice lo hi src bytes = take lo bytes ++ (src ++ drop hi bytes)

abbrev pub byte_or : Bytes → ℕ → ℕ → ℕ
byte_or [] i d = d
byte_or (x ∷ xs) zero d = x
byte_or (x ∷ xs) (suc i) d = byte_or xs i d

pub drop-add : (m n : ℕ) (xs : Bytes) → drop (m + n) xs ≡ drop n (drop m xs)
drop-add zero n xs = rw zero-add
drop-add (suc m) zero [] = rw add-zero
drop-add (suc m) (suc n) [] = rw suc-add
drop-add (suc m) n (x ∷ xs) = rw suc-add (drop-add m n xs)

drop-replicate : (m n : ℕ) → drop m (replicate {A = ℕ} (m + n) 0) ≡ replicate n 0
drop-replicate zero n = rw zero-add
drop-replicate (suc m) n = rw suc-add (drop-replicate m n)

-- The part of a sequence that stands behind `p`.
pub slice-append :
    (p q r : Bytes) (lo hi : ℕ)
    → length p ≡ lo
    → length p + length q ≡ hi
    → slice lo hi (p ++ (q ++ r)) ≡ q
slice-append p q r lo hi e f =
    let len : hi - lo ≡ length q = omega arith in
    rw (len, ← e, drop-append_self p (q ++ r)) (take-append_self q r)

-- Writing behind `p`, into zeros.
pub write_slice-zeros :
    (p q : Bytes) (n lo hi : ℕ)
    → length p ≡ lo
    → length p + length q ≡ hi
    → write_slice lo hi q (p ++ replicate (length q + n) 0) ≡ (p ++ q) ++ replicate n 0
write_slice-zeros p q n lo hi e f =
    rw (← e, ← f, drop-add (length p) (length q), drop-append_self p)
      (rw (take-append_self p, drop-replicate (length q) n)
        (sym (append_assoc p q (replicate n 0))))

-- The byte behind `p`.
pub byte_or-append :
    (p : Bytes) (x : ℕ) (q : Bytes) (i d : ℕ) → length p ≡ i → byte_or (p ++ x ∷ q) i d ≡ x
byte_or-append [] x q zero d e = refl
byte_or-append [] x q (suc i) d e = absurd (omega arith)
byte_or-append (y ∷ p) x q zero d e = absurd (omega arith)
byte_or-append (y ∷ p) x q (suc i) d e = byte_or-append p x q i d (omega arith)

pub drop_last : (b : Bytes) (i d : ℕ) → length b ≡ suc i → drop i b ≡ byte_or b i d ∷ []
drop_last [] i d e = absurd (omega arith)
drop_last (x ∷ []) zero d e = refl
drop_last (x ∷ []) (suc i) d e = absurd (omega arith)
drop_last (x ∷ y ∷ b) zero d e = absurd (omega arith)
drop_last (x ∷ y ∷ b) (suc i) d e = drop_last (y ∷ b) i d (omega arith)

-- A sequence is its slices up to `lo` and from there to `hi`, and the rest.
pub slice-split : (lo n : ℕ) (b : Bytes) → b ≡ take lo b ++ (take n (drop lo b) ++ drop (lo + n) b)
slice-split lo n b =
    sym (take-append-drop lo b)
    ∙ ap (λ t. take lo b ++ t)
        (sym (take-append-drop n (drop lo b))
          ∙ ap (λ t. take n (drop lo b) ++ t) (sym (drop-add lo n b)))

pub drop_all : (b : Bytes) (n : ℕ) → length b ≡ n → drop n b ≡ []
drop_all [] zero e = refl
drop_all [] (suc n) e = refl
drop_all (x ∷ b) zero e = absurd (omega arith)
drop_all (x ∷ b) (suc n) e = drop_all b n (omega arith)

-- A slice within the sequence has the length that its bounds say.
pub length-slice : (b : Bytes) (lo n : ℕ) → lo + n ≤ length b → length (take n (drop lo b)) ≡ n
length-slice b lo n h = omega (arith, length-take {0} n (drop lo b), length-drop {0} lo b)

All-take : (P : ℕ → Type 0) (n : ℕ) (b : Bytes) → All P b → All P (take n b)
All-take P zero b h = tt
All-take P (suc n) [] h = tt
All-take P (suc n) (x ∷ b) h = (h.0, All-take P n b h.1)

All-drop : (P : ℕ → Type 0) (n : ℕ) (b : Bytes) → All P b → All P (drop n b)
All-drop P zero b h = h
All-drop P (suc n) [] h = tt
All-drop P (suc n) (x ∷ b) h = All-drop P n b h.1

pub All-slice : (P : ℕ → Type 0) (lo n : ℕ) (b : Bytes) → All P b → All P (take n (drop lo b))
All-slice P lo n b h = All-take P n (drop lo b) (All-drop P lo b h)

pub same_bytes_sound : (xs ys : Bytes) → same_bytes xs ys ≡ true → xs ≡ ys
same_bytes_sound [] [] h = refl
same_bytes_sound [] (y ∷ ys) h = cc
same_bytes_sound (x ∷ xs) [] h = cc
same_bytes_sound (x ∷ xs) (y ∷ ys) h = ground (arith, same_bytes_sound xs ys)

pub same_bytes_self : (xs : Bytes) → same_bytes xs xs ≡ true
same_bytes_self [] = refl
same_bytes_self (x ∷ xs) = ground (arith, same_bytes_self xs)
