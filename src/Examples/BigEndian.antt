-- ===== src/Examples/BigEndian.antt =====
-- The 32 bytes of a number, the most significant first, and that they keep what is asked of
-- `U256` in bridge/src/message_to_main.rs.
use native.Mathlib.Nat.{
  zero-add, add-zero, suc-add, add-suc, pow-suc, mul-le-mul_right, mul_assoc, mul_comm,
}
use mathlib.Core.List.{append-nil}
use parity_bridge.Base.{
  ℕ, zero, suc, ◌+◌, ◌*◌, ◌/◌, ◌%◌, ◌^◌, ◌≤◌, ◌<◌, ◌≡◌, refl, ap, subst, sym, ◌∙◌, [], ◌∷◌, ◌++◌,
  All, length, length-append, arith,
}
use parity_bridge.Base.Bytes.{Bytes}
use parity_bridge.Message.{BigEndian}

unfoldable pub digits : ℕ → ℕ → Bytes
digits zero n = []
digits (suc k) n = digits k (n / 256) ++ (n % 256) ∷ []

unfoldable pub value_from : ℕ → Bytes → ℕ
value_from a [] = a
value_from a (x ∷ xs) = value_from (a * 256 + x) xs

pub length-digits : (k n : ℕ) → length (digits k n) ≡ k
unfolding digits
length-digits zero n = refl
length-digits (suc k) n =
    omega (arith, length-append (digits k (n / 256)) ((n % 256) ∷ []), length-digits k (n / 256))

value_from-append :
    (a : ℕ) (xs : Bytes) (x : ℕ) → value_from a (xs ++ x ∷ []) ≡ value_from a xs * 256 + x
unfolding value_from
value_from-append a [] x = refl
value_from-append a (y ∷ xs) x = value_from-append (a * 256 + y) xs x

pub value-digits : (k n : ℕ) → n < 256 ^ k → value_from 0 (digits k n) ≡ n
unfolding digits value_from
value-digits zero n h = omega arith
value-digits (suc k) n h =
    value_from-append 0 (digits k (n / 256)) (n % 256)
    ∙ ap (λ v. v * 256 + n % 256) (value-digits k (n / 256) (omega arith))
    ∙ omega arith

append-assoc_one : (xs : Bytes) (x : ℕ) (ys : Bytes) → xs ++ x ∷ ys ≡ (xs ++ x ∷ []) ++ ys
append-assoc_one [] x ys = refl
append-assoc_one (y ∷ xs) x ys = ap (λ l. y ∷ l) (append-assoc_one xs x ys)

digits-value_from :
    (k a : ℕ) (b : Bytes)
    → All (λ x. x < 256) b
    → digits k a ++ b ≡ digits (k + length b) (value_from a b)
unfolding digits value_from
digits-value_from k a [] h = rw add-zero (append-nil (digits k a))
digits-value_from k a (x ∷ b) h =
    let quotient : (a * 256 + x) / 256 ≡ a = omega (arith, h.0) in
    let remainder : (a * 256 + x) % 256 ≡ x = omega (arith, h.0) in
    let first : digits (suc k) (a * 256 + x) ≡ digits k a ++ x ∷ [] = rw (quotient, remainder) in
    append-assoc_one (digits k a) x b
    ∙ ap (λ l. l ++ b) (sym first)
    ∙ digits-value_from (suc k) (a * 256 + x) b h.1
    ∙ ap (λ j. digits j (value_from (a * 256 + x) b))
        (suc-add k (length b) ∙ sym (add-suc k (length b)))

value_from-lt :
    (a : ℕ) (b : Bytes) → All (λ x. x < 256) b → value_from a b < (a + 1) * 256 ^ length b
unfolding value_from
value_from-lt a [] h = omega arith
value_from-lt a (x ∷ b) h =
    let step : value_from (a * 256 + x) b < (a * 256 + x + 1) * 256 ^ length b =
      value_from-lt (a * 256 + x) b h.1 in
    let wide : (a * 256 + x + 1) * 256 ^ length b ≤ ((a + 1) * 256) * 256 ^ length b =
      mul-le-mul_right (256 ^ length b) (omega (arith, h.0)) in
    let same : (a + 1) * 256 * 256 ^ length b ≡ (a + 1) * 256 ^ suc (length b) =
      mul_assoc (a + 1) 256 (256 ^ length b)
      ∙ ap (λ p. (a + 1) * p) (mul_comm 256 (256 ^ length b) ∙ sym (pow-suc 256 (length b))) in
    subst (λ p. value_from (a * 256 + x) b < p) same (omega (arith, step, wide))

pub digits_of-value :
    (b : Bytes) → length b ≡ 32 → All (λ x. x < 256) b → digits 32 (value_from 0 b) ≡ b
unfolding digits
digits_of-value b len h =
    sym
      (digits-value_from 0 0 b h ∙ ap (λ j. digits j (value_from 0 b)) (zero-add (length b) ∙ len))

pub value_lt : (b : Bytes) → length b ≡ 32 → All (λ x. x < 256) b → value_from 0 b < 2 ^ 256
value_lt b len h = let l = rw len at (value_from-lt 0 b h) in omega (arith, l)

unfoldable pub big_endian : BigEndian
big_endian = record {
  to_big_endian = digits 32;
  from_big_endian = value_from 0;
  length_to = length-digits 32;
  from_to = λ n h. value-digits 32 n (omega arith);
  to_from = digits_of-value;
  from_lt = value_lt;
}
