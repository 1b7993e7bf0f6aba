-- ===== src/Base/Lists.antt =====
-- Lists measured and indexed by native numbers, predicates on lists, and `Vec::swap_remove`.
use Prim.Native.Nat.{ℕ, zero, suc, ◌+◌, ◌-◌, min}
use mathlib.Core.Path.{◌≡◌, refl, sym, ap, subst, ◌∙◌}
use mathlib.Core.List.{List, [], ◌∷◌, ◌++◌, Perm, Memᴰ}
use mathlib.Core.List.Perm
use mathlib.Core.Option.{Option, none, some}
use native.Mathlib.Omega.{arith}

module _ {ℓ} {A : Type ℓ} where
  abbrev pub length : List A → ℕ
  length [] = 0
  length (x ∷ xs) = suc (length xs)

  abbrev pub get_elem? : List A → ℕ → Option A
  get_elem? [] i = none
  get_elem? (x ∷ xs) zero = some x
  get_elem? (x ∷ xs) (suc i) = get_elem? xs i

  abbrev pub set : List A → ℕ → A → List A
  set [] i v = []
  set (x ∷ xs) zero v = v ∷ xs
  set (x ∷ xs) (suc i) v = x ∷ set xs i v

  abbrev pub take : ℕ → List A → List A
  take zero xs = []
  take (suc n) [] = []
  take (suc n) (x ∷ xs) = x ∷ take n xs

  abbrev pub drop : ℕ → List A → List A
  drop zero xs = xs
  drop (suc n) [] = []
  drop (suc n) (x ∷ xs) = drop n xs

  abbrev pub replicate : ℕ → A → List A
  replicate zero a = []
  replicate (suc n) a = a ∷ replicate n a

  pub length-append : (xs ys : List A) → length (xs ++ ys) ≡ length xs + length ys
  length-append [] ys = omega arith
  length-append (x ∷ xs) ys = omega (arith, length-append xs ys)

  pub length-take : (n : ℕ) (xs : List A) → length (take n xs) ≡ min n (length xs)
  length-take zero xs = omega arith
  length-take (suc n) [] = omega arith
  length-take (suc n) (x ∷ xs) = omega (arith, length-take n xs)

  pub length-drop : (n : ℕ) (xs : List A) → length (drop n xs) ≡ length xs - n
  length-drop zero xs = omega arith
  length-drop (suc n) [] = omega arith
  length-drop (suc n) (x ∷ xs) = omega (arith, length-drop n xs)

  pub take-append-drop : (n : ℕ) (xs : List A) → take n xs ++ drop n xs ≡ xs
  take-append-drop zero xs = refl
  take-append-drop (suc n) [] = refl
  take-append-drop (suc n) (x ∷ xs) = rw (take-append-drop n xs)

  pub take-append_self : (xs ys : List A) → take (length xs) (xs ++ ys) ≡ xs
  take-append_self [] ys = refl
  take-append_self (x ∷ xs) ys = ap (λ t. x ∷ t) (take-append_self xs ys)

  pub drop-append_self : (xs ys : List A) → drop (length xs) (xs ++ ys) ≡ ys
  drop-append_self [] ys = refl
  drop-append_self (x ∷ xs) ys = drop-append_self xs ys

  -- A predicate of every member, by recursion.
  abbrev pub All {κ} : (A → Type κ) → List A → Type κ
  All P [] = Unit
  All P (x ∷ xs) = P x × All P xs

  -- The last member, and the list without it.
  abbrev pub last_of : A → List A → A
  last_of x [] = x
  last_of x (y ∷ r) = last_of y r

  abbrev pub init_of : A → List A → List A
  init_of x [] = []
  init_of x (y ∷ r) = x ∷ init_of y r

  -- What `Vec::swap_remove` leaves: the last member moves into the place of the removed one.
  abbrev pub swap_removed : ℕ → List A → List A
  swap_removed i [] = []
  swap_removed i (x ∷ r) = set (init_of x r) i (last_of x r)

  last-init-perm : (x : A) (r : List A) → Perm (last_of x r ∷ init_of x r) (x ∷ r)
  last-init-perm x [] = Perm.refl (x ∷ [])
  last-init-perm x (y ∷ r) =
      Perm.trans (Perm.swap x (last_of y r) (init_of y r)) (Perm.cons x (last-init-perm y r))

  set-init-perm :
      (y : A) (r : List A) (i : ℕ) (x : A)
      → get_elem? (y ∷ r) i ≡ some x
      → Perm (x ∷ set (init_of y r) i (last_of y r)) (y ∷ r)
  set-init-perm y [] zero x h = let e : y ≡ x = cc in rw e (Perm.refl (x ∷ []))
  set-init-perm y [] (suc i) x h = cc
  set-init-perm y (z ∷ r) zero x h = let e : y ≡ x = cc in rw e (Perm.cons x (last-init-perm z r))
  set-init-perm y (z ∷ r) (suc i) x h =
      Perm.trans (Perm.swap y x (set (init_of z r) i (last_of z r)))
        (Perm.cons y (set-init-perm z r i x h))

  pub swap_removed-perm :
      (xs : List A) (i : ℕ) (x : A) → get_elem? xs i ≡ some x → Perm (x ∷ swap_removed i xs) xs
  swap_removed-perm [] i x h = cc
  swap_removed-perm (y ∷ r) i x h = set-init-perm y r i x h

module _ {ℓ} {A : Type ℓ} where
  length-set : (xs : List A) (i : ℕ) (v : A) → length (set xs i v) ≡ length xs
  length-set [] i v = refl
  length-set (x ∷ xs) zero v = refl
  length-set (x ∷ xs) (suc i) v = ap suc (length-set xs i v)

  length-init_of : (x : A) (r : List A) → length (init_of x r) ≡ length r
  length-init_of x [] = refl
  length-init_of x (y ∷ r) = ap suc (length-init_of y r)

  pub length-swap_removed :
      (i : ℕ) (x : A) (r : List A) → length (swap_removed i (x ∷ r)) ≡ length r
  length-swap_removed i x r = length-set (init_of x r) i (last_of x r) ∙ length-init_of x r

  -- What holds of every member holds of each.
  pub All-mem {κ} : (P : A → Type κ) (xs : List A) {x : A} → All P xs → Memᴰ x xs → P x
  All-mem P [] h m = elim m [ ]
  All-mem P (y ∷ xs) h (Memᴰ.head e) = subst P (sym e) h.0
  All-mem P (y ∷ xs) h (Memᴰ.tail m) = All-mem P xs h.1 m

module _ {ℓ κ} {A : Type ℓ} (P : A → Type κ) where
  pub All-append : (xs ys : List A) → All P xs → All P ys → All P (xs ++ ys)
  All-append [] ys h k = k
  All-append (x ∷ xs) ys h k = (h.0, All-append xs ys h.1 k)

  All-set : (xs : List A) (i : ℕ) (v : A) → All P xs → P v → All P (set xs i v)
  All-set [] i v h k = tt
  All-set (x ∷ xs) zero v h k = (k, h.1)
  All-set (x ∷ xs) (suc i) v h k = (h.0, All-set xs i v h.1 k)

  All-last : (x : A) (r : List A) → All P (x ∷ r) → P (last_of x r)
  All-last x [] h = h.0
  All-last x (y ∷ r) h = All-last y r h.1

  All-init : (x : A) (r : List A) → All P (x ∷ r) → All P (init_of x r)
  All-init x [] h = tt
  All-init x (y ∷ r) h = (h.0, All-init y r h.1)

  pub All-swap_removed : (i : ℕ) (xs : List A) → All P xs → All P (swap_removed i xs)
  All-swap_removed i [] h = tt
  All-swap_removed i (x ∷ r) h =
      All-set (init_of x r) i (last_of x r) (All-init x r h) (All-last x r h)

  pub All-get_elem? : (xs : List A) (i : ℕ) {x : A} → All P xs → get_elem? xs i ≡ some x → P x
  All-get_elem? [] i h e = cc
  All-get_elem? (y ∷ xs) zero h e = let p : y ≡ _ = cc in subst P p h.0
  All-get_elem? (y ∷ xs) (suc i) h e = All-get_elem? xs i h.1 e

pub All-map {ℓ κ μ} :
    {A : Type ℓ} (P : A → Type κ) (Q : A → Type μ) (xs : List A)
    → ((x : A) → P x → Q x)
    → All P xs
    → All Q xs
All-map P Q [] f h = tt
All-map P Q (x ∷ xs) f h = (f x h.0, All-map P Q xs f h.1)

pub All-zip {ℓ κ μ} :
    {A : Type ℓ} (P : A → Type κ) (Q : A → Type μ) (xs : List A)
    → All P xs
    → All Q xs
    → All (λ x. P x × Q x) xs
All-zip P Q [] h k = tt
All-zip P Q (x ∷ xs) h k = ((h.0, k.0), All-zip P Q xs h.1 k.1)
