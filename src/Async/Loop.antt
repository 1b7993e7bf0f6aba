-- ===== src/Async/Loop.antt =====
-- What every round of a loop keeps.
use parity_bridge.Base.{ℕ, zero, suc, ◌≤◌, ◌≡◌, ◌≢◌, ◌⊎◌, inl, inr, refl, ap, ◌∙◌, arith}
use parity_bridge.Async.Defs.{Poll, ready, out_of_rounds, map_err, Flow, done, again, loop}

-- A value is not made by a change of the error.
pub map_err-ready {ℓ κ μ} :
    {E : Type ℓ} {E' : Type κ} {A : Type μ} (f : E → E') (p : Poll E A) {a : A}
    → map_err f p ≡ ready a
    → p ≡ ready a
map_err-ready f (ready b) h = cc
map_err-ready f _ h = cc

pub Flow-cases {ℓ} : {R : Type ℓ} (f : Flow R) → ((r : R) × (f ≡ done r)) ⊎ (f ≡ again)
Flow-cases (done r) = inl (r, refl)
Flow-cases again = inr refl

module _ {ℓ κ μ ν} {E : Type ℓ} {A : Type κ} {S : Type μ} (Keeps : S → Type ν) where
  -- What every round keeps, whether it returns or goes on, holds at the end.
  pub loop_holds :
      (step : S → Flow (Poll E A) × S)
      → ((s : S) → Keeps s → Keeps (step s).1)
      → (n : ℕ) (s : S) → Keeps s
      → Keeps (loop n step s).1
  unfolding loop
  loop_holds step keep zero s h = h
  loop_holds step keep (suc n) s h = elim (Flow-cases (step s).0) [
    | inl (p, e) ↦ rw (e, loop) (keep s h)
    | inr e ↦ rw (e, loop) (loop_holds step keep n (step s).1 (keep s h))
  ]

module _ {ℓ κ μ} {E : Type ℓ} {A : Type κ} {S : Type μ} (step : S → Flow (Poll E A) × S) where
  -- A loop that has not run out of rounds needs no more of them.
  pub loop-enough :
      (m n : ℕ) (s : S) → n ≤ m → (loop n step s).0 ≢ out_of_rounds → loop m step s ≡ loop n step s
  unfolding loop
  loop-enough m zero s h ends = absurd (ends refl)
  loop-enough zero (suc n) s h ends = absurd (omega arith)
  loop-enough (suc m) (suc n) s h ends = elim (Flow-cases (step s).0) [
    | inl (p, e) ↦ rw (e, loop) refl
    | inr e ↦ rw (e, loop) (loop-enough m n (step s).1 (omega arith) (rw (e, loop) at ends))
  ]

module _ {ℓ κ μ ν} {E : Type ℓ} {A : Type κ} {S : Type μ} {T : Type ν} (g : T → S)
    (small : T → Flow (Poll E A) × T) (large : S → Flow (Poll E A) × S) where
  along-round :
      (n : ℕ) (y : Flow (Poll E A) × T)
      → ((t : T) → loop n large (g t) ≡ ((loop n small t).0, g (loop n small t).1))
      → let r : Poll E A × T = elim y.0 [ done p ↦ (p, y.1) | again ↦ loop n small y.1 ] in
        ◌≡◌ {A = Poll E A × S}
          (elim y.0 [ done p ↦ (p, g y.1) | again ↦ loop n large (g y.1) ])
          (r.0, g r.1)
  along-round n (done p, t) h = refl
  along-round n (again, t) h = h t

  -- A loop on a part of the state, where the rounds leave the rest of it alone.
  pub loop-along :
      ((t : T) → large (g t) ≡ ((small t).0, g (small t).1))
      → (n : ℕ) (t : T) → loop n large (g t) ≡ ((loop n small t).0, g (loop n small t).1)
  unfolding loop
  loop-along same zero t = refl
  loop-along same (suc n) t =
      ap
        (λ (x : Flow (Poll E A) × S). elim x.0 as (λ _. Poll E A × S) [
          | done p ↦ (p, x.1)
          | again ↦ loop n large x.1
        ])
        (same t)
      ∙ along-round n (small t) (loop-along same n)
