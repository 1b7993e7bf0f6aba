-- ===== src/Async/Round.antt =====
-- Loops whose rounds keep a property, and return with an outcome.
use parity_bridge.Base.{ℕ, zero, suc, ◌≡◌, ◌≢◌, refl}
use parity_bridge.Async.Defs.{
  Poll, ready, not_ready, failed, panicked, out_of_rounds, map_err, try_ready, Flow, done, again,
  loop,
}

module _ {ℓ κ μ ν} {E : Type ℓ} {A : Type κ} {S : Type μ} (Keeps : S → Type ν)
    (Returns : Poll E A → S → Type ν) where
  -- What a round that goes on keeps, and how one that returns leaves the state.
  abbrev pub Round : Flow (Poll E A) × S → Type ν
  Round (done p, s) = Returns p s
  Round (again, s) = Keeps s

  round-Returns :
      (rest : S → Poll E A × S) (r : Flow (Poll E A) × S)
      → Round r
      → ((s : S) → Keeps s → Returns (rest s).0 (rest s).1)
      → let x : Poll E A × S = elim r.0 [ done p ↦ (p, r.1) | again ↦ rest r.1 ] in Returns x.0 x.1
  round-Returns rest (done p, s) h k = h
  round-Returns rest (again, s) h k = k s h

  -- However many rounds there are, the loop returns as a round does, or for want of rounds.
  pub loop-Returns :
      (step : S → Flow (Poll E A) × S)
      → ((s : S) → Keeps s → Round (step s))
      → ((s : S) → Keeps s → Returns out_of_rounds s)
      → (n : ℕ) (s : S) → Keeps s
      → Returns (loop n step s).0 (loop n step s).1
  unfolding loop
  loop-Returns step keep stop zero s h = stop s h
  loop-Returns step keep stop (suc n) s h =
      round-Returns (loop n step) (step s) (keep s h) (loop-Returns step keep stop n)

  -- `try_ready!` on the poll of a future: what follows an answer, or the end of the round.
  pub try_ready-Round {ξ ζ} :
      {X : Type ξ} {B : Type ζ} (f : X → E) (p : Poll X B) (s : S) (k : B → Flow (Poll E A) × S)
      → ((b : B) → p ≡ ready b → Round (k b))
      → ((q : Poll E A) → ((a : A) → q ≢ ready a) → Returns q s)
      → Round (try_ready (map_err f p) s k)
  try_ready-Round f (ready b) s k on stop = on b refl
  try_ready-Round f not_ready s k on stop = stop not_ready (λ a e. cc)
  try_ready-Round f (failed x) s k on stop = stop (failed (f x)) (λ a e. cc)
  try_ready-Round f panicked s k on stop = stop panicked (λ a e. cc)
  try_ready-Round f out_of_rounds s k on stop = stop out_of_rounds (λ a e. cc)
