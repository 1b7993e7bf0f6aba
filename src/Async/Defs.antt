-- ===== src/Async/Defs.antt =====
-- One `poll`, and the loop round a match on the state. bridge/src/macros.rs.
use parity_bridge.Base.{ℕ, zero, suc, Option, none, some}

-- What a call of `poll` comes to. The first three are `Ok(Async::Ready(_))`, `Ok(Async::NotReady)`
-- and `Err(_)`. Beside them a call may panic, or its loop may use up the rounds that it is given.
pub data Poll {ℓ κ} (E : Type ℓ) (A : Type κ) : Type (ℓ ⊔ κ) where
  ready : A → Poll E A
  not_ready : Poll E A
  failed : E → Poll E A
  panicked : Poll E A
  out_of_rounds : Poll E A

module _ {ℓ κ μ} {E : Type ℓ} {A : Type κ} {B : Type μ} where
  -- An answer that carries no value, at another type of values.
  abbrev pub recast : Poll E A → Poll E B → Poll E B
  recast (ready a) p = p
  recast not_ready p = not_ready
  recast (failed e) p = failed e
  recast panicked p = panicked
  recast out_of_rounds p = out_of_rounds

-- `chain_err` and `map_err`: the error alone is changed.
abbrev pub map_err {ℓ κ μ} :
    {E : Type ℓ} {E' : Type κ} {A : Type μ} → (E → E') → Poll E A → Poll E' A
map_err f (ready a) = ready a
map_err f not_ready = not_ready
map_err f (failed e) = failed (f e)
map_err f panicked = panicked
map_err f out_of_rounds = out_of_rounds

-- One round of a loop either returns from `poll` or sets the next state and goes on.
pub data Flow {ℓ} (R : Type ℓ) : Type ℓ where
  done : R → Flow R
  again : Flow R

module _ {ℓ κ μ ν} {E : Type ℓ} {A : Type κ} {B : Type μ} {S : Type ν} where
  -- `try_ready!`: goes on with the value, or returns what was answered and leaves the state `s`.
  abbrev pub try_ready : Poll E A → S → (A → Flow (Poll E B) × S) → Flow (Poll E B) × S
  try_ready (ready a) s k = k a
  try_ready not_ready s k = (done not_ready, s)
  try_ready (failed e) s k = (done (failed e), s)
  try_ready panicked s k = (done panicked, s)
  try_ready out_of_rounds s k = (done out_of_rounds, s)

  -- `try_stream!`: as `try_ready!`, and the end of the inner stream ends the outer one.
  abbrev pub try_stream :
      Poll E (Option A) → S → (A → Flow (Poll E (Option B)) × S) → Flow (Poll E (Option B)) × S
  try_stream (ready none) s k = (done (ready none), s)
  try_stream (ready (some a)) s k = k a
  try_stream not_ready s k = (done not_ready, s)
  try_stream (failed e) s k = (done (failed e), s)
  try_stream panicked s k = (done panicked, s)
  try_stream out_of_rounds s k = (done out_of_rounds, s)

  -- `try_maybe_stream!`: as `try_stream!`, and goes on with `none` where nothing is ready.
  abbrev pub try_maybe_stream :
      Poll E (Option A)
      → S
      → (Option A → Flow (Poll E (Option B)) × S)
      → Flow (Poll E (Option B)) × S
  try_maybe_stream (ready none) s k = (done (ready none), s)
  try_maybe_stream (ready (some a)) s k = k (some a)
  try_maybe_stream not_ready s k = k none
  try_maybe_stream (failed e) s k = (done (failed e), s)
  try_maybe_stream panicked s k = (done panicked, s)
  try_maybe_stream out_of_rounds s k = (done out_of_rounds, s)

-- `loop { … }` with a bound on its rounds.
unfoldable pub loop {ℓ κ μ} :
    {E : Type ℓ} {A : Type κ} {S : Type μ} → ℕ → (S → Flow (Poll E A) × S) → S → Poll E A × S
loop zero step s = (out_of_rounds, s)
loop (suc n) step s = elim (step s).0 [ done p ↦ (p, (step s).1) | again ↦ loop n step (step s).1 ]
