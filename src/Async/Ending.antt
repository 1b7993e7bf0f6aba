-- ===== src/Async/Ending.antt =====
-- Polls that end and add nothing to a budget of answers, whether or not they use some of it up
-- (the `loop`s of bridge/src/relay_stream.rs and bridge/src/bridge.rs).
use parity_bridge.Base.{ℕ, zero, suc, ◌≤◌, ◌<◌, ◌≢◌, inl, inr, Option, none, some, arith}
use parity_bridge.Async.Loop.{Flow-cases}
use parity_bridge.Async.Spend.{Spends}
use parity_bridge.Async.Defs.{
  Poll, ready, not_ready, failed, panicked, out_of_rounds, map_err, Flow, done, again,
  try_maybe_stream, loop,
}

-- The poll has ended, and nothing was added to what was left before.
abbrev pub Ends {ℓ κ} : {E : Type ℓ} {A : Type κ} → ℕ → Poll E A → ℕ → Type 0
Ends before (ready _) after = after ≤ before
Ends before not_ready after = after ≤ before
Ends before (failed _) after = after ≤ before
Ends before panicked after = after ≤ before
Ends before out_of_rounds after = ⊥

module _ {ℓ κ} {E : Type ℓ} {A : Type κ} where
  -- The same of a round of a loop: to go on uses up something.
  abbrev pub FlowEnds : ℕ → Flow (Poll E A) → ℕ → Type 0
  FlowEnds before (done p) after = Ends before p after
  FlowEnds before again after = after < before

  pub Ends-ne-out_of_rounds :
      (before : ℕ) (p : Poll E A) (after : ℕ) → Ends before p after → p ≢ out_of_rounds
  Ends-ne-out_of_rounds before p after h e = rw e at h

  pub Spends-Ends : (a c : ℕ) (p : Poll E A) → Spends a p c → Ends a p c
  Spends-Ends a c (ready _) k = omega arith
  Spends-Ends a c not_ready k = k
  Spends-Ends a c (failed _) k = k
  Spends-Ends a c panicked k = k
  Spends-Ends a c out_of_rounds k = k

  pub Ends-mono : (a b c : ℕ) (p : Poll E A) → a ≤ b → Ends a p c → Ends b p c
  Ends-mono a b c (ready _) h k = omega arith
  Ends-mono a b c not_ready h k = omega arith
  Ends-mono a b c (failed _) h k = omega arith
  Ends-mono a b c panicked h k = omega arith
  Ends-mono a b c out_of_rounds h k = k

  pub FlowEnds-mono : (a b c : ℕ) (f : Flow (Poll E A)) → a ≤ b → FlowEnds a f c → FlowEnds b f c
  FlowEnds-mono a b c (done p) h k = Ends-mono a b c p h k
  FlowEnds-mono a b c again h k = omega arith

  pub Ends-map_err {μ} :
      {E' : Type μ} (f : E → E') (a c : ℕ) (p : Poll E A) → Ends a p c → Ends a (map_err f p) c
  Ends-map_err f a c (ready _) k = k
  Ends-map_err f a c not_ready k = k
  Ends-map_err f a c (failed _) k = k
  Ends-map_err f a c panicked k = k
  Ends-map_err f a c out_of_rounds k = k

  -- With more rounds than there is to use up, the loop ends. Each round may count on what is left
  -- being below the bound.
  pub loop-Ends {μ} :
      {S : Type μ} (budget : S → ℕ) (bound : ℕ) (step : S → Flow (Poll E A) × S)
      → ((s : S) → budget s < bound → FlowEnds (budget s) (step s).0 (budget (step s).1))
      → (n : ℕ) (s : S) → budget s < n
      → budget s < bound
      → Ends (budget s) (loop n step s).0 (budget (loop n step s).1)
  unfolding loop
  loop-Ends budget bound step h zero s m k = absurd (omega arith)
  loop-Ends budget bound step h (suc n) s m k = elim (Flow-cases (step s).0) [
    | inl (p, e) ↦ rw (e, loop) (rw e at (h s k))
    | inr e ↦
        let less = rw e at (h s k) in
        rw (e, loop)
          (Ends-mono (budget (step s).1) (budget s) _ _ (omega arith)
            (loop-Ends budget bound step h n (step s).1 (omega arith) (omega arith)))
  ]

  -- The same of a round that must be the last.
  abbrev pub LastEnds : ℕ → Flow (Poll E A) → ℕ → Type 0
  LastEnds before (done p) after = Ends before p after
  LastEnds before again after = ⊥

  -- A loop whose only round ends it.
  pub once-Ends {μ} :
      {S : Type μ} (budget : S → ℕ) (step : S → Flow (Poll E A) × S) (before : ℕ) (s : S)
      → LastEnds before (step s).0 (budget (step s).1)
      → Ends before (loop 1 step s).0 (budget (loop 1 step s).1)
  unfolding loop
  once-Ends budget step before s h = elim (Flow-cases (step s).0) [
    | inl (p, e) ↦ rw (e, loop) (rw e at h)
    | inr e ↦ absurd (rw e at h)
  ]

  -- The same of a round of a loop where a rank falls.
  abbrev pub RankedEnds : ℕ → ℕ → Flow (Poll E A) → ℕ → ℕ → Type 0
  RankedEnds before ranked (done p) after rank = Ends before p after
  RankedEnds before ranked again after rank = (after ≤ before) × (rank < ranked)

  pub ranked-Ends {μ} :
      {S : Type μ} (budget rank : S → ℕ) (bound : ℕ) (step : S → Flow (Poll E A) × S)
      → ((s : S)
          → budget s < bound
          → RankedEnds (budget s) (rank s) (step s).0 (budget (step s).1) (rank (step s).1))
      → (n : ℕ) (s : S) → rank s < n
      → budget s < bound
      → Ends (budget s) (loop n step s).0 (budget (loop n step s).1)
  unfolding loop
  ranked-Ends budget rank bound step h zero s m k = absurd (omega arith)
  ranked-Ends budget rank bound step h (suc n) s m k = elim (Flow-cases (step s).0) [
    | inl (p, e) ↦ rw (e, loop) (rw e at (h s k))
    | inr e ↦
        let (less, fall) = rw e at (h s k) in
        rw (e, loop)
          (Ends-mono (budget (step s).1) (budget s) _ _ less
            (ranked-Ends budget rank bound step h n (step s).1 (omega arith) (omega arith)))
  ]

module _ {ℓ κ μ ν} {E : Type ℓ} {A : Type κ} {B : Type μ} {S : Type ν} where
  pub try_maybe_stream-LastEnds :
      (budget : S → ℕ) (before : ℕ) (p : Poll E (Option A)) (s : S)
      (k : Option A → Flow (Poll E (Option B)) × S)
      → Ends before p (budget s)
      → ((x : Option A) → budget s ≤ before → LastEnds before (k x).0 (budget (k x).1))
      → let r = try_maybe_stream p s k in LastEnds before r.0 (budget r.1)
  try_maybe_stream-LastEnds budget before (ready none) s k h next = h
  try_maybe_stream-LastEnds budget before (ready (some a)) s k h next = next (some a) h
  try_maybe_stream-LastEnds budget before not_ready s k h next = next none h
  try_maybe_stream-LastEnds budget before (failed e) s k h next = h
  try_maybe_stream-LastEnds budget before panicked s k h next = h
  try_maybe_stream-LastEnds budget before out_of_rounds s k h next = h
