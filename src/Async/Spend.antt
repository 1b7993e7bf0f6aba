-- ===== src/Async/Spend.antt =====
-- Loops that end because every round that goes on uses up an answer (bridge/src/macros.rs and the
-- `loop`s that use it).
use parity_bridge.Base.{ℕ, zero, suc, ◌≤◌, ◌<◌, ◌≡◌, inl, inr, arith}
use parity_bridge.Async.Loop.{Flow-cases}
use parity_bridge.Async.Defs.{
  Poll, ready, not_ready, failed, panicked, out_of_rounds, map_err, Flow, done, again, loop,
}

-- An answer uses up some of what was left before, nothing adds to it, and the poll has ended.
abbrev pub Spends {ℓ κ} : {E : Type ℓ} {A : Type κ} → ℕ → Poll E A → ℕ → Type 0
Spends before (ready _) after = after < before
Spends before not_ready after = after ≤ before
Spends before (failed _) after = after ≤ before
Spends before panicked after = after ≤ before
Spends before out_of_rounds after = ⊥

module _ {ℓ κ} {E : Type ℓ} {A : Type κ} where
  -- The same of a round of a loop: to go on uses up something.
  abbrev pub FlowSpends : ℕ → Flow (Poll E A) → ℕ → Type 0
  FlowSpends before (done p) after = Spends before p after
  FlowSpends before again after = after < before

  pub Spends-mono : (a b c : ℕ) (p : Poll E A) → a ≤ b → Spends a p c → Spends b p c
  Spends-mono a b c (ready _) h k = omega arith
  Spends-mono a b c not_ready h k = omega arith
  Spends-mono a b c (failed _) h k = omega arith
  Spends-mono a b c panicked h k = omega arith
  Spends-mono a b c out_of_rounds h k = k

  pub Spends-map_err {μ} :
      {E' : Type μ} (f : E → E') (a c : ℕ) (p : Poll E A) → Spends a p c → Spends a (map_err f p) c
  Spends-map_err f a c (ready _) k = k
  Spends-map_err f a c not_ready k = k
  Spends-map_err f a c (failed _) k = k
  Spends-map_err f a c panicked k = k
  Spends-map_err f a c out_of_rounds k = k

  -- With more rounds than there is to use up, the loop ends and has used up what it yields. Each
  -- round may count on what is left being below the bound.
  pub loop-Spends {μ} :
      {S : Type μ} (budget : S → ℕ) (bound : ℕ) (step : S → Flow (Poll E A) × S)
      → ((s : S) → budget s < bound → FlowSpends (budget s) (step s).0 (budget (step s).1))
      → (n : ℕ) (s : S) → budget s < n
      → budget s < bound
      → Spends (budget s) (loop n step s).0 (budget (loop n step s).1)
  unfolding loop
  loop-Spends budget bound step h zero s m k = absurd (omega arith)
  loop-Spends budget bound step h (suc n) s m k = elim (Flow-cases (step s).0) [
    | inl (p, e) ↦ rw (e, loop) (rw e at (h s k))
    | inr e ↦
        let less = rw e at (h s k) in
        rw (e, loop)
          (Spends-mono (budget (step s).1) (budget s) _ _ (omega arith)
            (loop-Spends budget bound step h n (step s).1 (omega arith) (omega arith)))
  ]

  -- The same where the rounds that go on are few for another reason: a rank falls at each.
  pub ranked-Spends {μ} :
      {S : Type μ} (budget rank : S → ℕ) (step : S → Flow (Poll E A) × S)
      → ((s : S) → FlowSpends (budget s) (step s).0 (budget (step s).1))
      → ((s : S) → (step s).0 ≡ again → rank (step s).1 < rank s)
      → (n : ℕ) (s : S) → rank s < n
      → Spends (budget s) (loop n step s).0 (budget (loop n step s).1)
  unfolding loop
  ranked-Spends budget rank step h falls zero s m = absurd (omega arith)
  ranked-Spends budget rank step h falls (suc n) s m = elim (Flow-cases (step s).0) [
    | inl (p, e) ↦ rw (e, loop) (rw e at (h s))
    | inr e ↦
        let less = rw e at (h s) in
        let fall = falls s e in
        rw (e, loop)
          (Spends-mono (budget (step s).1) (budget s) _ _ (omega arith)
            (ranked-Spends budget rank step h falls n (step s).1 (omega arith)))
  ]
