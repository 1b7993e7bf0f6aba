-- ===== src/Bridge/Ends.antt =====
-- Every poll of `Bridge` ends (bridge/src/bridge.rs), where the polls of its relays do.
use parity_bridge.Base.{ℕ, ◌≤◌, ◌<◌, Option, arith}
use parity_bridge.Async.{Poll, Flow, map_err}
use parity_bridge.Async.Ending.{
  Ends, LastEnds, once-Ends, Ends-mono, Ends-map_err, try_maybe_stream-LastEnds,
}
use parity_bridge.Error.{Error, Message, chained}
use parity_bridge.Database.{State}
use parity_bridge.Bridge.{
  Bridge, note, got_signatures, got_sign, got_main_to_side, step, poll, poll_lem,
}

-- A relay whose polls end with less than the bound left.
abbrev pub RelayEnds : {W E R : Type 0} → (R → W → Poll E (Option ℕ) × R × W) → (W → ℕ) → ℕ → Type 0
RelayEnds {W} {R = R} poll_relay budget bound =
    (r : R) (w : W)
    → budget w < bound
    → Ends (budget w) (poll_relay r w).0 (budget (poll_relay r w).2)

module _ {W X M C S : Type 0} (poll_main_to_side : M → W → Poll (Error X) (Option ℕ) × M × W)
    (poll_sign : C → W → Poll (Error X) (Option ℕ) × C × W)
    (poll_signatures : S → W → Poll (Error X) (Option ℕ) × S × W) (budget : W → ℕ) (bound : ℕ)
    (main_to_side_ends : RelayEnds poll_main_to_side budget bound)
    (sign_ends : RelayEnds poll_sign budget bound)
    (signatures_ends : RelayEnds poll_signatures budget bound) where
  abbrev RoundEnds : ℕ → Flow (Poll (Error X) (Option State)) × (Bridge M C S × W) → Type 0
  RoundEnds before r = LastEnds before r.0 (budget r.1.1)

  note-Ends :
      (x y z : Option ℕ) (before : ℕ) (m : Bridge M C S × W)
      → budget m.1 ≤ before
      → RoundEnds before (note poll_main_to_side poll_sign poll_signatures x y z m)
  unfolding note
  note-Ends x y z before m h = ground arith

  chained-Ends :
      (before after : ℕ) (t : Message) (p : Poll (Error X) (Option ℕ))
      → Ends before p after
      → Ends before (map_err (chained t) p) after
  chained-Ends before after t p h = Ends-map_err (chained t) before after p h

  signatures-Ends :
      (x y : Option ℕ) (before : ℕ) (p : Poll (Error X) (Option ℕ)) (m : Bridge M C S × W)
      → Ends before p (budget m.1)
      → RoundEnds before (got_signatures poll_main_to_side poll_sign poll_signatures x y p m)
  unfolding got_signatures
  signatures-Ends x y before p m h =
      try_maybe_stream-LastEnds (λ m. budget m.1) before _ m _ (chained-Ends before _ _ p h)
        λ z k. note-Ends x y z before m k

  sign-Ends :
      (x : Option ℕ) (before : ℕ) (p : Poll (Error X) (Option ℕ)) (m : Bridge M C S × W)
      → before < bound
      → Ends before p (budget m.1)
      → RoundEnds before (got_sign poll_main_to_side poll_sign poll_signatures x p m)
  unfolding got_sign
  sign-Ends x before p m lt h =
      try_maybe_stream-LastEnds (λ m. budget m.1) before _ m _ (chained-Ends before _ _ p h)
        λ y k. signatures-Ends x y before _ _ (
          Ends-mono (budget m.1) before _ _ k
            (signatures_ends m.0.side_to_main_signatures m.1 (omega arith)))

  main_to_side-Ends :
      (before : ℕ) (p : Poll (Error X) (Option ℕ)) (m : Bridge M C S × W)
      → before < bound
      → Ends before p (budget m.1)
      → RoundEnds before (got_main_to_side poll_main_to_side poll_sign poll_signatures p m)
  unfolding got_main_to_side
  main_to_side-Ends before p m lt h =
      try_maybe_stream-LastEnds (λ m. budget m.1) before _ m _ (chained-Ends before _ _ p h)
        λ x k.
          sign-Ends x before _ _ lt (
            Ends-mono (budget m.1) before _ _ k (sign_ends m.0.side_to_main_sign m.1 (omega arith)))

  -- Where the polls of the three relays end, a poll of the bridge ends after its only round.
  pub bridge_poll-Ends :
      (b : Bridge M C S) (w : W)
      → budget w < bound
      → let (p, (_, w')) = poll poll_main_to_side poll_sign poll_signatures (b, w) in
        Ends (budget w) p (budget w')
  bridge_poll-Ends b w lt = rw (poll_lem poll_main_to_side poll_sign poll_signatures (b, w)) (
      once-Ends (λ m. budget m.1) (step poll_main_to_side poll_sign poll_signatures) (budget w)
        (b, w)
        (unfold step in
          main_to_side-Ends (budget w) _ _ lt (main_to_side_ends b.main_to_side_sign w lt)))
