-- ===== src/Ordered/Polls.antt =====
-- Which futures the `for` loop of `poll` polls, and in which order (bridge/src/ordered_stream.rs).
use parity_bridge.Base.{ℕ, suc, ◌≡◌, refl, Option, none, some, List, [], ◌∷◌, arith}
use parity_bridge.Async.{Poll, ready, not_ready, failed, panicked, out_of_rounds}
use parity_bridge.Ordered.Defs.{Entry, Minima, visit, advance, scan}

module _ {W F E A : Type 0} (poll_future : F → W → Poll E A × F × W) where
  -- An entry before and after its turn: a future whose item is not there is polled once, and no
  -- other is. The item that it answers with is kept, and so is what has become of the future.
  pub data PolledOnce : Entry F A → W → Entry F A → W → Type 0 where
    was_there :
        {w : W} (order : ℕ) (f : F) (a : A)
        → PolledOnce
            (record { order = order; future = f; item_if_ready = some a })
            w
            (record { order = order; future = f; item_if_ready = some a })
            w
    completes :
        {w w' : W} (order : ℕ) (f f' : F) (a : A)
        → poll_future f w ≡ (ready a, f', w')
        → PolledOnce
            (record { order = order; future = f; item_if_ready = none })
            w
            (record { order = order; future = f'; item_if_ready = some a })
            w'
    goes_on_waiting :
        {w w' : W} (order : ℕ) (f f' : F)
        → poll_future f w ≡ (not_ready, f', w')
        → PolledOnce
            (record { order = order; future = f; item_if_ready = none })
            w
            (record { order = order; future = f'; item_if_ready = none })
            w'

  -- All entries, one after the other.
  pub data AllPolledOnce : List (Entry F A) → W → List (Entry F A) → W → Type 0 where
    at_end : {w : W} → AllPolledOnce [] w [] w
    then_next :
        {e e' : Entry F A} {es es' : List (Entry F A)} {w w' w'' : W}
        → PolledOnce e w e' w'
        → AllPolledOnce es w' es' w''
        → AllPolledOnce (e ∷ es) w (e' ∷ es') w''

  -- An entry whose future has been polled.
  pending-PolledOnce :
      (order : ℕ) (f : F) (w : W) (p : Poll E A)
      → (poll_future f w).0 ≡ p
      → let e : Entry F A = record { order = order; future = f; item_if_ready = none } in
        let r = advance poll_future e w in r.0 ≡ ready tt → PolledOnce e w r.1 r.2
  unfolding advance
  pending-PolledOnce order f w (ready a) q =
      let (_, f', w') = poll_future f w in
      rw (q, advance) λ h. completes order f f' a (λ i. (q i, f', w'))
  pending-PolledOnce order f w not_ready q =
      let (_, f', w') = poll_future f w in
      rw (q, advance) λ h. goes_on_waiting order f f' (λ i. (q i, f', w'))
  pending-PolledOnce order f w (failed x) q = rw (q, advance) λ h. cc
  pending-PolledOnce order f w panicked q = rw (q, advance) λ h. cc
  pending-PolledOnce order f w out_of_rounds q = rw (q, advance) λ h. cc

  entry-PolledOnce :
      (order : ℕ) (f : F) (item : Option A) (w : W)
      → let e : Entry F A = record { order = order; future = f; item_if_ready = item } in
        let r = advance poll_future e w in r.0 ≡ ready tt → PolledOnce e w r.1 r.2
  entry-PolledOnce order f none w = pending-PolledOnce order f w (poll_future f w).0 refl
  entry-PolledOnce order f (some a) w = unfold advance in λ h. was_there order f a

  -- A pass that reaches the end of the list has gone on from its first entry to the rest.
  went_on :
      (index : ℕ) (e : Entry F A) (es : List (Entry F A)) (m m' : Minima) (w : W)
      → (scan poll_future index (e ∷ es) m w).0 ≡ ready m'
      → let (p, e', w') = advance poll_future e w in
        let rest = scan poll_future (suc index) es (visit index e' m) w' in
        (p ≡ ready tt)
        × (rest.0 ≡ ready m')
        × ((scan poll_future index (e ∷ es) m w).1 ≡ e' ∷ rest.1)
        × ((scan poll_future index (e ∷ es) m w).2 ≡ rest.2)
  unfolding scan
  went_on index e es m m' w h = ground arith

  pub scan-AllPolledOnce :
      (index : ℕ) (es : List (Entry F A)) (m m' : Minima) (w : W)
      → let r = scan poll_future index es m w in r.0 ≡ ready m' → AllPolledOnce es w r.1 r.2
  scan-AllPolledOnce index [] m m' w h = unfold scan in at_end
  scan-AllPolledOnce index (e ∷ es) m m' w h =
      let (p, e', w') = advance poll_future e w in
      let (on, rest, shape, world) = went_on index e es m m' w h in
      rw (shape, world)
        (then_next (entry-PolledOnce e.order e.future e.item_if_ready w on)
          (scan-AllPolledOnce (suc index) es (visit index e' m) m' w' rest))
