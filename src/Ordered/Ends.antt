-- ===== src/Ordered/Ends.antt =====
-- A poll of `OrderedStream` polls futures only, so it ends where their polls end
-- (bridge/src/ordered_stream.rs).
use parity_bridge.Base.{ℕ, suc, ◌≤◌, Option, none, some, List, [], ◌∷◌, arith}
use parity_bridge.Async.{Poll, ready, not_ready, failed, panicked, out_of_rounds}
use parity_bridge.Async.Ending.{Ends, Ends-mono}
use parity_bridge.Ordered.Defs.{
  Entry, OrderedStream, Minima, visit, choose, take_entry, finish, advance, scan, poll,
}

module _ {W F E A : Type 0} (poll_future : F → W → Poll E A × F × W) (budget : W → ℕ)
    (future_ends : (f : F) (w : W)
      → Ends (budget w) (poll_future f w).0 (budget (poll_future f w).2)) where
  polled-Ends :
      (before order : ℕ) (p : Poll E A) (f : F) (w : W)
      → Ends before p (budget w)
      → let r : Poll E (Unit {0}) × Entry F A × W = elim p [
        | ready a ↦ (ready tt, record { order = order; future = f; item_if_ready = some a }, w)
        | not_ready ↦ (ready tt, record { order = order; future = f; item_if_ready = none }, w)
        | failed err ↦ (failed err, record { order = order; future = f; item_if_ready = none }, w)
        | panicked ↦ (panicked, record { order = order; future = f; item_if_ready = none }, w)
        | out_of_rounds ↦
            (out_of_rounds, record { order = order; future = f; item_if_ready = none }, w)
      ] in
        Ends before r.0 (budget r.2)
  polled-Ends before order (ready a) f w h = h
  polled-Ends before order not_ready f w h = h
  polled-Ends before order (failed x) f w h = h
  polled-Ends before order panicked f w h = h
  polled-Ends before order out_of_rounds f w h = h

  advanced-Ends :
      (order : ℕ) (f : F) (item : Option A) (w : W)
      → let r =
          advance poll_future (record { order = order; future = f; item_if_ready = item }) w in
        Ends (budget w) r.0 (budget r.2)
  unfolding advance
  advanced-Ends order f none w = polled-Ends (budget w) order _ _ _ (future_ends f w)
  advanced-Ends order f (some a) w = omega arith

  -- Going on after an entry's poll, or not.
  went_on-Ends :
      (before : ℕ) (p : Poll E (Unit {0})) (q : Poll E Minima) (es es' : List (Entry F A))
      (e : Entry F A) (w w' : W)
      → Ends before p (budget w)
      → Ends (budget w) q (budget w')
      → let r : Poll E Minima × List (Entry F A) × W = elim p [
        | ready _ ↦ (q, e ∷ es', w')
        | not_ready ↦ (not_ready, e ∷ es, w)
        | failed err ↦ (failed err, e ∷ es, w)
        | panicked ↦ (panicked, e ∷ es, w)
        | out_of_rounds ↦ (out_of_rounds, e ∷ es, w)
      ] in
        Ends before r.0 (budget r.2)
  went_on-Ends before (ready _) q es es' e w w' h k = Ends-mono (budget w) before (budget w') q h k
  went_on-Ends before not_ready q es es' e w w' h k = h
  went_on-Ends before (failed x) q es es' e w w' h k = h
  went_on-Ends before panicked q es es' e w w' h k = h
  went_on-Ends before out_of_rounds q es es' e w w' h k = h

  scan-Ends :
      (index : ℕ) (es : List (Entry F A)) (m : Minima) (w : W)
      → let (p, _, w') = scan poll_future index es m w in Ends (budget w) p (budget w')
  unfolding scan
  scan-Ends index [] m w = omega arith
  scan-Ends index (e ∷ es) m w =
      let (p, e', w') = advance poll_future e w in
      let (q, es', w'') = scan poll_future (suc index) es (visit index e' m) w' in
      went_on-Ends (budget w) p q es es' e' w' w''
        (advanced-Ends e.order e.future e.item_if_ready w)
        (scan-Ends (suc index) es (visit index e' m) w')

  chosen-Ends :
      (m : Minima) (es : List (Entry F A)) (before after : ℕ)
      → after ≤ before
      → Ends before (choose {E = E} m es).0 after
  unfolding choose take_entry
  chosen-Ends m es before after h = ground arith

  finished-Ends :
      (p : Poll E Minima) (es : List (Entry F A)) (before after : ℕ)
      → Ends before p after
      → Ends before (finish p es).0 after
  unfolding finish
  finished-Ends (ready m) es before after h = chosen-Ends m es before after h
  finished-Ends not_ready es before after h = h
  finished-Ends (failed x) es before after h = h
  finished-Ends panicked es before after h = h
  finished-Ends out_of_rounds es before after h = h

  -- Where the polls of the futures end, the poll of the stream does.
  pub poll-Ends :
      (s : OrderedStream F A) (w : W)
      → let (p, _, w') = poll poll_future s w in Ends (budget w) p (budget w')
  unfolding poll
  poll-Ends s w =
      let start : Minima = record { min_not_ready = none; min_ready = none } in
      let (p, es, w') = scan poll_future 0 s.entries start w in
      finished-Ends p es (budget w) (budget w') (scan-Ends 0 s.entries start w)
