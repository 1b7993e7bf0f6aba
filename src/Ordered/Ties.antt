-- ===== src/Ordered/Ties.antt =====
-- Entries of one order in `OrderedStream` (bridge/src/ordered_stream.rs): `swap_remove` does not
-- keep their order of insertion, and one that is ready does not wait for one that is pending.
use parity_bridge.Base.{ℕ, ◌<◌, ◌≡◌, some, none, List, [], ◌∷◌, arith}
use parity_bridge.Async.{Poll, ready, not_ready}
use parity_bridge.Ordered.Defs.{Entry, poll, scan, advance, visit}

-- The entries of a stream in which a was inserted before b, and b before c, with all items there.
abbrev pub three_ready : {F A : Type 0} → (o p : ℕ) (f : F) (a b c : A) → List (Entry F A)
three_ready o p f a b c =
    (record { order = o; future = f; item_if_ready = some a })
    ∷ (record { order = p; future = f; item_if_ready = some b })
    ∷ (record { order = p; future = f; item_if_ready = some c })
    ∷ []

module _ {W F E A : Type 0} (poll_future : F → W → Poll E A × F × W) where
  -- A stream of three entries with their items, of which the first inserted has a smaller order
  -- than the other two and these have the same order, yields the first, then the last inserted,
  -- then the one between.
  pub ties_swap :
      (o p : ℕ) (f : F) (a b c : A) (w : W)
      → o < p
      → let (x, s, w') = poll poll_future (record { entries = three_ready o p f a b c }) w in
        let (y, s', w'') = poll poll_future s w' in
        let (z, _, _) = poll poll_future s' w'' in
        (x ≡ ready (some (o, a))) × (y ≡ ready (some (p, c))) × (z ≡ ready (some (p, b)))
  unfolding poll scan advance visit
  ties_swap o p f a b c w h = ground arith

  -- An item that is ready is yielded although an entry of the same order is pending and stays
  -- behind.
  pub ready_overtakes :
      (o : ℕ) (f g g' : F) (a : A) (w w' : W)
      → poll_future g w ≡ (not_ready, g', w')
      → poll poll_future
          (record {
            entries =
                (record { order = o; future = f; item_if_ready = some a })
                ∷ (record { order = o; future = g; item_if_ready = none })
                ∷ [];
          })
          w
        ≡ (
          ready (some (o, a)),
          record { entries = (record { order = o; future = g'; item_if_ready = none }) ∷ [] },
          w',
        )
  unfolding poll scan advance visit
  ready_overtakes o f g g' a w w' h = ground arith
