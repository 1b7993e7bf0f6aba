-- ===== src/Ordered/Scan.antt =====
-- What one pass of the `for` loop of `poll` establishes (bridge/src/ordered_stream.rs): the entries
-- are the old ones with some of their items filled in, and the two minima are right for them.
use parity_bridge.Base.{ℕ, suc, ◌≤◌, ◌≡◌, ◌⊎◌, Option, none, some, List, [], ◌∷◌, subst, arith, All}
use parity_bridge.Async.{Poll, ready}
use parity_bridge.Ordered.Defs.{Entry, Minima, visit, advance, scan}

abbrev pub LeNotReady : Option ℕ → ℕ → Type 0
LeNotReady none n = ⊥
LeNotReady (some x) n = x ≤ n

abbrev pub LeReady : Option (ℕ × ℕ) → ℕ → Type 0
LeReady none n = ⊥
LeReady (some (x, _)) n = x ≤ n

-- The entry's order is at or above the minimum of its kind.
abbrev pub BoundsAt : {A : Type 0} → Minima → ℕ → Option A → Type 0
BoundsAt m order none = LeNotReady m.min_not_ready order
BoundsAt m order (some _) = LeReady m.min_ready order

abbrev pub Bounds : {F A : Type 0} → Minima → Entry F A → Type 0
Bounds m e = BoundsAt m e.order e.item_if_ready

-- Polling keeps the order of an entry, and an item that it holds already.
abbrev pub Advanced : {F A : Type 0} → Entry F A → Entry F A → Type 0
Advanced e e' = (e'.order ≡ e.order) × ((e.item_if_ready ≡ none) ⊎ (e' ≡ e))

abbrev pub AllAdvanced : {F A : Type 0} → List (Entry F A) → List (Entry F A) → Type 0
AllAdvanced [] [] = Unit
AllAdvanced [] (y ∷ ys) = ⊥
AllAdvanced (x ∷ xs) [] = ⊥
AllAdvanced (x ∷ xs) (y ∷ ys) = Advanced x y × AllAdvanced xs ys

-- A minimum is never raised.
record Below (m m' : Minima) : Type 0 where
  not_ready_side : (n : ℕ) → LeNotReady m.min_not_ready n → LeNotReady m'.min_not_ready n
  ready_side : (n : ℕ) → LeReady m.min_ready n → LeReady m'.min_ready n

Below-refl : (m : Minima) → Below m m
Below-refl m = record { not_ready_side = λ n h. h; ready_side = λ n h. h }

Below-trans : {m n o : Minima} → Below m n → Below n o → Below m o
Below-trans h k = record {
  not_ready_side = λ n x. k.not_ready_side n (h.not_ready_side n x);
  ready_side = λ n x. k.ready_side n (h.ready_side n x);
}

module _ {F A : Type 0} where
  visit-Below : (index : ℕ) (e : Entry F A) (m : Minima) → Below m (visit index e m)
  unfolding visit
  visit-Below index e m = record {
    not_ready_side = λ n h. ground arith;
    ready_side = λ n h. ground arith;
  }

  visit-Bounds : (index : ℕ) (e : Entry F A) (m : Minima) → Bounds (visit index e m) e
  unfolding visit
  visit-Bounds index e m = ground arith

  Below-Bounds : (m m' : Minima) (e : Entry F A) → Below m m' → Bounds m e → Bounds m' e
  Below-Bounds m m' e h b = ground (arith, h.not_ready_side e.order, h.ready_side e.order)

module _ {W F E A : Type 0} (poll_future : F → W → Poll E A × F × W) where
  advance-Advanced : (e : Entry F A) (w : W) → Advanced e (advance poll_future e w).1
  unfolding advance
  advance-Advanced e w = ground arith

  -- A pass that reaches the end of the list has polled its first entry and gone on with the rest.
  pub scan-cons :
      (index : ℕ) (e : Entry F A) (es : List (Entry F A)) (m m' : Minima) (w : W)
      → (scan poll_future index (e ∷ es) m w).0 ≡ ready m'
      → let (_, e', w') = advance poll_future e w in
        let rest = scan poll_future (suc index) es (visit index e' m) w' in
        (rest.0 ≡ ready m') × ((scan poll_future index (e ∷ es) m w).1 ≡ e' ∷ rest.1)
  unfolding scan
  scan-cons index e es m m' w h = ground arith

  pub scan-Advanced :
      (index : ℕ) (es : List (Entry F A)) (m m' : Minima) (w : W)
      → (scan poll_future index es m w).0 ≡ ready m'
      → AllAdvanced es (scan poll_future index es m w).1
  scan-Advanced index [] m m' w h = unfold scan in tt
  scan-Advanced index (e ∷ es) m m' w h =
      let (_, e', w') = advance poll_future e w in
      let (rest, shape) = scan-cons index e es m m' w h in
      rw shape (advance-Advanced e w, scan-Advanced (suc index) es (visit index e' m) m' w' rest)

  scan-Below :
      (index : ℕ) (es : List (Entry F A)) (m m' : Minima) (w : W)
      → (scan poll_future index es m w).0 ≡ ready m'
      → Below m m'
  unfolding scan
  scan-Below index [] m m' w h = let e : m ≡ m' = cc in subst (Below m) e (Below-refl m)
  scan-Below index (e ∷ es) m m' w h =
      let (_, e', w') = advance poll_future e w in
      let (rest, shape) = scan-cons index e es m m' w h in
      Below-trans (visit-Below index e' m) (scan-Below (suc index) es (visit index e' m) m' w' rest)

  pub scan-Bounds :
      (index : ℕ) (es : List (Entry F A)) (m m' : Minima) (w : W)
      → (scan poll_future index es m w).0 ≡ ready m'
      → All (Bounds m') (scan poll_future index es m w).1
  scan-Bounds index [] m m' w h = unfold scan in tt
  scan-Bounds index (e ∷ es) m m' w h =
      let (_, e', w') = advance poll_future e w in
      let (rest, shape) = scan-cons index e es m m' w h in
      rw shape (
        Below-Bounds (visit index e' m) m' e'
            (scan-Below (suc index) es (visit index e' m) m' w' rest) (visit-Bounds index e' m),
        scan-Bounds (suc index) es (visit index e' m) m' w' rest,
      )
