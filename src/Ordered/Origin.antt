-- ===== src/Ordered/Origin.antt =====
-- Where the two minima of a pass come from (bridge/src/ordered_stream.rs): the ready one from the
-- entry at its index, the other from an entry that is still pending.
use mathlib.Core.List.{Memᴰ}
use native.Mathlib.Nat.{add-zero, add-suc, suc-add}
use parity_bridge.Base.{
  ℕ, suc, ◌+◌, ◌≡◌, refl, ◌⊎◌, inl, inr, Option, none, some, List, [], ◌∷◌, ◌∙◌, arith, get_elem?,
}
use parity_bridge.Async.{Poll, ready}
use parity_bridge.Ordered.Defs.{Entry, Minima, visit, advance, scan}
use parity_bridge.Ordered.Scan.{scan-cons}

-- The entry at place `i` of the list is ready, and the minimum names its order and index.
abbrev pub Names : {F A : Type 0} → ℕ → List (Entry F A) → Option (ℕ × ℕ) → Type 0
Names {F} {A} start es r =
    (i : ℕ) × (e : Entry F A) × (a : A) × (get_elem? es i ≡ some e)
    × (e.item_if_ready ≡ some a)
    × (r ≡ some (e.order, start + i))

-- An entry of the list is pending, and the minimum is its order.
abbrev pub Awaits : {F A : Type 0} → List (Entry F A) → Option ℕ → Type 0
Awaits {F} {A} es r = (e : Entry F A) × Memᴰ e es × (e.item_if_ready ≡ none) × (r ≡ some e.order)

module _ {F A : Type 0} where
  visit-ready :
      (index : ℕ) (e : Entry F A) (m : Minima)
      → ((visit index e m).min_ready ≡ m.min_ready)
        ⊎ ((a : A) × (e.item_if_ready ≡ some a)
            × ((visit index e m).min_ready ≡ some (e.order, index)))
  unfolding visit
  visit-ready index e m = ground arith

  visit-not_ready :
      (index : ℕ) (e : Entry F A) (m : Minima)
      → ((visit index e m).min_not_ready ≡ m.min_not_ready)
        ⊎ ((e.item_if_ready ≡ none) × ((visit index e m).min_not_ready ≡ some e.order))
  unfolding visit
  visit-not_ready index e m = ground arith

module _ {W F E A : Type 0} (poll_future : F → W → Poll E A × F × W) where
  pub scan-Names :
      (index : ℕ) (es : List (Entry F A)) (m m' : Minima) (w : W)
      → (scan poll_future index es m w).0 ≡ ready m'
      → (m'.min_ready ≡ m.min_ready) ⊎ Names index (scan poll_future index es m w).1 m'.min_ready
  scan-Names index [] m m' w h = inl (unfold scan in cc)
  scan-Names index (e ∷ es) m m' w h =
      let (_, e', w') = advance poll_future e w in
      let (rest, shape) = scan-cons poll_future index e es m m' w h in
      rw shape (elim (scan-Names (suc index) es (visit index e' m) m' w' rest) [
        | inl same ↦ elim (visit-ready index e' m) [
          | inl old ↦ inl (same ∙ old)
          | inr (a, item, new) ↦ inr (0, e', a, refl, item, same ∙ new ∙ simp add-zero)
        ]
        | inr (i, x, a, at, item, r) ↦
            inr (suc i, x, a, at, item, r ∙ rw (add-suc index i, suc-add index i))
      ])

  pub scan-Awaits :
      (index : ℕ) (es : List (Entry F A)) (m m' : Minima) (w : W)
      → (scan poll_future index es m w).0 ≡ ready m'
      → (m'.min_not_ready ≡ m.min_not_ready)
        ⊎ Awaits (scan poll_future index es m w).1 m'.min_not_ready
  scan-Awaits index [] m m' w h = inl (unfold scan in cc)
  scan-Awaits index (e ∷ es) m m' w h =
      let (_, e', w') = advance poll_future e w in
      let (rest, shape) = scan-cons poll_future index e es m m' w h in
      rw shape (elim (scan-Awaits (suc index) es (visit index e' m) m' w' rest) [
        | inl same ↦ elim (visit-not_ready index e' m) [
          | inl old ↦ inl (same ∙ old)
          | inr (none_yet, new) ↦ inr (e', Memᴰ.head refl, none_yet, same ∙ new)
        ]
        | inr (x, at, item, r) ↦ inr (x, Memᴰ.tail at, item, r)
      ])
