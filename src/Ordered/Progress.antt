-- ===== src/Ordered/Progress.antt =====
-- A poll of `OrderedStream` yields where it can (bridge/src/ordered_stream.rs).
use mathlib.Core.List.{Memᴰ}
use mathlib.Core.List.Perm.{mem_iff}
use mathlib.Core.Logic.{∥∥₁_elim}
use native.Mathlib.Bridge.{le_prop}
use native.Mathlib.Nat.{le_refl}
use parity_bridge.Base.{
  ℕ, ◌≤◌, ◌≡◌, ◌∙◌, sym, inl, inr, some, List, [], ◌∷◌, All, All-mem, All-get_elem?, arith,
}
use parity_bridge.Async.{Poll, ready, not_ready, failed, panicked, out_of_rounds}
use parity_bridge.Ordered.Defs.{Entry, OrderedStream, poll}
use parity_bridge.Ordered.Scan.{AllAdvanced}
use parity_bridge.Ordered.Least.{Takes, Waits, poll-Takes, poll-Waits}
use parity_bridge.Ordered.Total.{EndsAs, poll-Completes}

-- The poll of a future ended as it should.
abbrev pub Settles : {E A : Type 0} → Poll E A → Type 0
Settles (ready a) = Unit
Settles not_ready = Unit
Settles (failed e) = ⊥
Settles panicked = ⊥
Settles out_of_rounds = ⊥

EndsAs-Settles : {E A B : Type 0} (p : Poll E A) (q : Poll E B) → EndsAs p q → Settles p → ⊥
EndsAs-Settles (ready a) q h s = h
EndsAs-Settles not_ready q h s = h
EndsAs-Settles (failed e) q h s = s
EndsAs-Settles panicked q h s = s
EndsAs-Settles out_of_rounds q h s = s

module _ {F A : Type 0} where
  -- An entry with an item is left as it is.
  kept-Memᴰ :
      (es es' : List (Entry F A)) (e : Entry F A) (a : A)
      → AllAdvanced es es'
      → e.item_if_ready ≡ some a
      → Memᴰ e es
      → Memᴰ e es'
  kept-Memᴰ [] es' e a adv has m = elim m [ ]
  kept-Memᴰ (x ∷ xs) [] e a adv has m = absurd adv
  kept-Memᴰ (x ∷ xs) (y ∷ ys) e a ((_, inl pending), adv) has (Memᴰ.head same) =
      let bad = rw same at has in cc
  kept-Memᴰ (x ∷ xs) (y ∷ ys) e a ((_, inr kept), adv) has (Memᴰ.head same) =
      Memᴰ.head (same ∙ sym kept)
  kept-Memᴰ (x ∷ xs) (y ∷ ys) e a (first, adv) has (Memᴰ.tail m) =
      Memᴰ.tail (kept-Memᴰ xs ys e a adv has m)

  -- Polling moves no order.
  least-Advanced :
      (n : ℕ) (es es' : List (Entry F A))
      → AllAdvanced es es'
      → All (λ y. n ≤ y.order) es
      → All (λ y. n ≤ y.order) es'
  least-Advanced n [] [] adv h = tt
  least-Advanced n [] (y ∷ ys) adv h = absurd adv
  least-Advanced n (x ∷ xs) [] adv h = absurd adv
  least-Advanced n (x ∷ xs) (y ∷ ys) ((same, _), adv) (first, h) =
      (omega arith, least-Advanced n xs ys adv h)

  -- Nothing holds up an entry with an item and of the least order.
  least-moves :
      (s s' : OrderedStream F A) (e : Entry F A) (a : A)
      → Memᴰ e s.entries
      → e.item_if_ready ≡ some a
      → All (λ y. e.order ≤ y.order) s.entries
      → Waits s s'
      → ⊥
  least-moves s s' e a m item least w =
      let kept = kept-Memᴰ s.entries s'.entries e a w.advanced item m in
      elim w.blocked [
        | inl unready ↦ let bad = All-mem _ s'.entries unready kept in cc
        | inr (b, at, pending, above) ↦
            let low =
              All-mem _ s'.entries (least-Advanced e.order s.entries s'.entries w.advanced least)
                at in
            elim (All-mem _ s'.entries above kept) [ inl empty ↦ cc | inr high ↦ omega arith ]
      ]

  -- What is yielded has the least order.
  yielded-least :
      (s s' : OrderedStream F A) (e : Entry F A) (a : A) (x : ℕ × A)
      → Memᴰ e s.entries
      → e.item_if_ready ≡ some a
      → All (λ y. e.order ≤ y.order) s.entries
      → Takes s s' (some x)
      → x.0 ≡ e.order
  yielded-least s s' e a x m item least y =
      let kept = kept-Memᴰ s.entries y.polled e a y.advanced item m in
      let low =
        All-get_elem? _ y.polled y.index
          (least-Advanced e.order s.entries y.polled y.advanced least) y.at in
      let there = ∥∥₁_elim ((mem_iff y.taken_out).1 ∣ kept ∣₁) le_prop (λ k.
        All-mem (λ z. y.entry.order ≤ z.order) (y.entry ∷ s'.entries)
          (le_refl y.entry.order, y.least) k) in
      let named : x.0 ≡ y.entry.order = cc (y.yielded) in omega arith

module _ {W F E A : Type 0} (poll_future : F → W → Poll E A × F × W) where
  -- Where an entry has its item and no entry has a lower order, and the polls of the futures end
  -- neither in an error nor in a panic nor without an answer, a poll yields an item of that order.
  pub poll-Progress :
      (s : OrderedStream F A) (w : W) (e : Entry F A) (a : A)
      → Memᴰ e s.entries
      → e.item_if_ready ≡ some a
      → All (λ y. e.order ≤ y.order) s.entries
      → ((f : F) (w : W) → Settles (poll_future f w).0)
      → (x : ℕ × A) × ((poll poll_future s w).0 ≡ ready (some x)) × (x.0 ≡ e.order)
  poll-Progress s w e a m item least settles =
      let s' = (poll poll_future s w).1 in
      elim (poll-Completes poll_future s w) [
        | inl (inl waits) ↦
            absurd (least-moves s s' e a m item least (poll-Waits poll_future s w waits))
        | inl (inr (x, yields)) ↦
            (x, yields, yielded-least s s' e a x m item least (poll-Takes poll_future s w yields))
        | inr b ↦ absurd (EndsAs-Settles _ _ b.ended (settles b.entry.future b.around))
      ]
