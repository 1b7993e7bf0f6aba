-- ===== src/Ordered/Total.antt =====
-- How a call of `OrderedStream::poll` can end (bridge/src/ordered_stream.rs): its own `expect`s
-- never fail, and it never ends the stream.
use mathlib.Core.List.{Memᴰ}
use native.Mathlib.Nat.{zero-add}
use parity_bridge.Base.{
  ℕ, suc, ◌≡◌, refl, ◌∙◌, ◌⊎◌, inl, inr, Option, none, some, List, [], ◌∷◌, arith,
}
use parity_bridge.Async.{Poll, ready, not_ready, failed, panicked, out_of_rounds}
use parity_bridge.Ordered.Defs.{
  Entry, OrderedStream, Minima, choose, finish, visit, advance, scan, poll,
}
use parity_bridge.Ordered.Origin.{Names, scan-Names}
use parity_bridge.Ordered.Least.{unset, choose-cases}

-- The call did what it is there to do: it waits, or yields an item.
abbrev pub Completes : {E A : Type 0} → Poll E (Option A) → Type 0
Completes {A} p = (p ≡ not_ready) ⊎ ((x : A) × (p ≡ ready (some x)))

-- Both calls ended early, in the same way.
abbrev pub EndsAs : {E A B : Type 0} → Poll E A → Poll E B → Type 0
EndsAs (failed x) (failed y) = x ≡ y
EndsAs panicked panicked = Unit
EndsAs out_of_rounds out_of_rounds = Unit
EndsAs _ _ = ⊥

module _ {F A E : Type 0} where
  choose-Completes :
      (m : Minima) (es : List (Entry F A))
      → (m.min_ready ≡ none) ⊎ Names 0 es m.min_ready
      → Completes (choose {E = E} m es).0
  choose-Completes m es (inl unready) = inl (unfold choose in ground arith)
  choose-Completes m es (inr (i, e, a, at, item, r)) =
      elim (choose-cases {E = E} m es i e a at item (r ∙ simp zero-add)) [
        | inl (_, blocked) ↦ inl (rw blocked)
        | inr (_, taken) ↦ inr ((e.order, a), rw taken)
      ]

module _ {W F E A : Type 0} (poll_future : F → W → Poll E A × F × W) where
  -- A pending entry of the list whose future ended so when it was polled.
  pub record Blamed {B : Type 0} (es : List (Entry F A)) (p : Poll E B) : Type 0 where
    pub entry : Entry F A
    pub member : Memᴰ entry es
    pub pending : entry.item_if_ready ≡ none
    pub around : W
    pub ended : EndsAs (poll_future entry.future around).0 p

  advance-Blamed :
      (e : Entry F A) (w : W)
      → ((advance poll_future e w).0 ≡ ready tt)
        ⊎ ((e.item_if_ready ≡ none) × EndsAs (poll_future e.future w).0 (advance poll_future e w).0)
  unfolding advance
  advance-Blamed e w = ground arith

  scan-first :
      (index : ℕ) (e : Entry F A) (es : List (Entry F A)) (m : Minima) (w : W)
      → (advance poll_future e w).0 ≡ ready tt
      → let (_, e', w') = advance poll_future e w in
        (scan poll_future index (e ∷ es) m w).0
        ≡ (scan poll_future (suc index) es (visit index e' m) w').0
  unfolding scan
  scan-first index e es m w h = ground arith

  scan-stops :
      (index : ℕ) (e : Entry F A) (es : List (Entry F A)) (m : Minima) (w : W) (p : Poll E A)
      → EndsAs p (advance poll_future e w).0
      → EndsAs p (scan poll_future index (e ∷ es) m w).0
  unfolding scan
  scan-stops index e es m w p h = ground arith

  scan-Blamed :
      (index : ℕ) (es : List (Entry F A)) (m : Minima) (w : W)
      → ((m' : Minima) × ((scan poll_future index es m w).0 ≡ ready m'))
        ⊎ Blamed es (scan poll_future index es m w).0
  scan-Blamed index [] m w = inl (m, unfold scan in refl)
  scan-Blamed index (e ∷ es) m w =
      let (_, e', w') = advance poll_future e w in
      elim (advance-Blamed e w) [
        | inl on ↦
            rw (scan-first index e es m w on)
              (elim (scan-Blamed (suc index) es (visit index e' m) w') [
                | inl r ↦ inl r
                | inr b ↦ inr (record {
                  entry = b.entry;
                  member = Memᴰ.tail b.member;
                  pending = b.pending;
                  around = b.around;
                  ended = b.ended;
                })
              ])
        | inr (pending, ended) ↦ inr (record {
          entry = e;
          member = Memᴰ.head refl;
          pending = pending;
          around = w;
          ended = scan-stops index e es m w (poll_future e.future w).0 ended;
        })
      ]

  finish-stops :
      (p : Poll E A) (q : Poll E Minima) (es : List (Entry F A))
      → EndsAs p q
      → EndsAs p (finish q es).0
  unfolding finish
  finish-stops p q es h = ground arith

  -- A call of `poll` waits or yields an item, unless the future of a pending entry ended its own
  -- poll by an error, a panic or no answer: then the call ends in the same way.
  pub poll-Completes :
      (s : OrderedStream F A) (w : W)
      → Completes (poll poll_future s w).0 ⊎ Blamed s.entries (poll poll_future s w).0
  unfolding poll
  poll-Completes s w =
      let (p, es, _) = scan poll_future 0 s.entries unset w in
      elim (scan-Blamed 0 s.entries unset w) [
        | inl (m, e) ↦
            let f : finish p es ≡ choose m es = rw (e, finish) in
            inl (rw f (choose-Completes m es (scan-Names poll_future 0 s.entries unset m w e)))
        | inr b ↦ inr (record {
          entry = b.entry;
          member = b.member;
          pending = b.pending;
          around = b.around;
          ended = finish-stops (poll_future b.entry.future b.around).0 p es b.ended;
        })
      ]
