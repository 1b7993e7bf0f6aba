-- ===== src/Ordered/Least.antt =====
-- What `OrderedStream::poll` answers (bridge/src/ordered_stream.rs): the item that it yields, and
-- why it yields none.
use mathlib.Core.List.{Memᴰ}
use native.Mathlib.Nat.{zero-add}
use parity_bridge.Base.{
  ℕ, suc, ◌≤◌, ◌<◌, ◌≡◌, ◌≢◌, refl, ◌⊎◌, inl, inr, Option, none, some, true, false, List, [], ◌∷◌,
  Perm, ◌∙◌, arith, get_elem?, swap_removed, swap_removed-perm, All, All-swap_removed, All-map,
}
use parity_bridge.Async.{Poll, ready, not_ready}
use parity_bridge.Ordered.Defs.{
  Entry, OrderedStream, Minima, visit, choose, take_entry, finish, is_blocked, advance, scan, poll,
}
use parity_bridge.Ordered.Scan.{Bounds, AllAdvanced, scan-Advanced, scan-Bounds}
use parity_bridge.Ordered.Polls.{AllPolledOnce, scan-AllPolledOnce}
use parity_bridge.Ordered.Origin.{Names, Awaits, scan-Names, scan-Awaits}

-- The minima before the loop.
abbrev pub unset : Minima
unset = record { min_not_ready = none; min_ready = none }

module _ {F A : Type 0} where
  -- Without a block, the least ready order is at or below the order of every entry.
  unblocked-le :
      (m : Minima) (o i : ℕ) (e : Entry F A)
      → m.min_ready ≡ some (o, i)
      → is_blocked m.min_not_ready o ≡ false
      → Bounds m e
      → o ≤ e.order
  unblocked-le m o i e r b h = ground arith

  finish-ready :
      {E : Type 0} (p : Poll E Minima) (es : List (Entry F A)) {x : Option (ℕ × A)}
      → (finish p es).0 ≡ ready x
      → (m : Minima) × (p ≡ ready m) × (finish p es ≡ choose m es)
  unfolding finish
  finish-ready (ready m) es h = (m, refl, refl)
  finish-ready _ es h = cc

  finish-not_ready :
      {E : Type 0} (p : Poll E Minima) (es : List (Entry F A))
      → (finish p es).0 ≡ not_ready
      → (p ≡ not_ready) ⊎ ((m : Minima) × (p ≡ ready m) × (finish p es ≡ choose m es))
  unfolding finish
  finish-not_ready (ready m) es h = inr (m, refl, refl)
  finish-not_ready not_ready es h = inl refl
  finish-not_ready _ es h = cc

  take_entry-ready :
      {E : Type 0} (i : ℕ) (es : List (Entry F A)) (e : Entry F A) (a : A)
      → get_elem? es i ≡ some e
      → e.item_if_ready ≡ some a
      → take_entry {E = E} i es ≡ (ready (some (e.order, a)), swap_removed i es)
  unfolding take_entry
  take_entry-ready i es e a h k = ground arith

  -- A minimum that names an entry: `choose` is blocked, or takes that entry out.
  pub choose-cases :
      {E : Type 0} (m : Minima) (es : List (Entry F A)) (i : ℕ) (e : Entry F A) (a : A)
      → get_elem? es i ≡ some e
      → e.item_if_ready ≡ some a
      → m.min_ready ≡ some (e.order, i)
      → ((is_blocked m.min_not_ready e.order ≡ true) × (choose {E = E} m es ≡ (not_ready, es)))
        ⊎ ((is_blocked m.min_not_ready e.order ≡ false)
            × (choose {E = E} m es ≡ (ready (some (e.order, a)), swap_removed i es)))
  unfolding choose
  choose-cases m es i e a at item r = ground (arith, take_entry-ready i es e a at item)

  unready-none :
      (m : Minima) (e : Entry F A) → m.min_ready ≡ none → Bounds m e → e.item_if_ready ≡ none
  unready-none m e r h = ground arith

  -- With a block, the pending order that makes it is below every ready order.
  blocked-lt :
      (m : Minima) (o i n : ℕ) (e : Entry F A)
      → m.min_ready ≡ some (o, i)
      → m.min_not_ready ≡ some n
      → is_blocked m.min_not_ready o ≡ true
      → Bounds m e
      → (e.item_if_ready ≡ none) ⊎ (n < e.order)
  blocked-lt m o i n e r q b h = ground arith

-- What a call that yields `x` leaves: a ready entry was kept, one entry was taken out, and none is
-- left with a smaller order.
pub record Takes {F A : Type 0} (s s' : OrderedStream F A) (x : Option (ℕ × A)) : Type 0 where
  pub polled : List (Entry F A)
  pub entry : Entry F A
  pub item : A
  pub yielded : x ≡ some (entry.order, item)
  pub was_ready : entry.item_if_ready ≡ some item
  pub advanced : AllAdvanced s.entries polled
  pub index : ℕ
  pub at : get_elem? polled index ≡ some entry
  pub left : s'.entries ≡ swap_removed index polled
  pub taken_out : Perm (entry ∷ s'.entries) polled
  pub least : All (λ y. entry.order ≤ y.order) s'.entries

-- What a call that answers "not ready" has left: nothing was taken out, and the ready entries
-- have to wait for one that is pending and has a smaller order than all of them.
pub record Waits {F A : Type 0} (s s' : OrderedStream F A) : Type 0 where
  pub advanced : AllAdvanced s.entries s'.entries
  pub blocked :
      All (λ y. y.item_if_ready ≡ none) s'.entries
      ⊎ ((e : Entry F A) × Memᴰ e s'.entries
          × (e.item_if_ready ≡ none)
          × All (λ y. (y.item_if_ready ≡ none) ⊎ (e.order < y.order)) s'.entries)

module _ {F A : Type 0} (s : OrderedStream F A) (es : List (Entry F A)) (m : Minima) where
  unready-Waits :
      AllAdvanced s.entries es
      → All (Bounds m) es
      → m.min_ready ≡ none
      → Waits s (record { entries = es })
  unready-Waits adv bounds r = record {
    advanced = adv;
    blocked = inl (All-map (Bounds m) _ es (λ y b. unready-none m y r b) bounds);
  }

  blocked-Waits :
      (o i : ℕ)
      → AllAdvanced s.entries es
      → All (Bounds m) es
      → m.min_ready ≡ some (o, i)
      → is_blocked m.min_not_ready o ≡ true
      → (m.min_not_ready ≡ none) ⊎ Awaits es m.min_not_ready
      → Waits s (record { entries = es })
  blocked-Waits o i adv bounds r b (inl absent) = ground arith
  blocked-Waits o i adv bounds r b (inr (e, at, pending, q)) = record {
    advanced = adv;
    blocked = inr (
      e,
      at,
      pending,
      All-map (Bounds m) _ es (λ y h. blocked-lt m o i e.order y r q b h) bounds,
    );
  }

module _ {F A E : Type 0} (s : OrderedStream F A) (es : List (Entry F A)) (m : Minima) where
  chosen-Takes :
      {x : Option (ℕ × A)}
      → AllAdvanced s.entries es
      → All (Bounds m) es
      → (m.min_ready ≡ none) ⊎ Names 0 es m.min_ready
      → (choose {E = E} m es).0 ≡ ready x
      → (y : Takes s (record { entries = (choose {E = E} m es).1 }) x) × (y.polled ≡ es)
  chosen-Takes adv bounds (inl unready) h = unfold choose in ground arith
  chosen-Takes adv bounds (inr (i, e, a, at, item, r)) h =
      let r' : m.min_ready ≡ some (e.order, i) = r ∙ simp (zero-add) in
      elim (choose-cases {E = E} m es i e a at item r') [
        | inl (_, blocked) ↦ cc
        | inr (free, taken) ↦ rw taken (
          record {
            polled = es;
            entry = e;
            item = a;
            yielded = cc;
            was_ready = item;
            advanced = adv;
            index = i;
            at = at;
            left = refl;
            taken_out = swap_removed-perm es i e at;
            least =
                All-swap_removed _ i es
                  (All-map (Bounds m) _ es (λ y b. unblocked-le m e.order i y r' free b) bounds);
          },
          refl,
        )
      ]

  chosen-Waits :
      AllAdvanced s.entries es
      → All (Bounds m) es
      → (m.min_ready ≡ none) ⊎ Names 0 es m.min_ready
      → (m.min_not_ready ≡ none) ⊎ Awaits es m.min_not_ready
      → (choose {E = E} m es).0 ≡ not_ready
      → Waits s (record { entries = (choose {E = E} m es).1 })
  chosen-Waits adv bounds (inl unready) _ h =
      let e : choose {E = E} m es ≡ (not_ready, es) = unfold choose in ground arith in
      rw e (unready-Waits s es m adv bounds unready)
  chosen-Waits adv bounds (inr (i, e, a, at, item, r)) waits h =
      let r' : m.min_ready ≡ some (e.order, i) = r ∙ simp (zero-add) in
      elim (choose-cases {E = E} m es i e a at item r') [
        | inl (b, blocked) ↦ rw blocked (blocked-Waits s es m e.order i adv bounds r' b waits)
        | inr (_, taken) ↦ cc
      ]

module _ {W F E A : Type 0} (poll_future : F → W → Poll E A × F × W) where
  scan-ne-not_ready :
      (index : ℕ) (es : List (Entry F A)) (m : Minima) (w : W)
      → (scan poll_future index es m w).0 ≢ not_ready
  unfolding scan advance
  scan-ne-not_ready index [] m w = λ h. cc
  scan-ne-not_ready index (e ∷ es) m w =
      let (_, e', w') = advance poll_future e w in
      λ h. ground (arith, scan-ne-not_ready (suc index) es (visit index e' m) w')

  taken :
      (s : OrderedStream F A) (w : W) {x : Option (ℕ × A)}
      → (poll poll_future s w).0 ≡ ready x
      → (y : Takes s (poll poll_future s w).1 x) × (y.polled
          ≡ (scan poll_future 0 s.entries unset w).1)
  unfolding poll
  taken s w {x} h =
      let (p, es, _) = scan poll_future 0 s.entries unset w in
      let (m, e, f) = finish-ready p es h in
      rw f (
        chosen-Takes s es m (scan-Advanced poll_future 0 s.entries unset m w e)
          (scan-Bounds poll_future 0 s.entries unset m w e)
          (scan-Names poll_future 0 s.entries unset m w e) (rw f at h))

  pub poll-Takes :
      (s : OrderedStream F A) (w : W) {x : Option (ℕ × A)}
      → (poll poll_future s w).0 ≡ ready x
      → Takes s (poll poll_future s w).1 x
  poll-Takes s w h = (taken s w h).0

  polled-once :
      (s : OrderedStream F A) (w : W) {x : Option (ℕ × A)}
      → (poll poll_future s w).0 ≡ ready x
      → AllPolledOnce poll_future s.entries w
          (scan poll_future 0 s.entries unset w).1
          (poll poll_future s w).2
  unfolding poll
  polled-once s w h =
      let (p, es, _) = scan poll_future 0 s.entries unset w in
      let (m, e, f) = finish-ready p es h in scan-AllPolledOnce poll_future 0 s.entries unset m w e

  -- What a call that yields `x` leaves, and the futures that were polled for it.
  pub record Yields (s : OrderedStream F A) (w : W) (s' : OrderedStream F A) (w' : W)
      (x : Option (ℕ × A)) : Type 0 where
    pub takes : Takes s s' x
    pub polls : AllPolledOnce poll_future s.entries w takes.polled w'

  -- A call that is ready has polled, one after the other, the future of every entry without an item
  -- once and no other future, has kept their items, and yields an entry that has its item and the
  -- least order of those left; it has taken out that entry only, by `swap_remove`.
  pub poll-Yields :
      (s : OrderedStream F A) (w : W) {x : Option (ℕ × A)}
      → (poll poll_future s w).0 ≡ ready x
      → Yields s w (poll poll_future s w).1 (poll poll_future s w).2 x
  poll-Yields s w h = record {
    takes = (taken s w h).0;
    polls = rw (taken s w h).1 (polled-once s w h);
  }

  -- A call that is not ready has a reason to wait.
  pub poll-Waits :
      (s : OrderedStream F A) (w : W)
      → (poll poll_future s w).0 ≡ not_ready
      → Waits s (poll poll_future s w).1
  unfolding poll
  poll-Waits s w h =
      let (p, es, _) = scan poll_future 0 s.entries unset w in
      elim (finish-not_ready p es h) [
        | inl e ↦ absurd (scan-ne-not_ready 0 s.entries unset w e)
        | inr (m, e, f) ↦ rw f (
            chosen-Waits {E = E} s es m (scan-Advanced poll_future 0 s.entries unset m w e)
              (scan-Bounds poll_future 0 s.entries unset m w e)
              (scan-Names poll_future 0 s.entries unset m w e)
              (scan-Awaits poll_future 0 s.entries unset m w e) (rw f at h))
      ]
