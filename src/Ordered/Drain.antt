-- ===== src/Ordered/Drain.antt =====
-- Taking items from an `OrderedStream` whose futures have all completed
-- (bridge/src/ordered_stream.rs).
use mathlib.Core.List.Perm
use parity_bridge.Base.{
  ℕ, zero, suc, ◌≤◌, ◌≡◌, refl, inl, inr, Option, none, some, List, [], ◌∷◌, map, Perm, arith,
  length, true, is_some, All, All-mem, All-get_elem?, All-swap_removed, swap_removed,
  length-swap_removed, ap, ◌∙◌,
}
use parity_bridge.Async.{Poll, ready}
use parity_bridge.Ordered.Defs.{Entry, OrderedStream, poll}
use parity_bridge.Ordered.Scan.{AllAdvanced}
use parity_bridge.Ordered.Total.{poll-Completes}
use parity_bridge.Ordered.Least.{Takes, Waits, poll-Takes, poll-Waits}

abbrev pub AllReady : {F A : Type 0} → List (Entry F A) → Type 0
AllReady = All (λ e. is_some e.item_if_ready ≡ true)

-- `stream.take(n).collect()` for items that are there.
module _ {W F E A : Type 0} (poll_future : F → W → Poll E A × F × W) where
  pub collect : ℕ → OrderedStream F A → W → List (ℕ × A)
  collect zero s w = []
  collect (suc n) s w =
      let (p, s', w') = poll poll_future s w in
      elim p [ ready (some x) ↦ x ∷ collect n s' w' | _ ↦ [] ]

-- The orders of a list of results rise.
abbrev pub IsSorted : {A : Type 0} → List (ℕ × A) → Type 0
IsSorted [] = Unit
IsSorted (x ∷ xs) = All (λ y. x.0 ≤ y.0) xs × IsSorted xs

module _ {F A : Type 0} where
  pending-ne : (e : Entry F A) → e.item_if_ready ≡ none → is_some e.item_if_ready ≡ true → ⊥
  pending-ne e p r = ground arith

  AllAdvanced-AllReady : (es es' : List (Entry F A)) → AllReady es → AllAdvanced es es' → es' ≡ es
  AllAdvanced-AllReady [] [] h a = refl
  AllAdvanced-AllReady [] (y ∷ ys) h a = absurd a
  AllAdvanced-AllReady (x ∷ xs) [] h a = absurd a
  AllAdvanced-AllReady (x ∷ xs) (y ∷ ys) h a =
      let rest = AllAdvanced-AllReady xs ys h.1 a.1 in ground arith

module _ {W F E A : Type 0} (poll_future : F → W → Poll E A × F × W) where
  -- A stream whose items are all there does not wait.
  AllReady-not-Waits :
      (e : Entry F A) (es : List (Entry F A)) (s' : OrderedStream F A)
      → AllReady (e ∷ es)
      → ¬ Waits (record { entries = e ∷ es }) s'
  AllReady-not-Waits e es s' h waits =
      let same = AllAdvanced-AllReady (e ∷ es) s'.entries h waits.advanced in
      elim (waits.blocked) [
        | inl pending ↦ pending-ne e (rw same at pending).0 h.0
        | inr (p, member, pending, _) ↦
            pending-ne p pending (All-mem _ (e ∷ es) h (rw same at member))
      ]

  -- It yields an item.
  poll-AllReady :
      (e : Entry F A) (es : List (Entry F A)) (w : W)
      → AllReady (e ∷ es)
      → (x : ℕ × A) × ((poll poll_future (record { entries = e ∷ es }) w).0 ≡ ready (some x))
  poll-AllReady e es w h =
      let s : OrderedStream F A = record { entries = e ∷ es } in
      elim (poll-Completes poll_future s w) [
        | inl (inr r) ↦ r
        | inl (inl waits) ↦ absurd (AllReady-not-Waits e es _ h (poll-Waits poll_future s w waits))
        | inr b ↦ absurd (pending-ne b.entry b.pending (All-mem _ (e ∷ es) h b.member))
      ]

abbrev pub tag_result : {A : Type 0} → ℕ × A → ℕ × Option A
tag_result (o, a) = (o, some a)

abbrev pub tag_entry : {F A : Type 0} → Entry F A → ℕ × Option A
tag_entry e = (e.order, e.item_if_ready)

-- The results rise, are one for each entry, and none is below a bound of the entries.
pub record Drained {F A : Type 0} (es : List (Entry F A)) (r : List (ℕ × A)) : Type 0 where
  pub sorted : IsSorted r
  pub same_items : Perm (map tag_result r) (map tag_entry es)
  pub bounded : (o : ℕ) → All (λ e. o ≤ e.order) es → All (λ y. o ≤ y.0) r

module _ {F A : Type 0} where
  -- One more result in front.
  Drained-cons :
      (s s' : OrderedStream F A) (r : List (ℕ × A)) {x : Option (ℕ × A)} (y : Takes s s' x)
      → y.polled ≡ s.entries
      → Drained s'.entries r
      → Drained s.entries ((y.entry.order, y.item) ∷ r)
  Drained-cons s s' r y same d = record {
    sorted = (d.bounded y.entry.order y.least, d.sorted);
    same_items =
        let e : tag_entry y.entry ≡ (y.entry.order, some y.item) = ground arith in
        Perm.trans (rw (← e) (Perm.cons (tag_entry y.entry) d.same_items))
          (rw same at (Perm.map tag_entry y.taken_out));
    bounded = λ o h. (
      All-get_elem? (λ e. o ≤ e.order) y.polled y.index (rw same h) y.at,
      d.bounded o (rw y.left (All-swap_removed _ y.index y.polled (rw same h))),
    );
  }

module _ {W F E A : Type 0} (poll_future : F → W → Poll E A × F × W) where
  collect-cons :
      (n : ℕ) (s : OrderedStream F A) (w : W) (x : ℕ × A)
      → (poll poll_future s w).0 ≡ ready (some x)
      → let (_, s', w') = poll poll_future s w in
        collect poll_future (suc n) s w ≡ x ∷ collect poll_future n s' w'
  unfolding collect
  collect-cons n s w x h = rw (h, collect)

  collect-Drained :
      (n : ℕ) (es : List (Entry F A)) (w : W)
      → length es ≡ n
      → AllReady es
      → Drained es (collect poll_future n (record { entries = es }) w)
  collect-Drained zero [] w len h =
      unfold collect in record { sorted = tt; same_items = Perm.refl []; bounded = λ o k. tt }
  collect-Drained zero (e ∷ es) w len h = absurd (omega arith)
  collect-Drained (suc n) [] w len h = absurd (omega arith)
  collect-Drained (suc n) (e ∷ es) w len h =
      let s : OrderedStream F A = record { entries = e ∷ es } in
      let (x, got) = poll-AllReady poll_future e es w h in
      let (_, s', w') = poll poll_future s w in
      let y = poll-Takes poll_future s w got in
      let same = AllAdvanced-AllReady (e ∷ es) y.polled h y.advanced in
      let left : s'.entries ≡ swap_removed y.index (e ∷ es) =
        y.left ∙ ap (swap_removed y.index) same in
      let e' : x ≡ (y.entry.order, y.item) = ground (arith, y.yielded) in
      rw (collect-cons n s w x got) (
        rw e' (
          Drained-cons s s' (collect poll_future n s' w') y same (
            collect-Drained n s'.entries w'
              (rw left (length-swap_removed y.index e es ∙ omega arith))
              (rw left (All-swap_removed _ y.index (e ∷ es) h)))))

  -- Taking as many items as there are entries gives them all, in rising order, where all futures
  -- have completed.
  pub collect_all :
      (s : OrderedStream F A) (w : W)
      → AllReady s.entries
      → let r = collect poll_future (length s.entries) s w in
        IsSorted r × Perm (map tag_result r) (map tag_entry s.entries)
  collect_all s w h =
      let d = collect-Drained (length s.entries) s.entries w refl h in (d.sorted, d.same_items)
