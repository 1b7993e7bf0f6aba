-- ===== src/Ordered/Defs.antt =====
-- The structs and functions of bridge/src/ordered_stream.rs.
use parity_bridge.Base.{
  ℕ, suc, Option, none, some, Bool, true, false, ◌&&◌, List, [], ◌∷◌, ◌++◌, ltb, min, is_some,
  is_none, if◌then◌else◌, get_elem?, swap_removed,
}
use parity_bridge.Async.{Poll, ready, not_ready, failed, panicked, out_of_rounds}

-- An entry in an ordered stream.
pub record Entry (F A : Type 0) : Type 0 where
  pub order : ℕ
  pub future : F
  pub item_if_ready : Option A

pub record OrderedStream (F A : Type 0) : Type 0 where
  pub entries : List (Entry F A)

module _ {F A : Type 0} where
  unfoldable pub new : OrderedStream F A
  new = record { entries = [] }

  unfoldable pub insert : ℕ → F → OrderedStream F A → OrderedStream F A
  insert order future s = record {
    entries = s.entries ++ (record { order = order; future = future; item_if_ready = none }) ∷ [];
  }

  -- The number of entries that pass a test.
  count_if : (Entry F A → Bool) → List (Entry F A) → ℕ
  count_if p [] = 0
  count_if p (x ∷ xs) = let rest = count_if p xs in if p x then suc rest else rest

  unfoldable pub ready_count : OrderedStream F A → ℕ
  unfolding count_if
  ready_count s = count_if (λ x. is_some x.item_if_ready) s.entries

  unfoldable pub not_ready_count : OrderedStream F A → ℕ
  unfolding count_if
  not_ready_count s = count_if (λ x. is_none x.item_if_ready) s.entries

-- `maybe_min_not_ready.map(|x| x.min(order)).or(Some(order))`
abbrev pub min_or : Option ℕ → ℕ → Option ℕ
min_or none order = some order
min_or (some x) order = some (min x order)

-- `maybe_min_ready.is_none() || order < maybe_min_ready.0`
abbrev pub is_new_min : Option (ℕ × ℕ) → ℕ → Bool
is_new_min none order = true
is_new_min (some (x, _)) order = ltb order x

-- `if let Some(min_not_ready_order) = … { if min_not_ready_order < min_ready_order`
abbrev pub is_blocked : Option ℕ → ℕ → Bool
is_blocked none order = false
is_blocked (some x) order = ltb x order

-- The two minima that `poll` keeps: the least order that is not ready, and the least order that is
-- ready with its index.
pub record Minima : Type 0 where
  pub min_not_ready : Option ℕ
  pub min_ready : Option (ℕ × ℕ)

module _ {F A : Type 0} where
  -- One round of the `for` loop on the minima, at an entry that has been polled if it had to be.
  unfoldable pub visit : ℕ → Entry F A → Minima → Minima
  visit index e m = record {
    min_not_ready =
        if is_some e.item_if_ready then m.min_not_ready else min_or m.min_not_ready e.order;
    min_ready =
        if is_some e.item_if_ready && is_new_min m.min_ready e.order
        then some (e.order, index)
        else m.min_ready;
  }

  -- `swap_remove` at the index, and the order and item of the entry that it takes out.
  unfoldable pub take_entry :
      {E : Type 0} → ℕ → List (Entry F A) → Poll E (Option (ℕ × A)) × List (Entry F A)
  take_entry i es = elim (get_elem? es i) [
    | none ↦ (panicked, es)
    | some e ↦ elim e.item_if_ready [
      | none ↦ (panicked, swap_removed i es)
      | some a ↦ (ready (some (e.order, a)), swap_removed i es)
    ]
  ]

  -- What `poll` does with the minima after its loop.
  unfoldable pub choose :
      {E : Type 0} → Minima → List (Entry F A) → Poll E (Option (ℕ × A)) × List (Entry F A)
  unfolding take_entry
  choose m es = elim m.min_ready [
    | none ↦ (not_ready, es)
    | some (order, index) ↦
        if is_blocked m.min_not_ready order then (not_ready, es) else take_entry index es
  ]

  -- What `poll` makes of the end of its loop.
  unfoldable pub finish :
      {E : Type 0} → Poll E Minima → List (Entry F A) → Poll E (Option (ℕ × A)) × List (Entry F A)
  unfolding choose
  finish (ready m) es = choose m es
  finish not_ready es = (not_ready, es)
  finish (failed err) es = (failed err, es)
  finish panicked es = (panicked, es)
  finish out_of_rounds es = (out_of_rounds, es)

module _ {W F E A : Type 0} (poll_future : F → W → Poll E A × F × W) where
  -- Polls the future of an entry that has no item yet, and keeps its item. The answer is how an
  -- early end of that poll ends `poll` itself; `ready` says that the loop goes on.
  unfoldable pub advance : Entry F A → W → Poll E (Unit {0}) × Entry F A × W
  advance e w = elim e.item_if_ready [
    | some _ ↦ (ready tt, e, w)
    | none ↦
        let (p, f, w') = poll_future e.future w in
        elim p [
          | ready a ↦ (ready tt, record e { future = f; item_if_ready = some a }, w')
          | not_ready ↦ (ready tt, record e { future = f }, w')
          | failed err ↦ (failed err, record e { future = f }, w')
          | panicked ↦ (panicked, record e { future = f }, w')
          | out_of_rounds ↦ (out_of_rounds, record e { future = f }, w')
        ]
  ]

  -- The `for` loop over the entries.
  unfoldable pub scan : ℕ → List (Entry F A) → Minima → W → Poll E Minima × List (Entry F A) × W
  scan index [] m w = (ready m, [], w)
  scan index (e ∷ es) m w =
      let (p, e', w') = advance e w in
      let (q, es', w'') = scan (suc index) es (visit index e' m) w' in
      elim p [
        | ready _ ↦ (q, e' ∷ es', w'')
        | not_ready ↦ (not_ready, e' ∷ es, w')
        | failed err ↦ (failed err, e' ∷ es, w')
        | panicked ↦ (panicked, e' ∷ es, w')
        | out_of_rounds ↦ (out_of_rounds, e' ∷ es, w')
      ]

  unfoldable pub poll : OrderedStream F A → W → Poll E (Option (ℕ × A)) × OrderedStream F A × W
  unfolding finish
  poll s w =
      let (p, es, w') = scan 0 s.entries (record { min_not_ready = none; min_ready = none }) w in
      let (q, es') = finish p es in (q, record { entries = es' }, w')
