-- ===== src/Examples/Items.antt =====
-- `OrderedStream`s of futures that are ready after a number of polls.
use parity_bridge.Base.{ℕ, zero, suc, ◌≡◌, refl, Option, none, some, [], ◌∷◌, ◌⊎◌, map, Perm, arith}
use parity_bridge.Async.{Poll, ready, not_ready}
use parity_bridge.Ordered as Ordered
use parity_bridge.Ordered.{Entry, OrderedStream}
use parity_bridge.Ordered.Least.{Yields, Waits, poll-Yields, poll-Waits}
use parity_bridge.Ordered.Ties.{three_ready, ties_swap, ready_overtakes}
use parity_bridge.Ordered.Total.{Completes, Blamed, poll-Completes}
use parity_bridge.Ordered.Progress.{Settles, poll-Progress}
use mathlib.Core.List.{Memᴰ}
use parity_bridge.Ordered.Drain.{IsSorted, collect, tag_result, tag_entry, collect_all}

-- A future is the number of polls that it still waits; its item is 40.
abbrev wait : ℕ → Unit {0} → Poll ℕ ℕ × ℕ × Unit {0}
wait zero w = (ready 40, 0, w)
wait (suc n) w = (not_ready, n, w)

abbrev entry : ℕ → ℕ → Option ℕ → Entry ℕ ℕ
entry order future item = record { order = order; future = future; item_if_ready = item }

abbrev free : OrderedStream ℕ ℕ
free = record { entries = entry 7 0 none ∷ entry 3 0 none ∷ entry 9 2 none ∷ [] }

abbrev held_up : OrderedStream ℕ ℕ
held_up = record { entries = entry 7 0 none ∷ entry 3 2 none ∷ [] }

abbrev all_there : OrderedStream ℕ ℕ
all_there = record { entries = entry 7 0 (some 1) ∷ entry 3 0 (some 2) ∷ entry 5 0 (some 3) ∷ [] }

free_yields : (Ordered.poll wait free tt).0 ≡ ready (some (3, 40))
unfolding Ordered.poll Ordered.scan Ordered.advance Ordered.visit
free_yields = refl

held_up_waits : (Ordered.poll wait held_up tt).0 ≡ not_ready
unfolding Ordered.poll Ordered.scan Ordered.advance Ordered.visit
held_up_waits = refl

poll-Yields_example :
    Yields wait free tt (Ordered.poll wait free tt).1 (Ordered.poll wait free tt).2 (some (3, 40))
poll-Yields_example = poll-Yields wait free tt free_yields

poll-Waits_example : Waits held_up (Ordered.poll wait held_up tt).1
poll-Waits_example = poll-Waits wait held_up tt held_up_waits

poll-Completes_example :
    Completes (Ordered.poll wait held_up tt).0
    ⊎ Blamed wait held_up.entries (Ordered.poll wait held_up tt).0
poll-Completes_example = poll-Completes wait held_up tt

-- The item of the lower order is there, the other future has yet to be polled.
abbrev two_left : OrderedStream ℕ ℕ
two_left = record { entries = entry 7 2 none ∷ entry 3 0 (some 5) ∷ [] }

wait-Settles : (n : ℕ) (w : Unit {0}) → Settles (wait n w).0
wait-Settles zero w = tt
wait-Settles (suc n) w = tt

poll-Progress_example :
    (x : ℕ × ℕ) × ((Ordered.poll wait two_left tt).0 ≡ ready (some x)) × (x.0 ≡ 3)
poll-Progress_example =
    poll-Progress wait two_left tt (entry 3 0 (some 5)) 5 (Memᴰ.tail (Memᴰ.head refl)) refl
      (omega arith, (omega arith, tt)) wait-Settles

collect_all_example :
    let r = collect wait 3 all_there tt in
    IsSorted r × Perm (map tag_result r) (map tag_entry all_there.entries)
collect_all_example = collect_all wait all_there tt (refl, (refl, (refl, tt)))

ties_swap_example :
    let (x, s, w') = Ordered.poll wait (record { entries = three_ready 2 5 0 10 11 12 }) tt in
    let (y, s', w'') = Ordered.poll wait s w' in
    let (z, _, _) = Ordered.poll wait s' w'' in
    (x ≡ ready (some (2, 10))) × (y ≡ ready (some (5, 12))) × (z ≡ ready (some (5, 11)))
ties_swap_example = ties_swap wait 2 5 0 10 11 12 tt (omega arith)

ready_overtakes_example :
    Ordered.poll wait (record { entries = entry 8 0 (some 4) ∷ entry 8 2 none ∷ [] }) tt
    ≡ (ready (some (8, 4)), record { entries = entry 8 1 none ∷ [] }, tt)
ready_overtakes_example = ready_overtakes wait 8 0 2 1 4 tt tt refl
