-- ===== src/Relay/Inv.antt =====
-- The order in which `RelayStream` yields (bridge/src/relay_stream.rs).
use parity_bridge.Base.{
  ℕ, ◌≤◌, ◌<◌, ◌≡◌, refl, Option, none, some, Bool, true, false, List, [], ◌∷◌, subst, sym, arith,
  All, All-append, All-map, All-zip, All-swap_removed, All-get_elem?, inl, inr, Option-cases,
  if◌then◌else◌,
}
use parity_bridge.Async.{Poll, ready, not_ready, panicked, Flow, done}
use parity_bridge.Async.Round.{Round, loop-Returns}
use parity_bridge.Error.{Error}
use parity_bridge.Web3.{Log}
use parity_bridge.LogStream.{LogsInBlockRange}
use parity_bridge.Ordered
use parity_bridge.Ordered.{Entry, OrderedStream}
use parity_bridge.Ordered.Scan.{AllAdvanced}
use parity_bridge.Ordered.Least.{Takes, Waits, poll-Takes, poll-Waits}
use parity_bridge.Relay.{
  LogToFuture, RelayStream, insert_all, got_block, on_ordered, got_range, got_logs, step, poll,
  poll_lem,
}

-- What the stream of logs promises: it has a position, which only a range moves, and then to the
-- end of that range, farther on.
pub record RangeSource {W X S : Type 0}
    (poll_logs : S → W → Poll (Error X) (Option LogsInBlockRange) × S × W) : Type 1 where
  pub IsValid : S → Type 0
  pub position : S → ℕ
  pub keeps_valid : (s : S) (w : W) → IsValid s → IsValid (poll_logs s w).1
  pub moves :
      (s : S) (w : W) (r : LogsInBlockRange)
      → IsValid s
      → (poll_logs s w).0 ≡ ready (some r)
      → (position s < r.to) × (position (poll_logs s w).1 ≡ r.to)
  pub rests :
      (s : S) (w : W)
      → IsValid s
      → (poll_logs s w).0 ≡ not_ready
      → position (poll_logs s w).1 ≡ position s

-- The order of the entry lies within the bounds.
abbrev pub Within : {F A : Type 0} → ℕ → ℕ → Entry F A → Type 0
Within lo hi e = (lo ≤ e.order) × (e.order ≤ hi)

module _ {F A : Type 0} where
  AllAdvanced-All :
      (P : ℕ → Type 0) (es es' : List (Entry F A))
      → AllAdvanced es es'
      → All (λ e. P e.order) es
      → All (λ e. P e.order) es'
  AllAdvanced-All P [] [] a h = tt
  AllAdvanced-All P [] (y ∷ ys) a h = absurd a
  AllAdvanced-All P (x ∷ xs) [] a h = absurd a
  AllAdvanced-All P (x ∷ xs) (y ∷ ys) a h =
      (subst P (sym a.0.0) h.0, AllAdvanced-All P xs ys a.1 h.1)

  -- What a poll of the ordered stream leaves, by its answer.
  abbrev OrderedOutcome : {E : Type 0} → ℕ → ℕ → Poll E (Option (ℕ × A)) → List (Entry F A) → Type 0
  OrderedOutcome lo hi (ready (some (n, _))) es = (lo ≤ n) × (n ≤ hi) × All (Within n hi) es
  OrderedOutcome lo hi (ready none) es = ⊥
  OrderedOutcome lo hi not_ready es = All (Within lo hi) es
  OrderedOutcome lo hi _ es = Unit

  Takes-Within :
      (lo hi n : ℕ) (a : A) (s s' : OrderedStream F A)
      → All (Within lo hi) s.entries
      → Takes s s' (some (n, a))
      → (lo ≤ n) × (n ≤ hi) × All (Within n hi) s'.entries
  Takes-Within lo hi n a s s' h y =
      let polled = AllAdvanced-All (λ o. (lo ≤ o) × (o ≤ hi)) s.entries y.polled y.advanced h in
      let at = All-get_elem? (Within lo hi) y.polled y.index polled y.at in
      let e : n ≡ y.entry.order = ground (arith, y.yielded) in
      let rest : All (Within lo hi) s'.entries =
        rw y.left (All-swap_removed (Within lo hi) y.index y.polled polled) in
      (
        rw e at.0,
        rw e at.1,
        rw e (
            All-map _ (Within y.entry.order hi) s'.entries (λ x h. (h.1, h.0.1))
              (All-zip (Within lo hi) (λ x. y.entry.order ≤ x.order) s'.entries rest y.least)),
      )

  ordered-Outcome :
      {E : Type 0} (lo hi : ℕ) (s : OrderedStream F A) (p : Poll E (Option (ℕ × A)))
      (s' : OrderedStream F A)
      → All (Within lo hi) s.entries
      → ((x : Option (ℕ × A)) → p ≡ ready x → Takes s s' x)
      → (p ≡ not_ready → Waits s s')
      → OrderedOutcome lo hi p s'.entries
  ordered-Outcome lo hi s (ready none) s' h y w = let e = (y none refl).yielded in cc
  ordered-Outcome lo hi s (ready (some (n, a))) s' h y w = Takes-Within lo hi n a s s' h (y _ refl)
  ordered-Outcome lo hi s not_ready s' h y w =
      AllAdvanced-All (λ o. (lo ≤ o) × (o ≤ hi)) s.entries s'.entries (w refl).advanced h
  ordered-Outcome lo hi s _ s' h y w = tt

  poll-OrderedOutcome :
      {W E : Type 0} (poll_future : F → W → Poll E A × F × W) (lo hi : ℕ) (s : OrderedStream F A)
      (w : W)
      → All (Within lo hi) s.entries
      → OrderedOutcome lo hi
          (Ordered.poll poll_future s w).0
          (Ordered.poll poll_future s w).1.entries
  poll-OrderedOutcome poll_future lo hi s w h =
      ordered-Outcome lo hi s (Ordered.poll poll_future s w).0 (Ordered.poll poll_future s w).1 h
        (λ x e. poll-Takes poll_future s w e) (λ e. poll-Waits poll_future s w e)

module _ {W X S F A : Type 0} (poll_logs : S → W → Poll (Error X) (Option LogsInBlockRange) × S × W)
    (relay : LogToFuture W (Error X) F A) (source : RangeSource poll_logs) where
  -- The orders lie between `last` and the end of the last range, and so does what is to come.
  abbrev pub Holds : ℕ → RelayStream S F A → Type 0
  Holds last s =
      source.IsValid s.stream_of_logs
      × (last ≤ source.position s.stream_of_logs)
      × All (Within last (source.position s.stream_of_logs)) s.ordered_stream.entries

  abbrev pub After : ℕ → Poll (Error X) (Option ℕ) → RelayStream S F A → Type 0
  After last (ready (some n)) s = (last ≤ n) × Holds n s
  After last not_ready s = Holds last s
  After last _ s = Unit

  abbrev RoundAfter : ℕ → Flow (Poll (Error X) (Option ℕ)) × (RelayStream S F A × W) → Type 0
  RoundAfter last = Round (λ m. Holds last m.0) (λ p m. After last p m.0)

  ordered-RoundAfter :
      (last : ℕ) (has_logs : Bool) (p : Poll (Error X) (Option (ℕ × A))) (m : RelayStream S F A × W)
      → source.IsValid m.0.stream_of_logs
      → last ≤ source.position m.0.stream_of_logs
      → OrderedOutcome last (source.position m.0.stream_of_logs) p m.0.ordered_stream.entries
      → RoundAfter last (got_block poll_logs relay has_logs p m)
  unfolding got_block
  ordered-RoundAfter last has_logs (ready (some (n, a))) m v l (lo, hi, o) = (lo, (v, hi, o))
  ordered-RoundAfter last has_logs (ready none) m v l o = absurd o
  ordered-RoundAfter last true not_ready m v l o = (v, l, o)
  ordered-RoundAfter last false not_ready m v l o = (v, l, o)
  ordered-RoundAfter last has_logs _ m v l o = tt

  on_ordered-RoundAfter :
      (last : ℕ) (has_logs : Bool) (m : RelayStream S F A × W)
      → Holds last m.0
      → RoundAfter last (on_ordered poll_logs relay has_logs m)
  unfolding on_ordered
  on_ordered-RoundAfter last has_logs m (v, l, o) = ordered-RoundAfter last has_logs _ _ v l (
      poll-OrderedOutcome relay.poll_future last (source.position m.0.stream_of_logs)
        m.0.ordered_stream m.1 o)

  insert_all-Within :
      (lo to : ℕ) (logs : List Log) (o : OrderedStream F A) (w : W)
      → lo ≤ to
      → All (Within lo to) o.entries
      → All (Within lo to) (insert_all poll_logs relay to logs o w).1.entries
  unfolding insert_all Ordered.insert
  insert_all-Within lo to [] o w l h = h
  insert_all-Within lo to (log ∷ logs) o w l h =
      let (relay_future, w') = relay.log_to_future log w in
      elim (Option-cases relay_future) [
        | inl e ↦ rw (e, All) h
        | inr (f, e) ↦
            rw (e, All)
              (insert_all-Within lo to logs (Ordered.insert to f o) w' l
                (All-append (Within lo to) o.entries _ h ((l, omega arith), tt)))
      ]

  inserted-RoundAfter :
      (last : ℕ) (inserted : Bool) (m : RelayStream S F A × W)
      → Holds last m.0
      → RoundAfter last (if inserted then on_ordered poll_logs relay true m else (done panicked, m))
  inserted-RoundAfter last true m h = on_ordered-RoundAfter last true m h
  inserted-RoundAfter last false m h = tt

  range-RoundAfter :
      (last : ℕ) (s : RelayStream S F A) (logs : S) (w : W)
      (p : Poll (Error X) (Option LogsInBlockRange))
      → source.IsValid logs
      → ((r : LogsInBlockRange)
          → p ≡ ready (some r)
          → (source.position s.stream_of_logs < r.to) × (source.position logs ≡ r.to))
      → (p ≡ not_ready → source.position logs ≡ source.position s.stream_of_logs)
      → Holds last s
      → RoundAfter last (got_logs poll_logs relay p (record s { stream_of_logs = logs }, w))
  unfolding got_logs got_range
  range-RoundAfter last s logs w (ready (some r)) v moves rests (_, l, o) =
      let (lt, at) = moves r refl in
      let wide : All (Within last r.to) s.ordered_stream.entries =
        All-map _ (Within last r.to) _ (λ x h. (h.0, omega arith)) o in
      let inserted = insert_all-Within last r.to r.logs s.ordered_stream w (omega arith) wide in
      inserted-RoundAfter last _ _ (v, omega arith, rw at inserted)
  range-RoundAfter last s logs w (ready none) v moves rests h = tt
  range-RoundAfter last s logs w not_ready v moves rests (_, l, o) =
      on_ordered-RoundAfter last false _ (v, rw (rests refl) l, rw (rests refl) o)
  range-RoundAfter last s logs w _ v moves rests h = tt

  step-RoundAfter :
      (last : ℕ) (m : RelayStream S F A × W)
      → Holds last m.0
      → RoundAfter last (step poll_logs relay m)
  unfolding step
  step-RoundAfter last (s, w) h =
      range-RoundAfter last s _ _ _ (source.keeps_valid s.stream_of_logs w h.0)
        (λ r e. source.moves s.stream_of_logs w r h.0 e)
        (λ e. source.rests s.stream_of_logs w h.0 e) h

  -- With every order that waits at `last` or above, a poll that yields a block yields one at `last`
  -- or above, and every order that still waits is then at that block or above; a poll that is not
  -- ready keeps `last`.
  pub relay_poll-After :
      (rounds last : ℕ) (s : RelayStream S F A) (w : W)
      → Holds last s
      → let (p, (s', _)) = poll poll_logs relay rounds (s, w) in After last p s'
  relay_poll-After rounds last s w h = rw (poll_lem poll_logs relay rounds (s, w)) (
      loop-Returns (λ m. Holds last m.0) (λ p m. After last p m.0) (step poll_logs relay)
        (step-RoundAfter last) (λ m h. tt) rounds (s, w) h)
