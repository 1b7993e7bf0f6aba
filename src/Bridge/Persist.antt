-- ===== src/Bridge/Persist.antt =====
-- The state that `Bridge` yields for persistence (bridge/src/bridge.rs).
use parity_bridge.Base.{ℕ, ◌≤◌, ◌≡◌, refl, Option, none, some, arith, inl, inr}
use parity_bridge.Async.{
  Poll, ready, not_ready, failed, panicked, out_of_rounds, Flow, done, again, loop,
}
use parity_bridge.Async.Loop.{Flow-cases}
use parity_bridge.Error.{Error}
use parity_bridge.Database.{State}
use parity_bridge.Bridge.{
  Bridge, note_main_to_side_sign, note_side_to_main_sign, note_side_to_main_signatures, note,
  got_signatures, got_sign, got_main_to_side, step, poll, poll_lem,
}

-- What the bridge relies on in a relay: from a relay that holds at a block, it yields blocks from
-- there on only, and holds at what it has yielded.
pub record Ascends {X W S : Type 0} (poll_relay : S → W → Poll (Error X) (Option ℕ) × S × W)
    : Type 1 where
  pub Holds : ℕ → S → Type 0
  pub yields :
      (last n : ℕ) (s : S) (w : W)
      → Holds last s
      → (poll_relay s w).0 ≡ ready (some n)
      → (last ≤ n) × Holds n (poll_relay s w).1
  pub waits :
      (last : ℕ) (s : S) (w : W)
      → Holds last s
      → (poll_relay s w).0 ≡ not_ready
      → Holds last (poll_relay s w).1

-- No block that has been checked is forgotten, and the contracts stay where they are.
pub record Extends (a b : State) : Type 0 where
  pub main_to_side : a.last_main_to_side_sign_at_block ≤ b.last_main_to_side_sign_at_block
  pub sign : a.last_side_to_main_sign_at_block ≤ b.last_side_to_main_sign_at_block
  pub signatures : a.last_side_to_main_signatures_at_block ≤ b.last_side_to_main_signatures_at_block
  pub main_address : b.main_contract_address ≡ a.main_contract_address
  pub side_address : b.side_contract_address ≡ a.side_contract_address
  pub main_deployed : b.main_deployed_at_block ≡ a.main_deployed_at_block
  pub side_deployed : b.side_deployed_at_block ≡ a.side_deployed_at_block

module _ {W X M C S : Type 0} (poll_main_to_side : M → W → Poll (Error X) (Option ℕ) × M × W)
    (poll_sign : C → W → Poll (Error X) (Option ℕ) × C × W)
    (poll_signatures : S → W → Poll (Error X) (Option ℕ) × S × W)
    (main_to_side : Ascends poll_main_to_side) (sign : Ascends poll_sign)
    (signatures : Ascends poll_signatures) where
  -- Every relay holds at the block that the state has for it.
  abbrev pub IsValid : Bridge M C S → Type 0
  IsValid b =
      main_to_side.Holds b.state.last_main_to_side_sign_at_block b.main_to_side_sign
      × sign.Holds b.state.last_side_to_main_sign_at_block b.side_to_main_sign
      × signatures.Holds b.state.last_side_to_main_signatures_at_block b.side_to_main_signatures

  -- What a poll from this state has done.
  abbrev pub Outcome : State → Poll (Error X) (Option State) → Bridge M C S → Type 0
  Outcome before (ready (some state)) b = (b.state ≡ state) × Extends before state × IsValid b
  Outcome before (ready none) b = b.state ≡ before
  Outcome before not_ready b = (b.state ≡ before) × IsValid b
  Outcome before (failed e) b = b.state ≡ before
  Outcome before panicked b = b.state ≡ before
  Outcome before out_of_rounds b = b.state ≡ before

  abbrev RoundOutcome : State → Flow (Poll (Error X) (Option State)) × (Bridge M C S × W) → Type 0
  RoundOutcome before (done p, m) = Outcome before p m.0
  RoundOutcome before (again, m) = ⊥

  -- What is known of a relay after its poll.
  abbrev Noted : {R : Type 0} → (ℕ → R → Type 0) → ℕ → Option ℕ → R → Type 0
  Noted Holds last none r = Holds last r
  Noted Holds last (some n) r = (last ≤ n) × Holds n r

  abbrev Answered : {R : Type 0} → (ℕ → R → Type 0) → ℕ → Poll (Error X) (Option ℕ) → R → Type 0
  Answered Holds last (ready (some n)) r = (last ≤ n) × Holds n r
  Answered Holds last (ready none) r = Unit
  Answered Holds last not_ready r = Holds last r
  Answered Holds last (failed e) r = Unit
  Answered Holds last panicked r = Unit
  Answered Holds last out_of_rounds r = Unit

  changed :
      (i j k : ℕ) (b : Bridge M C S)
      → Noted main_to_side.Holds b.state.last_main_to_side_sign_at_block
          (some i)
          b.main_to_side_sign
      → Noted sign.Holds b.state.last_side_to_main_sign_at_block (some j) b.side_to_main_sign
      → Noted signatures.Holds b.state.last_side_to_main_signatures_at_block
          (some k)
          b.side_to_main_signatures
      → let state : State = record b.state {
        last_main_to_side_sign_at_block = i;
        last_side_to_main_sign_at_block = j;
        last_side_to_main_signatures_at_block = k;
      } in
        Outcome b.state (ready (some state)) (record b { state = state })
  changed i j k b (li, hi) (lj, hj) (lk, hk) = (
    refl,
    record {
      main_to_side = li;
      sign = lj;
      signatures = lk;
      main_address = refl;
      side_address = refl;
      main_deployed = refl;
      side_deployed = refl;
    },
    (hi, hj, hk),
  )

  note-RoundOutcome :
      (a b c : Option ℕ) (m : Bridge M C S × W)
      → Noted main_to_side.Holds m.0.state.last_main_to_side_sign_at_block a m.0.main_to_side_sign
      → Noted sign.Holds m.0.state.last_side_to_main_sign_at_block b m.0.side_to_main_sign
      → Noted signatures.Holds m.0.state.last_side_to_main_signatures_at_block c
          m.0.side_to_main_signatures
      → RoundOutcome m.0.state (note poll_main_to_side poll_sign poll_signatures a b c m)
  unfolding note note_main_to_side_sign note_side_to_main_sign note_side_to_main_signatures
  note-RoundOutcome none none none m x y z = (refl, (x, y, z))
  note-RoundOutcome none none (some k) m x y z =
      changed _ _ k m.0 (omega arith, x) (omega arith, y) z
  note-RoundOutcome none (some j) none m x y z =
      changed _ j _ m.0 (omega arith, x) y (omega arith, z)
  note-RoundOutcome none (some j) (some k) m x y z = changed _ j k m.0 (omega arith, x) y z
  note-RoundOutcome (some i) none none m x y z =
      changed i _ _ m.0 x (omega arith, y) (omega arith, z)
  note-RoundOutcome (some i) none (some k) m x y z = changed i _ k m.0 x (omega arith, y) z
  note-RoundOutcome (some i) (some j) none m x y z = changed i j _ m.0 x y (omega arith, z)
  note-RoundOutcome (some i) (some j) (some k) m x y z = changed i j k m.0 x y z

  signatures-RoundOutcome :
      (a b : Option ℕ) (p : Poll (Error X) (Option ℕ)) (m : Bridge M C S × W)
      → Noted main_to_side.Holds m.0.state.last_main_to_side_sign_at_block a m.0.main_to_side_sign
      → Noted sign.Holds m.0.state.last_side_to_main_sign_at_block b m.0.side_to_main_sign
      → Answered signatures.Holds m.0.state.last_side_to_main_signatures_at_block p
          m.0.side_to_main_signatures
      → RoundOutcome m.0.state (got_signatures poll_main_to_side poll_sign poll_signatures a b p m)
  unfolding got_signatures
  signatures-RoundOutcome a b (ready (some n)) m x y z = note-RoundOutcome a b (some n) m x y z
  signatures-RoundOutcome a b (ready none) m x y z = refl
  signatures-RoundOutcome a b not_ready m x y z = note-RoundOutcome a b none m x y z
  signatures-RoundOutcome a b (failed e) m x y z = refl
  signatures-RoundOutcome a b panicked m x y z = refl
  signatures-RoundOutcome a b out_of_rounds m x y z = refl

  answer-Answered :
      {R : Type 0} (Holds : ℕ → R → Type 0) (last : ℕ) (p : Poll (Error X) (Option ℕ)) (r : R)
      → ((n : ℕ) → p ≡ ready (some n) → (last ≤ n) × Holds n r)
      → (p ≡ not_ready → Holds last r)
      → Answered Holds last p r
  answer-Answered Holds last (ready (some n)) r y x = y n refl
  answer-Answered Holds last (ready none) r y x = tt
  answer-Answered Holds last not_ready r y x = x refl
  answer-Answered Holds last (failed e) r y x = tt
  answer-Answered Holds last panicked r y x = tt
  answer-Answered Holds last out_of_rounds r y x = tt

  relay-Answered :
      {R : Type 0} (poll_relay : R → W → Poll (Error X) (Option ℕ) × R × W)
      (relay : Ascends poll_relay) (last : ℕ) (r : R) (w : W)
      → relay.Holds last r
      → Answered relay.Holds last (poll_relay r w).0 (poll_relay r w).1
  relay-Answered poll_relay relay last r w h =
      answer-Answered relay.Holds last (poll_relay r w).0 (poll_relay r w).1
        (λ n e. relay.yields last n r w h e) (λ e. relay.waits last r w h e)

  sign-RoundOutcome :
      (a : Option ℕ) (p : Poll (Error X) (Option ℕ)) (m : Bridge M C S × W)
      → Noted main_to_side.Holds m.0.state.last_main_to_side_sign_at_block a m.0.main_to_side_sign
      → Answered sign.Holds m.0.state.last_side_to_main_sign_at_block p m.0.side_to_main_sign
      → signatures.Holds m.0.state.last_side_to_main_signatures_at_block m.0.side_to_main_signatures
      → RoundOutcome m.0.state (got_sign poll_main_to_side poll_sign poll_signatures a p m)
  unfolding got_sign
  sign-RoundOutcome a (ready (some n)) m x y z =
      signatures-RoundOutcome a (some n) _ _ x y
        (relay-Answered poll_signatures signatures _ _ m.1 z)
  sign-RoundOutcome a (ready none) m x y z = refl
  sign-RoundOutcome a not_ready m x y z =
      signatures-RoundOutcome a none _ _ x y (relay-Answered poll_signatures signatures _ _ m.1 z)
  sign-RoundOutcome a (failed e) m x y z = refl
  sign-RoundOutcome a panicked m x y z = refl
  sign-RoundOutcome a out_of_rounds m x y z = refl

  main_to_side-RoundOutcome :
      (p : Poll (Error X) (Option ℕ)) (m : Bridge M C S × W)
      → Answered main_to_side.Holds m.0.state.last_main_to_side_sign_at_block p
          m.0.main_to_side_sign
      → sign.Holds m.0.state.last_side_to_main_sign_at_block m.0.side_to_main_sign
      → signatures.Holds m.0.state.last_side_to_main_signatures_at_block m.0.side_to_main_signatures
      → RoundOutcome m.0.state (got_main_to_side poll_main_to_side poll_sign poll_signatures p m)
  unfolding got_main_to_side
  main_to_side-RoundOutcome (ready (some n)) m x y z =
      sign-RoundOutcome (some n) _ _ x (relay-Answered poll_sign sign _ _ m.1 y) z
  main_to_side-RoundOutcome (ready none) m x y z = refl
  main_to_side-RoundOutcome not_ready m x y z =
      sign-RoundOutcome none _ _ x (relay-Answered poll_sign sign _ _ m.1 y) z
  main_to_side-RoundOutcome (failed e) m x y z = refl
  main_to_side-RoundOutcome panicked m x y z = refl
  main_to_side-RoundOutcome out_of_rounds m x y z = refl

  step-RoundOutcome :
      (m : Bridge M C S × W)
      → IsValid m.0
      → RoundOutcome m.0.state (step poll_main_to_side poll_sign poll_signatures m)
  unfolding step
  step-RoundOutcome m (x, y, z) =
      main_to_side-RoundOutcome _ _ (relay-Answered poll_main_to_side main_to_side _ _ m.1 x) y z

  round-Outcome :
      (before : State) (m : Bridge M C S × W)
      → RoundOutcome before (step poll_main_to_side poll_sign poll_signatures m)
      → let (p, (b, _)) = loop 1 (step poll_main_to_side poll_sign poll_signatures) m in
        Outcome before p b
  unfolding loop
  round-Outcome before m h =
      elim (Flow-cases (step poll_main_to_side poll_sign poll_signatures m).0) [
        | inl (p, e) ↦ rw (e, loop) (rw e at h)
        | inr e ↦ absurd (rw e at h)
      ]

  -- From a valid bridge, the state that a poll yields is the one the bridge has then, it extends
  -- the state before, and the bridge is valid; a poll that yields none leaves the state, and the
  -- bridge valid where it was not ready.
  pub bridge_poll-Outcome :
      (b : Bridge M C S) (w : W)
      → IsValid b
      → let (p, (b', _)) = poll poll_main_to_side poll_sign poll_signatures (b, w) in
        Outcome b.state p b'
  bridge_poll-Outcome b w h =
      rw (poll_lem poll_main_to_side poll_sign poll_signatures (b, w))
        (round-Outcome b.state (b, w) (step-RoundOutcome (b, w) h))
