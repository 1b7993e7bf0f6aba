-- ===== src/BlockNumber/Progress.antt =====
-- What `BlockNumberStream` yields (bridge/src/block_number_stream.rs).
use parity_bridge.Base.{
  ℕ, ◌+◌, ◌-◌, ◌^◌, ◌<◌, ◌≡◌, ◌≢◌, refl, ltb, Bool-cases, subst, inl, inr, Option, none, some,
  arith,
}
use parity_bridge.Async.{Poll, ready, panicked, out_of_rounds, Flow}
use parity_bridge.Async.Round.{Round, loop-Returns}
use parity_bridge.Error.{Error}
use parity_bridge.Web3.{Web3, Net, await-ready}
use parity_bridge.BlockNumber.{
  State, await_interval, await_block_number, BlockNumberStream, Machine, got_tick, got_number,
  on_number, on_interval, on_block_number, dispatch, step, poll, poll_lem,
}

module _ (w : Web3) where
  open w use {World, Fault, Waiting, poll_number}

  -- The node reported this number of the last block.
  pub record Reported (last_block : ℕ) : Type 0 where
    pub future : Waiting
    pub world : World
    pub answered : (poll_number future world).0 ≡ ready last_block

  -- What a poll never changes.
  abbrev pub SameOptions : BlockNumberStream w → BlockNumberStream w → Type 0
  SameOptions b b' =
      (b'.request_timeout ≡ b.request_timeout)
      × (b'.confirmations ≡ b.confirmations)
      × (b'.transport ≡ b.transport)

  -- Nothing that counts has changed.
  abbrev Stays : BlockNumberStream w → Machine w → Type 0
  Stays b (b', _) = SameOptions b b' × (b'.last_checked_block ≡ b.last_checked_block)

  -- The block number `n` is new, and has its confirmations at a block that the node reported.
  pub record Advances (b b' : BlockNumberStream w) (n : ℕ) : Type 0 where
    pub fits : n < 2 ^ 64
    pub grows : b.last_checked_block < n
    pub remembered : b'.last_checked_block ≡ n
    pub reported : Reported (n + b.confirmations)

  -- What a poll with this answer has done to the stream.
  pub record Outcome (b : BlockNumberStream w) (p : Poll (Error Fault) (Option ℕ))
      (b' : BlockNumberStream w) : Type 0 where
    pub same : SameOptions b b'
    pub advances : (n : ℕ) → p ≡ ready (some n) → Advances b b' n
    pub stays : ((n : ℕ) → p ≢ ready (some n)) → b'.last_checked_block ≡ b.last_checked_block

  -- What a round has done to the stream `b` that the poll began with.
  abbrev RoundOutcome :
      BlockNumberStream w → Flow (Poll (Error Fault) (Option ℕ)) × Machine w → Type 0
  RoundOutcome b = Round (Stays b) (λ p m. Outcome b p m.0)

  stop-Outcome :
      (b : BlockNumberStream w) (m : Machine w) (p : Poll (Error Fault) (Option ℕ))
      → Stays b m
      → ((n : ℕ) → p ≢ ready (some n))
      → Outcome b p m.0
  stop-Outcome b m p (same, kept) none_yet = record {
    same = same;
    advances = λ n e. absurd (none_yet n e);
    stays = λ _. kept;
  }

  number-Outcome :
      (b : BlockNumberStream w) (last_block : ℕ) (m : Machine w)
      → Reported last_block
      → Stays b m
      → RoundOutcome b (on_number w last_block m)
  unfolding on_number
  number-Outcome b last_block m r h = elim (Bool-cases (ltb last_block (2 ^ 64))) [
    | inr over ↦ rw (over) (stop-Outcome b m panicked h (λ n e. cc))
    | inl fits ↦ elim (Bool-cases (ltb m.0.last_checked_block (last_block - m.0.confirmations))) [
      | inr old ↦ rw (fits, old) h
      | inl new ↦
          rw (fits, new)
            (record {
              same = h.0;
              advances = λ n e. record {
                fits = ground arith;
                grows = ground arith;
                remembered = ground arith;
                reported = subst Reported (ground arith) r;
              };
              stays = λ none_yet. absurd (none_yet _ refl);
            })
    ]
  ]

  tick-Outcome :
      (b : BlockNumberStream w) (p : Poll Fault (Option (Unit {0}))) (m : Machine w)
      → Stays b m
      → RoundOutcome b (got_tick w p m)
  unfolding got_tick
  tick-Outcome b (ready (some _)) m h = h
  tick-Outcome b (ready none) m h = stop-Outcome b m _ h (λ n e. cc)
  tick-Outcome b _ m h = stop-Outcome b m _ h (λ n e. cc)

  answer-Outcome :
      (b : BlockNumberStream w) (p : Poll (Error Fault) ℕ) (m : Machine w)
      → ((n : ℕ) → p ≡ ready n → Reported n)
      → Stays b m
      → RoundOutcome b (got_number w p m)
  unfolding got_number
  answer-Outcome b (ready n) m r h = number-Outcome b n m (r n refl) h
  answer-Outcome b _ m r h = stop-Outcome b m _ h (λ n e. cc)

  dispatch-Outcome :
      (b : BlockNumberStream w) (s : State w) (m : Machine w)
      → Stays b m
      → RoundOutcome b (dispatch w s m)
  unfolding dispatch on_interval on_block_number
  dispatch-Outcome b await_interval m h = tick-Outcome b _ _ h
  dispatch-Outcome b (await_block_number f) m h =
      answer-Outcome b _ _
        (λ n e. record {
          future = f;
          world = m.1.world;
          answered = await-ready w poll_number f m.1 e;
        })
        h

  step-Outcome : (b : BlockNumberStream w) (m : Machine w) → Stays b m → RoundOutcome b (step w m)
  unfolding step
  step-Outcome b m h = dispatch-Outcome b m.0.state m h

  -- A poll that yields a number has seen the last block at least the confirmations above it, and
  -- moves the stream on to that number, above all it has yielded; any other poll leaves the
  -- stream where it is. The options stay.
  pub number_poll-Outcome :
      (rounds : ℕ) (b : BlockNumberStream w) (net : Net World)
      → let (p, (b', _)) = poll w rounds (b, net) in Outcome b p b'
  number_poll-Outcome rounds b net = rw (poll_lem w rounds (b, net)) (
      loop-Returns (Stays b) (λ p m. Outcome b p m.0) (step w) (step-Outcome b)
        (λ m h. stop-Outcome b m out_of_rounds h (λ n x. cc)) rounds (b, net)
        ((refl, refl, refl), refl))
