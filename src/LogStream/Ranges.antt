-- ===== src/LogStream/Ranges.antt =====
-- The ranges that `LogStream` yields (bridge/src/log_stream.rs).
use parity_bridge.Base.{ℕ, ◌+◌, ◌^◌, ◌≤◌, ◌<◌, ◌≡◌, ◌≢◌, refl, ◌∙◌, Option, none, some, List, arith}
use parity_bridge.Async.{Poll, ready, out_of_rounds, Flow}
use parity_bridge.Async.Round.{Round, loop-Returns}
use parity_bridge.Error.{Error}
use parity_bridge.Web3.{Web3, Log, Net}
use parity_bridge.BlockNumber
use parity_bridge.BlockNumber.Progress.{
  Outcome as BlockOutcome, number_poll-Outcome as blocks-Outcome,
}
use parity_bridge.LogStream.{
  State, await_block_number, await_logs, LogStream, LogsInBlockRange, Machine, Answer, got_block,
  on_block_number, got_logs, on_logs, dispatch, step, poll, poll_lem,
}

abbrev ValidRange : ℕ → ℕ → ℕ → ℕ → Type 0
ValidRange from to last block = (from ≡ last + 1) × (to ≡ block) × (last < to) × (to < 2 ^ 64)

module _ (w : Web3) where
  open w use {World, Fault, Waiting}

  abbrev ValidAt : State w → ℕ → ℕ → Type 0
  ValidAt await_block_number last block = (block ≡ last) × (last < 2 ^ 64)
  ValidAt (await_logs from to _) last block = ValidRange from to last block

  -- Between two polls: the stream of block numbers is where the last range ended, or one range
  -- ahead while the logs of that range are on their way.
  abbrev pub IsValid : LogStream w → Type 0
  IsValid s = ValidAt s.state s.last_checked_block s.block_number_stream.last_checked_block

  -- The stream yields the range that begins behind the blocks checked so far, and has checked it.
  pub record Checks (s s' : LogStream w) (r : LogsInBlockRange) : Type 0 where
    pub adjacent : r.from ≡ s.last_checked_block + 1
    pub nonempty : r.from ≤ r.to
    pub checked : s'.last_checked_block ≡ r.to

  pub record Outcome (s : LogStream w) (p : Answer w) (s' : LogStream w) : Type 0 where
    pub valid : IsValid s'
    pub checks : (r : LogsInBlockRange) → p ≡ ready (some r) → Checks s s' r
    pub stays :
        ((r : LogsInBlockRange) → p ≢ ready (some r)) → s'.last_checked_block ≡ s.last_checked_block

  abbrev Stays : LogStream w → Machine w → Type 0
  Stays s m = IsValid m.0 × (m.0.last_checked_block ≡ s.last_checked_block)

  abbrev RoundOutcome : LogStream w → Flow (Answer w) × Machine w → Type 0
  RoundOutcome s = Round (Stays s) (λ p m. Outcome s p m.0)

  stop-Outcome :
      (s : LogStream w) (m : Machine w) (p : Answer w)
      → Stays s m
      → ((r : LogsInBlockRange) → p ≢ ready (some r))
      → Outcome s p m.0
  stop-Outcome s m p (valid, kept) none_yet = record {
    valid = valid;
    checks = λ r e. absurd (none_yet r e);
    stays = λ _. kept;
  }

  -- What the stream of block numbers has done, beside the state `await_block_number`.
  abbrev Fetched : Poll (Error Fault) (Option ℕ) → LogStream w → Type 0
  Fetched (ready (some n)) s =
      (s.last_checked_block < n) × (s.block_number_stream.last_checked_block ≡ n) × (n < 2 ^ 64)
  Fetched _ s = s.block_number_stream.last_checked_block ≡ s.last_checked_block

  abbrev pub Polled : LogStream w → LogStream w → Poll (Error Fault) (Option ℕ) → Type 0
  Polled s s' p =
      (s'.state ≡ await_block_number)
      × (s'.last_checked_block ≡ s.last_checked_block)
      × (s.last_checked_block < 2 ^ 64)
      × Fetched p s'

  waiting-Stays :
      (s : LogStream w) (m : Machine w)
      → m.0.state ≡ await_block_number
      → m.0.last_checked_block ≡ s.last_checked_block
      → s.last_checked_block < 2 ^ 64
      → m.0.block_number_stream.last_checked_block ≡ m.0.last_checked_block
      → Stays s m
  waiting-Stays s m e l b k = (rw e (k, omega arith), l)

  block-Outcome :
      (s : LogStream w) (p : Poll (Error Fault) (Option ℕ)) (m : Machine w)
      → Polled s m.0 p
      → RoundOutcome s (got_block w p m)
  unfolding got_block
  block-Outcome s (ready (some n)) m (e, l, b, (lt, same, fits)) =
      ((omega arith, omega arith, lt, fits), l)
  block-Outcome s (ready none) m (e, l, b, f) =
      stop-Outcome s m _ (waiting-Stays s m e l b f) (λ r x. cc)
  block-Outcome s _ m (e, l, b, f) = stop-Outcome s m _ (waiting-Stays s m e l b f) (λ r x. cc)

  logs-Outcome :
      (s : LogStream w) (from to : ℕ) (p : Poll (Error Fault) (List Log)) (m : Machine w)
      → ValidRange from to s.last_checked_block m.0.block_number_stream.last_checked_block
      → Stays s m
      → RoundOutcome s (got_logs w from to p m)
  unfolding got_logs
  logs-Outcome s from to (ready found) m v h = record {
    valid = (ground arith, ground arith);
    checks =
        λ r e. record { adjacent = ground arith; nonempty = ground arith; checked = ground arith };
    stays = λ none_yet. absurd (none_yet _ refl);
  }
  logs-Outcome s from to _ m v h = stop-Outcome s m _ h (λ r x. cc)

  blocks-Fetched :
      (b b' : BlockNumber.BlockNumberStream w) (p : Poll (Error Fault) (Option ℕ)) (s : LogStream w)
      → BlockOutcome w b p b'
      → b.last_checked_block ≡ s.last_checked_block
      → Fetched p (record s { block_number_stream = b' })
  blocks-Fetched b b' (ready (some n)) s o e =
      let a = o.advances n refl in (rw (← e) a.grows, a.remembered, a.fits)
  blocks-Fetched b b' (ready none) s o e = o.stays (λ n x. cc) ∙ e
  blocks-Fetched b b' _ s o e = o.stays (λ n x. cc) ∙ e

  block_number-Polled :
      (rounds : ℕ) (s : LogStream w) (m : Machine w)
      → m.0.state ≡ await_block_number
      → Stays s m
      → let (p, (blocks, net)) = BlockNumber.poll w rounds (m.0.block_number_stream, m.1) in
        Polled s (record m.0 { block_number_stream = blocks }) p
  block_number-Polled rounds s m e (valid, kept) =
      let (same, fits) = rw e at valid in
      let (p, (blocks, net)) = BlockNumber.poll w rounds (m.0.block_number_stream, m.1) in
      (
        e,
        kept,
        omega arith,
        blocks-Fetched m.0.block_number_stream blocks p m.0
            (blocks-Outcome w rounds m.0.block_number_stream m.1) same,
      )

  dispatch-Outcome :
      (rounds : ℕ) (s : LogStream w) (st : State w) (m : Machine w)
      → m.0.state ≡ st
      → Stays s m
      → RoundOutcome s (dispatch w rounds st m)
  unfolding dispatch on_block_number on_logs
  dispatch-Outcome rounds s await_block_number m e h =
      block-Outcome s _ _ (block_number-Polled rounds s m e h)
  dispatch-Outcome rounds s (await_logs from to future) m e h =
      let range = rw e at h.0 in logs-Outcome s from to _ _ (rw (← h.1) range) (range, h.1)

  step-Outcome :
      (rounds : ℕ) (s : LogStream w) (m : Machine w) → Stays s m → RoundOutcome s (step w rounds m)
  unfolding step
  step-Outcome rounds s m h = dispatch-Outcome rounds s m.0.state m refl h

  -- From a valid stream, a poll that yields a range yields the blocks that follow those checked
  -- so far, and has then checked just these; any other poll checks none. The stream stays valid.
  pub range_poll-Outcome :
      (rounds : ℕ) (s : LogStream w) (net : Net World)
      → IsValid s
      → let (p, (s', _)) = poll w rounds (s, net) in Outcome s p s'
  range_poll-Outcome rounds s net valid = rw (poll_lem w rounds (s, net)) (
      loop-Returns (Stays s) (λ p m. Outcome s p m.0) (step w rounds) (step-Outcome rounds s)
        (λ m h. stop-Outcome s m out_of_rounds h (λ r x. cc)) rounds (s, net) (valid, refl))
