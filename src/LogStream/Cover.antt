-- ===== src/LogStream/Cover.antt =====
-- The ranges of all polls of a `LogStream` together (bridge/src/log_stream.rs).
use parity_bridge.Base.{
  ℕ, zero, suc, ◌+◌, ◌^◌, ◌≤◌, ◌<◌, ◌≡◌, refl, none, some, List, [], ◌∷◌, subst, arith,
}
use parity_bridge.Async.{ready}
use parity_bridge.Web3.{Web3, Net}
use parity_bridge.LogStream.{
  LogStream, LogStreamOptions, LogsInBlockRange, Machine, Answer, new, poll,
}
use parity_bridge.LogStream.Ranges.{IsValid, Outcome, range_poll-Outcome}

-- The ranges follow one another from the block behind `a` to the block `b`.
abbrev pub Chains : ℕ → List LogsInBlockRange → ℕ → Type 0
Chains a [] b = b ≡ a
Chains a (r ∷ rs) b = (r.from ≡ a + 1) × (r.from ≤ r.to) × Chains r.to rs b

module _ (w : Web3) where
  open w use {World}

  abbrev keep : Answer w → List LogsInBlockRange → List LogsInBlockRange
  keep (ready (some r)) rs = r ∷ rs
  keep _ rs = rs

  -- Polls `n` times, and gathers what is yielded.
  unfoldable pub run : ℕ → ℕ → Machine w → List LogsInBlockRange × Machine w
  run rounds zero m = ([], m)
  run rounds (suc n) m =
      let (p, m') = poll w rounds m in let (rs, m'') = run rounds n m' in (keep p rs, m'')

  keep-Chains :
      (s s' : LogStream w) (p : Answer w) (rs : List LogsInBlockRange) (b : ℕ)
      → Outcome w s p s'
      → Chains s'.last_checked_block rs b
      → Chains s.last_checked_block (keep p rs) b
  keep-Chains s s' (ready (some r)) rs b o h =
      let c = o.checks r refl in (c.adjacent, c.nonempty, rw c.checked at h)
  keep-Chains s s' (ready none) rs b o h = subst (λ n. Chains n rs b) (o.stays (λ r e. cc)) h
  keep-Chains s s' _ rs b o h = subst (λ n. Chains n rs b) (o.stays (λ r e. cc)) h

  run-Chains :
      (rounds n : ℕ) (s : LogStream w) (net : Net World)
      → IsValid w s
      → let (rs, (s', _)) = run rounds n (s, net) in
        Chains s.last_checked_block rs s'.last_checked_block
  unfolding run
  run-Chains rounds zero s net valid = refl
  run-Chains rounds (suc n) s net valid =
      let (p, (s', net')) = poll w rounds (s, net) in
      let o = range_poll-Outcome w rounds s net valid in
      let (rs, (s'', _)) = run rounds n (s', net') in
      keep-Chains s s' p rs s''.last_checked_block o (run-Chains rounds n s' net' o.valid)

  pub new-IsValid :
      (options : LogStreamOptions) {s : LogStream w}
      → options.after < 2 ^ 64
      → new w options ≡ some s
      → IsValid w s × (s.last_checked_block ≡ options.after)
  unfolding new
  new-IsValid options h e = ground arith

  -- However often a new stream is polled, the ranges that it yields follow one another without a
  -- gap or an overlap, from the block behind `after` to the last block checked.
  pub new-run-Chains :
      (options : LogStreamOptions) (rounds n : ℕ) (s : LogStream w) (net : Net World)
      → options.after < 2 ^ 64
      → new w options ≡ some s
      → let (rs, (s', _)) = run rounds n (s, net) in Chains options.after rs s'.last_checked_block
  new-run-Chains options rounds n s net h e =
      let (valid, start) = new-IsValid options h e in
      let (rs, (s', _)) = run rounds n (s, net) in
      subst (λ a. Chains a rs s'.last_checked_block) start (run-Chains rounds n s net valid)
