-- ===== src/Web3/Finite.antt =====
-- A world in which only finitely many answers come in while one `poll` runs: what the loops of the
-- bridge's streams need in order to end.
use parity_bridge.Base.{ℕ, ◌≤◌}
use parity_bridge.Async.Spend.{Spends, Spends-map_err}
use parity_bridge.Async.{Poll}
use parity_bridge.Error.{WaitError, from_timeout_error}
use parity_bridge.Web3.{Web3, Net, Chain, Request, request, await}

-- Nothing adds to the budget, and every answer uses up some of it.
pub record Finite (w : Web3) : Type 0 where
  pub budget : w.World → ℕ
  pub send_le :
      (c : Chain) (r : Request) (t : ℕ) (x : w.World) → budget (w.send c r t x).1 ≤ budget x
  pub bytes_spends :
      (f : w.Waiting) (x : w.World)
      → Spends (budget x) (w.poll_bytes f x).0 (budget (w.poll_bytes f x).2)
  pub hash_spends :
      (f : w.Waiting) (x : w.World)
      → Spends (budget x) (w.poll_hash f x).0 (budget (w.poll_hash f x).2)
  pub number_spends :
      (f : w.Waiting) (x : w.World)
      → Spends (budget x) (w.poll_number f x).0 (budget (w.poll_number f x).2)
  pub logs_spends :
      (f : w.Waiting) (x : w.World)
      → Spends (budget x) (w.poll_logs f x).0 (budget (w.poll_logs f x).2)
  pub receipt_spends :
      (f : w.Waiting) (x : w.World)
      → Spends (budget x) (w.poll_receipt f x).0 (budget (w.poll_receipt f x).2)
  pub interval_spends :
      (i : w.Interval) (x : w.World)
      → Spends (budget x) (w.poll_interval i x).0 (budget (w.poll_interval i x).2)

module _ (w : Web3) (fin : Finite w) where
  -- What is left of the budget.
  abbrev pub left : Net w.World → ℕ
  left net = fin.budget net.world

  pub request-le :
      (c : Chain) (r : Request) (t : ℕ) (net : Net w.World)
      → left (request w c r t net).1 ≤ left net
  unfolding request
  request-le c r t net = fin.send_le c r t net.world

  pub await-Spends :
      {A : Type 0} (poll : w.Waiting → w.World → Poll (WaitError w.Fault) A × w.Waiting × w.World)
      (f : w.Waiting) (net : Net w.World)
      → Spends (left net) (poll f net.world).0 (fin.budget (poll f net.world).2)
      → Spends (left net) (await w poll f net).0 (left (await w poll f net).2)
  unfolding await
  await-Spends poll f net h = Spends-map_err from_timeout_error _ _ (poll f net.world).0 h
