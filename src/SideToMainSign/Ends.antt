-- ===== src/SideToMainSign/Ends.antt =====
-- Every poll of `SideToMainSign` ends (bridge/src/side_to_main_sign.rs).
use parity_bridge.Base.{ℕ, ◌<◌, ◌≡◌, Bool, true, false, arith}
use parity_bridge.Base.Bytes.{Bytes}
use parity_bridge.Async.{Poll, ready, not_ready, failed, panicked, out_of_rounds, Flow, done, again}
use parity_bridge.Async.Spend.{Spends, FlowSpends, ranked-Spends}
use parity_bridge.Error.{Error, Result, ok, err}
use parity_bridge.Web3.{Web3, Net}
use parity_bridge.Web3.Finite.{Finite, left, request-le, await-Spends}
use parity_bridge.Contracts.{Contracts}
use parity_bridge.Helpers.{new_transaction}
use parity_bridge.Helpers.Spend.{call-Spends, transaction-Spends}
use parity_bridge.Message.{BigEndian}
use parity_bridge.Signature as Signature
use parity_bridge.Signature.{Signature}
use parity_bridge.SideContract.{submit_side_to_main_signature}
use parity_bridge.SideToMainSign.{
  State, await_check_already_signed, await_signature, await_transaction, SideToMainSign, Machine,
  Answer, got_check, on_check, got_signature, on_signature, got_transaction, on_transaction,
  dispatch, step, poll, poll_lem,
}

module _ (w : Web3) (be : BigEndian) (abi : Contracts w.Fault) (fin : Finite w) where
  open w use {World, Fault, poll_bytes}

  -- The number of rounds that may follow.
  abbrev rank : State w → ℕ
  rank (await_check_already_signed future) = 2
  rank (await_signature future) = 1
  rank (await_transaction future) = 0

  abbrev RoundSpends : ℕ → ℕ → Flow (Answer w be abi) × Machine w be abi → Type 0
  RoundSpends before ranked (f, m) =
      FlowSpends before f (left w fin m.1) × (f ≡ again → rank m.0.state < ranked)

  check-Spends :
      (before : ℕ) (p : Poll (Error Fault) Bool) (m : Machine w be abi)
      → Spends before p (left w fin m.1)
      → RoundSpends before 2 (got_check w be abi p m)
  unfolding got_check
  check-Spends before (ready true) m h = (h, λ e. cc)
  check-Spends before (ready false) m h = (omega (arith, request-le w fin), λ e. omega arith)
  check-Spends before not_ready m h = (h, λ e. cc)
  check-Spends before (failed e) m h = (h, λ e. cc)
  check-Spends before panicked m h = (h, λ e. cc)
  check-Spends before out_of_rounds m h = (h, λ e. cc)

  read-Spends :
      (before : ℕ) (r : Result (Error Fault) Signature) (m : Machine w be abi)
      → left w fin m.1 < before
      → RoundSpends before 1 (elim r [
        | err e ↦ (done (failed e), m)
        | ok signature ↦
            let (future, net') =
              submit_side_to_main_signature w be abi m.0.side m.0.message signature m.1 in
            (again, (record m.0 { state = await_transaction future }, net'))
      ])
  unfolding submit_side_to_main_signature new_transaction
  read-Spends before (ok signature) m h = (omega (arith, request-le w fin), λ e. omega arith)
  read-Spends before (err e) m h = (omega arith, λ e. cc)

  signature-Spends :
      (before : ℕ) (p : Poll (Error Fault) Bytes) (m : Machine w be abi)
      → Spends before p (left w fin m.1)
      → RoundSpends before 1 (got_signature w be abi p m)
  unfolding got_signature
  signature-Spends before (ready b) m h = read-Spends before (Signature.from_bytes b) m h
  signature-Spends before not_ready m h = (h, λ e. cc)
  signature-Spends before (failed e) m h = (h, λ e. cc)
  signature-Spends before panicked m h = (h, λ e. cc)
  signature-Spends before out_of_rounds m h = (h, λ e. cc)

  transaction-RoundSpends :
      (before ranked : ℕ) (p : Poll (Error Fault) Bytes) (m : Machine w be abi)
      → Spends before p (left w fin m.1)
      → RoundSpends before ranked (got_transaction w be abi p m)
  unfolding got_transaction
  transaction-RoundSpends before ranked (ready x) m h = (h, λ e. cc)
  transaction-RoundSpends before ranked not_ready m h = (h, λ e. cc)
  transaction-RoundSpends before ranked (failed e) m h = (h, λ e. cc)
  transaction-RoundSpends before ranked panicked m h = (h, λ e. cc)
  transaction-RoundSpends before ranked out_of_rounds m h = (h, λ e. cc)

  dispatch-Spends :
      (st : State w) (m : Machine w be abi)
      → RoundSpends (left w fin m.1) (rank st) (dispatch w be abi st m)
  unfolding dispatch on_check on_signature on_transaction
  dispatch-Spends (await_check_already_signed future) m =
      check-Spends _ _ _ (call-Spends w fin future m.1)
  dispatch-Spends (await_signature future) m =
      signature-Spends _ _ _
        (await-Spends w fin poll_bytes future m.1 (fin.bytes_spends future m.1.world))
  dispatch-Spends (await_transaction future) m =
      transaction-RoundSpends _ _ _ _ (transaction-Spends w fin future m.1)

  step-Spends :
      (m : Machine w be abi) → RoundSpends (left w fin m.1) (rank m.0.state) (step w be abi m)
  unfolding step
  step-Spends m = dispatch-Spends m.0.state m

  -- A poll is over after at most three rounds, and has used up an answer if it is ready.
  pub withdraw_poll-Spends :
      (rounds : ℕ) (s : SideToMainSign w) (net : Net World)
      → 2 < rounds
      → let (p, (_, net')) = poll w be abi rounds (s, net) in
        Spends (left w fin net) p (left w fin net')
  withdraw_poll-Spends rounds s net h = rw (poll_lem w be abi rounds (s, net)) (
      ranked-Spends (λ m. left w fin m.1) (λ m. rank m.0.state) (step w be abi)
        (λ m. (step-Spends m).0) (λ m. (step-Spends m).1) rounds (s, net) (rank-lt s.state))
    where
      rank-lt : (st : State w) → rank st < rounds
      rank-lt (await_check_already_signed future) = h
      rank-lt (await_signature future) = omega arith
      rank-lt (await_transaction future) = omega arith
