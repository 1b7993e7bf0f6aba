-- ===== src/SideToMainSignatures/Ends.antt =====
-- Every poll of `SideToMainSignatures` ends (bridge/src/side_to_main_signatures.rs).
use parity_bridge.Base.{ℕ, zero, suc, ◌≤◌, ◌<◌, ◌≡◌, Bool, true, false, List, arith}
use parity_bridge.Base.Bytes.{Bytes}
use parity_bridge.Async.{Poll, ready, not_ready, failed, panicked, out_of_rounds, Flow, done, again}
use parity_bridge.Async.Spend.{Spends, FlowSpends, ranked-Spends}
use parity_bridge.Error.{Error, Result, ok, err}
use parity_bridge.Web3.{Web3, Net}
use parity_bridge.Web3.Finite.{Finite, left, request-le}
use parity_bridge.Contracts.{Contracts}
use parity_bridge.Helpers.{new_call, new_transaction}
use parity_bridge.Helpers.Spend.{call-Spends, transaction-Spends}
use parity_bridge.MainContract.{call_main, relay_side_to_main}
use parity_bridge.Message as Message
use parity_bridge.Message.{BigEndian, MessageToMain}
use parity_bridge.Signature.{Signature}
use parity_bridge.SideContract.{SideContract, call_side, signature_calls, get_signatures}
use parity_bridge.SideToMainSignatures.{
  JoinAll, State, await_message, await_is_relayed, await_signatures, await_tx_sent,
  SideToMainSignatures, Machine, Answer, read_signatures, got_message, on_message, got_is_relayed,
  on_is_relayed, got_signatures, on_signatures, got_sent, on_tx_sent, dispatch, step, poll,
  poll_lem,
}

-- A poll of joined calls uses up answers as the polls of the calls do.
pub record FiniteJoin (w : Web3) (fin : Finite w) (j : JoinAll w) : Type 0 where
  pub joined_spends :
      (f : j.Joined) (net : Net w.World)
      → Spends (left w fin net) (j.poll_joined f net).0 (left w fin (j.poll_joined f net).2)

module _ (w : Web3) (be : BigEndian) (abi : Contracts w.Fault) (j : JoinAll w)
    (hash : Bytes → Bytes) (fin : Finite w) (joins : FiniteJoin w fin j) where
  open w use {World, Fault}

  -- The number of rounds that may follow.
  abbrev rank : State w j → ℕ
  rank (await_message future) = 3
  rank (await_is_relayed future message) = 2
  rank (await_signatures future message) = 1
  rank (await_tx_sent future) = 0

  abbrev RoundSpends : ℕ → ℕ → Flow (Answer w be abi j hash) × Machine w be abi j hash → Type 0
  RoundSpends before ranked (f, m) =
      FlowSpends before f (left w fin m.1) × (f ≡ again → rank m.0.state < ranked)

  calls-le :
      (side : SideContract) (message_hash : Bytes) (index n : ℕ) (net : Net World)
      → left w fin (signature_calls w be abi side message_hash index n net).1 ≤ left w fin net
  unfolding signature_calls call_side new_call
  calls-le side message_hash index zero net = omega arith
  calls-le side message_hash index (suc n) net =
      let (first, net') =
        call_side w be abi side (abi.signature message_hash index) abi.decode_bytes net in
      omega (arith, calls-le side message_hash (suc index) n net', request-le w fin)

  message-Spends :
      (before : ℕ) (r : Result (Error Fault) MessageToMain) (m : Machine w be abi j hash)
      → left w fin m.1 < before
      → RoundSpends before 3 (elim r [
        | err e ↦ (done (failed e), m)
        | ok message ↦
            let (future, net') =
              call_main w be abi m.0.main
                (abi.withdraws message.side_tx_hash)
                abi.decode_bool
                m.1 in
            (again, (record m.0 { state = await_is_relayed future message }, net'))
      ])
  unfolding call_main new_call
  message-Spends before (ok message) m h = (omega (arith, request-le w fin), λ e. omega arith)
  message-Spends before (err e) m h = (omega arith, λ e. cc)

  got_message-Spends :
      (before : ℕ) (p : Poll (Error Fault) Bytes) (m : Machine w be abi j hash)
      → Spends before p (left w fin m.1)
      → RoundSpends before 3 (got_message w be abi j hash p m)
  unfolding got_message
  got_message-Spends before (ready b) m h = message-Spends before (Message.from_bytes be b) m h
  got_message-Spends before not_ready m h = (h, λ e. cc)
  got_message-Spends before (failed e) m h = (h, λ e. cc)
  got_message-Spends before panicked m h = (h, λ e. cc)
  got_message-Spends before out_of_rounds m h = (h, λ e. cc)

  is_relayed-Spends :
      (before : ℕ) (message : MessageToMain) (p : Poll (Error Fault) Bool)
      (m : Machine w be abi j hash)
      → Spends before p (left w fin m.1)
      → RoundSpends before 2 (got_is_relayed w be abi j hash message p m)
  unfolding got_is_relayed get_signatures
  is_relayed-Spends before message (ready true) m h = (h, λ e. cc)
  is_relayed-Spends before message (ready false) m h = (
    omega (
      arith,
      calls-le m.0.side (Message.keccak256 be hash message) 0 m.0.side.required_signatures m.1,
    ),
    λ e. omega arith,
  )
  is_relayed-Spends before message not_ready m h = (h, λ e. cc)
  is_relayed-Spends before message (failed e) m h = (h, λ e. cc)
  is_relayed-Spends before message panicked m h = (h, λ e. cc)
  is_relayed-Spends before message out_of_rounds m h = (h, λ e. cc)

  read-Spends :
      (before : ℕ) (message : MessageToMain) (r : Result (Error Fault) (List Signature))
      (m : Machine w be abi j hash)
      → left w fin m.1 < before
      → RoundSpends before 1 (elim r [
        | err e ↦ (done (failed e), m)
        | ok signatures ↦
            let (future, net') = relay_side_to_main w be abi m.0.main message signatures m.1 in
            (again, (record m.0 { state = await_tx_sent future }, net'))
      ])
  unfolding relay_side_to_main new_transaction
  read-Spends before message (ok signatures) m h =
      (omega (arith, request-le w fin), λ e. omega arith)
  read-Spends before message (err e) m h = (omega arith, λ e. cc)

  signatures-Spends :
      (before : ℕ) (message : MessageToMain) (p : Poll (Error Fault) (List Bytes))
      (m : Machine w be abi j hash)
      → Spends before p (left w fin m.1)
      → RoundSpends before 1 (got_signatures w be abi j hash message p m)
  unfolding got_signatures
  signatures-Spends before message (ready bs) m h =
      read-Spends before message (read_signatures bs) m h
  signatures-Spends before message not_ready m h = (h, λ e. cc)
  signatures-Spends before message (failed e) m h = (h, λ e. cc)
  signatures-Spends before message panicked m h = (h, λ e. cc)
  signatures-Spends before message out_of_rounds m h = (h, λ e. cc)

  sent-Spends :
      (before ranked : ℕ) (p : Poll (Error Fault) Bytes) (m : Machine w be abi j hash)
      → Spends before p (left w fin m.1)
      → RoundSpends before ranked (got_sent w be abi j hash p m)
  unfolding got_sent
  sent-Spends before ranked (ready x) m h = (h, λ e. cc)
  sent-Spends before ranked not_ready m h = (h, λ e. cc)
  sent-Spends before ranked (failed e) m h = (h, λ e. cc)
  sent-Spends before ranked panicked m h = (h, λ e. cc)
  sent-Spends before ranked out_of_rounds m h = (h, λ e. cc)

  dispatch-Spends :
      (st : State w j) (m : Machine w be abi j hash)
      → RoundSpends (left w fin m.1) (rank st) (dispatch w be abi j hash st m)
  unfolding dispatch on_message on_is_relayed on_signatures on_tx_sent
  dispatch-Spends (await_message future) m = got_message-Spends _ _ _ (call-Spends w fin future m.1)
  dispatch-Spends (await_is_relayed future message) m =
      is_relayed-Spends _ message _ _ (call-Spends w fin future m.1)
  dispatch-Spends (await_signatures future message) m =
      signatures-Spends _ message _ _ (joins.joined_spends future m.1)
  dispatch-Spends (await_tx_sent future) m =
      sent-Spends _ _ _ _ (transaction-Spends w fin future m.1)

  step-Spends :
      (m : Machine w be abi j hash)
      → RoundSpends (left w fin m.1) (rank m.0.state) (step w be abi j hash m)
  unfolding step
  step-Spends m = dispatch-Spends m.0.state m

  -- Where polls of joined calls use up answers as the calls do, a poll is over after at most four
  -- rounds, and has used up an answer if it is ready.
  pub collected_poll-Spends :
      (rounds : ℕ) (s : SideToMainSignatures w j) (net : Net World)
      → 3 < rounds
      → let (p, (_, net')) = poll w be abi j hash rounds (s, net) in
        Spends (left w fin net) p (left w fin net')
  collected_poll-Spends rounds s net h = rw (poll_lem w be abi j hash rounds (s, net)) (
      ranked-Spends (λ m. left w fin m.1) (λ m. rank m.0.state) (step w be abi j hash)
        (λ m. (step-Spends m).0) (λ m. (step-Spends m).1) rounds (s, net) (rank-lt s.state))
    where
      rank-lt : (st : State w j) → rank st < rounds
      rank-lt (await_message future) = h
      rank-lt (await_is_relayed future message) = omega arith
      rank-lt (await_signatures future message) = omega arith
      rank-lt (await_tx_sent future) = omega arith
