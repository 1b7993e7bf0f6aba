-- ===== src/MainToSideSign.antt =====
-- The future that signs one deposit on `side`: bridge/src/main_to_side_sign.rs.
pub mod Trace
pub mod Ends
use parity_bridge.Base.{
  ℕ, ◌≡◌, refl, Option, none, some, Bool, true, false, List, [], if◌then◌else◌, ◌>>=◌,
}
use parity_bridge.Base.Bytes.{Bytes}
use parity_bridge.Async.{Poll, ready, Flow, done, again, map_err, try_ready, loop}
use parity_bridge.Error.{Error, Result, ok, err, chained, text, about}
use parity_bridge.Web3.{Web3, Log, Net, request, await}
use parity_bridge.Contracts.{Contracts, Deposit}
use parity_bridge.Helpers.{
  AsyncCall, AsyncTransaction, parse_log, poll_call, poll_transaction, new_call, new_transaction,
}
use parity_bridge.Message.{BigEndian}
use parity_bridge.SideContract.{
  SideContract, call_side, is_main_to_side_signed_on_side, sign_main_to_side,
}

-- `Result::expect` and `Option::expect`
abbrev pub expect {ℓ κ} : {E : Type ℓ} {A : Type κ} → Result E A → Option A
expect (ok a) = some a
expect (err e) = none

pub data State (w : Web3) : Type 0 where
  await_already_signed : AsyncCall w Bool → State w
  await_tx_sent : AsyncTransaction w → State w

pub record MainToSideSign (w : Web3) : Type 0 where
  pub main_tx_hash : Bytes
  pub recipient : Bytes
  pub value : ℕ
  pub state : State w
  pub side : SideContract

module _ (w : Web3) (be : BigEndian) (abi : Contracts w.Fault) where
  open w use {World, Fault}

  -- The hash and the event that `new` reads off the log; `none` where it panics.
  abbrev pub read_deposit : Log → Option (Bytes × Deposit)
  read_deposit raw_log = raw_log.transaction_hash >>= λ main_tx_hash.
      expect (parse_log abi.parse_deposit raw_log) >>= λ log. some (main_tx_hash, log)

  unfoldable pub new : Log → SideContract → Net World → Option (MainToSideSign w) × Net World
  unfolding parse_log is_main_to_side_signed_on_side
  new raw_log side net = elim (read_deposit raw_log) [
    | none ↦ (none, net)
    | some (main_tx_hash, log) ↦
        let (future, net') =
          is_main_to_side_signed_on_side w be abi side log.recipient log.value main_tx_hash net in
        (
          some (record {
            main_tx_hash = main_tx_hash;
            recipient = log.recipient;
            value = log.value;
            state = await_already_signed future;
            side = side;
          }),
          net',
        )
  ]

  abbrev pub Machine : Type 0
  Machine = MainToSideSign w × Net World

  abbrev pub Answer : Type 0
  Answer = Poll (Error Fault) (Option Bytes)

  pub got_signed : Poll (Error Fault) Bool → Machine → Flow Answer × Machine
  got_signed p (s, net) =
      try_ready (map_err (chained (text "MainToSideSign: failed to check if already signed")) p)
        (s, net)
        λ has_already_signed.
          let (future, net') =
            sign_main_to_side w be abi s.side s.recipient s.value s.main_tx_hash net in
          if has_already_signed
          then (done (ready none), (s, net))
          else (again, (record s { state = await_tx_sent future }, net'))

  pub on_already_signed : AsyncCall w Bool → Machine → Flow Answer × Machine
  on_already_signed future (s, net) =
      let (p, future', net') = poll_call w future net in
      got_signed p (record s { state = await_already_signed future' }, net')

  pub got_sent : Poll (Error Fault) Bytes → Machine → Flow Answer × Machine
  got_sent p (s, net) =
      try_ready
        (map_err
          (chained
            (about "MainToSideSign: checking whether {} already was relayed failed" s.main_tx_hash))
          p)
        (s, net) λ side_tx_hash. (done (ready (some side_tx_hash)), (s, net))

  pub on_tx_sent : AsyncTransaction w → Machine → Flow Answer × Machine
  on_tx_sent future (s, net) =
      let (p, future', net') = poll_transaction w future net in
      got_sent p (record s { state = await_tx_sent future' }, net')

  pub dispatch : State w → Machine → Flow Answer × Machine
  dispatch (await_already_signed future) m = on_already_signed future m
  dispatch (await_tx_sent future) m = on_tx_sent future m

  -- One round of the loop.
  pub step : Machine → Flow Answer × Machine
  step m = dispatch m.0.state m

  unfoldable pub poll : ℕ → Machine → Answer × Machine
  unfolding loop step dispatch on_already_signed got_signed on_tx_sent got_sent poll_call
      poll_transaction sign_main_to_side await request
  poll rounds m = loop rounds step m

  pub poll_lem : (rounds : ℕ) (m : Machine) → poll rounds m ≡ loop rounds step m
  unfolding poll
  poll_lem rounds m = refl
