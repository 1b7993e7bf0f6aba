-- ===== src/SideToMainSign.antt =====
-- The future that signs one withdrawal on `side`: bridge/src/side_to_main_sign.rs.
pub mod Requests
pub mod Trace
pub mod Ends
use parity_bridge.Base.{
  ℕ, ◌≡◌, refl, Option, none, some, Bool, true, false, List, [], length, ◌==◌, if◌then◌else◌, ◌>>=◌,
}
use parity_bridge.Base.Bytes.{Bytes}
use parity_bridge.Async.{Poll, ready, failed, Flow, done, again, map_err, try_ready, loop}
use parity_bridge.Error.{Error, Result, ok, err, chained, text}
use parity_bridge.Web3.{Web3, Log, Net, sign, request, await}
use parity_bridge.Contracts.{Contracts}
use parity_bridge.Helpers.{
  AsyncCall, AsyncTransaction, parse_log, poll_call, poll_transaction, new_call, new_transaction,
}
use parity_bridge.Message as Message
use parity_bridge.Message.{BigEndian, MessageToMain, message_length}
use parity_bridge.Message.Log.{from_log}
use parity_bridge.MainToSideSign.{expect}
use parity_bridge.Signature as Signature
use parity_bridge.SideContract.{
  SideContract, call_side, is_side_to_main_signed_on_side, submit_side_to_main_signature,
}

pub data State (w : Web3) : Type 0 where
  await_check_already_signed : AsyncCall w Bool → State w
  await_signature : w.Waiting → State w
  await_transaction : AsyncTransaction w → State w

pub record SideToMainSign (w : Web3) : Type 0 where
  pub tx_hash : Bytes
  pub side : SideContract
  pub message : MessageToMain
  pub state : State w

module _ (w : Web3) (be : BigEndian) (abi : Contracts w.Fault) where
  open w use {World, Fault, Waiting, poll_bytes}

  -- The hash and the message that `new` reads off the log; `none` where it panics.
  abbrev pub read_withdraw : Log → Option (Bytes × MessageToMain)
  read_withdraw log = log.transaction_hash >>= λ tx_hash. expect (from_log abi log) >>= λ message.
      if length (Message.to_bytes be message) == message_length
      then some (tx_hash, message)
      else none

  unfoldable pub new : Log → SideContract → Net World → Option (SideToMainSign w) × Net World
  unfolding from_log Message.to_bytes is_side_to_main_signed_on_side
  new log side net = elim (read_withdraw log) [
    | none ↦ (none, net)
    | some (tx_hash, message) ↦
        let (future, net') = is_side_to_main_signed_on_side w be abi side message net in
        (
          some (record {
            tx_hash = tx_hash;
            side = side;
            message = message;
            state = await_check_already_signed future;
          }),
          net',
        )
  ]

  abbrev pub Machine : Type 0
  Machine = SideToMainSign w × Net World

  abbrev pub Answer : Type 0
  Answer = Poll (Error Fault) (Option Bytes)

  pub got_check : Poll (Error Fault) Bool → Machine → Flow Answer × Machine
  got_check p (s, net) =
      try_ready (map_err (chained (text "WithdrawConfirm: message signing failed")) p) (s, net)
        λ is_already_signed.
          let (future, net') =
            request w s.side.transport
              (sign s.side.authority_address (Message.to_bytes be s.message)) s.side.request_timeout
              net in
          if is_already_signed
          then (done (ready none), (s, net))
          else (again, (record s { state = await_signature future }, net'))

  pub on_check : AsyncCall w Bool → Machine → Flow Answer × Machine
  on_check future (s, net) =
      let (p, future', net') = poll_call w future net in
      got_check p (record s { state = await_check_already_signed future' }, net')

  pub got_signature : Poll (Error Fault) Bytes → Machine → Flow Answer × Machine
  got_signature p (s, net) =
      try_ready (map_err (chained (text "WithdrawConfirm: message signing failed")) p) (s, net)
        λ signature_bytes. elim (Signature.from_bytes signature_bytes) [
          | err e ↦ (done (failed e), (s, net))
          | ok signature ↦
              let (future, net') =
                submit_side_to_main_signature w be abi s.side s.message signature net in
              (again, (record s { state = await_transaction future }, net'))
        ]

  pub on_signature : Waiting → Machine → Flow Answer × Machine
  on_signature future (s, net) =
      let (p, future', net') = await w poll_bytes future net in
      got_signature p (record s { state = await_signature future' }, net')

  pub got_transaction : Poll (Error Fault) Bytes → Machine → Flow Answer × Machine
  got_transaction p (s, net) =
      try_ready (map_err (chained (text "WithdrawConfirm: sending transaction failed")) p) (s, net)
        λ tx_hash. (done (ready (some tx_hash)), (s, net))

  pub on_transaction : AsyncTransaction w → Machine → Flow Answer × Machine
  on_transaction future (s, net) =
      let (p, future', net') = poll_transaction w future net in
      got_transaction p (record s { state = await_transaction future' }, net')

  pub dispatch : State w → Machine → Flow Answer × Machine
  dispatch (await_check_already_signed future) m = on_check future m
  dispatch (await_signature future) m = on_signature future m
  dispatch (await_transaction future) m = on_transaction future m

  -- One round of the loop.
  pub step : Machine → Flow Answer × Machine
  step m = dispatch m.0.state m

  unfoldable pub poll : ℕ → Machine → Answer × Machine
  unfolding loop step dispatch on_check got_check on_signature got_signature on_transaction
      got_transaction poll_call poll_transaction submit_side_to_main_signature Signature.from_bytes
      Message.to_bytes await request
  poll rounds m = loop rounds step m

  pub poll_lem : (rounds : ℕ) (m : Machine) → poll rounds m ≡ loop rounds step m
  unfolding poll
  poll_lem rounds m = refl
