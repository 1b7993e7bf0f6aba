-- ===== src/SideToMainSignatures.antt =====
-- The future that completes one transfer from `side` to `main`:
-- bridge/src/side_to_main_signatures.rs. `JoinAll` of the `futures` crate is a parameter.
pub mod Ends
pub mod Requests
pub mod Trace
use parity_bridge.Base.{ℕ, ◌≡◌, refl, Option, none, some, Bool, List, [], ◌∷◌, if◌then◌else◌, ◌>>=◌}
use parity_bridge.Base.Bytes.{Bytes, same_bytes}
use parity_bridge.Async.{Poll, ready, failed, Flow, done, again, map_err, try_ready, loop}
use parity_bridge.Error.{Error, Result, ok, err, chained, text}
use parity_bridge.Web3.{Web3, Log, Net, request, await}
use parity_bridge.Contracts.{Contracts, CollectedSignatures}
use parity_bridge.Helpers.{AsyncCall, AsyncTransaction, parse_log, poll_call, poll_transaction}
use parity_bridge.MainContract.{MainContract, call_main, relay_side_to_main}
use parity_bridge.MainToSideSign.{expect}
use parity_bridge.Message as Message
use parity_bridge.Message.{BigEndian, MessageToMain}
use parity_bridge.SideContract.{SideContract, call_side, get_signatures}
use parity_bridge.Signature as Signature
use parity_bridge.Signature.{Signature}

-- `future::join_all` and the polls of what it makes
pub record JoinAll (w : Web3) : Type 1 where
  pub Joined : Type 0
  pub join_all : List (AsyncCall w Bytes) → Joined
  pub poll_joined : Joined → Net w.World → Poll (Error w.Fault) (List Bytes) × Joined × Net w.World

pub data State (w : Web3) (j : JoinAll w) : Type 0 where
  await_message : AsyncCall w Bytes → State w j
  await_is_relayed : AsyncCall w Bool → MessageToMain → State w j
  await_signatures : j.Joined → MessageToMain → State w j
  await_tx_sent : AsyncTransaction w → State w j

pub record SideToMainSignatures (w : Web3) (j : JoinAll w) : Type 0 where
  pub side_tx_hash : Bytes
  pub main : MainContract
  pub side : SideContract
  pub state : State w j

-- `.map(|x| Signature::from_bytes(x)).collect::<Result<_, _>>()`
unfoldable pub read_signatures : {X : Type 0} → List Bytes → Result (Error X) (List Signature)
unfolding Signature.from_bytes
read_signatures [] = ok []
read_signatures (x ∷ xs) =
    let others = read_signatures xs in
    elim (Signature.from_bytes x) [
      | err e ↦ err e
      | ok signature ↦ elim others [ err e ↦ err e | ok signatures ↦ ok (signature ∷ signatures) ]
    ]

module _ (w : Web3) (be : BigEndian) (abi : Contracts w.Fault) (j : JoinAll w)
    (hash : Bytes → Bytes) where
  open w use {World, Fault}
  open j use {Joined, join_all, poll_joined}

  -- The hash and the event that `new` reads off the log; `none` where it panics.
  abbrev pub read_collected : Log → MainContract → Option (Bytes × CollectedSignatures)
  read_collected raw_log main = raw_log.transaction_hash >>= λ side_tx_hash.
      expect (parse_log abi.parse_collected_signatures raw_log) >>= λ log.
      if same_bytes log.authority_responsible_for_relay main.authority_address
      then some (side_tx_hash, log)
      else none

  unfoldable pub new :
      Log → MainContract → SideContract → Net World → Option (SideToMainSignatures w j) × Net World
  unfolding parse_log call_side
  new raw_log main side net = elim (read_collected raw_log main) [
    | none ↦ (none, net)
    | some (side_tx_hash, log) ↦
        let (future, net') =
          call_side w be abi side (abi.message log.message_hash) abi.decode_bytes net in
        (
          some (record {
            side_tx_hash = side_tx_hash;
            main = main;
            side = side;
            state = await_message future;
          }),
          net',
        )
  ]

  abbrev pub Machine : Type 0
  Machine = SideToMainSignatures w j × Net World

  abbrev pub Answer : Type 0
  Answer = Poll (Error Fault) (Option Bytes)

  pub got_message : Poll (Error Fault) Bytes → Machine → Flow Answer × Machine
  got_message p (s, net) =
      try_ready (map_err (chained (text "SubmitSignature: fetching message failed")) p) (s, net)
        λ message_bytes. elim (Message.from_bytes be message_bytes) [
          | err e ↦ (done (failed e), (s, net))
          | ok message ↦
              let (future, net') =
                call_main w be abi s.main (abi.withdraws message.side_tx_hash) abi.decode_bool
                  net in
              (again, (record s { state = await_is_relayed future message }, net'))
        ]

  pub on_message : AsyncCall w Bytes → Machine → Flow Answer × Machine
  on_message future (s, net) =
      let (p, future', net') = poll_call w future net in
      got_message p (record s { state = await_message future' }, net')

  pub got_is_relayed : MessageToMain → Poll (Error Fault) Bool → Machine → Flow Answer × Machine
  got_is_relayed message p (s, net) =
      try_ready (map_err (chained (text "SubmitSignature: fetching message failed")) p) (s, net)
        λ is_relayed.
          let (calls, net') =
            get_signatures w be abi s.side (Message.keccak256 be hash message) net in
          if is_relayed
          then (done (ready none), (s, net))
          else (again, (record s { state = await_signatures (join_all calls) message }, net'))

  pub on_is_relayed : AsyncCall w Bool → MessageToMain → Machine → Flow Answer × Machine
  on_is_relayed future message (s, net) =
      let (p, future', net') = poll_call w future net in
      got_is_relayed message p (record s { state = await_is_relayed future' message }, net')

  pub got_signatures :
      MessageToMain → Poll (Error Fault) (List Bytes) → Machine → Flow Answer × Machine
  got_signatures message p (s, net) =
      try_ready (map_err (chained (text "WithdrawRelay: fetching message and signatures failed")) p)
        (s, net)
        λ raw_signatures. elim (read_signatures raw_signatures) [
          | err e ↦ (done (failed e), (s, net))
          | ok signatures ↦
              let (future, net') = relay_side_to_main w be abi s.main message signatures net in
              (again, (record s { state = await_tx_sent future }, net'))
        ]

  pub on_signatures : Joined → MessageToMain → Machine → Flow Answer × Machine
  on_signatures future message (s, net) =
      let (p, future', net') = poll_joined future net in
      got_signatures message p (record s { state = await_signatures future' message }, net')

  pub got_sent : Poll (Error Fault) Bytes → Machine → Flow Answer × Machine
  got_sent p (s, net) =
      try_ready (map_err (chained (text "WithdrawRelay: sending transaction failed")) p) (s, net)
        λ main_tx_hash. (done (ready (some main_tx_hash)), (s, net))

  pub on_tx_sent : AsyncTransaction w → Machine → Flow Answer × Machine
  on_tx_sent future (s, net) =
      let (p, future', net') = poll_transaction w future net in
      got_sent p (record s { state = await_tx_sent future' }, net')

  pub dispatch : State w j → Machine → Flow Answer × Machine
  dispatch (await_message future) m = on_message future m
  dispatch (await_is_relayed future message) m = on_is_relayed future message m
  dispatch (await_signatures future message) m = on_signatures future message m
  dispatch (await_tx_sent future) m = on_tx_sent future m

  -- One round of the loop.
  pub step : Machine → Flow Answer × Machine
  step m = dispatch m.0.state m

  unfoldable pub poll : ℕ → Machine → Answer × Machine
  unfolding loop step dispatch on_message got_message on_is_relayed got_is_relayed on_signatures
      got_signatures on_tx_sent got_sent poll_call poll_transaction call_main get_signatures
      relay_side_to_main read_signatures Message.from_bytes Message.keccak256 await request
  poll rounds m = loop rounds step m

  pub poll_lem : (rounds : ℕ) (m : Machine) → poll rounds m ≡ loop rounds step m
  unfolding poll
  poll_lem rounds m = refl
