-- ===== src/SideToMainSignatures/Requests.antt =====
-- The requests of the exchange that `SideToMainSignatures` holds (bridge/src/side_to_main_signatures.rs).
use mathlib.Core.List.{append_assoc, append-nil}
use parity_bridge.Base.{
  none, some, true, ℕ, zero, suc, ◌≡◌, sym, ◌∙◌, Bool, false, List, [], ◌∷◌, ◌++◌, map,
}
use parity_bridge.Base.Bytes.{Bytes}
use parity_bridge.Async.{ready}
use parity_bridge.Error.{ok}
use parity_bridge.Web3.{Web3, Chain, Request, Net, call, send_transaction, request}
use parity_bridge.Contracts.{Contracts}
use parity_bridge.MainContract.{call_main, relay_side_to_main}
use parity_bridge.Helpers.{
  AsyncCall, AsyncTransaction, poll_transaction, call_request, transaction_request, poll_call,
  new_call,
}
use parity_bridge.Message as Message
use parity_bridge.Message.{BigEndian, MessageToMain}
use parity_bridge.Signature.{Signature}
use parity_bridge.SideContract.{SideContract, call_side, signature_calls, get_signatures}
use parity_bridge.SideToMainSignatures.{
  JoinAll, State, await_message, await_is_relayed, await_signatures, await_tx_sent,
  SideToMainSignatures, Machine, Answer, read_signatures,
}

-- A poll of joined calls sends no request.
pub record QuietJoin (w : Web3) (j : JoinAll w) : Type 0 where
  pub joined_quiet : (f : j.Joined) (net : Net w.World) → (j.poll_joined f net).2.sent ≡ net.sent

-- How far the exchange has come, and the message that it is about.
pub data Stage : Type 0 where
  at_message : Stage
  at_relayed : MessageToMain → Stage
  at_signatures : MessageToMain → Stage
  at_sent : Stage

abbrev pub stage : {w : Web3} {j : JoinAll w} → State w j → Stage
stage (await_message _) = at_message
stage (await_is_relayed _ message) = at_relayed message
stage (await_signatures _ message) = at_signatures message
stage (await_tx_sent _) = at_sent

module _ (w : Web3) (be : BigEndian) (abi : Contracts w.Fault) (j : JoinAll w)
    (hash : Bytes → Bytes) where
  open w use {World, Fault}
  open j use {Joined, join_all, poll_joined}

  -- The question to the main contract whether the withdrawal has been made.
  unfoldable pub relayed_request : SideToMainSignatures w j → MessageToMain → Chain × Request
  relayed_request s message = (
    s.main.transport,
    call (call_request w s.main.contract_address (abi.withdraws message.side_tx_hash)),
  )

  -- The questions to the side contract for its signatures from `index` on, `n` of them.
  abbrev pub signature_requests : SideContract → Bytes → ℕ → ℕ → List (Chain × Request)
  signature_requests c message_hash index zero = []
  signature_requests c message_hash index (suc n) =
      (c.transport, call (call_request w c.contract_address (abi.signature message_hash index)))
      ∷ signature_requests c message_hash (suc index) n

  -- One question for every signature that is required.
  unfoldable pub collect_requests :
      SideToMainSignatures w j → MessageToMain → List (Chain × Request)
  collect_requests s message =
      signature_requests s.side (hash (Message.to_bytes be message)) 0 s.side.required_signatures

  -- The transaction to the main contract, with the parts of the signatures and the message, at the
  -- gas price that the message names.
  unfoldable pub withdraw_request :
      SideToMainSignatures w j → MessageToMain → List Signature → Chain × Request
  withdraw_request s message signatures = (
    s.main.transport,
    send_transaction (
        transaction_request w s.main.contract_address s.main.authority_address
          s.main.submit_collected_signatures_gas message.main_gas_price
          (abi.withdraw_input (map (λ x. x.v) signatures) (map (λ x. x.r) signatures)
            (map (λ x. x.s) signatures) (Message.to_bytes be message))),
  )

  -- A call to the main contract is sent, and a transaction.
  abbrev pub asked :
      SideToMainSignatures w j → MessageToMain → Net World → AsyncCall w Bool × Net World
  asked s message around =
      call_main w be abi s.main (abi.withdraws message.side_tx_hash) abi.decode_bool around

  abbrev pub collecting :
      SideToMainSignatures w j → MessageToMain → Net World → List (AsyncCall w Bytes) × Net World
  collecting s message around =
      get_signatures w be abi s.side (Message.keccak256 be hash message) around

  -- The exchange of a poll that begins with `s` and `net`: the states that it comes to, what is
  -- around it then, and the requests that it has sent. Every answer is that of the future which the
  -- state before holds, at that moment.
  pub data Reaches (s : SideToMainSignatures w j) (net : Net World)
      : State w j → Net World → List (Chain × Request) → Type 0 where
    begun : Reaches s net s.state net []
    -- the side contract has answered with the bytes of the message
    then_ask :
        {l : List (Chain × Request)} (f : AsyncCall w Bytes) (around : Net World) (bytes : Bytes)
        (message : MessageToMain)
        → Reaches s net (await_message f) around l
        → (poll_call w f around).0 ≡ ready bytes
        → Message.from_bytes be {X = Fault} bytes ≡ ok message
        → Reaches s net
            (await_is_relayed (asked s message (poll_call w f around).2).0 message)
            (asked s message (poll_call w f around).2).1
            (l ++ (relayed_request s message) ∷ [])
    -- the main contract has answered that the withdrawal has not been made
    then_collect :
        {l : List (Chain × Request)} (f : AsyncCall w Bool) (around : Net World)
        (message : MessageToMain)
        → Reaches s net (await_is_relayed f message) around l
        → (poll_call w f around).0 ≡ ready false
        → Reaches s net
            (await_signatures (join_all (collecting s message (poll_call w f around).2).0) message)
            (collecting s message (poll_call w f around).2).1
            (l ++ collect_requests s message)
    -- the joined calls have answered with the bytes of signatures
    then_withdraw :
        {l : List (Chain × Request)} (f : Joined) (around : Net World) (message : MessageToMain)
        (raw : List Bytes) (signatures : List Signature)
        → Reaches s net (await_signatures f message) around l
        → (poll_joined f around).0 ≡ ready raw
        → read_signatures {X = Fault} raw ≡ ok signatures
        → Reaches s net
            (await_tx_sent
              (relay_side_to_main w be abi s.main message signatures (poll_joined f around).2).0)
            (relay_side_to_main w be abi s.main message signatures (poll_joined f around).2).1
            (l ++ (withdraw_request s message signatures) ∷ [])

  -- The state that the exchange has come to and the requests sent till then; where the poll ends
  -- with a hash or without one, which answer that state has got.
  pub record Outcome (s : SideToMainSignatures w j) (net : Net World) (p : Answer w be abi j hash)
      (m : Machine w be abi j hash) : Type 0 where
    pub state : State w j
    pub around : Net World
    pub requests : List (Chain × Request)
    pub reached : Reaches s net state around requests
    pub sent : m.1.sent ≡ net.sent ++ requests
    pub kept : m.0 ≡ record s { state = m.0.state }
    pub stays : stage m.0.state ≡ stage state
    pub already :
        p ≡ ready none
        → (f : AsyncCall w Bool) × (message : MessageToMain) × (state ≡ await_is_relayed f message)
          × ((poll_call w f around).0 ≡ ready true)
    pub withdrawn :
        (h : Bytes)
        → p ≡ ready (some h)
        → (t : AsyncTransaction w) × (state ≡ await_tx_sent t)
          × ((poll_transaction w t around).0 ≡ ready h)

  -- The calls for signatures send these questions.
  pub signature_calls-sent :
      (c : SideContract) (h : Bytes) (index n : ℕ) (net : Net World)
      → (signature_calls w be abi c h index n net).1.sent
        ≡ net.sent ++ signature_requests c h index n
  unfolding signature_calls call_side new_call request
  signature_calls-sent c h index zero net = sym (append-nil net.sent)
  signature_calls-sent c h index (suc n) net =
      let (_, net') = call_side w be abi c (abi.signature h index) abi.decode_bytes net in
      signature_calls-sent c h (suc index) n net' ∙ append_assoc net.sent _ _
