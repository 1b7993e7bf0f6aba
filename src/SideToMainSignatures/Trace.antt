-- ===== src/SideToMainSignatures/Trace.antt =====
-- The requests that `SideToMainSignatures` sends (bridge/src/side_to_main_signatures.rs).
use mathlib.Core.List.{append_assoc, append-nil}
use parity_bridge.Base.{
  ℕ, ◌≡◌, ◌≢◌, refl, ap, sym, ◌∙◌, Option, none, some, Bool, true, false, List, [], ◌++◌,
}
use parity_bridge.Base.Bytes.{Bytes}
use parity_bridge.Async.{ready, failed, out_of_rounds, Flow, done, again}
use parity_bridge.Async.Round.{Round, try_ready-Round, loop-Returns}
use parity_bridge.Error.{Error, Result, ok, err}
use parity_bridge.Web3.{Web3, Chain, Request, Net, request, await}
use parity_bridge.Contracts.{Contracts}
use parity_bridge.Helpers.{
  AsyncCall, AsyncTransaction, poll_call, poll_transaction, new_call, new_transaction,
}
use parity_bridge.MainContract.{call_main, relay_side_to_main}
use parity_bridge.Message as Message
use parity_bridge.Message.{BigEndian, MessageToMain}
use parity_bridge.Signature.{Signature}
use parity_bridge.SideContract.{get_signatures}
use parity_bridge.SideToMainSignatures.{
  JoinAll, State, await_message, await_is_relayed, await_signatures, await_tx_sent,
  SideToMainSignatures, Machine, Answer, read_signatures, got_message, on_message, got_is_relayed,
  on_is_relayed, got_signatures, on_signatures, got_sent, on_tx_sent, dispatch, step, poll,
  poll_lem,
}
use parity_bridge.SideToMainSignatures.Requests.{
  QuietJoin, stage, relayed_request, collect_requests, withdraw_request, Reaches, begun, then_ask,
  then_collect, then_withdraw, Outcome, signature_calls-sent,
}

module _ (w : Web3) (be : BigEndian) (abi : Contracts w.Fault) (j : JoinAll w)
    (hash : Bytes → Bytes) where
  open w use {World, Fault}
  open j use {Joined, poll_joined}

  abbrev M : Type 0
  M = Machine w be abi j hash

  abbrev P : Type 0
  P = Answer w be abi j hash

  -- Before a round.
  abbrev Keeps : SideToMainSignatures w j → Net World → M → Type 0
  Keeps s net m =
      (st : State w j) × (around : Net World) × (l : List (Chain × Request)) × (m
        ≡ (record s { state = st }, around))
      × Reaches w be abi j hash s net st around l
      × (around.sent ≡ net.sent ++ l)

  module _ (s : SideToMainSignatures w j) (net : Net World) where
    abbrev RoundOutcome : Flow P × M → Type 0
    RoundOutcome = Round (Keeps s net) (Outcome w be abi j hash s net)

    -- The poll ends without a hash or the lack of one.
    stop-Outcome :
        (st st' : State w j) (around net' : Net World) (l : List (Chain × Request)) (p : P)
        → Reaches w be abi j hash s net st around l
        → net'.sent ≡ net.sent ++ l
        → stage st' ≡ stage st
        → ((x : Option Bytes) → p ≢ ready x)
        → Outcome w be abi j hash s net p (record s { state = st' }, net')
    stop-Outcome st st' around net' l p r sent e n = record {
      state = st;
      around = around;
      requests = l;
      reached = r;
      sent = sent;
      kept = refl;
      stays = e;
      already = λ x. absurd (n none x);
      withdrawn = λ h x. absurd (n (some h) x);
    }

    longer :
        (sent l k : List (Chain × Request))
        → sent ≡ net.sent ++ l
        → sent ++ k ≡ net.sent ++ (l ++ k)
    longer sent l k e = ap (λ x. x ++ k) e ∙ append_assoc net.sent l k

    module _ (around : Net World) (l : List (Chain × Request))
        (before : around.sent ≡ net.sent ++ l) where
      ask-Outcome :
          (f f' : AsyncCall w Bytes) (bytes : Bytes) (x : Result (Error Fault) MessageToMain)
          → (poll_call w f around).0 ≡ ready bytes
          → Message.from_bytes be bytes ≡ x
          → Reaches w be abi j hash s net (await_message f) around l
          → let m : M = (record s { state = await_message f' }, (poll_call w f around).2) in
            RoundOutcome (elim x [
              | err e ↦ (done (failed e), m)
              | ok message ↦
                  let (future, net') =
                    call_main w be abi m.0.main
                      (abi.withdraws message.side_tx_hash)
                      abi.decode_bool
                      m.1 in
                  (again, (record m.0 { state = await_is_relayed future message }, net'))
            ])
      unfolding call_main new_call request relayed_request poll_call await
      ask-Outcome f f' bytes (err e) told read r =
          stop-Outcome _ _ around _ l _ r before refl (λ x e. cc)
      ask-Outcome f f' bytes (ok message) told read r = (
        _,
        _,
        _,
        refl,
        then_ask f around bytes message r told read,
        longer around.sent l _ before,
      )

      message-Outcome :
          (f : AsyncCall w Bytes)
          → Reaches w be abi j hash s net (await_message f) around l
          → RoundOutcome
              (on_message w be abi j hash f (record s { state = await_message f }, around))
      unfolding on_message got_message poll_call await
      message-Outcome f r =
          try_ready-Round (Keeps s net) (Outcome w be abi j hash s net) _ (poll_call w f around).0 _
            _ (λ bytes told. ask-Outcome f _ bytes (Message.from_bytes be bytes) told refl r)
            (λ q n. stop-Outcome (await_message f) _ around _ l q r before refl n)

      relayed-Outcome :
          (message : MessageToMain) (f : AsyncCall w Bool)
          → Reaches w be abi j hash s net (await_is_relayed f message) around l
          → RoundOutcome (
              on_is_relayed w be abi j hash f message
                (record s { state = await_is_relayed f message }, around))
      unfolding on_is_relayed got_is_relayed get_signatures Message.keccak256 collect_requests
          poll_call await
      relayed-Outcome message f r =
          try_ready-Round (Keeps s net) (Outcome w be abi j hash s net) _ (poll_call w f around).0 _
            _
            (elim [
              | true ↦ λ told. record {
                state = await_is_relayed f message;
                around = around;
                requests = l;
                reached = r;
                sent = before;
                kept = refl;
                stays = refl;
                already = λ x. (f, message, refl, told);
                withdrawn = λ h x. cc;
              }
              | false ↦ λ told. (
                _,
                _,
                _,
                refl,
                then_collect f around message r told,
                signature_calls-sent w be abi j hash s.side (hash (Message.to_bytes be message)) 0
                      s.side.required_signatures (poll_call w f around).2
                    ∙ longer around.sent l _ before,
              )
            ])
            (λ q n. stop-Outcome (await_is_relayed f message) _ around _ l q r before refl n)

      withdraw-Outcome :
          (message : MessageToMain) (f f' : Joined) (raw : List Bytes)
          (x : Result (Error Fault) (List Signature))
          → (poll_joined f around).0 ≡ ready raw
          → read_signatures raw ≡ x
          → (poll_joined f around).2.sent ≡ around.sent
          → Reaches w be abi j hash s net (await_signatures f message) around l
          → let m : M =
              (record s { state = await_signatures f' message }, (poll_joined f around).2) in
            RoundOutcome (elim x [
              | err e ↦ (done (failed e), m)
              | ok signatures ↦
                  let (future, net') =
                    relay_side_to_main w be abi m.0.main message signatures m.1 in
                  (again, (record m.0 { state = await_tx_sent future }, net'))
            ])
      unfolding relay_side_to_main new_transaction request withdraw_request
      withdraw-Outcome message f f' raw (err e) told read quiet r =
          stop-Outcome _ _ around _ l _ r (quiet ∙ before) refl (λ x e. cc)
      withdraw-Outcome message f f' raw (ok signatures) told read quiet r = (
        _,
        _,
        _,
        refl,
        then_withdraw f around message raw signatures r told read,
        longer (poll_joined f around).2.sent l _ (quiet ∙ before),
      )

      signatures-Outcome :
          (message : MessageToMain) (f : Joined)
          → (poll_joined f around).2.sent ≡ around.sent
          → Reaches w be abi j hash s net (await_signatures f message) around l
          → RoundOutcome (
              on_signatures w be abi j hash f message
                (record s { state = await_signatures f message }, around))
      unfolding on_signatures got_signatures
      signatures-Outcome message f quiet r =
          try_ready-Round (Keeps s net) (Outcome w be abi j hash s net) _ (poll_joined f around).0 _
            _ (λ raw told. withdraw-Outcome message f _ raw (read_signatures raw) told refl quiet r)
            (λ q n.
              stop-Outcome (await_signatures f message) _ around _ l q r (quiet ∙ before) refl n)

      sent-Outcome :
          (t : AsyncTransaction w)
          → Reaches w be abi j hash s net (await_tx_sent t) around l
          → RoundOutcome
              (on_tx_sent w be abi j hash t (record s { state = await_tx_sent t }, around))
      unfolding on_tx_sent got_sent poll_transaction await
      sent-Outcome t r =
          try_ready-Round (Keeps s net) (Outcome w be abi j hash s net) _
            (poll_transaction w t around).0 _ _
            (λ h told. record {
              state = await_tx_sent t;
              around = around;
              requests = l;
              reached = r;
              sent = before;
              kept = refl;
              stays = refl;
              already = λ x. cc;
              withdrawn = λ h' x. let same : h ≡ h' = cc in (t, refl, told ∙ ap ready same);
            })
            (λ q n. stop-Outcome (await_tx_sent t) _ around _ l q r before refl n)

      dispatch-Outcome :
          QuietJoin w j
          → (st : State w j) → Reaches w be abi j hash s net st around l
          → RoundOutcome (dispatch w be abi j hash st (record s { state = st }, around))
      unfolding dispatch
      dispatch-Outcome quiet (await_message f) r = message-Outcome f r
      dispatch-Outcome quiet (await_is_relayed f message) r = relayed-Outcome message f r
      dispatch-Outcome quiet (await_signatures f message) r =
          signatures-Outcome message f (quiet.joined_quiet f around) r
      dispatch-Outcome quiet (await_tx_sent t) r = sent-Outcome t r

    step-Outcome : QuietJoin w j → (m : M) → Keeps s net m → RoundOutcome (step w be abi j hash m)
    unfolding step
    step-Outcome quiet m (st, around, l, e, r, sent) =
        rw e (dispatch-Outcome around l sent quiet st r)

    spent-Outcome : (m : M) → Keeps s net m → Outcome w be abi j hash s net out_of_rounds m
    spent-Outcome m (st, around, l, e, r, sent) =
        rw e (stop-Outcome st st around around l out_of_rounds r sent refl (λ x e. cc))

  -- Where the polls of joined calls send nothing, the requests that a poll adds are those of the
  -- exchange that begins with its state and ends with the state that it has come to, each sent
  -- once: the main contract is asked about the message that the call which the state held has
  -- answered with, the signatures of that message are asked for only after the call about it has
  -- denied the withdrawal, and the withdrawal is sent only if the joined calls have answered with
  -- bytes that were read, with the message and these signatures. The poll yields no hash only where
  -- the call has answered that the withdrawal has been made, and a hash only where the transaction
  -- has answered with it.
  pub collected_poll-Outcome :
      QuietJoin w j
      → (rounds : ℕ) (s : SideToMainSignatures w j) (net : Net World)
      → let (p, m) = poll w be abi j hash rounds (s, net) in Outcome w be abi j hash s net p m
  collected_poll-Outcome quiet rounds s net = rw (poll_lem w be abi j hash rounds (s, net)) (
      loop-Returns (Keeps s net) (Outcome w be abi j hash s net) (step w be abi j hash)
        (step-Outcome s net quiet) (spent-Outcome s net) rounds (s, net)
        (s.state, net, [], refl, begun, sym (append-nil net.sent)))
