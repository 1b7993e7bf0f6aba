-- ===== src/SideToMainSign/Trace.antt =====
-- The requests that `SideToMainSign` sends (bridge/src/side_to_main_sign.rs).
use mathlib.Core.List.{append_assoc, append-nil}
use parity_bridge.Base.{
  ℕ, ◌≡◌, ◌≢◌, refl, ap, sym, ◌∙◌, Option, none, some, Bool, true, false, List, [], ◌∷◌, ◌++◌,
}
use parity_bridge.Base.Bytes.{Bytes}
use parity_bridge.Async.{ready, failed, out_of_rounds, Flow, done, again}
use parity_bridge.Async.Round.{Round, try_ready-Round, loop-Returns}
use parity_bridge.Error.{Error, Result, ok, err}
use parity_bridge.Web3.{Web3, Chain, Request, Net, request, await}
use parity_bridge.Contracts.{Contracts}
use parity_bridge.Helpers.{
  AsyncCall, AsyncTransaction, poll_call, poll_transaction, new_transaction,
}
use parity_bridge.Message.{BigEndian}
use parity_bridge.Signature as Signature
use parity_bridge.Signature.{Signature}
use parity_bridge.SideContract.{submit_side_to_main_signature}
use parity_bridge.SideToMainSign.{
  State, await_check_already_signed, await_signature, await_transaction, SideToMainSign, Machine,
  Answer, got_check, on_check, got_signature, on_signature, got_transaction, on_transaction,
  dispatch, step, poll, poll_lem,
}
use parity_bridge.SideToMainSign.Requests.{
  stage, sign_request, submit_request, Reaches, begun, then_sign, then_submit,
}

module _ (w : Web3) (be : BigEndian) (abi : Contracts w.Fault) where
  open w use {World, Fault, Waiting, poll_bytes}

  -- Before a round.
  abbrev Keeps : SideToMainSign w → Net World → Machine w be abi → Type 0
  Keeps s net m =
      (st : State w) × (around : Net World) × (l : List (Chain × Request)) × (m
        ≡ (record s { state = st }, around))
      × Reaches w be abi s net st around l
      × (around.sent ≡ net.sent ++ l)

  -- The state that the exchange has come to and the requests sent till then; where the poll ends
  -- with a hash or without one, which answer that state has got.
  pub record Outcome (s : SideToMainSign w) (net : Net World) (p : Answer w be abi)
      (m : Machine w be abi) : Type 0 where
    pub state : State w
    pub around : Net World
    pub requests : List (Chain × Request)
    pub reached : Reaches w be abi s net state around requests
    pub sent : m.1.sent ≡ net.sent ++ requests
    pub kept : m.0 ≡ record s { state = m.0.state }
    pub stays : stage m.0.state ≡ stage state
    pub already :
        p ≡ ready none
        → (f : AsyncCall w Bool) × (state ≡ await_check_already_signed f)
          × ((poll_call w f around).0 ≡ ready true)
    pub submitted :
        (h : Bytes)
        → p ≡ ready (some h)
        → (t : AsyncTransaction w) × (state ≡ await_transaction t)
          × ((poll_transaction w t around).0 ≡ ready h)

  module _ (s : SideToMainSign w) (net : Net World) where
    abbrev RoundOutcome : Flow (Answer w be abi) × Machine w be abi → Type 0
    RoundOutcome = Round (Keeps s net) (Outcome s net)

    -- The poll ends without a hash or the lack of one.
    stop-Outcome :
        (st st' : State w) (around net' : Net World) (l : List (Chain × Request))
        (p : Answer w be abi)
        → Reaches w be abi s net st around l
        → net'.sent ≡ net.sent ++ l
        → stage st' ≡ stage st
        → ((x : Option Bytes) → p ≢ ready x)
        → Outcome s net p (record s { state = st' }, net')
    stop-Outcome st st' around net' l p r sent e n = record {
      state = st;
      around = around;
      requests = l;
      reached = r;
      sent = sent;
      kept = refl;
      stays = e;
      already = λ x. absurd (n none x);
      submitted = λ h x. absurd (n (some h) x);
    }

    longer :
        (sent l : List (Chain × Request)) (r : Chain × Request)
        → sent ≡ net.sent ++ l
        → sent ++ r ∷ [] ≡ net.sent ++ (l ++ r ∷ [])
    longer sent l r e = ap (λ x. x ++ r ∷ []) e ∙ append_assoc net.sent l (r ∷ [])

    module _ (around : Net World) (l : List (Chain × Request))
        (before : around.sent ≡ net.sent ++ l) where
      check-Outcome :
          (f : AsyncCall w Bool)
          → Reaches w be abi s net (await_check_already_signed f) around l
          → RoundOutcome
              (on_check w be abi f (record s { state = await_check_already_signed f }, around))
      unfolding on_check got_check poll_call await request sign_request
      check-Outcome f r =
          try_ready-Round (Keeps s net) (Outcome s net) _ (poll_call w f around).0 _ _
            (elim [
              | true ↦ λ told. record {
                state = await_check_already_signed f;
                around = around;
                requests = l;
                reached = r;
                sent = before;
                kept = refl;
                stays = refl;
                already = λ x. (f, refl, told);
                submitted = λ h x. cc;
              }
              | false ↦
                  λ told. (_, _, _, refl, then_sign f around r told, longer around.sent l _ before)
            ])
            (λ q n. stop-Outcome (await_check_already_signed f) _ around _ l q r before refl n)

      read-Outcome :
          (f f' : Waiting) (bytes : Bytes) (x : Result (Error Fault) Signature)
          → (await w poll_bytes f around).0 ≡ ready bytes
          → Signature.from_bytes bytes ≡ x
          → Reaches w be abi s net (await_signature f) around l
          → let m : Machine w be abi =
              (record s { state = await_signature f' }, (await w poll_bytes f around).2) in
            RoundOutcome (elim x [
              | err e ↦ (done (failed e), m)
              | ok signature ↦
                  let (future, net') =
                    submit_side_to_main_signature w be abi m.0.side m.0.message signature m.1 in
                  (again, (record m.0 { state = await_transaction future }, net'))
            ])
      unfolding submit_side_to_main_signature new_transaction request submit_request await
      read-Outcome f f' bytes (err e) told read r =
          stop-Outcome _ _ around _ l _ r before refl (λ x e. cc)
      read-Outcome f f' bytes (ok signature) told read r = (
        _,
        _,
        _,
        refl,
        then_submit f around bytes signature r told read,
        longer around.sent l _ before,
      )

      signature-Outcome :
          (f : Waiting)
          → Reaches w be abi s net (await_signature f) around l
          → RoundOutcome (on_signature w be abi f (record s { state = await_signature f }, around))
      unfolding on_signature got_signature await
      signature-Outcome f r =
          try_ready-Round (Keeps s net) (Outcome s net) _ (await w poll_bytes f around).0 _ _
            (λ b told. read-Outcome f _ b (Signature.from_bytes b) told refl r)
            (λ q n. stop-Outcome (await_signature f) _ around _ l q r before refl n)

      transaction-Outcome :
          (t : AsyncTransaction w)
          → Reaches w be abi s net (await_transaction t) around l
          → RoundOutcome
              (on_transaction w be abi t (record s { state = await_transaction t }, around))
      unfolding on_transaction got_transaction poll_transaction await
      transaction-Outcome t r =
          try_ready-Round (Keeps s net) (Outcome s net) _ (poll_transaction w t around).0 _ _
            (λ h told. record {
              state = await_transaction t;
              around = around;
              requests = l;
              reached = r;
              sent = before;
              kept = refl;
              stays = refl;
              already = λ x. cc;
              submitted = λ h' x. let same : h ≡ h' = cc in (t, refl, told ∙ ap ready same);
            })
            (λ q n. stop-Outcome (await_transaction t) _ around _ l q r before refl n)

      dispatch-Outcome :
          (st : State w)
          → Reaches w be abi s net st around l
          → RoundOutcome (dispatch w be abi st (record s { state = st }, around))
      unfolding dispatch
      dispatch-Outcome (await_check_already_signed f) r = check-Outcome f r
      dispatch-Outcome (await_signature f) r = signature-Outcome f r
      dispatch-Outcome (await_transaction t) r = transaction-Outcome t r

    step-Outcome : (m : Machine w be abi) → Keeps s net m → RoundOutcome (step w be abi m)
    unfolding step
    step-Outcome m (st, around, l, e, r, sent) = rw e (dispatch-Outcome around l sent st r)

    spent-Outcome : (m : Machine w be abi) → Keeps s net m → Outcome s net out_of_rounds m
    spent-Outcome m (st, around, l, e, r, sent) =
        rw e (stop-Outcome st st around around l out_of_rounds r sent refl (λ x e. cc))

  -- The requests that a poll adds are those of the exchange that begins with its state and ends
  -- with the state that it has come to, each sent once: the message is given to the node to sign
  -- only after the call that the state held has answered that the authority has not signed, and a
  -- signature is submitted only if the future that the state held has answered with its bytes. The
  -- poll yields no hash only where that call has answered that the authority has signed, and a hash
  -- only where the transaction has answered with it.
  pub withdraw_poll-Outcome :
      (rounds : ℕ) (s : SideToMainSign w) (net : Net World)
      → let (p, m) = poll w be abi rounds (s, net) in Outcome s net p m
  withdraw_poll-Outcome rounds s net = rw (poll_lem w be abi rounds (s, net)) (
      loop-Returns (Keeps s net) (Outcome s net) (step w be abi) (step-Outcome s net)
        (spent-Outcome s net) rounds (s, net)
        (s.state, net, [], refl, begun, sym (append-nil net.sent)))
