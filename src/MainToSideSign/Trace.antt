-- ===== src/MainToSideSign/Trace.antt =====
-- The transactions that `MainToSideSign` sends (bridge/src/main_to_side_sign.rs).
use parity_bridge.Base.{
  ℕ, ◌≡◌, ◌≢◌, refl, ap, sym, ◌⊎◌, inl, inr, Option, none, some, Bool, true, false, [], ◌∷◌, ◌++◌,
}
use parity_bridge.Base.Bytes.{Bytes}
use parity_bridge.Async.{Poll, ready, not_ready, failed, panicked, out_of_rounds, Flow}
use parity_bridge.Async.Round.{Round, loop-Returns}
use parity_bridge.Error.{Error}
use parity_bridge.Web3.{Web3, Chain, Request, Net, send_transaction, request, await}
use parity_bridge.Contracts.{Contracts}
use parity_bridge.Helpers.{
  AsyncCall, transaction_request, poll_call, poll_transaction, new_transaction,
}
use parity_bridge.Message.{BigEndian}
use parity_bridge.SideContract.{sign_main_to_side}
use parity_bridge.MainToSideSign.{
  State, await_already_signed, await_tx_sent, MainToSideSign, Machine, Answer, got_signed,
  on_already_signed, got_sent, on_tx_sent, dispatch, step, poll, poll_lem,
}

abbrev pub has_sent : {w : Web3} → State w → Bool
has_sent (await_already_signed _) = false
has_sent (await_tx_sent _) = true

module _ (w : Web3) (be : BigEndian) (abi : Contracts w.Fault) where
  open w use {World, Fault}

  -- The call of `deposit` on the side contract for this deposit on main.
  abbrev pub deposit_request : MainToSideSign w → Chain × Request
  deposit_request s = (
    s.side.transport,
    send_transaction (
        transaction_request w s.side.contract_address s.side.authority_address
          s.side.sign_main_to_side_gas s.side.sign_main_to_side_gas_price
          (abi.deposit_input s.recipient s.value s.main_tx_hash)),
  )

  -- The call that the poll of `s` began with has been answered, in that poll, with this boolean.
  abbrev pub Told : MainToSideSign w → Net World → Bool → Type 0
  Told s net b =
      (f : AsyncCall w Bool) × (s.state ≡ await_already_signed f)
      × ((poll_call w f net).0 ≡ ready b)

  abbrev pub Same : MainToSideSign w → MainToSideSign w → Type 0
  Same s s' =
      (s'.main_tx_hash ≡ s.main_tx_hash)
      × (s'.recipient ≡ s.recipient)
      × (s'.value ≡ s.value)
      × (s'.side ≡ s.side)

  -- Nothing was sent, or, after the contract had denied a signature, the one transaction.
  abbrev pub Trace : MainToSideSign w → Net World → Machine w be abi → Type 0
  Trace s net (s', net') =
      Same s s'
      × (((has_sent s'.state ≡ has_sent s.state) × (net'.sent ≡ net.sent))
          ⊎ ((has_sent s.state ≡ false)
              × (has_sent s'.state ≡ true)
              × (net'.sent ≡ net.sent ++ (deposit_request s) ∷ [])
              × Told s net false))

  abbrev pub Outcome : MainToSideSign w → Net World → Answer w be abi → Machine w be abi → Type 0
  Outcome s net p (s', net') =
      Trace s net (s', net')
      × (p ≡ ready none → (has_sent s'.state ≡ false) × Told s net true)
      × ((h : Bytes) → p ≡ ready (some h) → has_sent s'.state ≡ true)

  -- Before a round: the poll has just begun, or the transaction has been sent.
  abbrev Keeps : MainToSideSign w → Net World → Machine w be abi → Type 0
  Keeps s net m = (m ≡ (s, net)) ⊎ ((has_sent m.0.state ≡ true) × Trace s net m)

  abbrev RoundOutcome :
      MainToSideSign w → Net World → Flow (Answer w be abi) × Machine w be abi → Type 0
  RoundOutcome s net = Round (Keeps s net) (Outcome s net)

  stop-Outcome :
      (s : MainToSideSign w) (net : Net World) (p : Answer w be abi) (m : Machine w be abi)
      → Trace s net m
      → ((x : Option Bytes) → p ≢ ready x)
      → Outcome s net p m
  stop-Outcome s net p m t n = (t, λ e. absurd (n none e), λ h e. absurd (n (some h) e))

  waits-Trace :
      (s : MainToSideSign w) (net : Net World) (future future' : AsyncCall w Bool)
      (net' : Net World)
      → s.state ≡ await_already_signed future
      → net'.sent ≡ net.sent
      → Trace s net (record s { state = await_already_signed future' }, net')
  waits-Trace s net f f' net' at quiet =
      ((refl, refl, refl, refl), inl (ap has_sent (sym at), quiet))

  -- The answer of the call, in the poll that began with it.
  signed-Outcome :
      (s : MainToSideSign w) (net : Net World) (p : Poll (Error Fault) Bool)
      (future future' : AsyncCall w Bool) (net' : Net World)
      → s.state ≡ await_already_signed future
      → (poll_call w future net).0 ≡ p
      → net'.sent ≡ net.sent
      → RoundOutcome s net
          (got_signed w be abi p (record s { state = await_already_signed future' }, net'))
  unfolding got_signed sign_main_to_side new_transaction request
  signed-Outcome s net (ready true) f f' net' at told quiet = (
    ((refl, refl, refl, refl), inl (ap has_sent (sym at), quiet)),
    λ _. (refl, (f, at, told)),
    λ h e. cc,
  )
  signed-Outcome s net (ready false) f f' net' at told quiet = inr (
    refl,
    (
      (refl, refl, refl, refl),
      inr (ap has_sent at, refl, ap (λ l. l ++ (deposit_request s) ∷ []) quiet, (f, at, told)),
    ),
  )
  signed-Outcome s net not_ready f f' net' at told quiet =
      stop-Outcome s net _ (record s { state = await_already_signed f' }, net')
        (waits-Trace s net f f' net' at quiet) (λ x e. cc)
  signed-Outcome s net (failed e) f f' net' at told quiet =
      stop-Outcome s net _ (record s { state = await_already_signed f' }, net')
        (waits-Trace s net f f' net' at quiet) (λ x e. cc)
  signed-Outcome s net panicked f f' net' at told quiet =
      stop-Outcome s net _ (record s { state = await_already_signed f' }, net')
        (waits-Trace s net f f' net' at quiet) (λ x e. cc)
  signed-Outcome s net out_of_rounds f f' net' at told quiet =
      stop-Outcome s net _ (record s { state = await_already_signed f' }, net')
        (waits-Trace s net f f' net' at quiet) (λ x e. cc)

  sent-Outcome :
      (s : MainToSideSign w) (net : Net World) (p : Poll (Error Fault) Bytes) (m : Machine w be abi)
      → has_sent m.0.state ≡ true
      → Trace s net m
      → RoundOutcome s net (got_sent w be abi p m)
  unfolding got_sent
  sent-Outcome s net (ready h) m has t = (t, λ e. cc, λ h e. has)
  sent-Outcome s net _ m has t = stop-Outcome s net _ m t (λ x e. cc)

  Keeps-Trace :
      (s : MainToSideSign w) (net : Net World) (m : Machine w be abi)
      → Keeps s net m
      → Trace s net m
  Keeps-Trace s net m (inl begun) = rw begun ((refl, refl, refl, refl), inl (refl, refl))
  Keeps-Trace s net m (inr (has, t)) = t

  begun-Outcome :
      (s : MainToSideSign w) (net : Net World) (st : State w)
      → s.state ≡ st
      → RoundOutcome s net (dispatch w be abi st (s, net))
  unfolding dispatch on_already_signed on_tx_sent poll_call poll_transaction await
  begun-Outcome s net (await_already_signed future) e =
      signed-Outcome s net _ future _ _ e refl refl
  begun-Outcome s net (await_tx_sent future) e =
      sent-Outcome s net _ _ refl ((refl, refl, refl, refl), inl (ap has_sent (sym e), refl))

  sent-round :
      (s : MainToSideSign w) (net : Net World) (st : State w) (m : Machine w be abi)
      → m.0.state ≡ st
      → has_sent m.0.state ≡ true
      → Trace s net m
      → RoundOutcome s net (dispatch w be abi st m)
  unfolding dispatch on_tx_sent poll_transaction await
  sent-round s net (await_already_signed future) m e has t = let bad = rw e at has in cc
  sent-round s net (await_tx_sent future) m e has t = sent-Outcome s net _ _ refl (rw e at t)

  step-Outcome :
      (s : MainToSideSign w) (net : Net World) (m : Machine w be abi)
      → Keeps s net m
      → RoundOutcome s net (step w be abi m)
  unfolding step
  step-Outcome s net m (inl begun) = rw begun (begun-Outcome s net s.state refl)
  step-Outcome s net m (inr (has, t)) = sent-round s net m.0.state m refl has t

  -- A poll sends nothing and stays where it was in the exchange, or it sends just the deposit's
  -- transaction, where in this poll the call that it waited for has answered that the authority has
  -- not signed, and goes on to wait for that transaction. It yields no hash only where that call has
  -- answered that the authority has signed and the transaction was not sent, and a hash only where
  -- it was sent.
  pub deposit_poll-Outcome :
      (rounds : ℕ) (s : MainToSideSign w) (net : Net World)
      → let (p, m) = poll w be abi rounds (s, net) in Outcome s net p m
  deposit_poll-Outcome rounds s net = rw (poll_lem w be abi rounds (s, net)) (
      loop-Returns (Keeps s net) (Outcome s net) (step w be abi) (step-Outcome s net)
        (λ m t. stop-Outcome s net out_of_rounds m (Keeps-Trace s net m t) (λ x e. cc)) rounds
        (s, net) (inl refl))
