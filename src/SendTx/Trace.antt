-- ===== src/SendTx/Trace.antt =====
-- The transactions that `SendTransactionWithReceipt` sends (bridge/src/send_tx_with_receipt.rs).
use parity_bridge.Base.{
  ℕ, ◌^◌, ◌≡◌, ◌≢◌, ◌∙◌, refl, Option, none, some, Bool, true, false, List, [], ◌∷◌, ◌++◌, ltb,
  if◌then◌else◌,
}
use parity_bridge.Async.{Poll, ready, panicked, Flow, done, again}
use parity_bridge.Async.Round.{Round, loop-Returns}
use parity_bridge.Error.{Error}
use parity_bridge.Web3.{
  Web3, Chain, Net, TransactionRequest, TransactionReceipt, block_number, send_transaction, await,
}
use parity_bridge.Web3.Sent.{transactions, request-quiet, request-transactions}
use parity_bridge.SendTx.Inner as Inner
use parity_bridge.SendTx.Inner.Quiet.{receipt_poll-IsQuiet}
use parity_bridge.SendTx.{
  State, await_block_number, await_receipt, SendTransactionWithReceipt,
  SendTransactionWithReceiptOptions, Machine, Answer, new, on_number, got_number, on_block_number,
  on_receipt, dispatch, step, poll, poll_lem,
}

module _ (w : Web3) (chain : Chain) (tx : TransactionRequest)
    (before : List (Chain × TransactionRequest)) where
  open w use {World, Fault, Waiting}

  abbrev pub now : List (Chain × TransactionRequest)
  now = before ++ (chain, tx) ∷ []

  -- The transaction is still to be sent, or has been sent once.
  abbrev pub Stage : State w → List (Chain × TransactionRequest) → Type 0
  Stage (await_block_number f (some t)) sent = (t ≡ tx) × (sent ≡ before)
  Stage (await_block_number f none) sent = sent ≡ before
  Stage (await_receipt inner) sent = sent ≡ now

  abbrev pub Holds : Machine w → Type 0
  Holds m = (m.0.transport ≡ chain) × Stage m.0.state (transactions m.1.sent)

  -- Where the poll yields a receipt, the transaction has been sent.
  pub record Outcome (p : Answer w) (m : Machine w) : Type 0 where
    pub holds : Holds m
    pub answers : (r : TransactionReceipt) → p ≡ ready r → transactions m.1.sent ≡ now

  abbrev RoundOutcome : Flow (Answer w) × Machine w → Type 0
  RoundOutcome = Round Holds Outcome

  stop-Outcome :
      (m : Machine w) (p : Answer w)
      → Holds m
      → ((r : TransactionReceipt) → p ≢ ready r)
      → Outcome p m
  stop-Outcome m p v n = record { holds = v; answers = λ r e. absurd (n r e) }

  inner_new-transactions :
      (options : Inner.SendTransactionWithReceiptOptions) (net : Net World)
      → options.transport ≡ chain
      → options.transaction ≡ tx
      → transactions net.sent ≡ before
      → transactions (Inner.new w options net).1.sent ≡ now
  unfolding Inner.new
  inner_new-transactions options net e f h =
      request-transactions w options.transport (send_transaction options.transaction)
        options.request_timeout net
      ∙ rw (e, f, h)

  tested-Outcome :
      (fits : Bool) (f : Waiting) (inner : Inner.SendTransactionWithReceipt w) (m : Machine w)
      (net' : Net World)
      → m.0.transport ≡ chain
      → transactions m.1.sent ≡ before
      → transactions net'.sent ≡ now
      → RoundOutcome (
          if fits
          then (again, (record m.0 { state = await_receipt inner }, net'))
          else (done panicked, (record m.0 { state = await_block_number f none }, m.1)))
  tested-Outcome true f inner m net' e h k = (e, k)
  tested-Outcome false f inner m net' e h k = stop-Outcome _ _ (e, h) (λ r x. cc)

  on_number-Outcome :
      (f : Waiting) (t : Option TransactionRequest) (n : ℕ) (m : Machine w)
      → m.0.state ≡ await_block_number f t
      → m.0.transport ≡ chain
      → Stage (await_block_number f t) (transactions m.1.sent)
      → RoundOutcome (on_number w f t n m)
  unfolding on_number
  on_number-Outcome f none n m at e h = stop-Outcome m _ (e, rw at h) (λ r x. cc)
  on_number-Outcome f (some t) n m at e (same, h) =
      tested-Outcome (ltb n (2 ^ 64)) f _ m _ e h (inner_new-transactions _ m.1 e same h)

  number-Outcome :
      (f : Waiting) (t : Option TransactionRequest) (p : Poll (Error Fault) ℕ) (m : Machine w)
      → m.0.state ≡ await_block_number f t
      → Holds m
      → RoundOutcome (got_number w f t p m)
  unfolding got_number
  number-Outcome f t (ready n) m at (e, h) = on_number-Outcome f t n m at e (rw at at h)
  number-Outcome f t _ m at h = stop-Outcome m _ h (λ r x. cc)

  dispatch-Outcome :
      (rounds : ℕ) (st : State w) (m : Machine w)
      → m.0.state ≡ st
      → Holds m
      → RoundOutcome (dispatch w rounds st m)
  unfolding dispatch on_block_number on_receipt await
  dispatch-Outcome rounds (await_block_number f t) m at (e, h) =
      number-Outcome _ t _ _ refl (e, moved t (rw at at h))
    where
      moved :
          (t : Option TransactionRequest)
          → Stage (await_block_number f t) (transactions m.1.sent)
          → Stage (await_block_number (w.poll_number f m.1.world).1 t) (transactions m.1.sent)
      moved none h = h
      moved (some t) h = h
  dispatch-Outcome rounds (await_receipt inner) m at (e, h) =
      let sent = receipt_poll-IsQuiet w now rounds inner m.1 (rw at at h) in
      record { holds = (e, sent); answers = λ r e. sent }

  step-Outcome : (rounds : ℕ) (m : Machine w) → Holds m → RoundOutcome (step w rounds m)
  unfolding step
  step-Outcome rounds m h = dispatch-Outcome rounds m.0.state m refl h

  -- However a poll ends, the transaction has been sent at most once, and where a receipt is
  -- yielded it has been sent.
  pub sent_poll-Outcome :
      (rounds : ℕ) (s : SendTransactionWithReceipt w) (net : Net World)
      → Holds (s, net)
      → let (p, m) = poll w rounds (s, net) in Outcome p m
  sent_poll-Outcome rounds s net h = rw (poll_lem w rounds (s, net)) (
      loop-Returns Holds Outcome (step w rounds) (step-Outcome rounds)
        (λ m h. stop-Outcome _ _ h (λ r x. cc)) rounds (s, net) h)

  pub new-Holds :
      (options : SendTransactionWithReceiptOptions) (net : Net World)
      → options.transport ≡ chain
      → options.transaction ≡ tx
      → transactions net.sent ≡ before
      → Holds (new w options net)
  unfolding new
  new-Holds options net e f h =
      (e, (f, request-quiet w options.transport block_number options.request_timeout net refl ∙ h))
