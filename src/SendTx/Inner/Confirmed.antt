-- ===== src/SendTx/Inner/Confirmed.antt =====
-- What `SendTransactionWithReceipt` answers with (bridge/src/send_tx_with_receipt.rs).
use parity_bridge.Base.{
  ℕ, ◌≤◌, ◌^◌, ◌≡◌, ◌≢◌, refl, subst, Option, none, some, Bool, true, false, ltb, if◌then◌else◌,
  arith,
}
use parity_bridge.Base.Bytes.{Bytes}
use parity_bridge.Async.{Poll, ready, panicked, out_of_rounds, Flow, done, again}
use parity_bridge.Async.Round.{Round, loop-Returns}
use parity_bridge.Error.{Error}
use parity_bridge.Web3.{Web3, Net, TransactionReceipt}
use parity_bridge.BlockNumber.Progress.{number_poll-Outcome as blocks-Outcome}
use parity_bridge.SendTx.Inner.{
  State, await_send_transaction, await_block_number, await_transaction_receipt,
  SendTransactionWithReceipt, Machine, Answer, got_hash, on_send, got_block, on_block_number,
  on_mined, got_receipt, on_receipt, dispatch, step, poll, poll_lem,
}

module _ (w : Web3) where
  open w use {World, Fault, Waiting}

  -- The block that a receipt is measured by is one that the stream of confirmed blocks has
  -- yielded.
  abbrev ValidAt : State w → ℕ → Type 0
  ValidAt (await_send_transaction future) checked = Unit
  ValidAt (await_block_number hash) checked = Unit
  ValidAt (await_transaction_receipt future hash last_block) checked = last_block ≤ checked

  abbrev pub IsValid : SendTransactionWithReceipt w → Type 0
  IsValid s = ValidAt s.state s.block_number_stream.last_checked_block

  -- The receipt is of a block, and that block is confirmed.
  pub record Confirmed (s : SendTransactionWithReceipt w) (r : TransactionReceipt) : Type 0 where
    pub block : ℕ
    pub mined : r.block_number ≡ some block
    pub confirmed : block ≤ s.block_number_stream.last_checked_block

  pub record Outcome (p : Answer w) (s : SendTransactionWithReceipt w) : Type 0 where
    pub valid : IsValid s
    pub receipts : (r : TransactionReceipt) → p ≡ ready r → Confirmed s r

  abbrev RoundOutcome : Flow (Answer w) × Machine w → Type 0
  RoundOutcome = Round (λ m. IsValid m.0) (λ p m. Outcome p m.0)

  stop-Outcome :
      (m : Machine w) (p : Answer w)
      → IsValid m.0
      → ((r : TransactionReceipt) → p ≢ ready r)
      → Outcome p m.0
  stop-Outcome m p v n = record { valid = v; receipts = λ r e. absurd (n r e) }

  hash-Outcome :
      (p : Poll (Error Fault) Bytes) (m : Machine w) → IsValid m.0 → RoundOutcome (got_hash w p m)
  unfolding got_hash
  hash-Outcome (ready hash) m v = tt
  hash-Outcome _ m v = stop-Outcome m _ v (λ r x. cc)

  -- Beside a block that is awaited, a poll of the stream of blocks.
  block-Outcome :
      (hash : Bytes) (p : Poll (Error Fault) (Option ℕ)) (m : Machine w)
      → m.0.state ≡ await_block_number hash
      → ((n : ℕ) → p ≡ ready (some n) → n ≤ m.0.block_number_stream.last_checked_block)
      → RoundOutcome (got_block w hash p m)
  unfolding got_block
  block-Outcome hash (ready (some n)) m e h = h n refl
  block-Outcome hash (ready none) m e h = stop-Outcome m _ (rw e tt) (λ r x. cc)
  block-Outcome hash _ m e h = stop-Outcome m _ (rw e tt) (λ r x. cc)

  tested-Outcome :
      (hash : Bytes) (last n : ℕ) (r : TransactionReceipt) (m : Machine w) (fits below : Bool)
      → ltb last n ≡ below
      → r.block_number ≡ some n
      → IsValid m.0
      → last ≤ m.0.block_number_stream.last_checked_block
      → RoundOutcome (
          if fits
          then if below
            then (again, (record m.0 { state = await_block_number hash }, m.1))
            else (done (ready r), m)
          else (done panicked, m))
  tested-Outcome hash last n r m true true b e v h = tt
  tested-Outcome hash last n r m true false b e v h = record {
    valid = v;
    receipts = λ r' same.
        let same' : r ≡ r' = cc in
        subst (Confirmed m.0) same' (record { block = n; mined = e; confirmed = ground arith });
  }
  tested-Outcome hash last n r m false below b e v h = stop-Outcome m _ v (λ r x. cc)

  mined-Outcome :
      (hash : Bytes) (last n : ℕ) (r : TransactionReceipt) (m : Machine w)
      → r.block_number ≡ some n
      → IsValid m.0
      → last ≤ m.0.block_number_stream.last_checked_block
      → RoundOutcome (on_mined w hash last r n m)
  unfolding on_mined
  mined-Outcome hash last n r m e v h =
      tested-Outcome hash last n r m (ltb n (2 ^ 64)) (ltb last n) refl e v h

  found-Outcome :
      (hash : Bytes) (last : ℕ) (r : TransactionReceipt) (m : Machine w) (block : Option ℕ)
      → r.block_number ≡ block
      → IsValid m.0
      → last ≤ m.0.block_number_stream.last_checked_block
      → RoundOutcome (elim block [
        | none ↦ (again, (record m.0 { state = await_block_number hash }, m.1))
        | some n ↦ on_mined w hash last r n m
      ])
  found-Outcome hash last r m none e v h = tt
  found-Outcome hash last r m (some n) e v h = mined-Outcome hash last n r m e v h

  receipt-Outcome :
      (hash : Bytes) (last : ℕ) (p : Poll (Error Fault) (Option TransactionReceipt)) (m : Machine w)
      → IsValid m.0
      → last ≤ m.0.block_number_stream.last_checked_block
      → RoundOutcome (got_receipt w hash last p m)
  unfolding got_receipt
  receipt-Outcome hash last (ready none) m v h = tt
  receipt-Outcome hash last (ready (some r)) m v h =
      found-Outcome hash last r m r.block_number refl v h
  receipt-Outcome hash last _ m v h = stop-Outcome m _ v (λ r x. cc)

  dispatch-Outcome :
      (rounds : ℕ) (st : State w) (m : Machine w)
      → m.0.state ≡ st
      → IsValid m.0
      → RoundOutcome (dispatch w rounds st m)
  unfolding dispatch on_send on_block_number on_receipt
  dispatch-Outcome rounds (await_send_transaction future) m e v = hash-Outcome _ _ tt
  dispatch-Outcome rounds (await_block_number hash) m e v =
      let o = blocks-Outcome w rounds m.0.block_number_stream m.1 in
      block-Outcome hash _ _ e (λ n e. let a = o.advances n e in rw a.remembered (omega arith))
  dispatch-Outcome rounds (await_transaction_receipt future hash last) m e v =
      let at = rw e at v in receipt-Outcome hash last _ _ at at

  step-Outcome : (rounds : ℕ) (m : Machine w) → IsValid m.0 → RoundOutcome (step w rounds m)
  unfolding step
  step-Outcome rounds m v = dispatch-Outcome rounds m.0.state m refl v

  -- From a valid state, a poll that yields a receipt yields one of a block, and the stream of
  -- confirmed blocks has come to that block; the state stays valid.
  pub receipt_poll-Outcome :
      (rounds : ℕ) (s : SendTransactionWithReceipt w) (net : Net World)
      → IsValid s
      → let (p, (s', _)) = poll w rounds (s, net) in Outcome p s'
  receipt_poll-Outcome rounds s net v = rw (poll_lem w rounds (s, net)) (
      loop-Returns (λ m. IsValid m.0) (λ p m. Outcome p m.0) (step w rounds) (step-Outcome rounds)
        (λ m v. stop-Outcome m out_of_rounds v (λ r x. cc)) rounds (s, net) v)
