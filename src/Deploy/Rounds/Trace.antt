-- ===== src/Deploy/Rounds/Trace.antt =====
-- What a deployment sends, and what it answers (bridge/src/deploy.rs).
use parity_bridge.Base.{ℕ, ◌≡◌, ◌≢◌, refl, Option, none, some, List, [], ◌∷◌, ◌++◌, inl, inr, ◌⊎◌}
use parity_bridge.Base.Bytes.{Bytes}
use parity_bridge.Async.{Poll, ready, panicked, Flow, done, again}
use parity_bridge.Async.Round.{Round, loop-Returns}
use parity_bridge.Error.{Error}
use parity_bridge.Web3.{Web3, Chain, Net, TransactionRequest, TransactionReceipt}
use parity_bridge.Web3.Sent.{transactions}
use parity_bridge.SendTx as SendTx
use parity_bridge.SendTx.{SendTransactionWithReceipt}
use parity_bridge.SendTx.Trace as Sending
use parity_bridge.SendTx.Trace.{new-Holds, sent_poll-Outcome}
use parity_bridge.Deploy.Contract.{DeployedContract}
use parity_bridge.Deploy.Made.{Describes, new-Describes}
use parity_bridge.Deploy.Rounds.{
  DeployState, not_deployed, deploying, deployed, Plan, Machine, Answer, made, got_receipt,
  on_deploying, on_not_deployed, dispatch, step, poll, poll_lem,
}

module _ (w : Web3) (to_hex : Bytes → Bytes) (plan : Plan)
    (before : List (Chain × TransactionRequest)) where
  open w use {World, Fault}

  -- The transactions once that of the plan has been sent.
  abbrev pub now : List (Chain × TransactionRequest)
  now = before ++ (plan.options.transport, plan.options.transaction) ∷ []

module _ (w : Web3) (to_hex : Bytes → Bytes) (plan : Plan)
    (before : List (Chain × TransactionRequest)) (rounds : ℕ) where
  open w use {World, Fault}

  -- The future that sends the plan's transaction, with what is around it, as it is made and polled.
  pub data Pursues : SendTx.Machine w → Type 0 where
    made_of_plan : (net : Net World) → Pursues (SendTx.new w plan.options net)
    polled_on : {m : SendTx.Machine w} → Pursues m → Pursues (SendTx.poll w rounds m).1

  -- The contract is what the plan says, and what that future answered: its receipt.
  pub record Made (c : DeployedContract) : Type 0 where
    pub described : Describes to_hex (to_hex plan.payload) plan.bytecode_hex c
    pub name_kept : c.contract_name ≡ plan.contract_name
    pub source_kept : c.contract_source ≡ plan.contract_source
    pub abi_kept : c.abi ≡ plan.abi
    pub pursued : SendTx.Machine w
    pub pursues : Pursues pursued
    pub answered : (SendTx.poll w rounds pursued).0 ≡ ready c.receipt

  -- How far the deployment has come, and what it has sent.
  abbrev pub Holds : Machine w to_hex plan → Type 0
  Holds (not_deployed, net) = transactions net.sent ≡ before
  Holds (deploying payload future, net) =
      (payload ≡ plan.payload)
      × Sending.Holds w plan.options.transport plan.options.transaction before (future, net)
      × Pursues (future, net)
  Holds (deployed c, net) = (transactions net.sent ≡ now w to_hex plan before) × Made c

  -- Where the poll yields a contract, it is the one that is kept.
  pub record Outcome (p : Answer w to_hex plan) (m : Machine w to_hex plan) : Type 0 where
    pub holds : Holds m
    pub answers : (c : DeployedContract) → p ≡ ready c → m.0 ≡ deployed c

  abbrev RoundOutcome : Flow (Answer w to_hex plan) × Machine w to_hex plan → Type 0
  RoundOutcome = Round Holds Outcome

  stop-Outcome :
      (m : Machine w to_hex plan) (p : Answer w to_hex plan)
      → Holds m
      → ((c : DeployedContract) → p ≢ ready c)
      → Outcome p m
  stop-Outcome m p v n = record { holds = v; answers = λ c e. absurd (n c e) }

  made-Outcome :
      (receipt : TransactionReceipt) (from : SendTx.Machine w) (m : Machine w to_hex plan)
      (c : Option DeployedContract)
      → made w to_hex plan plan.payload receipt ≡ c
      → Holds m
      → transactions m.1.sent ≡ now w to_hex plan before
      → Pursues from
      → (SendTx.poll w rounds from).0 ≡ ready receipt
      → RoundOutcome
          (elim c [ none ↦ (done panicked, m) | some contract ↦ (again, (deployed contract, m.1)) ])
  unfolding made
  made-Outcome receipt from m none e h sent pursues answer = stop-Outcome m _ h (λ c x. cc)
  made-Outcome receipt from m (some c) e h sent pursues answer =
      let (described, name, source, abi, same) =
        new-Describes to_hex _ _ _ plan.bytecode_hex (to_hex plan.payload) receipt c e in
      (
        sent,
        record {
          described = described;
          name_kept = name;
          source_kept = source;
          abi_kept = abi;
          pursued = from;
          pursues = pursues;
          answered = rw same answer;
        },
      )

  receipt-Outcome :
      (payload : Bytes) (from : SendTx.Machine w) (p : Poll (Error Fault) TransactionReceipt)
      (m : Machine w to_hex plan)
      → payload ≡ plan.payload
      → Holds m
      → ((r : TransactionReceipt) → p ≡ ready r → transactions m.1.sent ≡ now w to_hex plan before)
      → Pursues from
      → (SendTx.poll w rounds from).0 ≡ p
      → RoundOutcome (got_receipt w to_hex plan payload p m)
  unfolding got_receipt
  receipt-Outcome payload from (ready r) m e h sent pursues answer =
      rw e (made-Outcome r from m _ refl h (sent r refl) pursues answer)
  receipt-Outcome payload from _ m e h sent pursues answer = stop-Outcome m _ h (λ c x. cc)

  dispatch-Outcome :
      (st : DeployState w) (net : Net World)
      → Holds (st, net)
      → RoundOutcome (dispatch w to_hex plan rounds st (st, net))
  unfolding dispatch on_not_deployed on_deploying
  dispatch-Outcome not_deployed net h =
      (refl, new-Holds w _ _ before plan.options net refl refl h, made_of_plan net)
  dispatch-Outcome (deploying payload future) net (e, h, pursues) =
      let o =
        sent_poll-Outcome w plan.options.transport plan.options.transaction before rounds future net
          h in
      receipt-Outcome payload (future, net) _ _ e (e, o.holds, polled_on pursues) o.answers pursues
        refl
  dispatch-Outcome (deployed c) net h = record {
    holds = h;
    answers = λ d e. let e' : c ≡ d = cc in rw e';
  }

  step-Outcome : (m : Machine w to_hex plan) → Holds m → RoundOutcome (step w to_hex plan rounds m)
  unfolding step
  step-Outcome (st, net) h = dispatch-Outcome st net h

  pub deploy_poll-Outcome :
      (m : Machine w to_hex plan)
      → Holds m
      → let (p, m') = poll w to_hex plan rounds m in Outcome p m'
  deploy_poll-Outcome m h = rw (poll_lem w to_hex plan rounds m) (
      loop-Returns Holds Outcome (step w to_hex plan rounds) step-Outcome
        (λ m h. stop-Outcome _ _ h (λ r x. cc)) rounds m h)

  -- The transactions so far: none yet, or that of the plan and no other.
  abbrev pub AtMostOne : Machine w to_hex plan → Type 0
  AtMostOne m =
      (transactions m.1.sent ≡ before) ⊎ (transactions m.1.sent ≡ now w to_hex plan before)

  sending-AtMostOne :
      (future : SendTransactionWithReceipt w) (st : SendTx.State w) (net : Net World)
      → Sending.Stage w plan.options.transport plan.options.transaction before st
          (transactions net.sent)
      → AtMostOne (deploying plan.payload future, net)
  sending-AtMostOne future (SendTx.await_block_number f none) net h = inl h
  sending-AtMostOne future (SendTx.await_block_number f (some t)) net h = inl h.1
  sending-AtMostOne future (SendTx.await_receipt inner) net h = inr h

  pub Holds-AtMostOne : (m : Machine w to_hex plan) → Holds m → AtMostOne m
  Holds-AtMostOne (not_deployed, net) h = inl h
  Holds-AtMostOne (deploying payload future, net) h =
      sending-AtMostOne future future.state net h.1.1
  Holds-AtMostOne (deployed c, net) h = inr h.0
