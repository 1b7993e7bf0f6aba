-- ===== src/Deploy/Rounds.antt =====
-- The `loop` of a deployment in bridge/src/deploy.rs, as `DeployMain` has it: it sends one
-- transaction, waits for its receipt, and keeps the contract that it made. What differs in the loop
-- of `DeploySide` is a parameter.
pub mod Trace
pub mod Ends
use parity_bridge.Base.{ℕ, ◌≡◌, refl, Option, none, some}
use parity_bridge.Base.Bytes.{Bytes}
use parity_bridge.Async.{Poll, ready, panicked, Flow, done, again, map_err, try_ready, loop}
use parity_bridge.Error.{Error, Message, chained}
use parity_bridge.Web3.{Web3, Net, TransactionReceipt}
use parity_bridge.SendTx as SendTx
use parity_bridge.SendTx.{SendTransactionWithReceipt, SendTransactionWithReceiptOptions}
use parity_bridge.Deploy.Contract as Contract
use parity_bridge.Deploy.Contract.{DeployedContract}

pub data DeployState (w : Web3) : Type 0 where
  not_deployed : DeployState w
  deploying : Bytes → SendTransactionWithReceipt w → DeployState w
  deployed : DeployedContract → DeployState w

-- In what the two differ: the constructor's input, the options of the transaction, the text of
-- the error, and what `DeployedContract::new` is given beside.
pub record Plan : Type 0 where
  pub payload : Bytes
  pub options : SendTransactionWithReceiptOptions
  pub failure : Message
  pub contract_name : Bytes
  pub contract_source : Bytes
  pub abi : Bytes
  pub bytecode_hex : Bytes

module _ (w : Web3) (to_hex : Bytes → Bytes) (plan : Plan) where
  open w use {World, Fault}

  abbrev pub Machine : Type 0
  Machine = DeployState w × Net World

  abbrev pub Answer : Type 0
  Answer = Poll (Error Fault) DeployedContract

  -- `None` of the receipt's address panics, and so does `DeployedContract::new`.
  unfoldable pub made : Bytes → TransactionReceipt → Option DeployedContract
  unfolding Contract.new
  made payload receipt =
      Contract.new to_hex plan.contract_name plan.contract_source plan.abi plan.bytecode_hex
        (to_hex payload) receipt

  unfoldable pub got_receipt :
      Bytes → Poll (Error Fault) TransactionReceipt → Machine → Flow Answer × Machine
  got_receipt payload p (s, net) =
      try_ready (map_err (chained plan.failure) p) (s, net)
        λ receipt. elim (made payload receipt) [
          | none ↦ (done panicked, (s, net))
          | some contract ↦ (again, (deployed contract, net))
        ]

  unfoldable pub on_deploying :
      ℕ → Bytes → SendTransactionWithReceipt w → Machine → Flow Answer × Machine
  on_deploying rounds payload future (s, net) =
      let (p, (future', net')) = SendTx.poll w rounds (future, net) in
      got_receipt payload p (deploying payload future', net')

  unfoldable pub on_not_deployed : Machine → Flow Answer × Machine
  on_not_deployed (s, net) =
      let (future, net') = SendTx.new w plan.options net in
      (again, (deploying plan.payload future, net'))

  unfoldable pub dispatch : ℕ → DeployState w → Machine → Flow Answer × Machine
  dispatch rounds (deployed contract) m = (done (ready contract), m)
  dispatch rounds not_deployed m = on_not_deployed m
  dispatch rounds (deploying payload future) m = on_deploying rounds payload future m

  -- One round of the loop. `rounds` bounds the loops of the future.
  unfoldable pub step : ℕ → Machine → Flow Answer × Machine
  step rounds m = dispatch rounds m.0 m

  unfoldable pub poll : ℕ → Machine → Answer × Machine
  unfolding loop step dispatch on_not_deployed on_deploying got_receipt made SendTx.new SendTx.poll
  poll rounds m = loop rounds (step rounds) m

  pub poll_lem : (rounds : ℕ) (m : Machine) → poll rounds m ≡ loop rounds (step rounds) m
  unfolding poll
  poll_lem rounds m = refl
