-- ===== src/Deploy/Side.antt =====
-- `DeploySide` of bridge/src/deploy.rs.
use parity_bridge.Base.{ℕ, ◌≡◌, refl, ap, Option, none, some}
use parity_bridge.Base.Bytes.{Bytes}
use parity_bridge.Async.{
  Poll, ready, not_ready, failed, panicked, out_of_rounds, Flow, done, again, map_err, try_ready,
  loop,
}
use parity_bridge.Async.Loop.{loop-along}
use parity_bridge.Config.{Config}
use parity_bridge.Error.{Error, chained, text}
use parity_bridge.Web3.{Web3, Chain, Net, TransactionReceipt}
use parity_bridge.SendTx as SendTx
use parity_bridge.SendTx.{SendTransactionWithReceipt, SendTransactionWithReceiptOptions}
use parity_bridge.Deploy.Contract as Contract
use parity_bridge.Deploy.Contract.{Compiled, DeployedContract, as_bytes}
use parity_bridge.Deploy.Rounds as Rounds
use parity_bridge.Deploy.Rounds.{DeployState, not_deployed, deploying, deployed, Plan}
use parity_bridge.Deploy.Chains.{side_plan}

pub record DeploySide (w : Web3) : Type 0 where
  pub config : Config
  pub side_transport : Chain
  pub state : DeployState w

module _ (compiled : Compiled) (w : Web3) where
  open w use {World, Fault}

  unfoldable pub new_side : Config → Chain → DeploySide w
  new_side config side_transport = record {
    config = config;
    side_transport = side_transport;
    state = not_deployed;
  }

  abbrev Machine : Type 0
  Machine = DeploySide w × Net World

  abbrev Answer : Type 0
  Answer = Poll (Error Fault) DeployedContract

  -- `contracts::side::constructor(…)`
  abbrev side_payload : Config → Bytes
  side_payload config =
      compiled.side_constructor config.side.contract.bin config.authorities.required_signatures
        config.authorities.accounts config.estimated_gas_cost_of_withdraw

  abbrev side_options : DeploySide w → Bytes → SendTransactionWithReceiptOptions
  side_options s payload = record {
    transport = s.side_transport;
    request_timeout = s.config.side.request_timeout;
    poll_interval = s.config.side.poll_interval;
    confirmations = s.config.side.required_confirmations;
    transaction = record {
      from = s.config.address;
      to = none;
      gas = some s.config.txs.side_deploy.gas;
      gas_price = some s.config.txs.side_deploy.gas_price;
      value = none;
      payload = some payload;
      nonce = none;
    };
  }

  side_not_deployed : Machine → Flow Answer × Machine
  side_not_deployed (s, net) =
      let payload = side_payload s.config in
      let (future, net') = SendTx.new w (side_options s payload) net in
      (again, (record s { state = deploying payload future }, net'))

  side_got_receipt : Bytes → Poll (Error Fault) TransactionReceipt → Machine → Flow Answer × Machine
  unfolding Contract.new
  side_got_receipt payload p (s, net) =
      try_ready (map_err (chained (text "DeploySide: deployment transaction failed")) p) (s, net)
        λ receipt.
          elim (Contract.new compiled.to_hex (as_bytes "SideBridge") compiled.bridge_sol
            compiled.side_bridge_abi compiled.side_bridge_bin (compiled.to_hex payload) receipt) [
              | none ↦ (done panicked, (s, net))
              | some contract ↦ (again, (record s { state = deployed contract }, net))
            ]

  side_deploying : ℕ → Bytes → SendTransactionWithReceipt w → Machine → Flow Answer × Machine
  side_deploying rounds payload future (s, net) =
      let (p, (future', net')) = SendTx.poll w rounds (future, net) in
      side_got_receipt payload p (record s { state = deploying payload future' }, net')

  side_dispatch : ℕ → DeployState w → Machine → Flow Answer × Machine
  side_dispatch rounds (deployed contract) m = (done (ready contract), m)
  side_dispatch rounds not_deployed m = side_not_deployed m
  side_dispatch rounds (deploying payload future) m = side_deploying rounds payload future m

  -- One round of the loop. `rounds` bounds the loops of the future.
  side_step : ℕ → Machine → Flow Answer × Machine
  side_step rounds m = side_dispatch rounds m.0.state m

  unfoldable pub poll_side :
      ℕ → DeploySide w × Net World → Poll (Error Fault) DeployedContract × DeploySide w × Net World
  unfolding loop side_step side_dispatch side_not_deployed side_deploying side_got_receipt
      SendTx.new SendTx.poll
  poll_side rounds m = let (p, (s, net)) = loop rounds (side_step rounds) m in (p, s, net)

  module _ (config : Config) (chain : Chain) where
    abbrev around : DeployState w × Net World → Machine
    around (st, net) = (record { config = config; side_transport = chain; state = st }, net)

    abbrev small : ℕ → DeployState w × Net World → Flow Answer × (DeployState w × Net World)
    small rounds = Rounds.step w compiled.to_hex (side_plan compiled config chain) rounds

    made-Rounds :
        (m : DeployState w × Net World) (c : Option DeployedContract)
        → let r : Flow Answer × (DeployState w × Net World) = elim c [
          | none ↦ (done panicked, m)
          | some contract ↦ (again, (deployed contract, m.1))
        ] in
          ◌≡◌ {A = Flow Answer × Machine}
            (elim c [
              | none ↦ (done panicked, around m)
              | some contract ↦ (again, (record (around m).0 { state = deployed contract }, m.1))
            ])
            (r.0, around r.1)
    made-Rounds m none = refl
    made-Rounds m (some c) = refl

    receipt-Rounds :
        (payload : Bytes) (p : Poll (Error Fault) TransactionReceipt)
        (m : DeployState w × Net World)
        → let r =
            Rounds.got_receipt w compiled.to_hex (side_plan compiled config chain) payload p m in
          side_got_receipt payload p (around m) ≡ (r.0, around r.1)
    unfolding side_got_receipt Rounds.got_receipt Rounds.made side_plan
    receipt-Rounds payload (ready r) m = made-Rounds m (
        Contract.new compiled.to_hex (as_bytes "SideBridge") compiled.bridge_sol
          compiled.side_bridge_abi compiled.side_bridge_bin (compiled.to_hex payload) r)
    receipt-Rounds payload not_ready m = refl
    receipt-Rounds payload (failed e) m = refl
    receipt-Rounds payload panicked m = refl
    receipt-Rounds payload out_of_rounds m = refl

    dispatch-Rounds :
        (rounds : ℕ) (st : DeployState w) (net : Net World)
        → let r =
            Rounds.dispatch w compiled.to_hex
              (side_plan compiled config chain)
              rounds
              st
              (st, net) in
          side_dispatch rounds st (around (st, net)) ≡ (r.0, around r.1)
    unfolding side_dispatch side_deploying side_not_deployed Rounds.dispatch Rounds.on_deploying
        Rounds.on_not_deployed side_plan
    dispatch-Rounds rounds not_deployed net = refl
    dispatch-Rounds rounds (deployed c) net = refl
    dispatch-Rounds rounds (deploying payload future) net = receipt-Rounds payload _ _

    -- The loop of `DeploySide` is that of `Rounds` at the plan of the side chain.
    pub poll_side-Rounds :
        (rounds : ℕ) (st : DeployState w) (net : Net World)
        → let (p, (st', net')) =
            Rounds.poll w compiled.to_hex (side_plan compiled config chain) rounds (st, net) in
          poll_side rounds (around (st, net)) ≡ (p, (around (st', net')).0, net')
    unfolding poll_side side_step Rounds.poll Rounds.step
    poll_side-Rounds rounds st net =
        ap (λ r. (r.0, r.1.0, r.1.1))
          (loop-along around (small rounds) (side_step rounds) (λ m. dispatch-Rounds rounds m.0 m.1)
            rounds (st, net))
