-- ===== src/Deploy/Once.antt =====
-- `DeployMain` and `DeploySide` of bridge/src/deploy.rs, polled again and again: one transaction at
-- most, and the contract that it made.
use parity_bridge.Base.{ℕ, zero, suc, ◌≡◌, ◌⊎◌, refl, sym, subst, List}
use parity_bridge.Async.{Poll, ready}
use parity_bridge.Config.{Config}
use parity_bridge.Error.{Error}
use parity_bridge.Web3.{Web3, Chain, Net, TransactionRequest}
use parity_bridge.Web3.Sent.{transactions}
use parity_bridge.Deploy.Contract.{Compiled, DeployedContract}
use parity_bridge.Deploy.Rounds.{Plan, Answer, Machine}
use parity_bridge.Deploy.Rounds.Trace.{
  Holds, now, Made, Outcome, Holds-AtMostOne, deploy_poll-Outcome,
}
use parity_bridge.Deploy.Chains.{DeployMain, main_plan, side_plan, new_main, poll_main}
use parity_bridge.Deploy.Side.{DeploySide, new_side, poll_side, poll_side-Rounds}
use parity_bridge.Deploy.Rounds as Rounds

-- The transaction of the plan has been sent at most once, and where a contract is answered it has
-- been sent, and the contract is what the plan says.
abbrev pub DeploysOnce :
    (w : Web3) (compiled : Compiled) (plan : Plan)
    → List (Chain × TransactionRequest)
    → ℕ
    → Poll (Error w.Fault) DeployedContract
    → Net w.World
    → Type 0
DeploysOnce w compiled plan before rounds p net =
    ((transactions net.sent ≡ before) ⊎ (transactions net.sent ≡ now w compiled.to_hex plan before))
    × ((c : DeployedContract)
        → p ≡ ready c
        → (transactions net.sent ≡ now w compiled.to_hex plan before)
          × Made w compiled.to_hex plan before rounds c)

module _ (w : Web3) (compiled : Compiled) where
  open w use {World, Fault}

  once :
      (plan : Plan) (before : List (Chain × TransactionRequest)) (rounds : ℕ)
      (p : Answer w compiled.to_hex plan) (m : Machine w compiled.to_hex plan)
      → Outcome w compiled.to_hex plan before rounds p m
      → DeploysOnce w compiled plan before rounds p m.1
  once plan before rounds p m o = (
    Holds-AtMostOne w compiled.to_hex plan before rounds m o.holds,
    λ c e.
        let at = o.answers c e in
        subst (λ st. Holds w compiled.to_hex plan before rounds (st, m.1)) at o.holds,
  )

  module _ (rounds : ℕ) where
    unfoldable pub main_polls : ℕ → DeployMain w × Net World → DeployMain w × Net World
    unfolding poll_main
    main_polls zero m = m
    main_polls (suc n) m =
        let (_, s, net) = poll_main compiled w rounds (main_polls n m) in (s, net)

    unfoldable pub side_polls : ℕ → DeploySide w × Net World → DeploySide w × Net World
    unfolding poll_side
    side_polls zero m = m
    side_polls (suc n) m =
        let (_, s, net) = poll_side compiled w rounds (side_polls n m) in (s, net)

    abbrev MainHolds :
        Config → Chain → List (Chain × TransactionRequest) → DeployMain w × Net World → Type 0
    MainHolds config chain before (s, net) =
        (s.config ≡ config)
        × (s.main_transport ≡ chain)
        × Holds w compiled.to_hex (main_plan compiled config chain) before rounds (s.state, net)

    main_poll-Outcome :
        (config : Config) (chain : Chain) (before : List (Chain × TransactionRequest))
        (s : DeployMain w) (net : Net World)
        → MainHolds config chain before (s, net)
        → let (p, s', net') = poll_main compiled w rounds (s, net) in
          (s'.config ≡ config)
          × (s'.main_transport ≡ chain)
          × Outcome w compiled.to_hex
              (main_plan compiled config chain)
              before
              rounds
              p
              (s'.state, net')
    unfolding poll_main
    main_poll-Outcome config chain before s net (e, f, h) =
        let q : main_plan compiled s.config s.main_transport ≡ main_plan compiled config chain =
          λ i. main_plan compiled (e i) (f i) in
        let hex = compiled.to_hex in
        let (p, s', net') = poll_main compiled w rounds (s, net) in
        (
          e,
          f,
          subst (λ plan. Outcome w hex plan before rounds p (s'.state, net')) q
              (deploy_poll-Outcome w hex (main_plan compiled s.config s.main_transport) before
                rounds (s.state, net)
                (subst (λ plan. Holds w hex plan before rounds (s.state, net)) (sym q) h)),
        )

    main_polls-Holds :
        (n : ℕ) (config : Config) (chain : Chain) (net : Net World)
        → MainHolds config chain
            (transactions net.sent)
            (main_polls n (new_main compiled w config chain, net))
    unfolding main_polls new_main
    main_polls-Holds zero config chain net = (refl, refl, refl)
    main_polls-Holds (suc n) config chain net =
        let (s, net') = main_polls n (new_main compiled w config chain, net) in
        let (e, f, o) =
          main_poll-Outcome config chain (transactions net.sent) s net'
            (main_polls-Holds n config chain net) in
        (e, f, o.holds)

    -- However often a new `DeployMain` has been polled, the next poll too leaves the creation of
    -- the contract as the only transaction that may have been sent. If it yields a contract, the
    -- transaction has been sent; the contract's receipt is the answer of the future that was made
    -- for that transaction, as it has been polled; its creation code is the constructor's input,
    -- which is the bytecode and the constructor's arguments; its address is that of its receipt.
    pub main-DeploysOnce :
        (n : ℕ) (config : Config) (chain : Chain) (net : Net World)
        → let (p, _, net') =
            poll_main compiled w rounds (main_polls n (new_main compiled w config chain, net)) in
          DeploysOnce w compiled
            (main_plan compiled config chain)
            (transactions net.sent)
            rounds
            p
            net'
    main-DeploysOnce n config chain net =
        let (s, net') = main_polls n (new_main compiled w config chain, net) in
        let (_, _, o) =
          main_poll-Outcome config chain (transactions net.sent) s net'
            (main_polls-Holds n config chain net) in
        once (main_plan compiled config chain) (transactions net.sent) rounds _ _ o

    abbrev SideHolds :
        Config → Chain → List (Chain × TransactionRequest) → DeploySide w × Net World → Type 0
    SideHolds config chain before (s, net) =
        (s.config ≡ config)
        × (s.side_transport ≡ chain)
        × Holds w compiled.to_hex (side_plan compiled config chain) before rounds (s.state, net)

    side_poll-Outcome :
        (config : Config) (chain : Chain) (before : List (Chain × TransactionRequest))
        (s : DeploySide w) (net : Net World)
        → SideHolds config chain before (s, net)
        → let (p, s', net') = poll_side compiled w rounds (s, net) in
          (s'.config ≡ config)
          × (s'.side_transport ≡ chain)
          × Outcome w compiled.to_hex
              (side_plan compiled config chain)
              before
              rounds
              p
              (s'.state, net')
    side_poll-Outcome config chain before s net (e, f, h) =
        let hex = compiled.to_hex in
        let q : side_plan compiled s.config s.side_transport ≡ side_plan compiled config chain =
          λ i. side_plan compiled (e i) (f i) in
        let (p, (st, net')) =
          Rounds.poll w hex (side_plan compiled s.config s.side_transport) rounds (s.state, net) in
        rw (poll_side-Rounds compiled w s.config s.side_transport rounds s.state net) (
          e,
          f,
          subst (λ plan. Outcome w hex plan before rounds p (st, net')) q
              (deploy_poll-Outcome w hex (side_plan compiled s.config s.side_transport) before
                rounds (s.state, net)
                (subst (λ plan. Holds w hex plan before rounds (s.state, net)) (sym q) h)),
        )

    side_polls-Holds :
        (n : ℕ) (config : Config) (chain : Chain) (net : Net World)
        → SideHolds config chain
            (transactions net.sent)
            (side_polls n (new_side compiled w config chain, net))
    unfolding side_polls new_side
    side_polls-Holds zero config chain net = (refl, refl, refl)
    side_polls-Holds (suc n) config chain net =
        let (s, net') = side_polls n (new_side compiled w config chain, net) in
        let (e, f, o) =
          side_poll-Outcome config chain (transactions net.sent) s net'
            (side_polls-Holds n config chain net) in
        (e, f, o.holds)

    -- However often a new `DeploySide` has been polled, the next poll too leaves the creation of
    -- the contract as the only transaction that may have been sent. If it yields a contract, the
    -- transaction has been sent; the contract's receipt is the answer of the future that was made
    -- for that transaction, as it has been polled; its creation code is the constructor's input,
    -- which is the bytecode and the constructor's arguments; its address is that of its receipt.
    pub side-DeploysOnce :
        (n : ℕ) (config : Config) (chain : Chain) (net : Net World)
        → let (p, _, net') =
            poll_side compiled w rounds (side_polls n (new_side compiled w config chain, net)) in
          DeploysOnce w compiled
            (side_plan compiled config chain)
            (transactions net.sent)
            rounds
            p
            net'
    side-DeploysOnce n config chain net =
        let (s, net') = side_polls n (new_side compiled w config chain, net) in
        let (_, _, o) =
          side_poll-Outcome config chain (transactions net.sent) s net'
            (side_polls-Holds n config chain net) in
        once (side_plan compiled config chain) (transactions net.sent) rounds _ _ o
