-- ===== src/Cli/InStep.antt =====
-- The bridge and the database of a running node stay in step (cli/src/main.rs).
use Prim.Native.String.{String}
use parity_bridge.Base.{ℕ, ◌≡◌, ◌∙◌, refl, sym, subst, ap, Option, none, some, arith}
use parity_bridge.Base.Bytes.{Bytes}
use parity_bridge.Async.{Poll, ready, not_ready, failed, panicked, out_of_rounds, Flow}
use parity_bridge.Async.Round.{Round, loop-Returns}
use parity_bridge.Config.Load as Load
use parity_bridge.Contracts.{Contracts}
use parity_bridge.Database as Database
use parity_bridge.Database.{State, TomlFileDatabase}
use parity_bridge.Database.Write.{write-read}
use parity_bridge.Error.{Error, Result, ok, err}
use parity_bridge.Helpers.{Last, got_item, poll_last}
use parity_bridge.Message.{BigEndian}
use parity_bridge.Os.{Os}
use parity_bridge.Web3.{Web3, Net}
use parity_bridge.MainContract.{MainContract}
use parity_bridge.SideContract.{SideContract}
use parity_bridge.SideToMainSignatures.{JoinAll}
use parity_bridge.Bridge.Persist.{Extends}
use parity_bridge.Bridge.Start.Kept as StartKept
use parity_bridge.Bridge.Start as Start
use parity_bridge.Cli.Crates.{Runtime, IsLawful, after, Reached, here, more}
use parity_bridge.Cli.{Started, poll_bridge, persist, poll_persisted, poll_node}

Extends-trans : (a b c : State) → Extends a b → Extends b c → Extends a c
Extends-trans a b c h k = record {
  main_to_side = omega (arith, h.main_to_side, k.main_to_side);
  sign = omega (arith, h.sign, k.sign);
  signatures = omega (arith, h.signatures, k.signatures);
  main_address = k.main_address ∙ h.main_address;
  side_address = k.side_address ∙ h.side_address;
  main_deployed = k.main_deployed ∙ h.main_deployed;
  side_deployed = k.side_deployed ∙ h.side_deployed;
}

pub Extends-refl : (a : State) → Extends a a
Extends-refl a = record {
  main_to_side = omega arith;
  sign = omega arith;
  signatures = omega arith;
  main_address = refl;
  side_address = refl;
  main_deployed = refl;
  side_deployed = refl;
}

module _ (w : Web3) (be : BigEndian) (abi : Contracts w.Fault) (j : JoinAll w)
    (hash : Bytes → Bytes) (rounds : ℕ) (os : Os w.Fault) (from_hex : String → Result w.Fault Bytes)
    (config_from_str : String → Result w.Fault Load.Config)
    (state_from_str : String → Result w.Fault State) (to_string : State → String)
    (runtime : Runtime w.Fault) where
  open w use {World, Fault}
  open os use {Disk}

  abbrev pub StartedHere : Type 0
  StartedHere =
      Started w be abi j hash rounds os from_hex config_from_str state_from_str to_string runtime

  module _ (law : IsLawful runtime) (main_contract : MainContract) (side_contract : SideContract)
      (initial : State) where
    abbrev Around3 : Type 0
    Around3 = Net World × TomlFileDatabase × Disk

    abbrev pub Node : Type 0
    Node = Last (runtime.AndThen (Start.Running w be abi j hash rounds) × Around3) (Unit {0})

    -- The blocks in the database have not fallen behind those at the start.
    abbrev pub Grown : Around3 → Type 0
    Grown around = Extends initial around.1.state

    -- Beside, the bridge is valid, and its state is that of the database.
    abbrev pub InStep : Start.Running w be abi j hash rounds → Around3 → Type 0
    InStep b around =
        Start.Valid w be abi j hash rounds main_contract side_contract b
        × (b.state ≡ around.1.state)
        × Grown around

    -- What holds by the answer of a poll.
    abbrev Kept :
        {A : Type 0}
        → Poll (Error Fault) (Option A)
        → Start.Running w be abi j hash rounds
        → Around3
        → Type 0
    Kept (ready (some _)) b around = InStep b around
    Kept (ready none) b around = Grown around
    Kept not_ready b around = InStep b around
    Kept (failed e) b around = Grown around
    Kept panicked b around = Grown around
    Kept out_of_rounds b around = Grown around

    abbrev persist_here : State → Around3 → Result (Error Fault) (Unit {0}) × Around3
    persist_here =
        persist w be abi j hash rounds os from_hex config_from_str state_from_str to_string runtime
          main_contract side_contract

    abbrev poll_bridge_here :
        Start.Running w be abi j hash rounds
        → Around3
        → Poll (Error Fault) (Option State) × Start.Running w be abi j hash rounds × Around3
    poll_bridge_here =
        poll_bridge w be abi j hash rounds os from_hex config_from_str state_from_str to_string
          runtime main_contract side_contract

    persist-state :
        (state : State) (around : Around3) → (persist_here state around).1.1.state ≡ state
    unfolding persist Database.read
    persist-state state (net, database, disk) =
        (write-read os state_from_str to_string state database disk).0

    written-Kept :
        (r : Result (Error Fault) (Unit {0})) (b : Start.Running w be abi j hash rounds)
        (around : Around3)
        → InStep b around
        → let q : Poll (Error Fault) (Option (Unit {0})) × Around3 = elim r [
          | ok x ↦ (ready (some x), around)
          | err e ↦ (failed e, around)
        ] in
          Kept q.0 b q.1
    written-Kept (ok _) b around h = h
    written-Kept (err e) b around (v, e', g) = g

    abbrev Did :
        State → Poll (Error Fault) (Option State) → Start.Running w be abi j hash rounds → Type 0
    Did = StartKept.Kept w be abi j hash rounds main_contract side_contract

    after-Kept :
        (p : Poll (Error Fault) (Option State)) (before : State)
        (b : Start.Running w be abi j hash rounds) (around : Around3)
        → before ≡ around.1.state
        → Grown around
        → Did before p b
        → let q = after persist_here p around in Kept q.0 b q.1
    after-Kept (ready (some state)) before b around e g (at, ext, v) =
        let (r, around') = persist_here state around in
        let kept = persist-state state around in
        let ext' : Extends around.1.state state = subst (λ x. Extends x state) e ext in
        let grown : Extends initial around'.1.state =
          subst (λ x. Extends initial x) (sym kept)
            (Extends-trans initial around.1.state state g ext') in
        written-Kept r b around' (v, at ∙ sym kept, grown)
    after-Kept (ready none) before b around e g o = g
    after-Kept not_ready before b around e g (at, v) = (v, at ∙ e, g)
    after-Kept (failed x) before b around e g o = g
    after-Kept panicked before b around e g o = g
    after-Kept out_of_rounds before b around e g o = g

    bridge-Did :
        (b : Start.Running w be abi j hash rounds) (around : Around3)
        → Start.Valid w be abi j hash rounds main_contract side_contract b
        → let (p, b', around') = poll_bridge_here b around in
          Did b.state p b' × (around'.1 ≡ around.1)
    unfolding poll_bridge
    bridge-Did b (net, database, disk) v = (
      StartKept.running_poll-Kept w be abi j hash rounds main_contract side_contract b net v,
      refl,
    )

    moved :
        (p q : Poll (Error Fault) (Option (Unit {0}))) (b c : Start.Running w be abi j hash rounds)
        (x y : Around3)
        → p ≡ q
        → b ≡ c
        → x ≡ y
        → Kept q c y
        → Kept p b x
    moved p q b c x y e f g h = rw (e, f, g) h

    -- One poll of the stream below `and_then`.
    polled-Kept :
        (a : runtime.AndThen (Start.Running w be abi j hash rounds)) (around : Around3)
        → InStep (law.stream_of a) around
        → let (p, a', around') = runtime.poll_and_then poll_bridge_here persist_here a around in
          Kept p (law.stream_of a') around'
    polled-Kept a around (v, e, g) =
        let b = law.stream_of a in
        let (p, b', around') = poll_bridge_here b around in
        let (did, same) = bridge-Did b around v in
        let (stream, answer, left) = law.polls poll_bridge_here persist_here a around in
        let at : b.state ≡ around'.1.state =
          e ∙ ap (λ (d : TomlFileDatabase). d.state) (sym same) in
        let grown : Grown around' =
          subst (λ (d : TomlFileDatabase). Extends initial d.state) (sym same) g in
        let kept = after-Kept p b.state b' around' at grown did in
        moved _ _ _ _ _ _ answer stream left kept

    abbrev pub NodeInStep : Node → Type 0
    NodeInStep m = InStep (law.stream_of m.stream.0) m.stream.1

    abbrev pub NodeKept : {A : Type 0} → Poll (Error Fault) A → Node → Type 0
    NodeKept not_ready m = NodeInStep m
    NodeKept _ m = Grown m.stream.1

    abbrev RoundKept : Flow (Poll (Error Fault) (Option (Unit {0}))) × Node → Type 0
    RoundKept = Round NodeInStep NodeKept

    abbrev poll_persisted_here :
        runtime.AndThen (Start.Running w be abi j hash rounds) × Around3
        → Poll (Error Fault) (Option (Unit {0}))
          × (runtime.AndThen (Start.Running w be abi j hash rounds) × Around3)
    poll_persisted_here =
        poll_persisted w be abi j hash rounds os from_hex config_from_str state_from_str to_string
          runtime main_contract side_contract

    item-RoundKept :
        (p : Poll (Error Fault) (Option (Unit {0}))) (m : Node)
        → Kept p (law.stream_of m.stream.0) m.stream.1
        → RoundKept (got_item poll_persisted_here p m)
    item-RoundKept (ready (some x)) m h = h
    item-RoundKept (ready none) m h = h
    item-RoundKept not_ready m h = h
    item-RoundKept (failed e) m h = h
    item-RoundKept panicked m h = h
    item-RoundKept out_of_rounds m h = h

    abbrev round : Node → Flow (Poll (Error Fault) (Option (Unit {0}))) × Node
    round s =
        let (p, stream) = poll_persisted_here s.stream in
        got_item poll_persisted_here p (record s { stream = stream })

    round-RoundKept : (m : Node) → NodeInStep m → RoundKept (round m)
    unfolding poll_persisted
    round-RoundKept m h = item-RoundKept _ _ (polled-Kept m.stream.0 m.stream.1 h)

    abbrev poll_here : Node → Poll (Error Fault) (Option (Unit {0})) × Node
    poll_here =
        poll_node w be abi j hash rounds os from_hex config_from_str state_from_str to_string
          runtime main_contract side_contract

    pub node_poll-NodeKept : (m : Node) → NodeInStep m → let (p, m') = poll_here m in NodeKept p m'
    unfolding poll_node poll_last
    node_poll-NodeKept m h =
        loop-Returns NodeInStep NodeKept round round-RoundKept (λ m h. h.2) rounds m h

    pub Reached-InStep :
        (m : Node) → NodeInStep m → (g : Node) → Reached poll_here m g → NodeInStep g
    Reached-InStep m h g here = h
    Reached-InStep m h g (more {g = k} r e) =
        let kept = node_poll-NodeKept k (Reached-InStep m h k r) in rw e at kept
