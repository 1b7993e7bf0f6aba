-- ===== src/Bridge/Start/Ends.antt =====
-- Every poll of the program's bridge ends (bridge/src/bridge.rs with its three relays).
use parity_bridge.Base.{ℕ, ◌≤◌, ◌<◌, inl, inr, Option-cases, arith}
use parity_bridge.Base.Bytes.{Bytes}
use parity_bridge.Async.Ending.{Ends, Spends-Ends}
use parity_bridge.Web3.{Web3, Log, Net}
use parity_bridge.Web3.Finite.{Finite, left}
use parity_bridge.Contracts.{Contracts}
use parity_bridge.Helpers.Spend.{new_call-le}
use parity_bridge.Message.{BigEndian}
use parity_bridge.MainContract.{MainContract}
use parity_bridge.SideContract.{
  SideContract, is_main_to_side_signed_on_side, is_side_to_main_signed_on_side, call_side,
}
use parity_bridge.LogStream.Ends.{range_poll-Spends}
use parity_bridge.Relay.Ends.{Thrifty, relay_poll-Ends}
use parity_bridge.Relay.Logs.{poll_logs}
use parity_bridge.MainToSideSign as MainToSideSign
use parity_bridge.MainToSideSign.Ends.{deposit_poll-Spends}
use parity_bridge.SideToMainSign as SideToMainSign
use parity_bridge.SideToMainSign.Ends.{withdraw_poll-Spends}
use parity_bridge.SideToMainSignatures as SideToMainSignatures
use parity_bridge.SideToMainSignatures.{JoinAll}
use parity_bridge.SideToMainSignatures.Ends.{FiniteJoin, collected_poll-Spends}
use parity_bridge.Bridge as Bridge
use parity_bridge.Bridge.Ends.{bridge_poll-Ends}
use parity_bridge.Bridge.Relays.{poll_relay}
use parity_bridge.Bridge.Start.{
  log_to_main_to_side_sign, log_to_side_to_main_sign, log_to_side_to_main_signatures, Running,
}

module _ (w : Web3) (be : BigEndian) (abi : Contracts w.Fault) (j : JoinAll w)
    (hash : Bytes → Bytes) (rounds : ℕ) (fin : Finite w) (joins : FiniteJoin w fin j) where
  open w use {World, Fault}

  new_deposit-le :
      (log : Log) (side : SideContract) (net : Net World)
      → left w fin (MainToSideSign.new w be abi log side net).1 ≤ left w fin net
  unfolding MainToSideSign.new is_main_to_side_signed_on_side call_side
  new_deposit-le log side net = elim (Option-cases (MainToSideSign.read_deposit w be abi log)) [
    | inl e ↦ rw (e, MainToSideSign.new) (omega arith)
    | inr ((tx, d), e) ↦
        rw (e, MainToSideSign.new)
          (new_call-le w fin side.transport side.contract_address _ _ abi.decode_bool net)
  ]

  new_withdraw-le :
      (log : Log) (side : SideContract) (net : Net World)
      → left w fin (SideToMainSign.new w be abi log side net).1 ≤ left w fin net
  unfolding SideToMainSign.new is_side_to_main_signed_on_side call_side
  new_withdraw-le log side net = elim (Option-cases (SideToMainSign.read_withdraw w be abi log)) [
    | inl e ↦ rw (e, SideToMainSign.new) (omega arith)
    | inr ((tx, m), e) ↦
        rw (e, SideToMainSign.new)
          (new_call-le w fin side.transport side.contract_address _ _ abi.decode_bool net)
  ]

  new_collected-le :
      (log : Log) (main : MainContract) (side : SideContract) (net : Net World)
      → left w fin (SideToMainSignatures.new w be abi j hash log main side net).1 ≤ left w fin net
  unfolding SideToMainSignatures.new call_side
  new_collected-le log main side net =
      elim (Option-cases (SideToMainSignatures.read_collected w be abi j hash log main)) [
        | inl e ↦ rw (e, SideToMainSignatures.new) (omega arith)
        | inr ((tx, c), e) ↦
            rw (e, SideToMainSignatures.new)
              (new_call-le w fin side.transport side.contract_address _ _ abi.decode_bytes net)
      ]

  module _ (enough : 3 < rounds) where
    deposits-Thrifty :
        (side : SideContract)
        → Thrifty
            (poll_logs w rounds)
            (log_to_main_to_side_sign w be abi j hash rounds side)
            (λ net. left w fin net)
            rounds
    unfolding poll_logs
    deposits-Thrifty side = record {
      logs_spend = λ s net h. range_poll-Spends w fin rounds s net h;
      makes_le = λ log net. new_deposit-le log side net;
      future_ends =
          λ f net. Spends-Ends _ _ _ (deposit_poll-Spends w be abi fin rounds f net (omega arith));
    }

    withdrawals-Thrifty :
        (side : SideContract)
        → Thrifty
            (poll_logs w rounds)
            (log_to_side_to_main_sign w be abi j hash rounds side)
            (λ net. left w fin net)
            rounds
    unfolding poll_logs
    withdrawals-Thrifty side = record {
      logs_spend = λ s net h. range_poll-Spends w fin rounds s net h;
      makes_le = λ log net. new_withdraw-le log side net;
      future_ends =
          λ f net. Spends-Ends _ _ _ (withdraw_poll-Spends w be abi fin rounds f net (omega arith));
    }

    collected-Thrifty :
        (main : MainContract) (side : SideContract)
        → Thrifty
            (poll_logs w rounds)
            (log_to_side_to_main_signatures w be abi j hash rounds main side)
            (λ net. left w fin net)
            rounds
    unfolding poll_logs
    collected-Thrifty main side = record {
      logs_spend = λ s net h. range_poll-Spends w fin rounds s net h;
      makes_le = λ log net. new_collected-le log main side net;
      future_ends = λ f net.
          Spends-Ends _ _ _ (collected_poll-Spends w be abi j hash fin joins rounds f net enough);
    }

    -- Where only finitely many answers come in during a poll, and the polls of joined calls use up
    -- answers as the calls do, a poll of the bridge over its three relays ends, for every bridge and
    -- with any number of rounds above three and above the answers.
    pub running_poll-Ends :
        (main : MainContract) (side : SideContract) (b : Running w be abi j hash rounds)
        (net : Net World)
        → left w fin net < rounds
        → let (p, (_, net')) =
            Bridge.poll
              (poll_relay
                (poll_logs w rounds)
                (log_to_main_to_side_sign w be abi j hash rounds side)
                rounds)
              (poll_relay
                (poll_logs w rounds)
                (log_to_side_to_main_sign w be abi j hash rounds side)
                rounds)
              (poll_relay
                (poll_logs w rounds)
                (log_to_side_to_main_signatures w be abi j hash rounds main side)
                rounds)
              (b, net) in
          Ends (left w fin net) p (left w fin net')
    running_poll-Ends main side b net h =
        bridge_poll-Ends _ _ _ (λ net. left w fin net) rounds
          (λ r net h.
            relay_poll-Ends (poll_logs w rounds) _ _ rounds (deposits-Thrifty side) rounds r net h
              h)
          (λ r net h.
            relay_poll-Ends (poll_logs w rounds) _ _ rounds (withdrawals-Thrifty side) rounds r net
              h h)
          (λ r net h.
            relay_poll-Ends (poll_logs w rounds) _ _ rounds (collected-Thrifty main side) rounds r
              net h h)
          b net h
