-- ===== src/Helpers/Spend.antt =====
-- What the futures of bridge/src/helpers.rs use up of a budget of answers.
use parity_bridge.Base.{ℕ, ◌≤◌, ◌<◌, arith}
use parity_bridge.Base.Bytes.{Bytes}
use parity_bridge.Async.{Poll, ready, not_ready, failed, panicked, out_of_rounds, map_err}
use parity_bridge.Async.Spend.{Spends, Spends-map_err}
use parity_bridge.Error.{Error, Result, ok, err}
use parity_bridge.Web3.{Web3, Chain, Net}
use parity_bridge.Web3.Finite.{Finite, left, request-le, await-Spends}
use parity_bridge.Helpers.{
  AsyncCall, AsyncTransaction, from_result, decoded, new_call, poll_call, poll_transaction,
}

module _ (w : Web3) (fin : Finite w) where
  open w use {World, Fault, poll_bytes, poll_hash}

  pub new_call-le :
      {A : Type 0} (c : Chain) (address : Bytes) (timeout : ℕ) (payload : Bytes)
      (decoder : Bytes → Result Fault A) (net : Net World)
      → left w fin (new_call w c address timeout payload decoder net).1 ≤ left w fin net
  unfolding new_call
  new_call-le c address timeout payload decoder net = request-le w fin c _ timeout net

  result-Spends :
      {A : Type 0} (a c : ℕ) (f : Fault → Error Fault) (r : Result Fault A)
      → c < a
      → Spends a (map_err f (from_result r)) c
  result-Spends a c f (ok x) h = h
  result-Spends a c f (err e) h = omega arith

  decoded-Spends :
      {A : Type 0} (a c : ℕ) (decoder : Bytes → Result Fault A) (p : Poll (Error Fault) Bytes)
      → Spends a p c
      → Spends a (decoded w decoder p) c
  decoded-Spends a c decoder (ready encoded) h = result-Spends a c _ (decoder encoded) h
  decoded-Spends a c decoder not_ready h = h
  decoded-Spends a c decoder (failed e) h = h
  decoded-Spends a c decoder panicked h = h
  decoded-Spends a c decoder out_of_rounds h = h

  pub call-Spends :
      {A : Type 0} (c : AsyncCall w A) (net : Net World)
      → let (p, _, net') = poll_call w c net in Spends (left w fin net) p (left w fin net')
  unfolding poll_call
  call-Spends c net = decoded-Spends _ _ c.output_decoder _ (
      Spends-map_err _ _ _ _
        (await-Spends w fin poll_bytes c.future net (fin.bytes_spends c.future net.world)))

  pub transaction-Spends :
      (t : AsyncTransaction w) (net : Net World)
      → let (p, _, net') = poll_transaction w t net in Spends (left w fin net) p (left w fin net')
  unfolding poll_transaction
  transaction-Spends t net =
      await-Spends w fin poll_hash t.future net (fin.hash_spends t.future net.world)
