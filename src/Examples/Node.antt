-- ===== src/Examples/Node.antt =====
-- A pair of chains that answers from a script: the next reply goes to the next poll that asks for
-- one of its kind, and there are no more answers after the last.
use parity_bridge.Base.{ℕ, Option, some, List, [], ◌∷◌, length, arith}
use parity_bridge.Base.Bytes.{Bytes}
use parity_bridge.Async.{Poll, ready, not_ready}
use parity_bridge.Async.Spend.{Spends}
use parity_bridge.Error.{WaitError}
use parity_bridge.Web3.{Web3, Log, Net, TransactionReceipt}
use parity_bridge.Web3.Finite.{Finite}

pub data Reply : Type 0 where
  tick : Reply
  bytes_are : Bytes → Reply
  hash_is : Bytes → Reply
  number_is : ℕ → Reply
  logs_are : List Log → Reply
  receipt_is : Option TransactionReceipt → Reply

abbrev Script : Type 0
Script = List Reply

abbrev Nothing : Type 0
Nothing = Unit {0}

abbrev poll_bytes : Nothing → Script → Poll (WaitError Nothing) Bytes × Nothing × Script
poll_bytes f (bytes_are b ∷ r) = (ready b, tt, r)
poll_bytes f r = (not_ready, tt, r)

abbrev poll_hash : Nothing → Script → Poll (WaitError Nothing) Bytes × Nothing × Script
poll_hash f (hash_is b ∷ r) = (ready b, tt, r)
poll_hash f r = (not_ready, tt, r)

abbrev poll_number : Nothing → Script → Poll (WaitError Nothing) ℕ × Nothing × Script
poll_number f (number_is n ∷ r) = (ready n, tt, r)
poll_number f r = (not_ready, tt, r)

abbrev poll_logs : Nothing → Script → Poll (WaitError Nothing) (List Log) × Nothing × Script
poll_logs f (logs_are found ∷ r) = (ready found, tt, r)
poll_logs f r = (not_ready, tt, r)

abbrev poll_receipt :
    Nothing → Script → Poll (WaitError Nothing) (Option TransactionReceipt) × Nothing × Script
poll_receipt f (receipt_is found ∷ r) = (ready found, tt, r)
poll_receipt f r = (not_ready, tt, r)

abbrev poll_interval : Nothing → Script → Poll Nothing (Option Nothing) × Nothing × Script
poll_interval i (tick ∷ r) = (ready (some tt), tt, r)
poll_interval i r = (not_ready, tt, r)

abbrev pub scripted : Web3
scripted = record {
  World = Script;
  Fault = Nothing;
  Waiting = Nothing;
  Interval = Nothing;
  send = λ c r t w. (tt, w);
  poll_bytes = poll_bytes;
  poll_hash = poll_hash;
  poll_number = poll_number;
  poll_logs = poll_logs;
  poll_receipt = poll_receipt;
  interval = λ t. tt;
  poll_interval = poll_interval;
}

abbrev pub script : List Reply → Net Script
script replies = record { world = replies; sent = [] }

pub poll_bytes-Spends :
    (f : Nothing) (r : Script) → Spends (length r) (poll_bytes f r).0 (length (poll_bytes f r).2)
poll_bytes-Spends f (bytes_are _ ∷ r) = omega arith
poll_bytes-Spends f r = omega arith

pub poll_hash-Spends :
    (f : Nothing) (r : Script) → Spends (length r) (poll_hash f r).0 (length (poll_hash f r).2)
poll_hash-Spends f (hash_is _ ∷ r) = omega arith
poll_hash-Spends f r = omega arith

pub poll_number-Spends :
    (f : Nothing) (r : Script) → Spends (length r) (poll_number f r).0 (length (poll_number f r).2)
poll_number-Spends f (number_is _ ∷ r) = omega arith
poll_number-Spends f r = omega arith

pub poll_logs-Spends :
    (f : Nothing) (r : Script) → Spends (length r) (poll_logs f r).0 (length (poll_logs f r).2)
poll_logs-Spends f (logs_are _ ∷ r) = omega arith
poll_logs-Spends f r = omega arith

pub poll_receipt-Spends :
    (f : Nothing) (r : Script)
    → Spends (length r) (poll_receipt f r).0 (length (poll_receipt f r).2)
poll_receipt-Spends f (receipt_is _ ∷ r) = omega arith
poll_receipt-Spends f r = omega arith

pub poll_interval-Spends :
    (f : Nothing) (r : Script)
    → Spends (length r) (poll_interval f r).0 (length (poll_interval f r).2)
poll_interval-Spends f (tick ∷ r) = omega arith
poll_interval-Spends f r = omega arith

abbrev pub scripted_finite : Finite scripted
scripted_finite = record {
  budget = λ r. length r;
  send_le = λ c r t x. omega arith;
  bytes_spends = poll_bytes-Spends;
  hash_spends = poll_hash-Spends;
  number_spends = poll_number-Spends;
  logs_spends = poll_logs-Spends;
  receipt_spends = poll_receipt-Spends;
  interval_spends = poll_interval-Spends;
}
