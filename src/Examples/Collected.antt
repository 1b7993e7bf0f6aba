-- ===== src/Examples/Collected.antt =====
-- A message with one signature, collected on `side` and submitted on `main`.
use parity_bridge.Base.{◌≡◌, refl, some, List, [], ◌∷◌, length, replicate, arith}
use parity_bridge.Base.Bytes.{Bytes}
use parity_bridge.Async.{Poll, ready, not_ready}
use parity_bridge.Async.Spend.{Spends}
use parity_bridge.Error.{Error}
use parity_bridge.Web3.{Net}
use parity_bridge.SideToMainSignatures as SideToMainSignatures
use parity_bridge.SideToMainSignatures.{JoinAll}
use parity_bridge.SideToMainSignatures.Ends.{FiniteJoin, collected_poll-Spends}
use parity_bridge.SideToMainSignatures.Requests.{QuietJoin, Outcome}
use parity_bridge.SideToMainSignatures.Trace.{collected_poll-Outcome}
use parity_bridge.Examples.Node.{Reply, scripted, scripted_finite, script, bytes_are, hash_is}
use parity_bridge.Examples.BigEndian.{big_endian}
use parity_bridge.Examples.Relays.{abi, side_contract}
use parity_bridge.Examples.Start.{main_contract}

-- One call is joined: it takes the next bytes.
abbrev next_bytes : List Reply → Poll (Error scripted.Fault) (List Bytes) × List Reply
next_bytes (bytes_are b ∷ r) = (ready (b ∷ []), r)
next_bytes r = (not_ready, r)

abbrev pub join_one : JoinAll scripted
join_one = record {
  Joined = Unit {0};
  join_all = λ calls. tt;
  poll_joined = λ f net. let (p, r) = next_bytes net.world in (p, f, record net { world = r });
}

next_bytes-Spends : (r : List Reply) → Spends (length r) (next_bytes r).0 (length (next_bytes r).1)
next_bytes-Spends (bytes_are b ∷ r) = omega arith
next_bytes-Spends r = omega arith

pub join_one-Finite : FiniteJoin scripted scripted_finite join_one
join_one-Finite = record { joined_spends = λ f net. next_bytes-Spends net.world }

abbrev collected_of_1 : SideToMainSignatures.SideToMainSignatures scripted join_one
collected_of_1 = record {
  side_tx_hash = 1 ∷ [];
  main = main_contract;
  side = side_contract;
  state =
      SideToMainSignatures.await_message
        (record { future = tt; output_decoder = abi.decode_bytes });
}

-- The message, that it is not relayed yet, its signature, and the hash of the transaction.
abbrev pub unrelayed : Net scripted.World
unrelayed = script (
    bytes_are (replicate 116 0)
    ∷ bytes_are (0 ∷ [])
    ∷ bytes_are (replicate 65 1)
    ∷ hash_is (6 ∷ [])
    ∷ [])

collected_relayed :
    (SideToMainSignatures.poll scripted big_endian abi join_one
      (λ b. b)
      4
      (collected_of_1, unrelayed)).0
    ≡ ready (some (6 ∷ []))
unfolding SideToMainSignatures.poll
collected_relayed = refl

collected_poll-Spends_example :
    let (p, (_, net')) =
      SideToMainSignatures.poll scripted big_endian abi join_one
        (λ b. b)
        4
        (collected_of_1, unrelayed) in
    Spends 4 p (length net'.world)
collected_poll-Spends_example =
    collected_poll-Spends scripted big_endian abi join_one (λ b. b) scripted_finite join_one-Finite
      4 collected_of_1 unrelayed (omega arith)

join_one-Quiet : QuietJoin scripted join_one
join_one-Quiet = record { joined_quiet = λ f net. refl }

collected_poll-Outcome_example :
    let (p, m) =
      SideToMainSignatures.poll scripted big_endian abi join_one
        (λ b. b)
        4
        (collected_of_1, unrelayed) in
    Outcome scripted big_endian abi join_one (λ b. b) collected_of_1 unrelayed p m
collected_poll-Outcome_example =
    collected_poll-Outcome scripted big_endian abi join_one (λ b. b) join_one-Quiet 4 collected_of_1
      unrelayed
