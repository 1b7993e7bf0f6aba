-- ===== src/BlockNumber.antt =====
-- `BlockNumberStream` of bridge/src/block_number_stream.rs: asks for the number of the last block
-- at every interval and yields it, less the confirmations, whenever it has grown.
pub mod Progress
pub mod Ends
pub mod Quiet
use parity_bridge.Base.{
  ℕ, ◌-◌, ◌^◌, ◌≡◌, refl, Option, none, some, Bool, true, false, ltb, if◌then◌else◌,
}
use parity_bridge.Async.{
  Poll, ready, panicked, map_err, Flow, done, again, try_ready, try_stream, loop,
}
use parity_bridge.Error.{Error, timer, chained, text}
use parity_bridge.Web3.{Web3, Chain, Net, block_number, request, await}

module _ (w : Web3) where
  open w use {World, Fault, Waiting, Interval, interval, poll_number, poll_interval}

  pub data State : Type 0 where
    await_interval : State
    await_block_number : Waiting → State

  pub record BlockNumberStreamOptions : Type 0 where
    pub request_timeout : ℕ
    pub poll_interval : ℕ
    pub confirmations : ℕ
    pub transport : Chain
    pub after : ℕ

  pub record BlockNumberStream : Type 0 where
    pub request_timeout : ℕ
    pub confirmations : ℕ
    pub transport : Chain
    pub last_checked_block : ℕ
    pub ticks : Interval
    pub state : State

  unfoldable pub new : BlockNumberStreamOptions → BlockNumberStream
  new options = record {
    request_timeout = options.request_timeout;
    confirmations = options.confirmations;
    transport = options.transport;
    last_checked_block = options.after;
    ticks = interval options.poll_interval;
    state = await_interval;
  }

  abbrev pub Machine : Type 0
  Machine = BlockNumberStream × Net World

  pub got_tick :
      Poll Fault (Option (Unit {0})) → Machine → Flow (Poll (Error Fault) (Option ℕ)) × Machine
  got_tick p (s, net) =
      try_stream
        (map_err (λ e. chained (text "BlockNumberStream polling interval failed") (timer e)) p)
        (s, net)
        λ _.
          let (f, net') = request w s.transport block_number s.request_timeout net in
          (again, (record s { state = await_block_number f }, net'))

  -- waits until the interval has passed
  pub on_interval : Machine → Flow (Poll (Error Fault) (Option ℕ)) × Machine
  on_interval (s, net) =
      let (p, ticks', world') = poll_interval s.ticks net.world in
      got_tick p (record s { ticks = ticks' }, record net { world = world' })

  -- `as_u64`, which panics where the number has more bits, and what follows it
  pub on_number : ℕ → Machine → Flow (Poll (Error Fault) (Option ℕ)) × Machine
  on_number last_block (s, net) =
      let last_confirmed_block = last_block - s.confirmations in
      if ltb last_block (2 ^ 64)
      then if ltb s.last_checked_block last_confirmed_block
        then (
          done (ready (some last_confirmed_block)),
          (record s { last_checked_block = last_confirmed_block; state = await_interval }, net),
        )
        else (again, (record s { state = await_interval }, net))
      else (done panicked, (s, net))

  pub got_number : Poll (Error Fault) ℕ → Machine → Flow (Poll (Error Fault) (Option ℕ)) × Machine
  got_number p m =
      try_ready
        (map_err (chained (text "BlockNumberStream: fetching of last block number failed")) p) m
        λ last_block. on_number last_block m

  pub on_block_number : Waiting → Machine → Flow (Poll (Error Fault) (Option ℕ)) × Machine
  on_block_number future (s, net) =
      let (p, future', net') = await w poll_number future net in
      got_number p (record s { state = await_block_number future' }, net')

  pub dispatch : State → Machine → Flow (Poll (Error Fault) (Option ℕ)) × Machine
  dispatch await_interval m = on_interval m
  dispatch (await_block_number future) m = on_block_number future m

  -- One round of the loop.
  pub step : Machine → Flow (Poll (Error Fault) (Option ℕ)) × Machine
  step m = dispatch m.0.state m

  unfoldable pub poll : ℕ → Machine → Poll (Error Fault) (Option ℕ) × Machine
  unfolding step loop dispatch on_interval got_tick on_block_number got_number on_number request
      await
  poll rounds m = loop rounds step m

  pub poll_lem : (rounds : ℕ) (m : Machine) → poll rounds m ≡ loop rounds step m
  unfolding poll
  poll_lem rounds m = refl
