-- ===== src/Bridge.antt =====
-- `Bridge` of bridge/src/bridge.rs: polls the three relays, and yields the state that is to be
-- persisted. The relays are `RelayStream`s over `LogStream`s, given here by how they are polled.
pub mod Persist
pub mod Ends
pub mod Start
pub mod Relays
use parity_bridge.Base.{
  ℕ, ◌≡◌, refl, Option, none, some, Bool, true, false, ◌||◌, is_some, if◌then◌else◌,
}
use parity_bridge.Base.Bytes.{Bytes}
use parity_bridge.Async.{Poll, ready, not_ready, Flow, done, again, map_err, try_maybe_stream, loop}
use parity_bridge.Error.{Error, chained, text}
use parity_bridge.Database.{State}

pub record Bridge (M C S : Type 0) : Type 0 where
  pub main_to_side_sign : M
  pub side_to_main_sign : C
  pub side_to_main_signatures : S
  pub state : State

-- `if let Some(n) = maybe { self.state.field = n; has_state_changed = true }`, three times.
unfoldable pub note_main_to_side_sign : Option ℕ → State → State
note_main_to_side_sign none state = state
note_main_to_side_sign (some n) state = record state { last_main_to_side_sign_at_block = n }

unfoldable pub note_side_to_main_sign : Option ℕ → State → State
note_side_to_main_sign none state = state
note_side_to_main_sign (some n) state = record state { last_side_to_main_sign_at_block = n }

unfoldable pub note_side_to_main_signatures : Option ℕ → State → State
note_side_to_main_signatures none state = state
note_side_to_main_signatures (some n) state = record state {
  last_side_to_main_signatures_at_block = n;
}

module _ {W X M C S : Type 0} (poll_main_to_side : M → W → Poll (Error X) (Option ℕ) × M × W)
    (poll_sign : C → W → Poll (Error X) (Option ℕ) × C × W)
    (poll_signatures : S → W → Poll (Error X) (Option ℕ) × S × W) where
  abbrev pub Machine : Type 0
  Machine = Bridge M C S × W

  abbrev pub Answer : Type 0
  Answer = Poll (Error X) (Option State)

  -- What the round does with the three answers. The loop has no second round.
  pub note : Option ℕ → Option ℕ → Option ℕ → Machine → Flow Answer × Machine
  note maybe_main_to_side maybe_sign maybe_signatures (b, w) =
      let state =
        note_side_to_main_signatures maybe_signatures
          (note_side_to_main_sign maybe_sign (note_main_to_side_sign maybe_main_to_side b.state)) in
      let has_state_changed =
        is_some maybe_main_to_side || is_some maybe_sign || is_some maybe_signatures in
      (
        done (if has_state_changed then ready (some state) else not_ready),
        (record b { state = state }, w),
      )

  pub got_signatures :
      Option ℕ → Option ℕ → Poll (Error X) (Option ℕ) → Machine → Flow Answer × Machine
  got_signatures maybe_main_to_side maybe_sign p m =
      try_maybe_stream (map_err (chained (text "Bridge: polling side to main signatures failed")) p)
        m λ maybe_signatures. note maybe_main_to_side maybe_sign maybe_signatures m

  pub got_sign : Option ℕ → Poll (Error X) (Option ℕ) → Machine → Flow Answer × Machine
  got_sign maybe_main_to_side p (b, w) =
      try_maybe_stream (map_err (chained (text "Bridge: polling side to main sign failed")) p)
        (b, w)
        λ maybe_sign.
          let (q, s, w') = poll_signatures b.side_to_main_signatures w in
          got_signatures maybe_main_to_side maybe_sign q
            (record b { side_to_main_signatures = s }, w')

  pub got_main_to_side : Poll (Error X) (Option ℕ) → Machine → Flow Answer × Machine
  got_main_to_side p (b, w) =
      try_maybe_stream (map_err (chained (text "Bridge: polling main to side sign failed")) p)
        (b, w)
        λ maybe_main_to_side.
          let (q, s, w') = poll_sign b.side_to_main_sign w in
          got_sign maybe_main_to_side q (record b { side_to_main_sign = s }, w')

  -- The only round of the loop.
  pub step : Machine → Flow Answer × Machine
  step (b, w) =
      let (p, s, w') = poll_main_to_side b.main_to_side_sign w in
      got_main_to_side p (record b { main_to_side_sign = s }, w')

  unfoldable pub poll : Machine → Answer × Machine
  unfolding loop step got_main_to_side got_sign got_signatures note note_main_to_side_sign
      note_side_to_main_sign note_side_to_main_signatures
  poll m = loop 1 step m

  pub poll_lem : (m : Machine) → poll m ≡ loop 1 step m
  unfolding poll
  poll_lem m = refl
