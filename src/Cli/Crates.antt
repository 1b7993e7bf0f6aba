-- ===== src/Cli/Crates.antt =====
-- What the executables use of the crates `docopt`, `tokio_core` and `futures` and of the transports
-- of `web3` (cli/src/main.rs, deploy/src/main.rs).
use Prim.Native.String.{String}
use parity_bridge.Base.{◌≡◌, Option, none, some, Bool, List}
use parity_bridge.Async.{Poll, ready, not_ready, failed, panicked, out_of_rounds}
use parity_bridge.Error.{Result, ok, err}
use parity_bridge.Web3.{Chain}

pub record Args : Type 0 where
  pub arg_config : String
  pub arg_database : String

-- `none` where the program panics or never comes to an end.
abbrev pub Outcome : Type 0 → Type 0 → Type 0 → Type 0
Outcome E A W = Option (Result E A × W)

-- `?` on such an outcome
unfoldable pub continue :
    {E A B W : Type 0} → Outcome E A W → (A → W → Outcome E B W) → Outcome E B W
continue none k = none
continue (some (ok a, w)) k = k a w
continue (some (err e, w)) k = some (err e, w)

-- A result that may be a panic, beside the rest of the world.
abbrev pub lift : {E A D V : Type 0} → Option (Result E A) × D → (D → V) → Outcome E A V
lift (none, d) around = none
lift (some r, d) around = some (r, around d)

-- What `and_then` makes of the answer of the stream: the closure answers at once.
abbrev pub after :
    {E A B W : Type 0} → (A → W → Result E B × W) → Poll E (Option A) → W → Poll E (Option B) × W
after f (ready none) w = (ready none, w)
after f (ready (some a)) w =
    let (r, w') = f a w in elim r [ ok b ↦ (ready (some b), w') | err e ↦ (failed e, w') ]
after f not_ready w = (not_ready, w)
after f (failed e) w = (failed e, w)
after f panicked w = (panicked, w)
after f out_of_rounds w = (out_of_rounds, w)

pub record Runtime (X : Type 0) : Type 1 where
  -- `Docopt::new(usage).and_then(|d| d.argv(command).deserialize())`, with the text of its error
  pub parse_args : List String → Result String Args
  -- whether `Core::new` succeeds
  pub core : Bool
  -- `Http::with_event_loop`
  pub connect : Chain → String → Result X (Unit {0})
  -- `event_loop.run`, on a future with all that its polls act on
  pub run : {E F A : Type 0} → (F → Poll E A × F) → F → Outcome E A F
  -- `Stream::and_then`
  pub AndThen : Type 0 → Type 0
  pub and_then : {S : Type 0} → S → AndThen S
  pub poll_and_then :
      {S W E A B : Type 0}
      → (S → W → Poll E (Option A) × S × W)
      → (A → W → Result E B × W)
      → AndThen S
      → W
      → Poll E (Option B) × AndThen S × W

-- The polls of a future that have not been ready lead from one state to another.
pub data Reached {E F A : Type 0} (poll : F → Poll E A × F) (f : F) : F → Type 0 where
  here : Reached poll f f
  more : {g h : F} → Reached poll f g → poll g ≡ (not_ready, h) → Reached poll f h

-- The answer of a poll as the result of a run
abbrev pub Answers : {E A : Type 0} → Poll E A → Result E A → Type 0
Answers (ready a) r = r ≡ ok a
Answers (failed e) r = r ≡ err e
Answers _ r = ⊥

-- The documented behaviour: `run` polls until an answer comes, and `and_then` hands every item of
-- its stream to the closure.
pub record IsLawful {X : Type 0} (rt : Runtime X) : Type 1 where
  pub runs :
      {E F A : Type 0} (poll : F → Poll E A × F) (f h : F) (r : Result E A)
      → rt.run poll f ≡ some (r, h)
      → (g : F) × Reached poll f g × Answers (poll g).0 r × (h ≡ (poll g).1)
  pub stream_of : {S : Type 0} → rt.AndThen S → S
  pub stream_of_new : {S : Type 0} (s : S) → stream_of (rt.and_then s) ≡ s
  pub polls :
      {S W E A B : Type 0} (poll : S → W → Poll E (Option A) × S × W) (f : A → W → Result E B × W)
      (a : rt.AndThen S) (w : W)
      → let (p, s', w') = poll (stream_of a) w in
        let (q, a', w'') = rt.poll_and_then poll f a w in
        (stream_of a' ≡ s') × (q ≡ (after f p w').0) × (w'' ≡ (after f p w').1)
