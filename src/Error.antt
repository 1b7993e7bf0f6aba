-- ===== src/Error.antt =====
-- The errors of bridge/src/error.rs. `X` stands for the errors of the libraries below: `io`,
-- `toml`, `ethabi`, `tokio_timer`, `rustc_hex` and `web3`.
use Prim.Native.String.{String}
use parity_bridge.Base.{refl, ℕ, List, ◌≡◌, ◌==◌, if◌then◌else◌, arith}

-- The text of an error: a constant, or a format string with the value put into it.
pub data Message : Type 0 where
  text : String → Message
  about : String → List ℕ → Message

-- `error_chain!`: the foreign links, the kinds, `msg` for `bail!`, and what `chain_err` wraps.
pub data Error (X : Type 0) : Type 0 where
  io : X → Error X
  toml : X → Error X
  ethabi : X → Error X
  timer : X → Error X
  hex : X → Error X
  timed_out : Error X
  missing_file : String → Error X
  web3 : X → Error X
  msg : Message → Error X
  chained : Message → Error X → Error X

-- How a request that waits at most for a time can fail: `TimeoutError` of `tokio_timer`, over the
-- errors of `web3`.
pub data WaitError (X : Type 0) : Type 0 where
  request_failed : X → WaitError X
  timer_failed : X → WaitError X
  out_of_time : WaitError X

-- `From<web3::Error>`
unfoldable pub from_web3 : {X : Type 0} → X → Error X
from_web3 err = web3 err

-- `From<TimeoutError<F>>`; the error of the request has gone through `from_web3` by then.
unfoldable pub from_timeout_error : {X : Type 0} → WaitError X → Error X
unfolding from_web3
from_timeout_error (request_failed err) = from_web3 err
from_timeout_error (timer_failed timer_error) = timer timer_error
from_timeout_error out_of_time = timed_out

-- `Result<A, Error>`
pub data Result {ℓ κ} (E : Type ℓ) (A : Type κ) : Type (ℓ ⊔ κ) where
  ok : A → Result E A
  err : E → Result E A

module _ {ℓ κ μ ν} {E : Type ℓ} {A : Type κ} {B : Type μ} {W : Type ν} where
  -- `?` on a call that changes the world.
  abbrev pub and_then : Result E A × W → (A → W → Result E B × W) → Result E B × W
  and_then (ok a, w) k = k a w
  and_then (err e, w) k = (err e, w)

-- `?` converts the error, and `chain_err` wraps it.
abbrev pub or_err {ℓ κ μ ν} :
    {E : Type ℓ} {E' : Type κ} {A : Type μ} {W : Type ν}
    → (E → E')
    → Result E A × W
    → Result E' A × W
or_err f (ok a, w) = (ok a, w)
or_err f (err e, w) = (err (f e), w)

pub or_err-world {ℓ κ} :
    {E : Type ℓ} {E' : Type κ} {A W : Type 0} (f : E → E') (x : Result E A × W)
    → (or_err f x).1 ≡ x.1
or_err-world f (ok a, w) = refl
or_err-world f (err e, w) = refl

pub or_err-ok {ℓ κ} :
    {E : Type ℓ} {E' : Type κ} {A W : Type 0} (f : E → E') (x : Result E A × W) {a : A}
    → (or_err f x).0 ≡ ok a
    → x.0 ≡ ok a
or_err-ok f (ok b, w) h = cc
or_err-ok f (err e, w) h = cc

-- A guarded result is a value only if the guard has passed.
pub guarded-ok {ℓ κ} :
    {E : Type ℓ} {A : Type κ} (m n : ℕ) (e : E) {a b : A}
    → ◌≡◌ {A = Result E A} (if m == n then ok a else err e) (ok b)
    → (m ≡ n) × (b ≡ a)
guarded-ok m n e h = ground arith
