-- ===== src/Deployer/Succeeds.antt =====
-- Statements about a run that comes to a value (deploy/src/main.rs).
use parity_bridge.Base.{◌≡◌, refl, subst, Option, none, some}
use parity_bridge.Error.{Result, ok, err}
use parity_bridge.Cli.Crates.{Outcome, continue, lift}

-- What holds of the value and the world, where there is a value.
pub record Succeeds {E A W : Type 0} (P : A → W → Type 0) (x : Outcome E A W) : Type 0 where
  pub on : (a : A) (w : W) → x ≡ some (ok a, w) → P a w

module _ {E A W : Type 0} (P : A → W → Type 0) where
  pub none-Succeeds : Succeeds {E = E} P none
  none-Succeeds = record { on = λ a w e. cc }

  pub err-Succeeds : (x : E) (w : W) → Succeeds P (some (err x, w))
  err-Succeeds x w = record { on = λ a v e. cc }

  pub ok-Succeeds : (a : A) (w : W) → P a w → Succeeds {E = E} P (some (ok a, w))
  ok-Succeeds a w h = record {
    on = λ b v e.
        let same : a ≡ b = cc in
        let where_ : w ≡ v = cc in subst (λ b. P b v) same (subst (λ v. P a v) where_ h);
  }

pub continue-Succeeds :
    {E A B W : Type 0} (Q : A → W → Type 0) (P : B → W → Type 0) (x : Outcome E A W)
    (k : A → W → Outcome E B W)
    → Succeeds Q x
    → ((a : A) (w : W) → Q a w → Succeeds P (k a w))
    → Succeeds P (continue x k)
unfolding continue
continue-Succeeds Q P none k h next = none-Succeeds P
continue-Succeeds Q P (some (ok a, w)) k h next = next a w (h.on a w refl)
continue-Succeeds Q P (some (err e, w)) k h next = err-Succeeds P e w

pub weaken-Succeeds :
    {E A W : Type 0} (Q P : A → W → Type 0) (x : Outcome E A W)
    → Succeeds Q x
    → ((a : A) (w : W) → Q a w → P a w)
    → Succeeds P x
weaken-Succeeds Q P x h f = record { on = λ a w e. f a w (h.on a w e) }

pub lift-Succeeds :
    {E A D V : Type 0} (P : A → V → Type 0) (x : Option (Result E A) × D) (around : D → V)
    → ((a : A) → x.0 ≡ some (ok a) → P a (around x.1))
    → Succeeds P (lift x around)
lift-Succeeds P (none, d) around h = none-Succeeds P
lift-Succeeds P (some (ok a), d) around h = ok-Succeeds P a (around d) (h a refl)
lift-Succeeds P (some (err e), d) around h = err-Succeeds P e (around d)
