-- ===== src/Prelude/Fallible.antt =====
-- Code that may not return: `none` stands for a loop without end or an `assert` that aborts.
use mathlib.Core.Option.{Option, none, some}
use mathlib.Core.Path.{◌≡◌}

infixl 5 ◌>>=◌
abbrev pub ◌>>=◌ {ℓ κ} : {A : Type ℓ} {B : Type κ} → Option A → (A → Option B) → Option B
none >>= f = none
some a >>= f = f a

pub some_returns {ℓ} : {A : Type ℓ} (a b : A) → some a ≡ some b → a ≡ b
some_returns a b e = cc
