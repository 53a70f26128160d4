-- ===== src/Common/Options.antt =====
-- What chains results that may be missing.
use mathlib.Core.Option.{Option, none, some}

infixl 50 ◌>>=◌
abbrev pub ◌>>=◌ {ℓ κ} : {A : Type ℓ} {B : Type κ} → Option A → (A → Option B) → Option B
none >>= f = none
some a >>= f = f a
