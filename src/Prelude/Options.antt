-- ===== src/Prelude/Options.antt =====
-- Go's `if err != nil { return err }` where the error is not told apart: `do` blocks of options.
use mathlib.Core.Option.{Option, none, some}

infixl 5 ◌>>=◌
abbrev pub ◌>>=◌ {ℓ κ} : {A : Type ℓ} {B : Type κ} → Option A → (A → Option B) → Option B
none >>= f = none
some a >>= f = f a
