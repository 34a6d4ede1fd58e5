-- ===== src/Prelude/Decimal.antt =====
-- Decimal text of a number, as `%d` prints it.
use Prim.Native.Nat.{ℕ, zero, suc, ◌+◌, ◌/◌, ◌%◌}
use mathlib.Core.List.{[], ◌∷◌, ◌++◌}
use relkit.Prelude.Tests.{ltb, if◌then◌else◌}
use relkit.Prelude.Strings.{Str}

-- Fuel above the number is enough: each round divides it by ten.
unfoldable pub digits_on_fuel : ℕ → ℕ → Str
digits_on_fuel zero n = []
digits_on_fuel (suc fuel) n =
    let front = digits_on_fuel fuel (n / 10) in
    if ltb n 10 then (n + 48) ∷ [] else front ++ (n % 10 + 48) ∷ []

unfoldable pub decimal : ℕ → Str
unfolding digits_on_fuel
decimal n = digits_on_fuel (suc n) n
