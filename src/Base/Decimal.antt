-- ===== src/Base/Decimal.antt =====
-- Decimal print of a number, and the padding of `{:02}` and `{:04}`.
use Prim.Native.Nat.{ℕ, zero, suc, ◌+◌, ◌-◌, ◌/◌, ◌%◌}
use mathlib.Core.Bool.{true, false}
use mathlib.Core.List.{[], ◌∷◌, ◌++◌}
use majutsu.Base.Tests.{ltb}
use majutsu.Base.Lists.{length}
use majutsu.Base.Text.{Str}

-- The digits of `n` in front of `out`; a round takes one digit, so `n + 1` rounds are enough.
unfoldable pub digits_from : ℕ → ℕ → Str → Str
digits_from zero n out = out
digits_from (suc fuel) n out = elim (ltb n 10) [
  | true ↦ (b'0' + n) ∷ out
  | false ↦ digits_from fuel (n / 10) ((b'0' + n % 10) ∷ out)
]

unfoldable pub decimal : ℕ → Str
unfolding digits_from
decimal n = digits_from (suc n) n []

unfoldable pub zeros : ℕ → Str
zeros zero = []
zeros (suc n) = b'0' ∷ zeros n

unfoldable pub padded : ℕ → ℕ → Str
unfolding decimal zeros
padded width n = zeros (width - length (decimal n)) ++ decimal n
