-- ===== src/Common/Decimal.antt =====
-- `String(n)` of a whole number.
use Prim.Native.Nat.{ℕ, zero, suc, ◌+◌, ◌/◌, ◌%◌}
use mathlib.Core.List.{[], ◌∷◌}
use django_channels_chat_rea.Common.Tests.{ltb, if◌then◌else◌}
use django_channels_chat_rea.Common.Int.{ℤ, pos, negsuc}
use django_channels_chat_rea.Common.Equality.{Text}

-- The digits of `n` in front of `rest`; a number has fewer digits than its successor, the fuel.
unfoldable pub show_from : ℕ → ℕ → Text → Text
show_from zero n rest = rest
show_from (suc fuel) n rest =
    let more = show_from fuel (n / 10) ((48 + n % 10) ∷ rest) in
    if ltb n 10 then (48 + n) ∷ rest else more

unfoldable pub show_ℕ : ℕ → Text
unfolding show_from
show_ℕ n = show_from (suc n) n []

unfoldable pub show_ℤ : ℤ → Text
unfolding show_ℕ
show_ℤ (pos n) = show_ℕ n
show_ℤ (negsuc n) = b'-' ∷ show_ℕ (suc n)
