-- ===== src/Common/Strings.antt =====
-- The parts of JavaScript's `String` that the program uses. `toLowerCase` on all of Unicode is a
-- parameter of what uses it.
use Prim.Native.Char.{code}
use Prim.Native.String.{String}
use Prim.Native.Nat.{ℕ}
use mathlib.Core.Bool.{Bool, true, false, ◌&&◌, ◌||◌}
use mathlib.Core.List.{[], ◌∷◌, reverse}
use django_channels_chat_rea.Common.Tests.{if◌then◌else◌, leb, nat_beq}
use django_channels_chat_rea.Common.Equality.{Text}

-- The code units of a literal of this development, all of the basic plane.
abbrev pub codes : String → Text
codes String.[] = []
codes (String.◌∷◌ unit units) = code unit ∷ codes units

-- White space and line terminators, as `trim` takes them off.
abbrev pub is_space : ℕ → Bool
is_space c =
    (leb 9 c && leb c 13)
    || nat_beq c 32
    || nat_beq c 0xA0
    || nat_beq c 0x1680
    || (leb 0x2000 c && leb c 0x200A)
    || nat_beq c 0x2028
    || nat_beq c 0x2029
    || nat_beq c 0x202F
    || nat_beq c 0x205F
    || nat_beq c 0x3000
    || nat_beq c 0xFEFF

unfoldable pub trim_start : Text → Text
trim_start [] = []
trim_start (c ∷ s) = if is_space c then trim_start s else c ∷ s

unfoldable pub trim : Text → Text
unfolding trim_start
trim s = reverse (trim_start (reverse (trim_start s)))

-- A string in a condition: only the empty one is false.
abbrev pub truthy : Text → Bool
truthy [] = false
truthy (c ∷ s) = true

abbrev pub starts_with : Text → Text → Bool
starts_with s [] = true
starts_with [] (p ∷ ps) = false
starts_with (c ∷ s) (p ∷ ps) = nat_beq c p && starts_with s ps

-- `a || b` on strings.
abbrev pub or_text : Text → Text → Text
or_text [] b = b
or_text (c ∷ s) b = c ∷ s
