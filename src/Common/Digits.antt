-- ===== src/Common/Digits.antt =====
-- The digits of `String(n)`: none is a space, and they stand for `n`.
use Prim.Native.Nat.{ℕ, zero, suc, ◌+◌, ◌-◌, ◌*◌, ◌/◌, ◌%◌, ◌≤◌}
use mathlib.Core.Path.{◌≡◌, refl, ap, ◌∙◌}
use mathlib.Core.Logic.{inl, inr}
use mathlib.Core.Bool.{Bool, true, false, ◌&&◌}
use mathlib.Core.List.{[], ◌∷◌, reverse, reverse-cons, reverse-reverse}
use native.Mathlib.Omega.{arith}
use django_channels_chat_rea.Common.Tests.{ltb, leb, Bool-cases}
use django_channels_chat_rea.Common.Lists.{any, any-append}
use django_channels_chat_rea.Common.Equality.{Text}
use django_channels_chat_rea.Common.Strings.{is_space, trim_start, trim, truthy}
use django_channels_chat_rea.Common.Decimal.{show_ℕ, show_from}

abbrev pub is_digit : ℕ → Bool
is_digit c = leb b'0' c && leb c b'9'

abbrev pub all_digits : Text → Bool
all_digits [] = true
all_digits (c ∷ s) = is_digit c && all_digits s

-- `/^\d+$/`
abbrev pub is_digits : Text → Bool
is_digits s = truthy s && all_digits s

-- `Number` of a text of digits, after those that `n` stands for.
abbrev pub parse_digits : ℕ → Text → ℕ
parse_digits n [] = n
parse_digits n (c ∷ s) = parse_digits (10 * n + (c - b'0')) s

show_from-digits :
    (fuel n : ℕ) (rest : Text) → is_digits rest ≡ true → is_digits (show_from fuel n rest) ≡ true
unfolding show_from
show_from-digits zero n rest h = h
show_from-digits (suc fuel) n rest h =
    ground (arith, h, show_from-digits fuel (n / 10) ((48 + n % 10) ∷ rest))

pub show_ℕ-digits : (n : ℕ) → is_digits (show_ℕ n) ≡ true
unfolding show_ℕ show_from
show_ℕ-digits n = ground (arith, show_from-digits n (n / 10) ((48 + n % 10) ∷ []))

parse-show_from :
    (fuel n : ℕ) (rest : Text)
    → suc n ≤ fuel
    → parse_digits 0 (show_from fuel n rest) ≡ parse_digits n rest
unfolding show_from
parse-show_from zero n rest l = ground arith
parse-show_from (suc fuel) n rest l = elim (Bool-cases (ltb n 10)) [
  | inl small ↦ rw small (ap (λ k. parse_digits k rest) (ground arith))
  | inr large ↦ rw large (
      parse-show_from fuel (n / 10) ((48 + n % 10) ∷ rest) (ground (arith, large, l))
      ∙ ap (λ k. parse_digits k rest) (ground arith))
]

-- The digits of a number stand for it.
pub parse-show : (n : ℕ) → parse_digits 0 (show_ℕ n) ≡ n
unfolding show_ℕ
parse-show n = parse-show_from (suc n) n [] (omega arith)

digits_without_space : (s : Text) → all_digits s ≡ true → any is_space s ≡ false
digits_without_space [] h = refl
digits_without_space (c ∷ s) h = ground (arith, h, digits_without_space s)

trim_start_without_space : (s : Text) → any is_space s ≡ false → trim_start s ≡ s
unfolding trim_start
trim_start_without_space [] h = refl
trim_start_without_space (c ∷ s) h = ground (arith, h)

any-reverse : (p : ℕ → Bool) (s : Text) → any p (reverse s) ≡ any p s
any-reverse p [] = refl
any-reverse p (c ∷ s) =
    ground (arith, reverse-cons c s, any-append p (reverse s) (c ∷ []), any-reverse p s)

trim_without_space : (s : Text) → any is_space s ≡ false → trim s ≡ s
unfolding trim
trim_without_space s h =
    rw
      (
        trim_start_without_space s h,
        trim_start_without_space (reverse s) (any-reverse is_space s ∙ h),
        reverse-reverse,
      )
      refl

-- Digits are as they are once trimmed.
pub trim-digits : (s : Text) → is_digits s ≡ true → trim s ≡ s
trim-digits s h = trim_without_space s (digits_without_space s (ground (arith, h)))

pub truthy-trim-show : (n : ℕ) → truthy (trim (show_ℕ n)) ≡ true
truthy-trim-show n = rw (trim-digits (show_ℕ n) (show_ℕ-digits n)) (ground (arith, show_ℕ-digits n))
