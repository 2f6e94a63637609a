-- ===== src/Common/Trimming.antt =====
-- `trim` leaves nothing to trim.
use mathlib.Core.Path.{◌≡◌, refl, ap}
use mathlib.Core.Logic.{inl, inr}
use mathlib.Core.Bool.{false}
use mathlib.Core.List.{[], ◌∷◌, ◌++◌, reverse, reverse-cons, reverse-append, reverse-reverse}
use Prim.Native.Nat.{ℕ}
use django_channels_chat_rea.Common.Tests.{Bool-cases}
use django_channels_chat_rea.Common.Equality.{Text}
use django_channels_chat_rea.Common.Strings.{is_space, trim_start, trim}

-- The text is empty, or begins with a unit that is no space.
abbrev StartsSolid : Text → Type 0
StartsSolid [] = Unit
StartsSolid (c ∷ s) = is_space c ≡ false

trim_start-StartsSolid : (s : Text) → StartsSolid (trim_start s)
unfolding trim_start
trim_start-StartsSolid [] = tt
trim_start-StartsSolid (c ∷ s) = elim (Bool-cases (is_space c)) [
  | inl e ↦ rw e (trim_start-StartsSolid s)
  | inr e ↦ rw e e
]

trim_start_of_solid : (s : Text) → StartsSolid s → trim_start s ≡ s
unfolding trim_start
trim_start_of_solid [] h = refl
trim_start_of_solid (c ∷ s) h = rw h

trim_start-concat :
    (s : Text) (c : ℕ) → is_space c ≡ false → trim_start (s ++ c ∷ []) ≡ trim_start s ++ c ∷ []
unfolding trim_start
trim_start-concat [] c h = rw h
trim_start-concat (d ∷ s) c h = elim (Bool-cases (is_space d)) [
  | inl e ↦ rw e (trim_start-concat s c h)
  | inr e ↦ rw e
]

trim-StartsSolid : (s : Text) → StartsSolid s → StartsSolid (reverse (trim_start (reverse s)))
unfolding trim_start
trim-StartsSolid [] h = tt
trim-StartsSolid (c ∷ s) h =
    rw
      (
        reverse-cons c s,
        trim_start-concat (reverse s) c h,
        reverse-append (trim_start (reverse s)) (c ∷ []),
      )
      h

pub trim_idem : (s : Text) → trim (trim s) ≡ trim s
unfolding trim
trim_idem s =
    let solid = trim-StartsSolid (trim_start s) (trim_start-StartsSolid s) in
    rw (trim_start_of_solid (trim s) solid, reverse-reverse)
      (ap reverse (trim_start_of_solid _ (trim_start-StartsSolid (reverse (trim_start s)))))
