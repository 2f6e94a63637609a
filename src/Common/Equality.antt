-- ===== src/Common/Equality.antt =====
-- Equality with its law as an interface, and its instances: one `==` for numbers, ids and text.
use Prim.Native.Nat.{ℕ}
use mathlib.Core.Path.{◌≡◌, refl}
use mathlib.Core.Logic.{◌↔◌}
use mathlib.Core.Bool.{Bool, true, false, ◌&&◌}
use mathlib.Core.List.{List, [], ◌∷◌}
use native.Mathlib.Omega.{arith}
use django_channels_chat_rea.Common.Tests.{nat_beq, nat_beq_iff}
use django_channels_chat_rea.Common.Int.{ℤ, int_beq, int_beq_iff}

pub record Eq {κ} (A : Type κ) : Type κ where
  pub test : (x y : A) → Bool
  -- The test tells exactly whether two values are the same.
  pub test_iff : (x y : A) → (test x y ≡ true) ↔ (x ≡ y)

infix 50 ◌==◌
abbrev pub ◌==◌ {κ} : {A : Type κ} ⦃law : Eq A⦄ → (x y : A) → Bool
◌==◌ ⦃law⦄ = law.test

pub eq_iff {ℓ} : {A : Type ℓ} ⦃law : Eq A⦄ (a b : A) → ((a == b) ≡ true) ↔ (a ≡ b)
eq_iff ⦃law⦄ = law.test_iff

pub eq_refl {ℓ} : {A : Type ℓ} ⦃law : Eq A⦄ (a : A) → (a == a) ≡ true
eq_refl a = (eq_iff a a).1 refl

-- A JavaScript string, by its UTF-16 code units.
abbrev pub Text : Type 0
Text = List ℕ

unfoldable pub text_beq : Text → Text → Bool
text_beq [] [] = true
text_beq (a ∷ s) (b ∷ t) = nat_beq a b && text_beq s t
text_beq _ _ = false

pub text_beq_iff : (s t : Text) → (text_beq s t ≡ true) ↔ (s ≡ t)
unfolding text_beq
text_beq_iff [] [] = ground arith
text_beq_iff (a ∷ s) (b ∷ t) = ground (arith, text_beq_iff s t)
text_beq_iff [] (b ∷ t) = ground arith
text_beq_iff (a ∷ s) [] = ground arith

instance abbrev pub nat_eq : Eq ℕ
nat_eq = record { test = nat_beq; test_iff = nat_beq_iff }

instance abbrev pub int_eq : Eq ℤ
int_eq = record { test = int_beq; test_iff = int_beq_iff }

instance abbrev pub text_eq : Eq Text
text_eq = record { test = text_beq; test_iff = text_beq_iff }
