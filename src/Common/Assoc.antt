-- ===== src/Common/Assoc.antt =====
-- A JavaScript `Map` or plain object used as one: entries in the order of their first insertion.
use mathlib.Core.Path.{◌≡◌, refl}
use mathlib.Core.Bool.{Bool, false, ◌||◌}
use mathlib.Core.List.{List, [], ◌∷◌, map}
use mathlib.Core.Option.{Option, none, some}
use native.Mathlib.Omega.{arith}
use django_channels_chat_rea.Common.Tests.{if◌then◌else◌}
use django_channels_chat_rea.Common.Equality.{Eq, ◌==◌, eq_iff, eq_refl}

module _ {ℓ κ} {K : Type ℓ} {V : Type κ} ⦃e : Eq K⦄ where
  unfoldable pub lookup : K → List (K × V) → Option V
  lookup key [] = none
  lookup key ((other, value) ∷ dict) = if other == key then some value else lookup key dict

  unfoldable pub has : K → List (K × V) → Bool
  has key [] = false
  has key ((other, value) ∷ dict) = other == key || has key dict

  unfoldable pub insert : K → V → List (K × V) → List (K × V)
  insert key value [] = (key, value) ∷ []
  insert key value ((other, old) ∷ dict) =
      if other == key then (key, value) ∷ dict else (other, old) ∷ insert key value dict

  -- `map.delete(key)`, which takes out every entry of the key.
  unfoldable pub delete : K → List (K × V) → List (K × V)
  delete key [] = []
  delete key ((other, old) ∷ dict) =
      if other == key then delete key dict else (other, old) ∷ delete key dict

  pub lookup-insert :
      (key other : K) (value : V) (dict : List (K × V))
      → lookup other (insert key value dict)
        ≡ (if key == other then some value else lookup other dict)
  unfolding lookup insert
  lookup-insert key other value [] = refl
  lookup-insert key other value ((held, old) ∷ dict) = ground (
    arith,
    eq_iff key other,
    eq_iff held key,
    eq_iff held other,
    lookup-insert key other value dict,
  )

  pub lookup-delete :
      (key other : K) (dict : List (K × V))
      → lookup other (delete key dict) ≡ (if key == other then none else lookup other dict)
  unfolding lookup delete
  lookup-delete key other [] = ground arith
  lookup-delete key other ((held, old) ∷ dict) =
      ground
        (arith, eq_iff key other, eq_iff held key, eq_iff held other, lookup-delete key other dict)

  pub delete-insert :
      (key : K) (value : V) (dict : List (K × V))
      → delete key (insert key value dict) ≡ delete key dict
  unfolding delete insert
  delete-insert key value [] = ground (arith, eq_refl key)
  delete-insert key value ((held, old) ∷ dict) =
      ground (arith, eq_refl key, delete-insert key value dict)

  pub delete_absent :
      (key : K) (dict : List (K × V)) → has key dict ≡ false → delete key dict ≡ dict
  unfolding has delete
  delete_absent key [] h = refl
  delete_absent key ((held, old) ∷ dict) h = ground (arith, delete_absent key dict)

abbrev pub keys {ℓ κ} : {K : Type ℓ} {V : Type κ} → List (K × V) → List K
keys dict = map (λ entry. entry.0) dict
