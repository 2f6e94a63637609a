-- ===== src/Common/Keys.antt =====
-- Dictionaries without repeated keys, and predicates on every key.
use mathlib.Core.Path.{◌≡◌, refl}
use mathlib.Core.Bool.{false, ◌||◌, ◌&&◌, not}
use mathlib.Core.List.{List, [], ◌∷◌, ◌++◌}
use mathlib.Core.Option.{none}
use native.Mathlib.Omega.{arith}
use django_channels_chat_rea.Common.Tests.{if◌then◌else◌}
use django_channels_chat_rea.Common.Lists.{All, any, filter}
use django_channels_chat_rea.Common.Equality.{Eq, ◌==◌, eq_iff}
use django_channels_chat_rea.Common.Assoc.{has, lookup, insert, delete, keys}

module _ {ℓ κ} {K : Type ℓ} {V : Type κ} ⦃e : Eq K⦄ where
  pub has-keys : (k : K) (m : List (K × V)) → has k m ≡ any (λ j. j == k) (keys m)
  unfolding has
  has-keys k [] = refl
  has-keys k ((j, v) ∷ m) = ground (arith, has-keys k m)

  pub keys-insert :
      (k : K) (v : V) (m : List (K × V))
      → keys (insert k v m) ≡ (if any (λ j. j == k) (keys m) then keys m else keys m ++ k ∷ [])
  unfolding insert
  keys-insert k v [] = refl
  keys-insert k v ((j, w) ∷ m) = ground (arith, eq_iff j k, keys-insert k v m)

  pub keys-delete :
      (k : K) (m : List (K × V)) → keys (delete k m) ≡ filter (λ j. not (j == k)) (keys m)
  unfolding delete
  keys-delete k [] = refl
  keys-delete k ((j, w) ∷ m) = ground (arith, keys-delete k m)

  -- No key stands twice.
  abbrev pub Distinct : List (K × V) → Type 0
  Distinct [] = Unit
  Distinct ((k, v) ∷ m) = (has k m ≡ false) × Distinct m

  pub has-insert : (k j : K) (v : V) (m : List (K × V)) → has j (insert k v m) ≡ (k == j || has j m)
  unfolding has insert
  has-insert k j v [] = refl
  has-insert k j v ((i, w) ∷ m) =
      ground (arith, eq_iff k j, eq_iff i k, eq_iff i j, has-insert k j v m)

  pub has-delete : (k j : K) (m : List (K × V)) → has j (delete k m) ≡ (not (k == j) && has j m)
  unfolding has delete
  has-delete k j [] = ground arith
  has-delete k j ((i, w) ∷ m) = ground (arith, eq_iff k j, eq_iff i k, eq_iff i j, has-delete k j m)

  pub insert-Distinct : (k : K) (v : V) (m : List (K × V)) → Distinct m → Distinct (insert k v m)
  unfolding has insert
  insert-Distinct k v [] h = (refl, tt)
  insert-Distinct k v ((i, w) ∷ m) h =
      ground (arith, eq_iff i k, eq_iff k i, insert-Distinct k v m h.1, has-insert k i v m)

  pub delete-Distinct : (k : K) (m : List (K × V)) → Distinct m → Distinct (delete k m)
  unfolding has delete
  delete-Distinct k [] h = tt
  delete-Distinct k ((i, w) ∷ m) h =
      ground (arith, eq_iff k i, delete-Distinct k m h.1, has-delete k i m)

  pub lookup_absent : (k : K) (m : List (K × V)) → has k m ≡ false → lookup k m ≡ none
  unfolding has lookup
  lookup_absent k [] h = refl
  lookup_absent k ((i, w) ∷ m) h = ground (arith, lookup_absent k m)

  module _ {μ} (P : K → Type μ) where
    pub insert-All :
        (k : K) (v : V) (m : List (K × V))
        → P k
        → All (λ (e : K × V). P e.0) m
        → All (λ (e : K × V). P e.0) (insert k v m)
    unfolding insert
    insert-All k v [] p h = (p, tt)
    insert-All k v ((i, w) ∷ m) p h = ground (arith, insert-All k v m p h.1)

    pub delete-All :
        (k : K) (m : List (K × V))
        → All (λ (e : K × V). P e.0) m
        → All (λ (e : K × V). P e.0) (delete k m)
    unfolding delete
    delete-All k [] h = tt
    delete-All k ((i, w) ∷ m) h = ground (arith, delete-All k m h.1)
