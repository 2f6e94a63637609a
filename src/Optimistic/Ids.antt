-- ===== src/Optimistic/Ids.antt =====
-- optimisticMessages.ts: the ids in the list, when a message is reconciled.
use django_channels_chat_rea.Common.{
  Text, ℤ, text_eq, int_eq, truthy, Option, none, some, List, [], ◌∷◌, ◌++◌, Bool, true, false, not,
  ◌&&◌, ◌||◌, ◌==◌, ◌≡◌, refl, arith, eq_iff, any, any-append, Bool-cases, inl, inr,
}
use django_channels_chat_rea.Message.{Message}
use django_channels_chat_rea.Optimistic.{
  has_message, has_client_id, replace_all, append_new, reconcile_by, reconcile_optimistic_message,
}

-- No two messages have the same id.
abbrev pub DistinctIds : List Message → Type 0
DistinctIds [] = Unit
DistinctIds (m ∷ ms) = (has_message m.id ms ≡ false) × DistinctIds ms

-- One message at most was sent under the client id.
abbrev pub SentOnce : Text → List Message → Type 0
SentOnce c [] = Unit
SentOnce c (m ∷ ms) = (has_client_id c m ≡ true → any (has_client_id c) ms ≡ false) × SentOnce c ms

abbrev pub SentOnceBy : Option Text → List Message → Type 0
SentOnceBy none ms = Unit
SentOnceBy (some c) ms = SentOnce c ms

module _ (c : Text) (s : Message) where
  replace_all-has_not :
      (b : Bool) (j : ℤ) (ms : List Message)
      → (b || not (j == s.id)) ≡ true
      → has_message j ms ≡ false
      → has_message j (replace_all c s b ms) ≡ false
  unfolding replace_all
  replace_all-has_not b j [] t h = refl
  replace_all-has_not b j (m ∷ ms) t h = ground (
    arith,
    eq_iff m.id s.id,
    eq_iff s.id j,
    eq_iff j s.id,
    eq_iff m.id j,
    replace_all-has_not b j ms,
  )

  replace_all-DistinctIds_known :
      (ms : List Message) → DistinctIds ms → DistinctIds (replace_all c s true ms)
  unfolding replace_all
  replace_all-DistinctIds_known [] d = tt
  replace_all-DistinctIds_known (m ∷ ms) d = ground (
    arith,
    eq_iff m.id s.id,
    replace_all-has_not true m.id ms refl d.0,
    replace_all-DistinctIds_known ms d.1,
  )

  replace_all_alone :
      (b : Bool) (ms : List Message) → any (has_client_id c) ms ≡ false → replace_all c s b ms ≡ ms
  unfolding replace_all
  replace_all_alone b [] h = refl
  replace_all_alone b (m ∷ ms) h = ground (arith, replace_all_alone b ms)

  replace_all-DistinctIds_new :
      (ms : List Message)
      → has_message s.id ms ≡ false
      → SentOnce c ms
      → DistinctIds ms
      → DistinctIds (replace_all c s false ms)
  unfolding replace_all
  replace_all-DistinctIds_new [] n o d = tt
  replace_all-DistinctIds_new (m ∷ ms) n o d = ground (
    arith,
    o.0,
    eq_iff m.id s.id,
    replace_all_alone false ms,
    replace_all-has_not false m.id ms,
    replace_all-DistinctIds_new ms,
  )

concat-DistinctIds :
    (ms : List Message) (s : Message)
    → has_message s.id ms ≡ false
    → DistinctIds ms
    → DistinctIds (ms ++ s ∷ [])
concat-DistinctIds [] s n d = (refl, tt)
concat-DistinctIds (m ∷ ms) s n d = ground (
  arith,
  eq_iff m.id s.id,
  eq_iff s.id m.id,
  any-append (λ (x : Message). x.id == m.id) ms (s ∷ []),
  concat-DistinctIds ms s,
)

append_new-DistinctIds :
    (ms : List Message) (s : Message) → DistinctIds ms → DistinctIds (append_new ms s)
unfolding append_new
append_new-DistinctIds ms s d = ground (arith, concat-DistinctIds ms s)

replace_all-DistinctIds :
    (c : Text) (s : Message) (b : Bool) (ms : List Message)
    → has_message s.id ms ≡ b
    → SentOnce c ms
    → DistinctIds ms
    → DistinctIds (replace_all c s b ms)
replace_all-DistinctIds c s true ms h o d = replace_all-DistinctIds_known c s ms d
replace_all-DistinctIds c s false ms h o d = replace_all-DistinctIds_new c s ms h o d

reconcile_by-DistinctIds :
    (id : Option Text) (ms : List Message) (s : Message)
    → SentOnceBy id ms
    → DistinctIds ms
    → DistinctIds (reconcile_by id ms s)
unfolding reconcile_by
reconcile_by-DistinctIds none ms s o d = append_new-DistinctIds ms s d
reconcile_by-DistinctIds (some c) ms s o d =
    elim (Bool-cases (truthy c && any (has_client_id c) ms)) [
      | inl here ↦ simp here (replace_all-DistinctIds c s (has_message s.id ms) ms refl o d)
      | inr away ↦ simp away (append_new-DistinctIds ms s d)
    ]

-- If the ids in the list are distinct and the client used its id for one message at most, the ids
-- are distinct after the server message has come in, whether it replaces, joins or repeats one.
pub reconcile_optimistic_message-DistinctIds :
    (ms : List Message) (s : Message)
    → SentOnceBy s.client_message_id ms
    → DistinctIds ms
    → DistinctIds (reconcile_optimistic_message ms s)
unfolding reconcile_optimistic_message
reconcile_optimistic_message-DistinctIds ms s o d =
    reconcile_by-DistinctIds s.client_message_id ms s o d
