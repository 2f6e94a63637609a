-- ===== src/ReadTracker/Advance.antt =====
-- readTracker.ts: the loop of `computeNextLastReadMessageId`.
use django_channels_chat_rea.Common.{
  ℕ, ◌≤◌, pos, ◌≤ℤ◌, Text, Option, some, List, [], ◌∷◌, Bool, true, ◌&&◌, ◌≡◌, refl, ◌⊎◌, inl,
  arith, All, All-filtered, filter,
}
use django_channels_chat_rea.Message.{Message}
use django_channels_chat_rea.Number.{Number, normalize_last_read_message_id}
use django_channels_chat_rea.ReadTracker.{
  is_foreign_message, has_id, advance, advance_all, compute_next_last_read_message_id,
}

module _ (lower : Text → Text) (actor : Option Text) (visible : List Number) where
  -- A message of somebody else that stands in the viewport.
  abbrev pub is_read_now : Message → Bool
  is_read_now m = is_foreign_message lower m actor && has_id m.id visible

  -- `result` is the id of a message of the list that is read now.
  abbrev pub IsIdOf : ℕ → List Message → Type 0
  IsIdOf result [] = ⊥
  IsIdOf result (m ∷ ms) = ((is_read_now m ≡ true) × (m.id ≡ pos result)) ⊎ IsIdOf result ms

  advance_cases :
      (next : ℕ) (m : Message)
      → (next ≤ advance lower actor visible next m)
        × (is_read_now m ≡ true → m.id ≤ℤ pos (advance lower actor visible next m))
        × ((advance lower actor visible next m ≡ next)
            ⊎ ((is_read_now m ≡ true) × (m.id ≡ pos (advance lower actor visible next m))))
  unfolding advance
  advance_cases next m = ground arith

  pub advance_all-le :
      (next : ℕ) (ms : List Message) → next ≤ advance_all lower actor visible next ms
  unfolding advance_all
  advance_all-le next [] = omega arith
  advance_all-le next (m ∷ ms) =
      omega
        (arith, (advance_cases next m).0, advance_all-le (advance lower actor visible next m) ms)

  advance_all-bound :
      (next : ℕ) (ms : List Message)
      → All (λ m. is_read_now m ≡ true → m.id ≤ℤ pos (advance_all lower actor visible next ms)) ms
  unfolding advance_all
  advance_all-bound next [] = tt
  advance_all-bound next (m ∷ ms) =
      let step = advance_cases next m in
      let later = advance_all-le (advance lower actor visible next m) ms in
      (
        λ h. let bound = step.1 h in omega (arith, bound, later),
        advance_all-bound (advance lower actor visible next m) ms,
      )

  advance_all-IsIdOf :
      (next : ℕ) (ms : List Message)
      → (advance_all lower actor visible next ms ≡ next)
        ⊎ IsIdOf (advance_all lower actor visible next ms) ms
  unfolding advance_all
  advance_all-IsIdOf next [] = inl refl
  advance_all-IsIdOf next (m ∷ ms) =
      ground
        (arith, advance_cases next m, advance_all-IsIdOf (advance lower actor visible next m) ms)

-- Whatever the order of the messages, the result is the greatest of the normalised previous value
-- and the ids of the visible messages of others: none of these is above it, and it is one of them.
pub compute_next_last_read_message_id-max :
    (lower : Text → Text) (actor : Option Text) (visible : List Number) (ms : List Message)
    (previous : Number)
    → let before = normalize_last_read_message_id (some previous) in
      let result = compute_next_last_read_message_id lower actor ms previous visible in
      (before ≤ result)
      × All (λ m. m.id ≤ℤ pos result) (filter (is_read_now lower actor visible) ms)
      × ((result ≡ before) ⊎ IsIdOf lower actor visible result ms)
unfolding compute_next_last_read_message_id
compute_next_last_read_message_id-max lower actor visible ms previous =
    let before = normalize_last_read_message_id (some previous) in
    (
      advance_all-le lower actor visible before ms,
      All-filtered
          (λ m. m.id ≤ℤ pos (compute_next_last_read_message_id lower actor ms previous visible))
          (is_read_now lower actor visible) ms (advance_all-bound lower actor visible before ms),
      advance_all-IsIdOf lower actor visible before ms,
    )
