-- ===== src/PageRead/Jump.antt =====
-- useChatRoomPageReadState.ts: when loading back to a message ends, and that it finds the message.
use django_channels_chat_rea.Common.{
  ℕ, zero, suc, ◌+◌, ◌≤◌, leb, ℤ, int_eq, Option, true, false, ◌≡◌, ◌⊎◌, refl, sym, ◌∙◌, subst,
  arith, head?, Bool-cases, inl, inr, if◌then◌else◌,
}
use mathlib.Core.Bool.{false≢true}
use django_channels_chat_rea.PageRead.History.{
  History, is_loaded, same_oldest, look_back, search, ensure_message_loaded,
}

module _ (message_id : ℤ) (at : ℕ → History) where
  abbrev pub oldest : ℕ → Option ℤ
  oldest n = head? (at n).message_ids

  -- The loop ends after at most `left` more attempts, with at most one call of `loadMore` for each.
  look_back-bounds :
      (left attempts loads no_progress : ℕ) (previous : Option ℤ)
      → loads ≤ attempts
      → let found = look_back message_id at left attempts loads no_progress previous in
        (found.attempts ≤ attempts + left) × (found.loads ≤ found.attempts)
  unfolding look_back
  look_back-bounds zero attempts loads no_progress previous l = ground (arith, l)
  look_back-bounds (suc left) attempts loads no_progress previous l =
      let loaded = if (at attempts).loading_more then loads else loads + 1 in
      ground (
        arith,
        l,
        look_back-bounds left (suc attempts) loaded (no_progress + 1) previous,
        look_back-bounds left (suc attempts) loaded 0 (oldest (suc attempts)),
      )

  -- Loading back ends after at most 60 waits, and calls `loadMore` at most once before each.
  pub search-bounds :
      ((search message_id at).attempts ≤ 60)
      × ((search message_id at).loads ≤ (search message_id at).attempts)
  unfolding search
  search-bounds = look_back-bounds 60 0 0 0 (oldest 0) (omega arith)

  not_yet :
      (attempts target : ℕ)
      → attempts ≤ target
      → is_loaded message_id (at target) ≡ true
      → is_loaded message_id (at attempts) ≡ false
      → suc attempts ≤ target
  not_yet attempts target l there absent = elim (Bool-cases (leb target attempts)) [
    | inl reached ↦
        let same : target ≡ attempts = ground (arith, l, reached) in
        ground (arith, absent, subst (λ n. is_loaded message_id (at n) ≡ true) same there)
    | inr before ↦ ground (arith, before)
  ]

  look_back-finds :
      (left attempts loads no_progress target : ℕ)
      → attempts ≤ target
      → target ≤ attempts + left
      → is_loaded message_id (at target) ≡ true
      → ((n : ℕ) → suc n ≤ target → (at n).has_more ≡ true)
      → ((n : ℕ) → suc n ≤ target → same_oldest (oldest (suc n)) (oldest n) ≡ false)
      → is_loaded message_id
          (at (look_back message_id at left attempts loads no_progress (oldest attempts)).attempts)
        ≡ true
  unfolding look_back
  look_back-finds zero attempts loads no_progress target l u there pages moves =
      subst (λ n. is_loaded message_id (at n) ≡ true) (ground (arith, l, u)) there
  look_back-finds (suc left) attempts loads no_progress target l u there pages moves =
      elim (Bool-cases (is_loaded message_id (at attempts))) [
        | inl here ↦ rw here here
        | inr absent ↦
            let later = not_yet attempts target l there absent in
            rw (absent, pages attempts later, moves attempts later)
              (look_back-finds left (suc attempts)
                (if (at attempts).loading_more then loads else loads + 1) 0 target later
                (omega arith) there pages moves)
      ]

  -- Where the message is there after so many waits, at most 60, and before that there is always more
  -- history and each wait brings another oldest message: loading back finds the message.
  pub ensure_message_loaded-finds :
      (target : ℕ)
      → target ≤ 60
      → is_loaded message_id (at target) ≡ true
      → ((n : ℕ) → suc n ≤ target → (at n).has_more ≡ true)
      → ((n : ℕ) → suc n ≤ target → same_oldest (oldest (suc n)) (oldest n) ≡ false)
      → ensure_message_loaded message_id at ≡ true
  unfolding ensure_message_loaded search
  ensure_message_loaded-finds target u there pages moves =
      look_back-finds 60 0 0 0 target (omega arith) u there pages moves

  -- The last two waits have left the oldest message as it was.
  abbrev pub HasStalled : ℕ → Type 0
  HasStalled (suc (suc n)) =
      (same_oldest (oldest (suc (suc n))) (oldest n) ≡ true)
      × (same_oldest (oldest (suc n)) (oldest n) ≡ true)
  HasStalled _ = ⊥

  abbrev pub HasEnded : ℕ → Type 0
  HasEnded attempts =
      (is_loaded message_id (at attempts) ≡ true)
      ⊎ ((at attempts).has_more ≡ false)
      ⊎ (attempts ≡ 60)
      ⊎ HasStalled attempts

  -- What the loop remembers of its waits.
  abbrev Trail : ℕ → ℕ → Option ℤ → Type 0
  Trail attempts zero previous = previous ≡ oldest attempts
  Trail (suc n) (suc zero) previous =
      (previous ≡ oldest n) × (same_oldest (oldest (suc n)) previous ≡ true)
  Trail _ _ previous = ⊥

  has_stalled :
      (attempts : ℕ) (previous : Option ℤ)
      → Trail attempts 1 previous
      → same_oldest (oldest (suc attempts)) previous ≡ true
      → HasStalled (suc attempts)
  has_stalled zero previous trail same = elim trail [ ]
  has_stalled (suc n) previous trail same = (
    subst (λ p. same_oldest (oldest (suc (suc n))) p ≡ true) trail.0 same,
    subst (λ p. same_oldest (oldest (suc n)) p ≡ true) trail.0 trail.1,
  )

  impossible : (attempts n : ℕ) (previous : Option ℤ) → Trail attempts (suc (suc n)) previous → ⊥
  impossible zero n previous trail = trail
  impossible (suc attempts) n previous trail = trail

  look_back-HasEnded :
      (left attempts loads no_progress : ℕ) (previous : Option ℤ)
      → attempts + left ≡ 60
      → Trail attempts no_progress previous
      → HasEnded (look_back message_id at left attempts loads no_progress previous).attempts
  unfolding look_back
  look_back-HasEnded zero attempts loads no_progress previous l trail =
      inr (inr (inl (ground (arith, l))))
  look_back-HasEnded (suc left) attempts loads zero previous l trail =
      elim (Bool-cases (is_loaded message_id (at attempts))) [
        | inl here ↦ rw here (inl here)
        | inr absent ↦ elim (Bool-cases (at attempts).has_more) [
          | inr over ↦ rw (absent, over) (inr (inl over))
          | inl more ↦ elim (Bool-cases (same_oldest (oldest (suc attempts)) previous)) [
            | inr moved ↦
                rw (absent, more, moved)
                  (look_back-HasEnded left (suc attempts)
                    (if (at attempts).loading_more then loads else loads + 1) 0
                    (oldest (suc attempts)) (ground (arith, l)) refl)
            | inl same ↦
                rw (absent, more, same)
                  (look_back-HasEnded left (suc attempts)
                    (if (at attempts).loading_more then loads else loads + 1) 1 previous
                    (ground (arith, l)) (trail, same))
          ]
        ]
      ]
  look_back-HasEnded (suc left) attempts loads (suc zero) previous l trail =
      elim (Bool-cases (is_loaded message_id (at attempts))) [
        | inl here ↦ rw here (inl here)
        | inr absent ↦ elim (Bool-cases (at attempts).has_more) [
          | inr over ↦ rw (absent, over) (inr (inl over))
          | inl more ↦ elim (Bool-cases (same_oldest (oldest (suc attempts)) previous)) [
            | inr moved ↦
                rw (absent, more, moved)
                  (look_back-HasEnded left (suc attempts)
                    (if (at attempts).loading_more then loads else loads + 1) 0
                    (oldest (suc attempts)) (ground (arith, l)) refl)
            | inl same ↦
                rw (absent, more, same) (inr (inr (inr (has_stalled attempts previous trail same))))
          ]
        ]
      ]
  look_back-HasEnded (suc left) attempts loads (suc (suc n)) previous l trail =
      absurd (impossible attempts n previous trail)

  -- Where loading back does not find the message, there is no more history, or it has waited 60 times, or
  -- the last two waits have left the oldest message as it was.
  pub ensure_message_loaded-fails :
      ensure_message_loaded message_id at ≡ false
      → let n = (search message_id at).attempts in
        ((at n).has_more ≡ false) ⊎ (n ≡ 60) ⊎ HasStalled n
  unfolding ensure_message_loaded search
  ensure_message_loaded-fails h = elim (look_back-HasEnded 60 0 0 0 (oldest 0) refl refl) [
    | inl found ↦ absurd (false≢true (sym h ∙ found))
    | inr ended ↦ ended
  ]
