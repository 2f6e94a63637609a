-- ===== src/Sanitize/Output.antt =====
-- sanitize.ts: tags, control characters and length of the text that comes out.
use mathlib.Core.List.{reverse, reverse-append, reverse-reverse}
use django_channels_chat_rea.Common.{
  ℕ, ◌≤◌, Text, trim, trim_start, is_space, [], ◌∷◌, ◌++◌, Bool, false, not, ◌&&◌, ◌||◌, filter,
  any, any-append, length, take, drop, take-append-drop, length-take-le, subst, ◌≡◌, refl, sym, ap,
  ◌∙◌, arith, Bool-cases, inl, inr,
}
use django_channels_chat_rea.Sanitize.{
  is_gt, is_lt, is_control, is_inside_after, strip_tags_from, clean, sanitize_text,
}

-- The text has a match of `/<[^>]*>/`: a "<" with a ">" after it.
abbrev pub has_tag : Text → Bool
has_tag [] = false
has_tag (c ∷ s) = (is_lt c && any is_gt s) || has_tag s

abbrev pub has_control : Text → Bool
has_control = any is_control

-- A test on texts that holds of no part of a text if it does not hold of the text.
record IsLocal (p : Text → Bool) : Type 0 where
  left : (s t : Text) → p (s ++ t) ≡ false → p s ≡ false
  right : (s t : Text) → p (s ++ t) ≡ false → p t ≡ false

has_tag-left : (s t : Text) → has_tag (s ++ t) ≡ false → has_tag s ≡ false
has_tag-left [] t h = refl
has_tag-left (c ∷ s) t h = ground (arith, any-append is_gt s t, has_tag-left s t)

has_tag-right : (s t : Text) → has_tag (s ++ t) ≡ false → has_tag t ≡ false
has_tag-right [] t h = h
has_tag-right (c ∷ s) t h = ground (arith, has_tag-right s t)

has_tag-IsLocal : IsLocal has_tag
has_tag-IsLocal = record { left = has_tag-left; right = has_tag-right }

has_control-IsLocal : IsLocal has_control
has_control-IsLocal = record {
  left = λ s t h. ground (arith, any-append is_control s t);
  right = λ s t h. ground (arith, any-append is_control s t);
}

-- `trim_start` takes a prefix off.
trim_start-append : (s : Text) → (p : Text) × (s ≡ p ++ trim_start s)
unfolding trim_start
trim_start-append [] = ([], refl)
trim_start-append (c ∷ s) = elim (Bool-cases (is_space c)) [
  | inl e ↦ let (p, eq) = trim_start-append s in (c ∷ p, rw e (ap (◌∷◌ c) eq))
  | inr e ↦ ([], rw e)
]

module _ (p : Text → Bool) (local : IsLocal p) where
  trim_start-local : (s : Text) → p s ≡ false → p (trim_start s) ≡ false
  trim_start-local s h =
      let (pre, eq) = trim_start-append s in
      local.right pre (trim_start s) (subst (λ t. p t ≡ false) eq h)

  trim-local : (s : Text) → p s ≡ false → p (trim s) ≡ false
  unfolding trim
  trim-local s h =
      let u = trim_start s in
      let (pre, eq) = trim_start-append (reverse u) in
      let whole : u ≡ reverse (trim_start (reverse u)) ++ reverse pre =
        sym (reverse-reverse u) ∙ ap reverse eq ∙ reverse-append pre (trim_start (reverse u)) in
      local.left (reverse (trim_start (reverse u))) (reverse pre)
        (subst (λ t. p t ≡ false) whole (trim_start-local s h))

  take-local : (n : ℕ) (s : Text) → p s ≡ false → p (take n s) ≡ false
  take-local n s h =
      local.left (take n s) (drop n s) (subst (λ t. p t ≡ false) (sym (take-append-drop n s)) h)

strip_tags_from-gt :
    (inside : Bool) (s : Text) → any is_gt s ≡ false → any is_gt (strip_tags_from inside s) ≡ false
unfolding strip_tags_from
strip_tags_from-gt inside [] h = refl
strip_tags_from-gt inside (c ∷ s) h =
    ground (arith, strip_tags_from-gt (is_inside_after inside c s) s)

strip_tags_from-tag : (inside : Bool) (s : Text) → has_tag (strip_tags_from inside s) ≡ false
unfolding strip_tags_from
strip_tags_from-tag inside [] = refl
strip_tags_from-tag inside (c ∷ s) = ground (
  arith,
  strip_tags_from-tag (is_inside_after inside c s) s,
  strip_tags_from-gt (is_inside_after inside c s) s,
)

filter-gt : (q : ℕ → Bool) (s : Text) → any is_gt s ≡ false → any is_gt (filter q s) ≡ false
filter-gt q [] h = refl
filter-gt q (c ∷ s) h = ground (arith, filter-gt q s)

filter-tag : (q : ℕ → Bool) (s : Text) → has_tag s ≡ false → has_tag (filter q s) ≡ false
filter-tag q [] h = refl
filter-tag q (c ∷ s) h = ground (arith, filter-tag q s, filter-gt q s)

filter-control : (s : Text) → has_control (filter (λ code. not (is_control code)) s) ≡ false
filter-control [] = refl
filter-control (c ∷ s) = elim (Bool-cases (is_control c)) [
  | inl e ↦ rw e (filter-control s)
  | inr e ↦ rw (e, e) (filter-control s)
]

clean-tag : (s : Text) → has_tag (clean s) ≡ false
unfolding clean
clean-tag s =
    trim-local has_tag has_tag-IsLocal _
      (filter-tag _ (strip_tags_from false s) (strip_tags_from-tag false s))

clean-control : (s : Text) → has_control (clean s) ≡ false
unfolding clean
clean-control s =
    trim-local has_control has_control-IsLocal _ (filter-control (strip_tags_from false s))

-- Whatever the input, the text that is shown has at most `max_len` code units, no match of the tag
-- pattern, also none that the stripping has brought together, and no control character.
pub sanitize_text-IsClean :
    (input : Text) (max_len : ℕ)
    → let shown = sanitize_text input max_len in
      (length shown ≤ max_len) × (has_tag shown ≡ false) × (has_control shown ≡ false)
unfolding sanitize_text
sanitize_text-IsClean input max_len =
    let s = clean input in
    (
      ground (arith, length-take-le max_len s),
      ground (arith, clean-tag input, take-local has_tag has_tag-IsLocal max_len s),
      ground (arith, clean-control input, take-local has_control has_control-IsLocal max_len s),
    )
