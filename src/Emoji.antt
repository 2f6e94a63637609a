-- ===== src/Emoji.antt =====
-- frontend/src/shared/customEmojiParser.ts: tokens of custom emoji in a text. `encode` and `decode` are
-- encodeURIComponent and decodeURIComponent, the second none where it throws, and `catalog` is
-- getCustomEmojiById, over the generated catalogue.
pub mod Spelling
use django_channels_chat_rea.Common.{
  ℕ, zero, suc, ◌-◌, nat_beq, Text, trim, truthy, starts_with, drop, length, codes, Option, none,
  some, List, [], ◌∷◌, ◌++◌, Bool, true, false, not, ◌&&◌, if◌then◌else◌,
}

-- `CustomEmojiTextPart`
pub data Part {ℓ} (E : Type ℓ) : Type ℓ where
  text : Text → Part E
  emoji : E → Part E

abbrev pub prefix : Text
prefix = codes "[[ce:"

abbrev pub suffix : Text
suffix = codes "]]"

-- The token of an id that is encoded.
abbrev pub token : Text → Text
token encoded = prefix ++ (encoded ++ suffix)

unfoldable pub build_custom_emoji_token : (Text → Text) → Text → Text
build_custom_emoji_token encode id = token (encode id)

-- `[^\]]+`, as far as it goes, and what follows it.
abbrev pub run_of : Text → Text
run_of [] = []
run_of (c ∷ s) = if nat_beq c b']' then [] else c ∷ run_of s

abbrev pub after_run : Text → Text
after_run [] = []
after_run (c ∷ s) = if nat_beq c b']' then c ∷ s else after_run s

-- The encoded id of a token at the beginning of the text.
unfoldable pub token_at : Text → Option Text
token_at s =
    if starts_with s prefix
      && truthy (run_of (drop 5 s))
      && starts_with (after_run (drop 5 s)) suffix
    then some (run_of (drop 5 s))
    else none

abbrev pub text_if_any {ℓ} : {E : Type ℓ} → Text → List (Part E) → List (Part E)
text_if_any [] parts = parts
text_if_any (c ∷ s) parts = text (c ∷ s) ∷ parts

module _ {ℓ} {E : Type ℓ} (decode : Text → Option Text) (catalog : Text → Option E) where
  abbrev pub or_token : Option E → Text → Part E
  or_token none encoded = text (token encoded)
  or_token (some found) encoded = emoji found

  abbrev pub find : Option Text → Option E
  find none = none
  find (some id) = if truthy id then catalog id else none

  -- The part of one token.
  abbrev pub part_of : Text → Part E
  part_of encoded = or_token (find (decode encoded)) encoded

  -- The loop over the matches: what is still to be skipped of a token, and the text before the next.
  unfoldable pub scan : ℕ → Text → Text → List (Part E)
  scan skip before [] = text_if_any before []
  scan (suc skip) before (c ∷ s) = scan skip before s
  scan zero before (c ∷ s) = elim (token_at (c ∷ s)) [
    | none ↦ scan 0 (before ++ c ∷ []) s
    | some encoded ↦ text_if_any before (part_of encoded ∷ scan (length (token encoded) - 1) [] s)
  ]

  unfoldable pub parse_custom_emoji_text : Text → List (Part E)
  unfolding scan
  parse_custom_emoji_text content = scan 0 [] content

  abbrev count_emoji : ℕ → List (Part E) → Option ℕ
  count_emoji count [] = some count
  count_emoji count (emoji found ∷ parts) = count_emoji (suc count) parts
  count_emoji count (text value ∷ parts) =
      if truthy (trim value) then none else count_emoji count parts

  abbrev is_some : Option ℕ → Bool
  is_some none = false
  is_some (some zero) = false
  is_some (some (suc n)) = true

  unfoldable pub is_custom_emoji_only_text : Text → Bool
  unfolding parse_custom_emoji_text
  is_custom_emoji_only_text content = is_some (count_emoji 0 (parse_custom_emoji_text content))
