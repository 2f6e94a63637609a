-- ===== src/Examples/Emojis.antt =====
-- customEmojiParser.ts at work: the catalogue has the emoji `a` under its own name.
use django_channels_chat_rea.Common.{
  Text, codes, Option, none, some, [], ◌∷◌, false, if◌then◌else◌, ◌≡◌, refl, text_beq, trim,
}
use django_channels_chat_rea.Emoji.{
  text, emoji, build_custom_emoji_token, token_at, scan, parse_custom_emoji_text,
  is_custom_emoji_only_text,
}
use django_channels_chat_rea.Emoji.Spelling.{Spells, parse_custom_emoji_text-Spells}

abbrev decode : Text → Option Text
decode encoded = if text_beq encoded (codes "%") then none else some encoded

abbrev catalog : Text → Option Text
catalog id = if text_beq id (codes "a") then some id else none

abbrev content : Text
content = codes "hi [[ce:a]][[ce:b]] [[ce:%]]"

token_of_a : build_custom_emoji_token (λ id. id) (codes "a") ≡ codes "[[ce:a]]"
unfolding build_custom_emoji_token
token_of_a = refl

-- A token that is not in the catalogue and one that does not decode stay as text.
parts :
    parse_custom_emoji_text decode catalog content
    ≡ text (codes "hi ")
      ∷ emoji (codes "a")
      ∷ text (codes "[[ce:b]]")
      ∷ text (codes " ")
      ∷ text (codes "[[ce:%]]")
      ∷ []
unfolding parse_custom_emoji_text scan token_at text_beq
parts = refl

not_only : is_custom_emoji_only_text decode catalog content ≡ false
unfolding is_custom_emoji_only_text parse_custom_emoji_text scan token_at text_beq trim
not_only = refl

parse_custom_emoji_text-Spells_example :
    Spells decode catalog (parse_custom_emoji_text decode catalog content) content
parse_custom_emoji_text-Spells_example = parse_custom_emoji_text-Spells decode catalog content
