-- ===== src/Emoji/Spelling.antt =====
-- customEmojiParser.ts: the parts of a text, compared with the text they come from.
use django_channels_chat_rea.Common.{
  ℕ, zero, suc, ◌-◌, Text, truthy, starts_with, drop, length, Option, none, some, List, [], ◌∷◌,
  ◌++◌, Bool, true, ◌&&◌, ◌≡◌, refl, sym, ap, ◌∙◌, subst, arith, if◌then◌else◌,
}
use mathlib.Core.List.{append_assoc}
use django_channels_chat_rea.Emoji.{
  Part, text, emoji, prefix, suffix, token, run_of, after_run, token_at, text_if_any, find,
  or_token, part_of, scan, parse_custom_emoji_text,
}

run_of-append : (s : Text) → run_of s ++ after_run s ≡ s
run_of-append [] = refl
run_of-append (c ∷ s) = ground (arith, run_of-append s)

starts_with-append : (s p : Text) → starts_with s p ≡ true → p ++ drop (length p) s ≡ s
starts_with-append s [] h = refl
starts_with-append [] (c ∷ p) h = ground (arith, h)
starts_with-append (d ∷ s) (c ∷ p) h = ground (arith, h, starts_with-append s p)

drop-append : (a b : Text) → drop (length a) (a ++ b) ≡ b
drop-append [] b = refl
drop-append (c ∷ a) b = drop-append a b

drop_rest : (n c : ℕ) (s : Text) → drop (suc n - 1) s ≡ drop (suc n) (c ∷ s)
drop_rest n c s = ap (λ k. drop k s) (omega arith)

-- A test that has passed, and what it gives.
passed :
    (test : Bool) (value encoded : Text)
    → (if test then some value else none) ≡ some encoded
    → (test ≡ true) × (value ≡ encoded)
passed test value encoded h = ground (arith, h)

all_true : (a b c : Bool) → (a && b && c) ≡ true → (a ≡ true) × (c ≡ true)
all_true a b c h = ground (arith, h)

-- A token that is found is there.
token_at-found :
    (s encoded : Text) → token_at s ≡ some encoded → (rest : Text) × (token encoded ++ rest ≡ s)
unfolding token_at
token_at-found s encoded h =
    let d = drop 5 s in
    let rest = drop 2 (after_run d) in
    let found =
      passed (starts_with s prefix && truthy (run_of d) && starts_with (after_run d) suffix)
        (run_of d) encoded h in
    let both =
      all_true (starts_with s prefix) (truthy (run_of d)) (starts_with (after_run d) suffix)
        found.0 in
    (
      rest,
      subst (λ run. token run ++ rest ≡ s) found.1
          (ap (λ t. prefix ++ t) (append_assoc (run_of d) suffix rest)
            ∙ ap (λ t. prefix ++ (run_of d ++ t)) (starts_with-append (after_run d) suffix both.1)
            ∙ ap (λ t. prefix ++ t) (run_of-append d)
            ∙ starts_with-append s prefix both.0),
    )

module _ {E : Type 0} (decode : Text → Option Text) (catalog : Text → Option E) where
  -- The parts spell the text: a text part is the text there, and an emoji stands at a token that decodes
  -- to its id.
  abbrev pub Spells : List (Part E) → Text → Type 0
  Spells [] s = s ≡ []
  Spells (text value ∷ parts) s = (rest : Text) × (s ≡ value ++ rest) × Spells parts rest
  Spells (emoji found ∷ parts) s =
      (encoded : Text) × (rest : Text) × (s ≡ token encoded ++ rest)
      × (find decode catalog (decode encoded) ≡ some found)
      × Spells parts rest

  text_if_any-Spells :
      (before : Text) (parts : List (Part E)) (s : Text)
      → Spells parts s
      → Spells (text_if_any before parts) (before ++ s)
  text_if_any-Spells [] parts s h = h
  text_if_any-Spells (c ∷ before) parts s h = (s, refl, h)

  or_token-Spells :
      (looked_up : Option E) (encoded rest : Text) (parts : List (Part E))
      → find decode catalog (decode encoded) ≡ looked_up
      → Spells parts rest
      → Spells (or_token decode catalog looked_up encoded ∷ parts) (token encoded ++ rest)
  or_token-Spells none encoded rest parts eq h = (rest, refl, h)
  or_token-Spells (some found) encoded rest parts eq h = (encoded, rest, refl, eq, h)

  -- One position: a token there or none.
  scan_at-Spells :
      (at : Option Text) (before : Text) (c : ℕ) (s : Text)
      → token_at (c ∷ s) ≡ at
      → Spells (scan decode catalog 0 (before ++ c ∷ []) s) ((before ++ c ∷ []) ++ s)
      → ((encoded : Text)
          → Spells
              (scan decode catalog (length (token encoded) - 1) [] s)
              (drop (length (token encoded) - 1) s))
      → Spells
          (elim at [
            | none ↦ scan decode catalog 0 (before ++ c ∷ []) s
            | some encoded ↦ text_if_any before (
                part_of decode catalog encoded
                ∷ scan decode catalog (length (token encoded) - 1) [] s)
          ])
          (before ++ c ∷ s)
  scan_at-Spells none before c s eq plain skipped =
      subst (Spells (scan decode catalog 0 (before ++ c ∷ []) s)) (append_assoc before (c ∷ []) s)
        plain
  scan_at-Spells (some encoded) before c s eq plain skipped =
      let found = token_at-found (c ∷ s) encoded eq in
      let parts = scan decode catalog (length (token encoded) - 1) [] s in
      let after : drop (length (token encoded) - 1) s ≡ found.0 =
        drop_rest (suc (suc (suc (suc (length (encoded ++ suffix)))))) c s
        ∙ sym (ap (drop (length (token encoded))) found.1)
        ∙ drop-append (token encoded) found.0 in
      text_if_any-Spells before (part_of decode catalog encoded ∷ parts) (c ∷ s) (
        subst (Spells (part_of decode catalog encoded ∷ parts)) found.1 (
          or_token-Spells (find decode catalog (decode encoded)) encoded found.0 parts refl
            (subst (Spells parts) after (skipped encoded))))

  scan-Spells :
      (skip : ℕ) (before s : Text)
      → Spells (scan decode catalog skip before s) (before ++ drop skip s)
  unfolding scan
  scan-Spells zero before [] = text_if_any-Spells before [] [] refl
  scan-Spells (suc skip) before [] = text_if_any-Spells before [] [] refl
  scan-Spells (suc skip) before (c ∷ s) = scan-Spells skip before s
  scan-Spells zero before (c ∷ s) =
      scan_at-Spells (token_at (c ∷ s)) before c s refl (scan-Spells 0 (before ++ c ∷ []) s)
        (λ encoded. scan-Spells (length (token encoded) - 1) [] s)

  -- The parts of a text, put one after another, are the text: a text part as it is, and an emoji part at a
  -- token whose encoded id decodes to an id under which the catalogue has that emoji. Nothing of the text
  -- is lost, a token that does not decode or is not in the catalogue included.
  pub parse_custom_emoji_text-Spells :
      (content : Text) → Spells (parse_custom_emoji_text decode catalog content) content
  unfolding parse_custom_emoji_text
  parse_custom_emoji_text-Spells content = scan-Spells 0 [] content
