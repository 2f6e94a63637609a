-- ===== src/Sanitize.antt =====
-- frontend/src/shared/lib/sanitize.ts: what is left of a message's text before it is shown.
pub mod Output
use django_channels_chat_rea.Common.{
  ℕ, Text, trim, truthy, List, [], ◌∷◌, Bool, true, false, not, ◌&&◌, ◌||◌, leb, ltb, nat_beq,
  filter, any, length, take, if◌then◌else◌,
}

abbrev pub is_gt : ℕ → Bool
is_gt c = nat_beq c b'>'

abbrev pub is_lt : ℕ → Bool
is_lt c = nat_beq c b'<'

-- Whether the unit `c` in front of `s` opens a match of `/<[^>]*>/`: outside of one, a "<" with a ">"
-- somewhere after it. Inside of a match it goes on up to that ">".
abbrev is_inside_after : Bool → ℕ → Text → Bool
is_inside_after true c s = not (is_gt c)
is_inside_after false c s = is_lt c && any is_gt s

-- `input.replace(TAGS, "")`, with whether the walk is inside of a match.
unfoldable pub strip_tags_from : Bool → Text → Text
strip_tags_from inside [] = []
strip_tags_from inside (c ∷ s) =
    let rest = strip_tags_from (is_inside_after inside c s) s in
    if inside || is_inside_after inside c s then rest else c ∷ rest

-- The codes that `stripControlChars` leaves out.
abbrev pub is_control : ℕ → Bool
is_control code =
    leb code 8
    || nat_beq code 11
    || nat_beq code 12
    || (leb 14 code && leb code 31)
    || nat_beq code 127

unfoldable pub strip_control_chars : Text → Text
strip_control_chars = filter (λ code. not (is_control code))

unfoldable pub clean : Text → Text
unfolding strip_tags_from strip_control_chars
clean input = trim (strip_control_chars (strip_tags_from false input))

unfoldable pub sanitize_text : Text → ℕ → Text
unfolding clean
sanitize_text input max_len =
    if not (truthy input)
    then []
    else if ltb max_len (length (clean input))
    then take max_len (clean input)
    else clean input
