-- ===== src/RoomRead/Refs.antt =====
-- RoomReadStateProvider.tsx: room references, cursors and counts, as they are normalised.
use django_channels_chat_rea.Common.{
  is_digits, parse_digits, ℕ, nat_beq, ℤ, pos, negsuc, pos_part, Text, trim, show_ℕ, Option, none,
  some, Bool, ◌&&◌, ◌||◌, not, if◌then◌else◌,
}
use django_channels_chat_rea.Number.{Number, not_finite, finite, negate, trunc}

-- `string | number | null | undefined`
pub data RoomRef : Type 0 where
  of_number : Number → RoomRef
  of_text : Text → RoomRef
  missing : RoomRef

-- `value <= 0`
abbrev is_not_positive : Bool → ℕ → ℕ → Bool
is_not_positive negative whole fraction = negative || (nat_beq whole 0 && nat_beq fraction 0)

abbrev pub key_of_digits : Text → Option Text
key_of_digits s =
    if not (is_digits s)
    then none
    else if nat_beq (parse_digits 0 s) 0
    then none
    else some (show_ℕ (parse_digits 0 s))

unfoldable pub normalize_room_key : RoomRef → Option Text
normalize_room_key missing = none
normalize_room_key (of_number not_finite) = none
normalize_room_key (of_number (finite negative whole fraction)) =
    if is_not_positive negative whole fraction then none else some (show_ℕ whole)
normalize_room_key (of_text room_id) = key_of_digits (trim room_id)

unfoldable pub normalize_cursor : Option Number → ℕ
normalize_cursor none = 0
normalize_cursor (some not_finite) = 0
normalize_cursor (some (finite negative whole fraction)) = pos_part (trunc negative whole)

-- `Math.floor`
abbrev floor : Bool → ℕ → ℕ → ℤ
floor negative whole fraction =
    if not negative then pos whole else if nat_beq fraction 0 then negate whole else negsuc whole

unfoldable pub normalize_count : Option Number → ℕ
normalize_count none = 0
normalize_count (some not_finite) = 0
normalize_count (some (finite negative whole fraction)) = pos_part (floor negative whole fraction)
