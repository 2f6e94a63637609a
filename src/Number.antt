-- ===== src/Number.antt =====
-- JavaScript numbers where the code asks whether they are finite, whole or positive before it uses
-- them as message ids: NaN and the infinities are one constructor, and a finite number is a sign, a
-- whole part and a fraction, of which only its being 0 matters.
use django_channels_chat_rea.Common.{
  ℕ, zero, suc, ℤ, pos, negsuc, pos_part, Option, none, some, Bool, false, ◌||◌, ◌&&◌, ◌==◌, int_eq,
  nat_beq, if◌then◌else◌,
}

pub data Number : Type 0 where
  not_finite : Number
  finite : (negative : Bool) (whole fraction : ℕ) → Number

abbrev pub of_ℕ : ℕ → Number
of_ℕ n = finite false n 0

abbrev pub negate : ℕ → ℤ
negate zero = pos 0
negate (suc n) = negsuc n

-- `Math.trunc`.
abbrev pub trunc : Bool → ℕ → ℤ
trunc negative whole = if negative then negate whole else pos whole

-- `normalizeLastReadMessageId`: `Math.max(0, Math.trunc(value))`, and 0 for what is no finite number.
unfoldable pub normalize_last_read_message_id : Option Number → ℕ
normalize_last_read_message_id none = 0
normalize_last_read_message_id (some not_finite) = 0
normalize_last_read_message_id (some (finite negative whole fraction)) =
    pos_part (trunc negative whole)

-- `value < 1`.
abbrev pub is_below_one : Bool → ℕ → Bool
is_below_one negative whole = negative || nat_beq whole 0

-- `===` between a number and an id.
abbrev pub is_id : ℤ → Number → Bool
is_id id not_finite = false
is_id id (finite negative whole fraction) = nat_beq fraction 0 && id == trunc negative whole
