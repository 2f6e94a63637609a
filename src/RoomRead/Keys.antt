-- ===== src/RoomRead/Keys.antt =====
-- RoomReadStateProvider.tsx: the keys of the rooms.
use django_channels_chat_rea.Common.{
  ℕ, nat_beq, Text, text_eq, trim, trim-digits, show_ℕ, show_ℕ-digits, parse-show, parse_digits,
  Option, none, some, false, ◌≡◌, subst, arith,
}
use django_channels_chat_rea.Number.{not_finite, finite}
use django_channels_chat_rea.UnreadOverrides.Consistency.{IsRoomKey}
use django_channels_chat_rea.RoomRead.Refs.{
  RoomRef, of_number, of_text, missing, normalize_room_key, key_of_digits,
}

show_ℕ-IsRoomKey : (n : ℕ) → IsRoomKey (show_ℕ n)
show_ℕ-IsRoomKey n = (ground (arith, show_ℕ-digits n), trim-digits (show_ℕ n) (show_ℕ-digits n))

-- What there is, is a key that the overrides can have.
abbrev pub IsKeyIfAny : Option Text → Type 0
IsKeyIfAny none = Unit
IsKeyIfAny (some key) = IsRoomKey key

key_of_digits-IsKeyIfAny : (s : Text) → IsKeyIfAny (key_of_digits s)
key_of_digits-IsKeyIfAny s = ground (arith, show_ℕ-IsRoomKey (parse_digits 0 s))

pub normalize_room_key-IsKeyIfAny : (ref : RoomRef) → IsKeyIfAny (normalize_room_key ref)
unfolding normalize_room_key
normalize_room_key-IsKeyIfAny missing = tt
normalize_room_key-IsKeyIfAny (of_number not_finite) = tt
normalize_room_key-IsKeyIfAny (of_number (finite negative whole fraction)) =
    ground (arith, show_ℕ-IsRoomKey whole)
normalize_room_key-IsKeyIfAny (of_text room_id) = key_of_digits-IsKeyIfAny (trim room_id)

pub key_of_digits-show : (n : ℕ) → nat_beq n 0 ≡ false → key_of_digits (show_ℕ n) ≡ some (show_ℕ n)
key_of_digits-show n h = ground (arith, h, show_ℕ-digits n, parse-show n)

key_of_digits-number :
    (s key : Text)
    → key_of_digits s ≡ some key
    → (show_ℕ (parse_digits 0 s) ≡ key) × (nat_beq (parse_digits 0 s) 0 ≡ false)
key_of_digits-number s key h = ground (arith, h)

-- The key of a text is the key of itself, and one that the overrides can have.
pub normalize_room_key_idem :
    (room_id key : Text)
    → normalize_room_key (of_text room_id) ≡ some key
    → (normalize_room_key (of_text key) ≡ some key) × IsRoomKey key
unfolding normalize_room_key
normalize_room_key_idem room_id key h =
    let n = parse_digits 0 (trim room_id) in
    let found = key_of_digits-number (trim room_id) key h in
    subst (λ k. (key_of_digits (trim k) ≡ some k) × IsRoomKey k) found.0
      (
        rw (trim-digits (show_ℕ n) (show_ℕ-digits n)) (key_of_digits-show n found.1),
        show_ℕ-IsRoomKey n,
      )
