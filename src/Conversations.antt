-- ===== src/Conversations.antt =====
-- frontend/src/shared/conversationList/ConversationListProvider.tsx: the groups and the public room, their
-- unread counts, and the global search. A group is its room, and the answer of a search a list of
-- numbers. An effect is cut into its run, its timer and its answers.
pub mod Searching
use django_channels_chat_rea.Common.{
  ℕ, zero, suc, ◌+◌, ltb, leb, nat_beq, Text, text_eq, trim, truthy, starts_with, drop, length,
  show_ℕ, Option, none, some, List, [], ◌∷◌, ◌++◌, map, Bool, true, false, not, ◌&&◌, ◌||◌, ◌==◌,
  nat_eq, any, filter, lookup, if◌then◌else◌,
}
use django_channels_chat_rea.Number.{Number, of_ℕ}
use django_channels_chat_rea.RoomRead.Refs.{of_text}
use django_channels_chat_rea.RoomRead.Provider.{Provider}
use django_channels_chat_rea.RoomRead.Snapshot.{apply_server_unread_snapshot}
use django_channels_chat_rea.RoomRead.Publishing.{get_room_unread_count}

abbrev pub Counts : Type 0
Counts = List (Text × ℕ)

-- `canRunGlobalSearchQuery`
unfoldable pub can_run_global_search_query : Text → Bool
can_run_global_search_query query =
    if ltb (length (trim query)) 2
    then false
    else if not (starts_with (trim query) (b'@' ∷ []))
    then true
    else leb 2 (length (trim (drop 1 (trim query))))

-- `toRoomKey`, of an id that is a whole number.
abbrev pub to_room_key : Option ℕ → Text
to_room_key none = []
to_room_key (some zero) = []
to_room_key (some (suc n)) = show_ℕ (suc n)

abbrev add_if_any : Text → List Text → List Text
add_if_any key more = if truthy key then key ∷ more else more

unfoldable pub group_room_ids : List ℕ → List Text
group_room_ids [] = []
group_room_ids (group ∷ groups) = add_if_any (to_room_key (some group)) (group_room_ids groups)

unfoldable pub known_server_room_ids : Option ℕ → List ℕ → List Text
unfolding group_room_ids
known_server_room_ids public_room_id groups =
    add_if_any (to_room_key public_room_id) (group_room_ids groups)

pub record Conversations : Type 0 where
  pub room_unreads : Counts
  pub group_items : List ℕ
  pub public_room_id : Option ℕ
  pub loading : Bool
  pub is_mounted : Bool

-- `fetchData`, cut at its await: a request that fails stands for no groups, or no public room.
unfoldable pub fetch_data : Bool → Conversations → Conversations
fetch_data has_user c = if not has_user then c else record c { loading = true }

abbrev or_empty : Option (List ℕ) → List ℕ
or_empty none = []
or_empty (some groups) = groups

unfoldable pub data_fetched : Option (List ℕ) → Option ℕ → Conversations → Conversations
data_fetched groups public_room c =
    if not c.is_mounted
    then c
    else record c { group_items = or_empty groups; public_room_id = public_room; loading = false }

unfoldable pub apply_room_unread_snapshot :
    Counts → List Text → Conversations × Provider → Conversations × Provider
apply_room_unread_snapshot counts authoritative_room_ids state = (
  record state.0 { room_unreads = counts },
  apply_server_unread_snapshot (map (λ (e : Text × ℕ). (e.0, of_ℕ e.1)) counts)
      (some (map of_text authoritative_room_ids)) state.1,
)

-- The effect on the counts that the inbox has got.
unfoldable pub take_room_counts :
    Bool → Counts → Conversations × Provider → Conversations × Provider
unfolding known_server_room_ids apply_room_unread_snapshot
take_room_counts has_user counts state =
    if not has_user
    then (record state.0 { room_unreads = [] }, state.1)
    else apply_room_unread_snapshot counts
        (known_server_room_ids state.0.public_room_id state.0.group_items) state

abbrev or_count : Option ℕ → ℕ → ℕ
or_count none other = other
or_count (some count) other = count

unfoldable pub resolve_unread_count : Option ℕ → Option ℕ → Conversations → Provider → ℕ
resolve_unread_count room_id ws_unread_count c p =
    if not (truthy (to_room_key room_id))
    then or_count ws_unread_count 0
    else get_room_unread_count (of_text (to_room_key room_id))
        (some (
          of_ℕ
            (or_count ws_unread_count (or_count (lookup (to_room_key room_id) c.room_unreads) 0))))
        p.rooms
