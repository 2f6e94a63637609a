-- ===== src/Inbox/Settling.antt =====
-- DirectInboxProvider.tsx: what a read that the server has not confirmed does to the server's counts.
use django_channels_chat_rea.Common.{
  ℕ, Text, text_eq, Option, none, some, List, [], ◌∷◌, Bool, false, not, ◌≡◌, refl, arith, eq_iff,
  lookup, lookup_absent, delete, lookup-delete, Distinct, if◌then◌else◌,
}
use django_channels_chat_rea.Inbox.{DirectChatListItem, Counts, latest_known, is_after, settle}

module _ (time_of : Text → Option ℕ) (known : List DirectChatListItem)
    (item : Option DirectChatListItem) where
  -- A read that no newer message is known for.
  abbrev pub covers : Text → Option ℕ → Bool
  covers key none = false
  covers key (some marked_at) =
      not (is_after time_of (latest_known time_of known item key) marked_at)

  pub settle-counts :
      (key : Text) (entries pending : List (Text × ℕ)) (counts : Counts)
      → Distinct entries
      → lookup key (settle time_of known item entries (pending, counts)).1
        ≡ (if covers key (lookup key entries) then none else lookup key counts)
  unfolding settle lookup
  settle-counts key [] pending counts d = refl
  settle-counts key ((other, marked_at) ∷ entries) pending counts d =
      let fresh = is_after time_of (latest_known time_of known item other) marked_at in
      ground (
        arith,
        d.0,
        eq_iff other key,
        lookup_absent key entries,
        lookup_absent key counts,
        lookup-delete other key counts,
        settle-counts key entries (delete other pending) counts d.1,
        settle-counts key entries pending (delete other counts) d.1,
      )
