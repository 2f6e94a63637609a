-- ===== src/Examples/Messages.antt =====
-- optimisticMessages.ts and sanitize.ts at work.
use django_channels_chat_rea.Common.{
  ◌≤◌, Text, text_beq, trim, List, [], ◌∷◌, ◌++◌, length, false, ◌≡◌, refl,
}
use django_channels_chat_rea.Message.{Message}
use django_channels_chat_rea.Optimistic.{
  create_optimistic_text_message, reconcile_optimistic_message,
}
use django_channels_chat_rea.Optimistic.Confirmed.{reconcile_optimistic_message_idem}
use django_channels_chat_rea.Optimistic.Drafts.{reconcile-create}
use django_channels_chat_rea.Sanitize.{sanitize_text}
use django_channels_chat_rea.Sanitize.Output.{has_tag, has_control, sanitize_text-IsClean}
use django_channels_chat_rea.Examples.Data.{from_bob, from_ann, draft_shown, confirmation, draft}

abbrev page : List Message
page = from_bob ∷ draft_shown ∷ from_ann ∷ []

-- The draft is replaced where it stands.
page-confirmed :
    reconcile_optimistic_message page confirmation ≡ from_bob ∷ confirmation ∷ from_ann ∷ []
unfolding reconcile_optimistic_message text_beq
page-confirmed = refl

reconcile_optimistic_message_idem_example :
    reconcile_optimistic_message (reconcile_optimistic_message page confirmation) confirmation
    ≡ reconcile_optimistic_message page confirmation
reconcile_optimistic_message_idem_example = reconcile_optimistic_message_idem page confirmation refl

reconcile-create_example :
    reconcile_optimistic_message
      ((from_bob ∷ from_ann ∷ []) ++ create_optimistic_text_message draft ∷ [])
      confirmation
    ≡ (from_bob ∷ from_ann ∷ []) ++ confirmation ∷ []
unfolding create_optimistic_text_message
reconcile-create_example =
    reconcile-create (from_bob ∷ from_ann ∷ []) draft confirmation refl refl refl refl refl

-- "<b>x", a control character and " <"
abbrev dirty : Text
dirty = 60 ∷ 98 ∷ 62 ∷ 120 ∷ 7 ∷ 32 ∷ 60 ∷ []

dirty-cleaned : sanitize_text dirty 10 ≡ 120 ∷ 32 ∷ 60 ∷ []
unfolding sanitize_text trim
dirty-cleaned = refl

sanitize_text-IsClean_example :
    (length (sanitize_text dirty 2) ≤ 2)
    × (has_tag (sanitize_text dirty 2) ≡ false)
    × (has_control (sanitize_text dirty 2) ≡ false)
sanitize_text-IsClean_example = sanitize_text-IsClean dirty 2
