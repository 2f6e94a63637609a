-- ===== src/Timeline/Contents.antt =====
-- `buildTimeline`: which messages the timeline shows, and how often the divider.
use django_channels_chat_rea.Common.{
  ℕ, suc, ◌+◌, ℤ, int_eq, Text, text_eq, truthy, Option, none, some, List, [], ◌∷◌, ◌++◌, Bool,
  true, false, not, ◌&&◌, ◌||◌, ◌≡◌, refl, ap, ◌∙◌, arith, any, filter, Bool-cases, inl, inr,
  if◌then◌else◌,
}
use django_channels_chat_rea.Message.{Message}
use django_channels_chat_rea.Timeline.{
  UnreadDividerRenderTarget, TimelineItem, day, message, unread, is_target, divider_if, same_key,
  header, build_from, build_timeline,
}

abbrev pub messages_of : List TimelineItem → List Message
messages_of [] = []
messages_of (day key label ∷ items) = messages_of items
messages_of (message m ∷ items) = m ∷ messages_of items
messages_of (unread ∷ items) = messages_of items

abbrev pub dividers : List TimelineItem → ℕ
dividers [] = 0
dividers (day key label ∷ items) = dividers items
dividers (message m ∷ items) = dividers items
dividers (unread ∷ items) = suc (dividers items)

dividers-append : (a b : List TimelineItem) → dividers (a ++ b) ≡ dividers a + dividers b
dividers-append [] b = omega arith
dividers-append (day key label ∷ a) b = dividers-append a b
dividers-append (message m ∷ a) b = dividers-append a b
dividers-append (unread ∷ a) b = ground (arith, dividers-append a b)

divider_if-messages :
    (here : Bool) (items : List TimelineItem)
    → messages_of (divider_if here ++ items) ≡ messages_of items
divider_if-messages true items = refl
divider_if-messages false items = refl

module _ (day_key : Text → Option Text) (day_label : Text → Text) where
  header-messages :
      (key : Option Text) (created_at : Text) (last : Option Text) (items : List TimelineItem)
      → messages_of ((header day_key day_label key created_at last).0 ++ items) ≡ messages_of items
  header-messages none created_at last items = refl
  header-messages (some key) created_at last items =
      elim (Bool-cases (same_key key last || not (truthy (day_label created_at)))) [
        | inl plain ↦ rw plain refl
        | inr headed ↦ rw headed refl
      ]

  header-dividers :
      (key : Option Text) (created_at : Text) (last : Option Text)
      → dividers (header day_key day_label key created_at last).0 ≡ 0
  header-dividers none created_at last = refl
  header-dividers (some key) created_at last = ground arith

  -- One divider before the rest, or none, and what the rest has.
  counted :
      (front items : List TimelineItem) (inserted target later : Bool)
      → front ≡ divider_if (not inserted && target)
      → dividers items ≡ (if not (inserted || (not inserted && target)) && later then 1 else 0)
      → dividers (front ++ items) ≡ (if not inserted && (target || later) then 1 else 0)
  counted front items inserted target later eq h =
      ap (λ f. dividers (f ++ items)) eq
      ∙ dividers-append (divider_if (not inserted && target)) items
      ∙ ground (arith, h)

  build_from-messages :
      (divider : Option ℤ) (inserted : Bool) (last : Option Text) (messages : List Message)
      → messages_of (build_from day_key day_label divider inserted last messages)
        ≡ filter (λ m. not m.is_deleted) messages
  unfolding build_from
  build_from-messages divider inserted last [] = refl
  build_from-messages divider inserted last (m ∷ messages) =
      let here = not inserted && is_target divider m in
      let headed = header day_key day_label (day_key m.created_at) m.created_at last in
      elim (Bool-cases m.is_deleted) [
        | inl deleted ↦ simp deleted (
            divider_if-messages here _
            ∙ build_from-messages divider (inserted || here) last messages)
        | inr shown ↦ simp shown (
            divider_if-messages here _
            ∙ header-messages (day_key m.created_at) m.created_at last _
            ∙ ap (λ ms. m ∷ ms) (build_from-messages divider (inserted || here) headed.1 messages))
      ]

  build_from-dividers :
      (divider : Option ℤ) (inserted : Bool) (last : Option Text) (messages : List Message)
      → dividers (build_from day_key day_label divider inserted last messages)
        ≡ (if not inserted && any (is_target divider) messages then 1 else 0)
  unfolding build_from
  build_from-dividers divider inserted last [] = ground arith
  build_from-dividers divider inserted last (m ∷ messages) =
      let here = not inserted && is_target divider m in
      let headed = header day_key day_label (day_key m.created_at) m.created_at last in
      let rest = build_from day_key day_label divider (inserted || here) headed.1 messages in
      elim (Bool-cases m.is_deleted) [
        | inl deleted ↦ simp deleted (
            counted (divider_if here)
              (build_from day_key day_label divider (inserted || here) last messages) inserted
              (is_target divider m) (any (is_target divider) messages) refl
              (build_from-dividers divider (inserted || here) last messages))
        | inr shown ↦ simp shown (
            counted (divider_if here) (headed.0 ++ message m ∷ rest) inserted (is_target divider m)
              (any (is_target divider) messages) refl
              (dividers-append headed.0 (message m ∷ rest)
                ∙ ground (
                  arith,
                  header-dividers (day_key m.created_at) m.created_at last,
                  build_from-dividers divider (inserted || here) headed.1 messages,
                )))
      ]

  -- The messages of the timeline are those that are not deleted, in their order.
  pub build_timeline-messages :
      (messages : List Message) (target : UnreadDividerRenderTarget)
      → messages_of (build_timeline day_key day_label messages target)
        ≡ filter (λ m. not m.is_deleted) messages
  unfolding build_timeline
  build_timeline-messages messages target =
      divider_if-messages target.insert_at_top _
      ∙ build_from-messages target.message_id target.insert_at_top none messages

  -- The divider stands once where it goes to the top or its message is among the messages, deleted or
  -- not, and otherwise not at all.
  pub build_timeline-dividers :
      (messages : List Message) (target : UnreadDividerRenderTarget)
      → dividers (build_timeline day_key day_label messages target)
        ≡ (if target.insert_at_top || any (is_target target.message_id) messages then 1 else 0)
  unfolding build_timeline
  build_timeline-dividers messages target =
      let rest =
        build_from day_key day_label target.message_id target.insert_at_top none messages in
      dividers-append (divider_if target.insert_at_top) rest
      ∙ ground (arith, build_from-dividers target.message_id target.insert_at_top none messages)
