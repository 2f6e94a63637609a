-- ===== src/Timeline/Days.antt =====
-- `buildTimeline`: the headers of the days.
use django_channels_chat_rea.Common.{
  ℤ, int_eq, Text, text_eq, truthy, Option, none, some, List, [], ◌∷◌, ◌++◌, Bool, true, false, not,
  ◌&&◌, ◌||◌, ◌≡◌, refl, sym, subst, arith, eq_iff, Bool-cases, inl, inr,
}
use django_channels_chat_rea.Message.{Message}
use django_channels_chat_rea.Timeline.{
  UnreadDividerRenderTarget, TimelineItem, day, message, unread, is_target, divider_if, same_key,
  header, build_from, build_timeline,
}

module _ (day_key : Text → Option Text) (day_label : Text → Text) where
  -- A message has the key of the last header, or no date, or a date without a label.
  abbrev pub IsOfDay : Option Text → Text → Option Text → Type 0
  IsOfDay none created_at last = Unit
  IsOfDay (some key) created_at last =
      (same_key key last || not (truthy (day_label created_at))) ≡ true

  -- After a header with the key `last`: each header has another key than the one before it, and each
  -- message is of the day of the header before it.
  abbrev pub AreUnderDays : Option Text → List TimelineItem → Type 0
  AreUnderDays last [] = Unit
  AreUnderDays last (day key label ∷ items) =
      (same_key key last ≡ false) × AreUnderDays (some key) items
  AreUnderDays last (message m ∷ items) =
      IsOfDay (day_key m.created_at) m.created_at last × AreUnderDays last items
  AreUnderDays last (unread ∷ items) = AreUnderDays last items

  divider_if-AreUnderDays :
      (here : Bool) (last : Option Text) (items : List TimelineItem)
      → AreUnderDays last items
      → AreUnderDays last (divider_if here ++ items)
  divider_if-AreUnderDays true last items h = h
  divider_if-AreUnderDays false last items h = h

  headed-AreUnderDays :
      (key : Option Text) (m : Message) (last : Option Text) (items : List TimelineItem)
      → day_key m.created_at ≡ key
      → AreUnderDays (header day_key day_label key m.created_at last).1 items
      → AreUnderDays last ((header day_key day_label key m.created_at last).0 ++ message m ∷ items)
  headed-AreUnderDays none m last items eq h =
      (subst (λ k. IsOfDay k m.created_at last) (sym eq) tt, h)
  headed-AreUnderDays (some key) m last items eq h =
      elim (Bool-cases (same_key key last || not (truthy (day_label m.created_at)))) [
        | inl plain ↦
            rw plain (subst (λ k. IsOfDay k m.created_at last) (sym eq) plain, simp plain at h)
        | inr headed ↦ rw headed (
          ground (arith, headed),
          (
            subst (λ k. IsOfDay k m.created_at (some key)) (sym eq)
                (ground (arith, eq_iff key key)),
            simp headed at h,
          ),
        )
      ]

  build_from-AreUnderDays :
      (divider : Option ℤ) (inserted : Bool) (last : Option Text) (messages : List Message)
      → AreUnderDays last (build_from day_key day_label divider inserted last messages)
  unfolding build_from
  build_from-AreUnderDays divider inserted last [] = tt
  build_from-AreUnderDays divider inserted last (m ∷ messages) =
      let here = not inserted && is_target divider m in
      let headed = header day_key day_label (day_key m.created_at) m.created_at last in
      elim (Bool-cases m.is_deleted) [
        | inl deleted ↦ simp deleted (
            divider_if-AreUnderDays here last _
              (build_from-AreUnderDays divider (inserted || here) last messages))
        | inr shown ↦ simp shown (
            divider_if-AreUnderDays here last _ (
              headed-AreUnderDays (day_key m.created_at) m last _ refl
                (build_from-AreUnderDays divider (inserted || here) headed.1 messages)))
      ]

  -- In the timeline each header of a day has another key than the last header before it, and each message
  -- is of the day of the last header before it, unless it has no date or its date no label. Where the
  -- messages go back to an earlier day, its header stands again.
  pub build_timeline-AreUnderDays :
      (messages : List Message) (target : UnreadDividerRenderTarget)
      → AreUnderDays none (build_timeline day_key day_label messages target)
  unfolding build_timeline
  build_timeline-AreUnderDays messages target =
      divider_if-AreUnderDays target.insert_at_top none _
        (build_from-AreUnderDays target.message_id target.insert_at_top none messages)
