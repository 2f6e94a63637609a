-- ===== src/ReadTracker/Session.antt =====
-- readTracker.ts: the hook `useReadTracker`, whose state is the progress of every room.
use django_channels_chat_rea.Common.{
  ℕ, suc, ◌≤◌, ◌++◌, Bool, ℤ, pos, ◌≤ℤ◌, Text, Option, none, some, List, [], ◌∷◌, true, ◌≡◌, ◌≢◌,
  refl, arith, All, lookup-insert, filter, delete, delete-insert, eq_refl, text_eq, Bool-cases, inl,
  inr, subst,
}
use django_channels_chat_rea.Message.{Message}
use django_channels_chat_rea.Number.{Number, not_finite, finite, of_ℕ}
use django_channels_chat_rea.ReadTracker.{
  Tracker, Viewport, Article, is_foreign_message, has_id, visible_id, local_last_read_message_id,
  store_progress, next_in_view, read_to, read_articles, apply_viewport_read, unread_stats,
  collect_visible_message_ids_by_bottom_edge,
}
use django_channels_chat_rea.ReadTracker.Advance.{
  is_read_now, compute_next_last_read_message_id-max,
}
use django_channels_chat_rea.ReadTracker.Unread.{compute_unread_stats_mono}

store_progress-delete :
    (key : Text) (next : ℕ) (prev : List (Text × Number))
    → delete key (store_progress key next prev) ≡ delete key prev
unfolding store_progress
store_progress-delete key next prev = ground (arith, delete-insert key (of_ℕ next) prev)

read_to-local :
    (lower : Text → Text) (t : Tracker) (next : ℕ)
    → let after = read_to lower t next in
      (local_last_read_message_id after.0 ≡ after.1)
      × (local_last_read_message_id t ≤ after.1)
      × (next ≤ after.1)
unfolding read_to store_progress local_last_read_message_id
read_to-local lower t next = ground (
  arith,
  eq_refl t.reset_key,
  lookup-insert t.reset_key t.reset_key (of_ℕ next) t.progress_by_key,
)

-- What one pass that leads from `t` to `after`, with the value returned, keeps.
abbrev pub Keeps : (Text → Text) → Tracker → Tracker × ℕ → Type 0
Keeps lower t after =
    (local_last_read_message_id after.0 ≡ after.1)
    × (local_last_read_message_id t ≤ after.1)
    × (delete t.reset_key after.0.progress_by_key ≡ delete t.reset_key t.progress_by_key)
    × (after.0.messages ≡ t.messages)
    × ((unread_stats lower after.0).unread_count ≤ (unread_stats lower t).unread_count)

unchanged-Keeps :
    (lower : Text → Text) (t : Tracker) → Keeps lower t (t, local_last_read_message_id t)
unchanged-Keeps lower t = (refl, omega arith, refl, refl, omega arith)

read_to-unread :
    (lower : Text → Text) (t : Tracker) (next : ℕ)
    → (unread_stats lower (read_to lower t next).0).unread_count
      ≤ (unread_stats lower t).unread_count
unfolding unread_stats read_to
read_to-unread lower t next = ground (
  arith,
  read_to-local lower t next,
  compute_unread_stats_mono lower t.current_actor_ref (local_last_read_message_id t)
      (local_last_read_message_id (read_to lower t next).0) t.messages,
)

read_to-Keeps :
    (lower : Text → Text) (t : Tracker) (next : ℕ) → Keeps lower t (read_to lower t next)
unfolding read_to
read_to-Keeps lower t next =
    let local = read_to-local lower t next in
    (
      local.0,
      local.1,
      ground (arith, store_progress-delete t.reset_key next t.progress_by_key),
      ground arith,
      read_to-unread lower t next,
    )

read_articles-Keeps :
    (lower : Text → Text) (t : Tracker) (bottom : ℤ) (articles : List Article)
    → Keeps lower t (read_articles lower t bottom articles)
unfolding read_articles
read_articles-Keeps lower t bottom [] = unchanged-Keeps lower t
read_articles-Keeps lower t bottom (node ∷ nodes) = read_to-Keeps lower t _

-- A pass over the viewport. The value returned is the last read id of the next render; it never
-- goes back, no other room's progress is touched, the messages stay, and the unread count does not
-- grow.
pub apply_viewport_read-Keeps :
    (lower : Text → Text) (t : Tracker) (view : Option Viewport)
    → Keeps lower t (apply_viewport_read lower t view)
unfolding apply_viewport_read
apply_viewport_read-Keeps lower t none = unchanged-Keeps lower t
apply_viewport_read-Keeps lower t (some list) = elim (Bool-cases t.enabled) [
  | inl on ↦ simp on (read_articles-Keeps lower t list.bottom list.articles)
  | inr off ↦ simp off (unchanged-Keeps lower t)
]

All-below :
    (low high : ℕ) (ms : List Message)
    → low ≤ high
    → All (λ m. m.id ≤ℤ pos low) ms
    → All (λ m. m.id ≤ℤ pos high) ms
All-below low high [] h all = tt
All-below low high (m ∷ ms) h all =
    (let bound = all.0 in omega arith, All-below low high ms h all.1)

read_articles-reads :
    (lower : Text → Text) (t : Tracker) (bottom : ℤ) (articles : List Article)
    → articles ≢ []
    → let visible = collect_visible_message_ids_by_bottom_edge bottom articles in
      All
        (λ m. m.id ≤ℤ pos (read_articles lower t bottom articles).1)
        (filter (is_read_now lower t.current_actor_ref visible) t.messages)
unfolding read_articles
read_articles-reads lower t bottom [] h = absurd (h refl)
read_articles-reads lower t bottom (node ∷ nodes) h =
    let visible = collect_visible_message_ids_by_bottom_edge bottom (node ∷ nodes) in
    let next = next_in_view lower t (record { bottom = bottom; articles = node ∷ nodes }) in
    All-below next (read_to lower t next).1
      (filter (is_read_now lower t.current_actor_ref visible) t.messages)
      (read_to-local lower t next).2
      (compute_next_last_read_message_id-max lower t.current_actor_ref visible t.messages
        (of_ℕ (local_last_read_message_id t))).1

-- What holds of all that pass a test holds of one that stands in the list and passes it.
All-passed {ℓ} :
    {A : Type ℓ} (P : A → Type 0) (test : A → Bool) (before : List A) (x : A) (after : List A)
    → All P (filter test (before ++ x ∷ after))
    → test x ≡ true
    → P x
All-passed P test [] x after h passes = (simp passes at h).0
All-passed P test (y ∷ before) x after h passes = elim (Bool-cases (test y)) [
  | inl passed ↦ All-passed P test before x after (simp passed at h).1 passes
  | inr dropped ↦ All-passed P test before x after (simp dropped at h) passes
]

visible_id-has_id :
    (edge : ℤ) (value : Option Number) (bottom id : ℤ) (ids : List Number)
    → has_id id ids ≡ true
    → has_id id (visible_id edge value bottom ids) ≡ true
unfolding visible_id
visible_id-has_id edge none bottom id ids h = h
visible_id-has_id edge (some not_finite) bottom id ids h = h
visible_id-has_id edge (some (finite negative whole fraction)) bottom id ids h = ground (arith, h)

-- The id of an article whose lower edge is not below the list's is collected.
collect-has_id :
    (edge : ℤ) (before : List Article) (node : Article) (after : List Article) (id : ℕ)
    → node.message_id ≡ some (of_ℕ (suc id))
    → node.bottom ≤ℤ edge
    → has_id
        (pos (suc id))
        (collect_visible_message_ids_by_bottom_edge edge (before ++ node ∷ after))
      ≡ true
unfolding collect_visible_message_ids_by_bottom_edge visible_id
collect-has_id edge [] node after id m b = rw m (ground (arith, b))
collect-has_id edge (other ∷ before) node after id m b =
    visible_id-has_id edge other.message_id other.bottom (pos (suc id)) _
      (collect-has_id edge before node after id m b)

apply_viewport_read-reads_each :
    (lower : Text → Text) (t : Tracker) (view : Viewport)
    → t.enabled ≡ true
    → view.articles ≢ []
    → let visible = collect_visible_message_ids_by_bottom_edge view.bottom view.articles in
      All
        (λ m. m.id ≤ℤ pos (apply_viewport_read lower t (some view)).1)
        (filter (is_read_now lower t.current_actor_ref visible) t.messages)
unfolding apply_viewport_read
apply_viewport_read-reads_each lower t view on nonempty =
    simp on (read_articles-reads lower t view.bottom view.articles nonempty)

not_empty :
    (before : List Article) (node : Article) (after : List Article) → before ++ node ∷ after ≢ []
not_empty [] node after e = ground arith
not_empty (other ∷ before) node after e = ground arith

-- With tracking on: where the list has an article for an id, which is at least 1, and its lower edge is
-- not below the list's, and the message of this id is somebody else's, the pass reads at least that far.
pub apply_viewport_read-reads :
    (lower : Text → Text) (t : Tracker) (bottom : ℤ) (above : List Article) (node : Article)
    (below : List Article) (earlier : List Message) (m : Message) (later : List Message) (id : ℕ)
    → t.enabled ≡ true
    → t.messages ≡ earlier ++ m ∷ later
    → m.id ≡ pos (suc id)
    → is_foreign_message lower m t.current_actor_ref ≡ true
    → node.message_id ≡ some (of_ℕ (suc id))
    → node.bottom ≤ℤ bottom
    → let view : Viewport = record { bottom = bottom; articles = above ++ node ∷ below } in
      suc id ≤ (apply_viewport_read lower t (some view)).1
apply_viewport_read-reads lower t bottom above node below earlier m later id on split same foreign
      article inside =
    let articles = above ++ node ∷ below in
    let view : Viewport = record { bottom = bottom; articles = articles } in
    let visible = collect_visible_message_ids_by_bottom_edge bottom articles in
    let result = (apply_viewport_read lower t (some view)).1 in
    let test = is_read_now lower t.current_actor_ref visible in
    let seen = collect-has_id bottom above node below id article inside in
    let all = apply_viewport_read-reads_each lower t view on (not_empty above node below) in
    let read : m.id ≤ℤ pos result =
      All-passed (λ other. other.id ≤ℤ pos result) test earlier m later
        (subst (λ ms. All (λ other. other.id ≤ℤ pos result) (filter test ms)) split all)
        (ground (arith, seen, foreign, same)) in
    let bound = subst (λ n. n ≤ℤ pos result) same read in omega (arith, bound)
