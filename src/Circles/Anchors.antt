-- ===== src/Circles/Anchors.antt =====
-- core/circles/anchor_services.py: the anchors of a circle, one for every window of a
-- day. Thumbnails, pages and the scheduled task are left out.
pub mod Windows
pub mod Clock
use ziona_server.Base.{
  ℕ, ◌+◌, ◌-◌, ◌*◌, ◌/◌, ◌%◌, Bool, true, false, not, ◌&&◌, Option, none, some, List, [], ◌∷◌, ◌==◌,
  ltb, leb, if◌then◌else◌, Text, codes, text_eq, is_empty, any_of, ok, err, fail_if, gets, modify,
  pure, in_transaction, ◌>>=◌, ◌>>◌,
}
use ziona_server.Circles.Content.{
  Anchor, AnchorType, bible_verse, devotional, text_anchor, image, video, image_text, AnchorStatus,
  scheduled, posted, is_booked, is_posted, is_null, shows_anchor,
}
use ziona_server.Circles.State.{
  CircleStore, CircleEnv, C, not_circle_admin, cannot_create_anchor, invalid_anchor_type,
  missing_scripture_reference, cannot_schedule_past, schedule_too_far, overlapping_anchor,
  get_membership,
}
use ziona_server.Circles.Members.{require_circle, is_circle_admin}

abbrev pub second : ℕ
second = 1000000

abbrev pub day : ℕ
day = 24 * (3600 * second)

-- `valid_types`
abbrev pub read_anchor_type : Text → Option AnchorType
read_anchor_type t =
    if text_eq t (codes "bible_verse")
    then some bible_verse
    else if text_eq t (codes "devotional")
    then some devotional
    else if text_eq t (codes "text")
    then some text_anchor
    else if text_eq t (codes "image")
    then some image
    else if text_eq t (codes "video")
    then some video
    else if text_eq t (codes "image_text")
    then some image_text
    else none

abbrev pub is_verse : AnchorType → Bool
is_verse bible_verse = true
is_verse t = false

-- `calculate_time_remaining`: hours, minutes and seconds, from the whole seconds that are left.
unfoldable pub calculate_time_remaining : ℕ → ℕ → ℕ × ℕ × ℕ
calculate_time_remaining now expires_at =
    let total_seconds = (expires_at - now) / second in
    if leb expires_at now
    then (0, 0, 0)
    else (total_seconds / 3600, (total_seconds % 3600) / 60, total_seconds % 60)

module _ (e : CircleEnv) where
  abbrev pub require_admin : ℕ → ℕ → C (Unit {0})
  require_admin circle_id user_id s = elim (get_membership circle_id user_id s) [
    | none ↦ (err cannot_create_anchor, s)
    | some m ↦ (if is_circle_admin m then ok tt else err not_circle_admin, s)
  ]

  abbrev pub require_anchor_type : Text → C AnchorType
  require_anchor_type t s = elim (read_anchor_type t) [
    | none ↦ (err invalid_anchor_type, s)
    | some type ↦ (ok type, s)
  ]

  -- The time of publication; without one it is now.
  abbrev pub require_time : Option ℕ → C ℕ
  require_time none s = (ok e.now, s)
  require_time (some published_at) s =
      if ltb published_at e.now
      then (err cannot_schedule_past, s)
      else if ltb (e.now + 30 * day) published_at
      then (err schedule_too_far, s)
      else (ok published_at, s)

  -- An anchor of the circle that is booked and whose window meets the one from `start`.
  abbrev pub meets : ℕ → ℕ → Anchor → Bool
  meets circle_id start a =
      (shows_anchor e.active_user a
        && ((a.circle_id == circle_id && is_booked a.anchor_status)
            && (ltb a.published_at (start + day) && ltb start a.expires_at)))
      && is_null a.deleted_at

  abbrev pub new_anchor : ℕ → ℕ → AnchorType → ℕ → Anchor
  new_anchor creator_id circle_id type start = record {
    id = e.new_id;
    circle_id = circle_id;
    created_by = some creator_id;
    anchor_type = type;
    anchor_status = if ltb e.now start then scheduled else posted;
    published_at = start;
    expires_at = start + day;
    scheduled_for = if ltb e.now start then some start else none;
    posted_at = if ltb e.now start then none else some e.now;
    prayed_count = 0;
    anchor_liked_count = 0;
    deleted_at = none;
  }

  abbrev pub forget_active : ℕ → CircleStore → CircleStore
  forget_active circle_id s = record s {
    active_anchor = λ c. if c == circle_id then none else s.active_anchor c;
  }

  abbrev pub add_anchor : Anchor → CircleStore → CircleStore
  add_anchor a s =
      if ltb e.now a.published_at
      then record s { anchors = a ∷ s.anchors }
      else forget_active a.circle_id (record s { anchors = a ∷ s.anchors })

  unfoldable pub create_anchor : ℕ → ℕ → Text → Text → Option ℕ → C (Unit {0})
  create_anchor creator_id circle_id anchor_type scripture_book published_at = in_transaction (do
    require_circle e circle_id
    require_admin circle_id creator_id
    type ← require_anchor_type anchor_type
    fail_if (is_verse type && is_empty scripture_book) missing_scripture_reference
    start ← require_time published_at
    overlapping ← gets (λ s. any_of (meets circle_id start) s.anchors)
    fail_if overlapping overlapping_anchor
    modify (add_anchor (new_anchor creator_id circle_id type start)))

  -- The anchors among which `get_active_anchor` takes the first.
  abbrev pub is_active_in : ℕ → Anchor → Bool
  is_active_in circle_id a =
      (shows_anchor e.active_user a && (a.circle_id == circle_id && is_posted a.anchor_status))
      && ((leb a.published_at e.now && ltb e.now a.expires_at) && is_null a.deleted_at)
