-- ===== src/Circles/Reports.antt =====
-- core/circles/moderation_services.py: reports on the content of a circle, which three reporters hide.
pub mod Threshold
pub mod Outcome
use ziona_server.Base.{
  ℕ, zero, suc, Bool, true, false, not, ◌&&◌, Option, none, some, List, [], ◌∷◌, ◌==◌, leb,
  if◌then◌else◌, Text, codes, text_eq, lower, strip, any_of, filter_out, get_where, lookup,
  update_where, length, map, Result, ok, err, fail_if, gets, modify, pure, when, in_transaction,
  ◌>>=◌, ◌>>◌, is_some,
}
use ziona_server.Circles.Content.{
  Circle, Anchor, AnchorResponse, CirclePost, CirclePostComment, CircleReport, TargetType, anchor,
  response, circle, post, comment, same_target, is_null, shows_circle, shows_anchor, shows_response,
  shows_post, shows_comment, circle_key, anchor_key, response_key, post_key, comment_key,
}
use ziona_server.Circles.State.{
  CircleStore, CircleEnv, C, ClientId, CircleError, circle_not_found, not_circle_member,
  invalid_target_type, invalid_id, target_not_found, target_mismatch,
}
use ziona_server.Circles.Members.{require_circle_membership}
use ziona_server.Circles.Engage.{live_post, live_anchor, update_post}
use ziona_server.Circles.Comments.{live_comment, comment_down, delete_comment_row}
use ziona_server.Circles.Responses.{live_response}
use ziona_server.Circles.Anchors.{forget_active}
use ziona_server.Circles.Hidden.{hide_circle_content_for_user}

-- `_normalize_report_target_type` and the membership in `_CIRCLE_REPORT_TARGET_TYPES`.
abbrev pub any_text : List Text → Text → Bool
any_text names t = any_of (λ n. text_eq t n) names

unfoldable pub read_target_type : Text → Option TargetType
read_target_type target_type =
    let t = lower (strip target_type) in
    if any_text (codes "anchor" ∷ codes "circle_anchor" ∷ []) t
    then some anchor
    else if any_text (codes "response" ∷ codes "anchor_response" ∷ []) t
    then some response
    else if any_text (codes "circle" ∷ []) t
    then some circle
    else if any_text (codes "post" ∷ codes "circle_post" ∷ codes "circlepost" ∷ []) t
    then some post
    else if any_text
        (codes "comment"
          ∷ codes "circle_comment"
          ∷ codes "post_comment"
          ∷ codes "circle_post_comment"
          ∷ codes "circlepostcomment"
          ∷ [])
        t
    then some comment
    else none

abbrev pub is_circle_of : (ℕ → Bool) → Circle → Bool
is_circle_of active_user c = shows_circle active_user c && is_null c.deleted_at

-- The circle of a row that a foreign key names.
abbrev pub in_anchor_of : ℕ → CircleStore → AnchorResponse → Bool
in_anchor_of circle_id s r = elim (lookup anchor_key r.anchor_id s.anchors) [
  | none ↦ false
  | some a ↦ a.circle_id == circle_id
]

abbrev pub in_post_of : ℕ → CircleStore → CirclePostComment → Bool
in_post_of circle_id s c = elim (lookup post_key c.post_id s.posts) [
  | none ↦ false
  | some p ↦ p.circle_id == circle_id
]

-- Whether the target is there, not deleted and in the circle.
abbrev pub has_target : CircleEnv → TargetType → ℕ → ℕ → CircleStore → Bool
has_target e anchor target_id circle_id s =
    is_some
      (get_where anchor_key (λ a. live_anchor e a && a.circle_id == circle_id) target_id s.anchors)
has_target e response target_id circle_id s = is_some (
    get_where response_key (λ r. live_response e r && in_anchor_of circle_id s r) target_id
      s.responses)
has_target e post target_id circle_id s =
    is_some (get_where post_key (λ p. live_post e p && p.circle_id == circle_id) target_id s.posts)
has_target e comment target_id circle_id s =
    is_some (
      get_where comment_key (λ c. live_comment e c && in_post_of circle_id s c) target_id
        s.comments)
has_target e circle target_id circle_id s = circle_id == target_id

abbrev pub missing : TargetType → CircleError
missing circle = target_mismatch
missing t = target_not_found

abbrev pub reports_on : TargetType → ℕ → CircleReport → Bool
reports_on type target_id r = same_target r.target_type type && r.target_id == target_id

abbrev pub reported_by : ℕ → TargetType → ℕ → CircleReport → Bool
reported_by user_id type target_id r = reports_on type target_id r && r.reporter_id == user_id

-- `values("reporter_id").distinct().count()`
unfoldable pub count_distinct : List ℕ → ℕ
count_distinct [] = 0
count_distinct (x ∷ xs) =
    let rest = count_distinct xs in if any_of (λ y. y == x) xs then rest else suc rest

abbrev pub reporters : TargetType → ℕ → List CircleReport → List ℕ
reporters type target_id reports =
    map (λ r. r.reporter_id) (filter_out (λ r. not (reports_on type target_id r)) reports)

module _ (e : CircleEnv) where
  -- `_auto_hide_content`: a row that shows is deleted, with what its counters and the cache need.
  unfoldable pub auto_hide_content : TargetType → ℕ → CircleStore → CircleStore
  auto_hide_content response target_id s =
      elim (get_where response_key (shows_response e.active_user) target_id s.responses) [
        | none ↦ s
        | some r ↦ record s {
          responses =
              update_where (λ r. r.id == target_id) (λ r. record r { deleted_at = some e.now })
                s.responses;
        }
      ]
  auto_hide_content anchor target_id s =
      elim (get_where anchor_key (shows_anchor e.active_user) target_id s.anchors) [
        | none ↦ s
        | some a ↦ forget_active e a.circle_id (record s {
          anchors =
              update_where (λ a. a.id == target_id) (λ a. record a { deleted_at = some e.now })
                s.anchors;
        })
      ]
  auto_hide_content post target_id s =
      elim (get_where post_key (shows_post e.active_user) target_id s.posts) [
        | none ↦ s
        | some p ↦ record s {
          posts =
              update_where (λ p. p.id == target_id) (λ p. record p { deleted_at = some e.now })
                s.posts;
        }
      ]
  auto_hide_content comment target_id s =
      elim (get_where comment_key (shows_comment e.active_user) target_id s.comments) [
        | none ↦ s
        | some c ↦ update_post e c.post_id comment_down (delete_comment_row e target_id s)
      ]
  auto_hide_content circle target_id s = s

  abbrev pub require_target_type : Text → C TargetType
  require_target_type t s = elim (read_target_type t) [
    | none ↦ (err invalid_target_type, s)
    | some type ↦ (ok type, s)
  ]

  abbrev pub require_id : ClientId → C ℕ
  require_id none s = (err invalid_id, s)
  require_id (some i) s = (ok i, s)

  -- `Circle.objects.get(id=..., deleted_at__isnull=True)`
  abbrev pub require_circle_row : ℕ → C ℕ
  require_circle_row circle_id s =
      elim (get_where circle_key (is_circle_of e.active_user) circle_id s.circles) [
        | none ↦ (err circle_not_found, s)
        | some c ↦ (ok c.id, s)
      ]

  abbrev pub add_report : ℕ → ℕ → TargetType → ℕ → Text → CircleStore → CircleStore
  add_report reporter_id circle_id type target_id reason s = record s {
    reports =
        record {
          reporter_id = reporter_id;
          circle_id = circle_id;
          target_type = type;
          target_id = target_id;
          reason = reason;
        }
        ∷ s.reports;
  }

  -- The new report of `report_circle_content`, and what follows it.
  abbrev pub file_report : ℕ → ℕ → TargetType → ℕ → Text → CircleStore → CircleStore
  file_report reporter_id circle_id type target_id reason s =
      let filed =
        hide_circle_content_for_user reporter_id type target_id
          (add_report reporter_id circle_id type target_id reason s) in
      if leb 3 (count_distinct (reporters type target_id filed.reports))
      then auto_hide_content type target_id filed
      else filed

  -- A report that is on file already is not filed again.
  unfoldable pub submit_report : ℕ → ℕ → TargetType → ℕ → Text → CircleStore → CircleStore
  unfolding auto_hide_content hide_circle_content_for_user
  submit_report reporter_id circle_id type target_id reason s =
      if any_of (reported_by reporter_id type target_id) s.reports
      then hide_circle_content_for_user reporter_id type target_id s
      else file_report reporter_id circle_id type target_id reason s

  -- Ids are in their canonical spelling, as the test on a circle compares texts.
  unfoldable pub report_circle_content : ℕ → Text → ClientId → Text → ClientId → C (Unit {0})
  unfolding submit_report
  report_circle_content reporter_id target_type target reason circle_id = in_transaction (do
    type ← require_target_type target_type
    c ← require_id circle_id
    target_id ← require_id target
    require_circle_row c
    require_circle_membership not_circle_member (some reporter_id) c
    present ← gets (has_target e type target_id c)
    fail_if (not present) (missing type)
    modify (submit_report reporter_id c type target_id reason))
