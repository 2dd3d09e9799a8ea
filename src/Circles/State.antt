-- ===== src/Circles/State.antt =====
-- The tables and the cache that the circle services share, and what a call is given.
use ziona_server.Base.{ℕ, Bool, List, Option, Method, find_first, ◌&&◌, ◌==◌}
use ziona_server.Circles.Content.{
  Circle, Membership, Anchor, Engagement, CirclePost, CirclePostComment, CommentLike,
  AnchorResponse, Reaction, CircleReport, HiddenContent,
}

pub record CircleStore : Type 0 where
  pub circles : List Circle
  pub memberships : List Membership
  pub anchors : List Anchor
  pub anchor_engagements : List Engagement
  pub posts : List CirclePost
  pub post_engagements : List Engagement
  pub comments : List CirclePostComment  -- oldest first
  pub comment_likes : List CommentLike
  pub responses : List AnchorResponse
  pub reactions : List Reaction
  pub reports : List CircleReport  -- newest first
  pub hidden : List HiddenContent  -- newest first
  pub active_anchor : ℕ → Option Anchor  -- the cache active_anchor:{circle_id}

-- A `ZionaError` by its code. A failed constraint and a query in a broken transaction are exceptions
-- of the database layer.
pub data CircleError : Type 0 where
  circle_not_found already_member not_member cannot_leave_last_admin : CircleError
  not_circle_member post_not_found comment_not_found not_comment_author : CircleError
  empty_comment anchor_not_found anchor_expired not_circle_admin : CircleError
  cannot_create_anchor invalid_anchor_type missing_scripture_reference : CircleError
  cannot_schedule_past schedule_too_far overlapping_anchor : CircleError
  invalid_reaction_type response_not_found invalid_response_type : CircleError
  threading_depth_exceeded invalid_media : CircleError
  invalid_target_type invalid_id target_not_found target_mismatch : CircleError
  integrity_error transaction_broken negative_index : CircleError

-- The time in microseconds, the id that `uuid4` draws, the users that are not deleted and whose
-- lifecycle state is active, and whether the database layer refuses every query that follows a
-- database error in the same atomic block.
pub record CircleEnv : Type 0 where
  pub now : ℕ
  pub new_id : ℕ
  pub active_user : ℕ → Bool
  pub refuses_after_error : Bool

abbrev pub C : Type 0 → Type 0
C = Method CircleStore CircleError

-- An id that a client sent, as `parse_uuid` reads it: `none` if it is malformed.
abbrev pub ClientId : Type 0
ClientId = Option ℕ

abbrev pub is_member : ℕ → ℕ → Membership → Bool
is_member circle_id user_id m = m.circle_id == circle_id && m.user_id == user_id

abbrev pub get_membership : ℕ → ℕ → CircleStore → Option Membership
get_membership circle_id user_id s = find_first (is_member circle_id user_id) s.memberships
