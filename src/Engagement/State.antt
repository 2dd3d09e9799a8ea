-- ===== src/Engagement/State.antt =====
-- core/engagement/models.py and core/shared/models.py: the rows that the comment services read and
-- write, and which of them the managers show.
use ziona_server.Base.{ℕ, Bool, not, ◌&&◌, Option, List, ◌==◌, Text, Method, any_of, is_some}

-- What the managers read of a user.
pub record Author : Type 0 where
  pub id : ℕ
  pub username : Text
  pub deleted_at : Option ℕ
  pub in_active_state : Bool  -- lifecycle_state is active

pub record Post : Type 0 where
  pub id : ℕ
  pub user_id : ℕ
  pub deleted_at : Option ℕ

pub record Comment : Type 0 where
  pub id : ℕ
  pub post_id : ℕ
  pub user_id : ℕ
  pub parent_comment : Option ℕ
  pub text : Text
  pub mentioned_users : List ℕ
  pub created_at : ℕ
  pub deleted_at : Option ℕ

pub record CommentLike : Type 0 where
  pub user_id : ℕ
  pub comment_id : ℕ

-- Users, posts and comments stand newest first.
pub record EngagementStore : Type 0 where
  pub users : List Author
  pub posts : List Post
  pub comments : List Comment
  pub comment_likes : List CommentLike

-- An `EngagementError` by its code, and the error of an attribute of None.
pub data EngagementError : Type 0 where
  validation_error comment_too_long post_not_found comment_not_found : EngagementError
  comment_post_mismatch comment_thread_too_deep permission_denied : EngagementError
  rate_limit_exceeded attribute_error : EngagementError

-- The time, the id that `uuid4` draws, whether the rate limiter refuses the call, and the code points
-- that `\w` matches.
pub record EngagementEnv : Type 0 where
  pub now : ℕ
  pub new_id : ℕ
  pub limiter_refuses : Bool
  pub is_word_code : ℕ → Bool

abbrev pub E : Type 0 → Type 0
E = Method EngagementStore EngagementError

abbrev pub is_unset : Option ℕ → Bool
is_unset o = not (is_some o)

-- `ActiveUserContentManager`: the account that owns a row is not deleted and its state is active.
abbrev pub is_active_author : ℕ → Author → Bool
is_active_author user_id a = (a.id == user_id && is_unset a.deleted_at) && a.in_active_state

abbrev pub post_is_shown : EngagementStore → Post → Bool
post_is_shown s p = is_unset p.deleted_at && any_of (is_active_author p.user_id) s.users

abbrev pub comment_is_shown : EngagementStore → Comment → Bool
comment_is_shown s c = is_unset c.deleted_at && any_of (is_active_author c.user_id) s.users

abbrev pub post_id_of : Post → ℕ
post_id_of p = p.id

abbrev pub comment_id_of : Comment → ℕ
comment_id_of c = c.id
