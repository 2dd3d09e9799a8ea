-- ===== src/Engagement/Comments.antt =====
-- core/engagement/services/comments.py: creating, deleting and liking comments. The page queries and
-- the previews of replies are left out.
use ziona_server.Base.{
  ℕ, zero, suc, Bool, true, false, not, ◌&&◌, ◌||◌, Option, none, some, List, [], ◌∷◌, ◌==◌, leb,
  ltb, if◌then◌else◌, Text, text_eq, is_empty, strip, length, any_of, count_if, filter_out,
  get_where, update_at, ok, err, fail_if, gets, modify, pure, ◌>>=◌, ◌>>◌,
}
use ziona_server.Engagement.State.{
  Author, Post, Comment, CommentLike, EngagementStore, EngagementEnv, E, validation_error,
  comment_too_long, post_not_found, comment_not_found, comment_post_mismatch,
  comment_thread_too_deep, permission_denied, rate_limit_exceeded, attribute_error, is_unset,
  post_is_shown, comment_is_shown, post_id_of, comment_id_of,
}

abbrev pub comment_max_length : ℕ
comment_max_length = 500

abbrev pub comment_max_thread_depth : ℕ
comment_max_thread_depth = 3

abbrev pub find_comment : EngagementStore → ℕ → Option Comment
find_comment s i = get_where comment_id_of (comment_is_shown s) i s.comments

-- The loop of `_get_thread_depth` at a depth and a comment. It leaves at the greatest depth, so as
-- many rounds as that depth are enough.
abbrev pub depth_loop : ℕ → EngagementStore → ℕ → Comment → ℕ
depth_loop zero s depth c = depth
depth_loop (suc rounds) s depth c = elim c.parent_comment [
  | none ↦ depth
  | some p ↦
      if leb comment_max_thread_depth (suc depth)
      then suc depth
      else elim (find_comment s p) [ none ↦ suc depth | some q ↦ depth_loop rounds s (suc depth) q ]
]

unfoldable pub get_thread_depth : EngagementStore → Comment → ℕ
get_thread_depth s c = depth_loop comment_max_thread_depth s 0 c

module _ (is_word_code : ℕ → Bool) where
  -- The code points that `\w{0,n}` matches at the front.
  abbrev pub word_prefix : ℕ → Text → Text
  word_prefix zero t = []
  word_prefix (suc n) [] = []
  word_prefix (suc n) (c ∷ t) =
      let rest = word_prefix n t in if is_word_code c then c ∷ rest else []

  -- `MENTION_REGEX.findall`, the number of code points that belong to the last match first.
  abbrev pub find_mentions : ℕ → Text → List Text
  find_mentions skip [] = []
  find_mentions (suc skip) (c ∷ t) = find_mentions skip t
  find_mentions zero (c ∷ t) =
      let name = word_prefix 30 t in
      let found = find_mentions (length name) t in
      let rest = find_mentions 0 t in if c == 64 && leb 3 (length name) then name ∷ found else rest

abbrev pub is_named : List Text → Author → Bool
is_named names a = (is_unset a.deleted_at && a.in_active_state) && any_of (text_eq a.username) names

-- The ids of the users that pass a test.
abbrev pub ids_where : (Author → Bool) → List Author → List ℕ
ids_where q [] = []
ids_where q (a ∷ xs) = let rest = ids_where q xs in if q a then a.id ∷ rest else rest

-- Active users with a mentioned name.
unfoldable pub parse_mentions : EngagementEnv → Text → EngagementStore → List ℕ
parse_mentions e text s = ids_where (is_named (find_mentions e.is_word_code 0 text)) s.users

pub record CommentStats : Type 0 where
  pub likes_count : ℕ
  pub replies_count : ℕ

pub record CommentResponse : Type 0 where
  pub id : ℕ
  pub post_id : ℕ
  pub parent_comment_id : Option ℕ
  pub user_id : ℕ
  pub text : Text
  pub stats : CommentStats
  pub liked : Bool
  pub is_owner : Bool
  pub created_at : ℕ

abbrev pub is_like_of : ℕ → CommentLike → Bool
is_like_of comment_id l = l.comment_id == comment_id

abbrev pub is_like_by : ℕ → ℕ → CommentLike → Bool
is_like_by comment_id user_id l = l.comment_id == comment_id && l.user_id == user_id

abbrev pub answers : ℕ → Option ℕ → Bool
answers comment_id none = false
answers comment_id (some p) = p == comment_id

abbrev pub is_reply_to : EngagementStore → ℕ → Comment → Bool
is_reply_to s comment_id c = comment_is_shown s c && answers comment_id c.parent_comment

abbrev pub stats_of : ℕ → EngagementStore → CommentStats
stats_of comment_id s = record {
  likes_count = count_if (is_like_of comment_id) s.comment_likes;
  replies_count = count_if (is_reply_to s comment_id) s.comments;
}

abbrev pub build_comment_dto : ℕ → Comment → EngagementStore → CommentResponse
build_comment_dto viewer_id c s = record {
  id = c.id;
  post_id = c.post_id;
  parent_comment_id = c.parent_comment;
  user_id = c.user_id;
  text = c.text;
  stats = stats_of c.id s;
  liked = any_of (is_like_by c.id viewer_id) s.comment_likes;
  is_owner = c.user_id == viewer_id;
  created_at = c.created_at;
}

-- `not text or not text.strip()`
abbrev pub is_blank : Text → Bool
is_blank t = is_empty t || is_empty (strip t)

-- `_require_comment_id` and the query after it: a malformed id is `none`.
abbrev pub require_shown : Option ℕ → E Comment
require_shown none s = (err comment_not_found, s)
require_shown (some i) s = elim (find_comment s i) [
  | none ↦ (err comment_not_found, s)
  | some c ↦ (ok c, s)
]

abbrev pub require_live_post : ℕ → E Post
require_live_post i s = elim (get_where post_id_of (post_is_shown s) i s.posts) [
  | none ↦ (err post_not_found, s)
  | some p ↦ (ok p, s)
]

-- What a parent has to pass: it belongs to the post and its thread is not too deep.
abbrev pub check_parent : ℕ → Comment → E (Option ℕ)
check_parent post_id c = do
  fail_if (not (c.post_id == post_id)) comment_post_mismatch
  depth ← gets (λ s. get_thread_depth s c)
  fail_if (leb comment_max_thread_depth depth) comment_thread_too_deep
  pure (some c.id)

-- The parent of a new comment; without an id the comment is at the top.
abbrev pub require_parent : ℕ → Option (Option ℕ) → E (Option ℕ)
require_parent post_id none = pure none
require_parent post_id (some i) = do c ← require_shown i; check_parent post_id c

module _ (e : EngagementEnv) where
  abbrev pub new_reply : ℕ → ℕ → Text → Option ℕ → EngagementStore → Comment
  new_reply user_id post_id text parent s = record {
    id = e.new_id;
    post_id = post_id;
    user_id = user_id;
    parent_comment = parent;
    text = strip text;
    mentioned_users = parse_mentions e text s;
    created_at = e.now;
    deleted_at = none;
  }

  abbrev pub store_comment : Comment → EngagementStore → EngagementStore
  store_comment c s = record s { comments = c ∷ s.comments }

  -- The row is written first and read again through the manager, which hides it if its author is not
  -- active.
  abbrev pub write_comment : ℕ → Comment → E CommentResponse
  write_comment user_id c s =
      let t = store_comment c s in
      elim (find_comment t c.id) [
        | none ↦ (err attribute_error, t)
        | some d ↦ (ok (build_comment_dto user_id d t), t)
      ]

  unfoldable pub create_comment : ℕ → ℕ → Text → Option (Option ℕ) → E CommentResponse
  create_comment user_id post_id text parent_comment_id = do
    fail_if e.limiter_refuses rate_limit_exceeded
    fail_if (is_blank text) validation_error
    fail_if (ltb comment_max_length (length text)) comment_too_long
    post ← require_live_post post_id
    parent ← require_parent post_id parent_comment_id
    c ← gets (new_reply user_id post_id text parent)
    write_comment user_id c

  abbrev pub mark_deleted : Comment → Comment
  mark_deleted c = record c { deleted_at = some e.now }

  -- `soft_delete` saves the row by its key; the answer is the post.
  unfoldable pub delete_comment : ℕ → Option ℕ → E ℕ
  delete_comment user_id comment_id = do
    c ← require_shown comment_id
    fail_if (not (c.user_id == user_id)) permission_denied
    modify (λ s. record s {
      comments = update_at comment_id_of (λ d. true) c.id mark_deleted s.comments;
    })
    pure c.post_id

  -- `get_or_create`
  abbrev pub put_like : ℕ → ℕ → EngagementStore → EngagementStore
  put_like user_id comment_id s =
      if any_of (is_like_by comment_id user_id) s.comment_likes then s else record s {
        comment_likes = record { user_id = user_id; comment_id = comment_id } ∷ s.comment_likes;
      }

  abbrev pub take_like : ℕ → ℕ → EngagementStore → EngagementStore
  take_like user_id comment_id s = record s {
    comment_likes = filter_out (is_like_by comment_id user_id) s.comment_likes;
  }

  unfoldable pub like_comment : ℕ → Option ℕ → E CommentStats
  like_comment user_id comment_id = do
    fail_if e.limiter_refuses rate_limit_exceeded
    c ← require_shown comment_id
    modify (put_like user_id c.id)
    gets (stats_of c.id)

  unfoldable pub unlike_comment : ℕ → Option ℕ → E CommentStats
  unlike_comment user_id comment_id = do
    fail_if e.limiter_refuses rate_limit_exceeded
    c ← require_shown comment_id
    modify (take_like user_id c.id)
    gets (stats_of c.id)
