-- ===== src/Engagement/Likes.antt =====
-- Likes on comments: liking twice is liking once, and taking the like back restores what was there.
use ziona_server.Base.{
  ℕ, suc, ◌≡◌, false, some, arith, ok, any_of, none_of-count_if, filter_out-none,
}
use ziona_server.Engagement.State.{Comment, EngagementStore, EngagementEnv}
use ziona_server.Engagement.Comments.{
  like_comment, unlike_comment, find_comment, is_like_by, stats_of, CommentStats, put_like,
}

-- The counter of likes of a comment with one more.
abbrev pub one_more : CommentStats → CommentStats
one_more n = record n { likes_count = suc n.likes_count }

module _ (e : EngagementEnv) (u i : ℕ) (s : EngagementStore) (c : Comment) where
  -- A comment that shows and that the user does not like yet: a like answers one more than before, a
  -- second like answers the same and changes nothing, and taking the like back answers the old
  -- counters and restores the tables.
  pub unlike_comment-like_comment :
      e.limiter_refuses ≡ false
      → find_comment s i ≡ some c
      → any_of (is_like_by c.id u) s.comment_likes ≡ false
      → (like_comment e u (some i) s ≡ (ok (one_more (stats_of c.id s)), put_like e u c.id s))
        × (like_comment e u (some i) (put_like e u c.id s)
            ≡ (ok (one_more (stats_of c.id s)), put_like e u c.id s))
        × (unlike_comment e u (some i) (put_like e u c.id s) ≡ (ok (stats_of c.id s), s))
  unfolding like_comment unlike_comment
  unlike_comment-like_comment admitted found off = (
    ground arith,
    ground arith,
    ground (
      arith,
      filter_out-none (is_like_by c.id u) s.comment_likes
          (none_of-count_if (is_like_by c.id u) s.comment_likes off),
    ),
  )
