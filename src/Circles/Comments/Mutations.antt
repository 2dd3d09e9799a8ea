-- ===== src/Circles/Comments/Mutations.antt =====
-- Creating and deleting comments, and the counter of the post.
use ziona_server.Base.{
  ℕ, suc, ◌≡◌, true, false, not, some, ◌==◌, arith, inl, inr, ◌⊎◌, Bool-cases, count_if, ==_refl,
  ok, lookup, has_key, lookup-update_at, subst, sym, Text, strip, is_empty, fail_if, modify, ◌>>◌,
  not,
}
use ziona_server.Circles.Content.{
  CirclePost, CirclePostComment, comment_key, post_key, shows_post, is_null,
}
use ziona_server.Circles.State.{
  CircleStore, CircleEnv, ClientId, not_circle_member, not_comment_author, C,
}
use ziona_server.Circles.Members.{has_circle_membership}
use ziona_server.Circles.Members.Guarded.{guarded-cases, guarded-member}
use ziona_server.Circles.Engage.{require_post, update_post}
use ziona_server.Circles.Comments.{
  comment_up, comment_down, add_comment, delete_comment_row, create_circle_post_comment,
  delete_circle_post_comment, require_comment,
}
use ziona_server.Circles.Comments.Likes.{require_comment-ok, require_comment-reads}
-- The comments of a post that are not deleted.
use ziona_server.Circles.Comments.Counts.{
  deleted_counts, delete-CommentsCounted, create-CommentsCounted, CommentsCounted, AuthorsActive,
  live_on,
}

module _ (e : CircleEnv) (u : ℕ) (s : CircleStore) (sound : CommentsCounted s)
    (active : AuthorsActive e s) where
  create_act : Text → CirclePost → C (Unit {0})
  create_act text p =
      modify (add_comment e u p.id (strip text)) >> modify (update_post e p.id comment_up)

  created :
      (i : ℕ) (text : Text)
      → ((create_circle_post_comment e u i text s).1 ≡ s)
        ⊎ ((p : CirclePost) × ((create_circle_post_comment e u i text s).1
              ≡ update_post e p.id comment_up (add_comment e u p.id (strip text) s)))
  unfolding create_circle_post_comment create_act
  created i text = elim (Bool-cases (is_empty (strip text))) [
    | inl empty ↦ inl (ground arith)
    | inr full ↦
        elim (guarded-cases (require_post e i) not_circle_member (some u) (λ p. p.circle_id)
          (create_act text) s (ground arith)) [
            | inl same ↦ inl (ground arith)
            | inr (p, f, m, same) ↦ inr (p, ground arith)
          ]
  ]

  deleted :
      (i : ClientId)
      → ((delete_circle_post_comment e u i s).1 ≡ s)
        ⊎ ((c : CirclePostComment) × (k : ℕ) × (require_comment e i s ≡ (ok (c, k), s))
            × ((delete_circle_post_comment e u i s).1
                ≡ update_post e c.post_id comment_down (delete_comment_row e c.id s)))
  unfolding delete_circle_post_comment
  deleted i =
      elim (guarded-cases (require_comment e i) not_circle_member (some u) (λ found. found.1)
        (λ found.
          fail_if (not (found.0.user_id == u)) not_comment_author
          >> (modify (delete_comment_row e found.0.id)
              >> modify (update_post e found.0.post_id comment_down)))
        s (require_comment-reads e i s)) [
          | inl same ↦ inl same
          | inr ((c, k), f, m, same) ↦ elim (Bool-cases (c.user_id == u)) [
            | inl own ↦ inr (c, k, f, ground arith)
            | inr foreign ↦ inl (ground arith)
          ]
        ]

  -- Creating and deleting comments keep the number of comments on every post true, while the authors
  -- of posts are active. A new comment draws a new id.
  pub create_circle_post_comment-CommentsCounted :
      (i : ℕ) (text : Text) (c : ClientId)
      → count_if (has_key comment_key e.new_id) s.comments ≡ 0
      → CommentsCounted (create_circle_post_comment e u i text s).1
        × CommentsCounted (delete_circle_post_comment e u c s).1
  create_circle_post_comment-CommentsCounted i text c fresh = (
    elim (created i text) [
      | inl same ↦ subst CommentsCounted (sym same) sound
      | inr (p, same) ↦
          subst CommentsCounted (sym same)
            (create-CommentsCounted e u p.id (strip text) s fresh sound active)
    ],
    elim (deleted c) [
      | inl same ↦ subst CommentsCounted (sym same) sound
      | inr (d, k, f, same) ↦
          let (t, l, shown) = require_comment-ok e c s s d k sound.comments_keyed f in
          subst CommentsCounted (sym same) (delete-CommentsCounted e s d l shown sound active)
    ],
  )

-- While the author of the post is deactivated, a comment that its own author deletes is still counted:
-- the post keeps a count of one too many.
pub delete_circle_post_comment_drifts :
    (e : CircleEnv) (i : ClientId) (s : CircleStore) (c : CirclePostComment) (p : CirclePost)
    → CommentsCounted s
    → require_comment e i s ≡ (ok (c, p.circle_id), s)
    → has_circle_membership (some c.user_id) p.circle_id s ≡ true
    → lookup post_key c.post_id s.posts ≡ some p
    → is_null p.deleted_at ≡ true
    → e.active_user p.user_id ≡ false
    → (t : CircleStore) × (delete_circle_post_comment e c.user_id i s ≡ (ok tt, t))
      × (lookup post_key c.post_id t.posts ≡ some p)
      × (p.comments_count ≡ suc (count_if (live_on c.post_id) t.comments))
unfolding delete_circle_post_comment
delete_circle_post_comment_drifts e i s c p sound f m post live inactive =
    let (t, l, shown) = require_comment-ok e i s s c p.circle_id sound.comments_keyed f in
    (
      update_post e c.post_id comment_down (delete_comment_row e c.id s),
      ground (
        arith,
        ==_refl c.user_id,
        guarded-member (require_comment e i) not_circle_member (some c.user_id) (λ found. found.1)
            (λ found.
              fail_if (not (found.0.user_id == c.user_id)) not_comment_author
              >> (modify (delete_comment_row e found.0.id)
                  >> modify (update_post e found.0.post_id comment_down)))
            s (c, p.circle_id) f m,
      ),
      ground (
        arith,
        lookup-update_at post_key (shows_post e.active_user) c.post_id comment_down s.posts p
            (λ x. ground arith) post,
      ),
      ground (
        arith,
        deleted_counts e s c sound.comments_keyed l shown c.post_id,
        ==_refl c.post_id,
        sound.counted c.post_id p post live,
      ),
    )
