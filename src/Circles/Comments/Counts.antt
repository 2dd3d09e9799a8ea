-- ===== src/Circles/Comments/Counts.antt =====
-- The counter of comments on a circle post: what keeps it true, and what does not.
use ziona_server.Base.{
  ℕ, ◌+◌, ◌≡◌, refl, Bool, true, ◌&&◌, some, List, [], ◌∷◌, ◌==◌, arith, inl, inr, Bool-cases,
  Option-cases, count_if, count_if-append, lookup, HasKeys, has_key, lookup-update_at,
  lookup-update_at_missing, lookup-update_at_other, update_at-HasKeys, Text, bit,
  count_if-update_at, update_at,
}
use ziona_server.Circles.Content.{
  CirclePost, CirclePostComment, comment_key, post_key, shows_post, shows_comment, is_null,
}
use ziona_server.Circles.State.{CircleStore, CircleEnv}
use ziona_server.Circles.Engage.{update_post}
use ziona_server.Circles.Comments.{
  comment_up, comment_down, new_comment, add_comment, delete_comment_row,
}

-- The comments of a post that are not deleted.
abbrev pub live_on : ℕ → CirclePostComment → Bool
live_on i c = c.post_id == i && is_null c.deleted_at

-- Every post that is not deleted counts its comments.
pub record CommentsCounted (s : CircleStore) : Type 0 where
  pub posts_keyed : HasKeys post_key s.posts
  pub comments_keyed : HasKeys comment_key s.comments
  pub counted :
      (i : ℕ) (p : CirclePost)
      → lookup post_key i s.posts ≡ some p
      → is_null p.deleted_at ≡ true
      → p.comments_count ≡ count_if (live_on i) s.comments

-- The authors of posts are neither deleted nor deactivated.
abbrev pub AuthorsActive : CircleEnv → CircleStore → Type 0
AuthorsActive e s =
    (i : ℕ) (p : CirclePost) → lookup post_key i s.posts ≡ some p → e.active_user p.user_id ≡ true

-- A comment of one more or one fewer on a post, and the counter.
module _ (e : CircleEnv) (i : ℕ) (s : CircleStore) (cs : List CirclePostComment)
    (sound : CommentsCounted s) (active : AuthorsActive e s) where
  counted_up :
      ((j : ℕ) → count_if (live_on j) cs ≡ count_if (live_on j) s.comments + bit (i == j))
      → (j : ℕ) (p : CirclePost)
      → lookup post_key j (update_at post_key (shows_post e.active_user) i comment_up s.posts)
        ≡ some p
      → is_null p.deleted_at ≡ true
      → p.comments_count ≡ count_if (live_on j) cs
  counted_up more j p h live = elim (Bool-cases (i == j)) [
    | inr apart ↦ ground (
      arith,
      more j,
      sound.counted j p,
      lookup-update_at_other post_key (shows_post e.active_user) i j comment_up s.posts (λ x. refl)
          apart,
    )
    | inl same ↦ elim (Option-cases (lookup post_key i s.posts)) [
      | inl missing ↦ absurd (
          ground (
            arith,
            lookup-update_at_missing post_key (shows_post e.active_user) i comment_up s.posts
                missing,
          ))
      | inr (x, found) ↦ ground (
        arith,
        more j,
        sound.counted i x found,
        active i x found,
        lookup-update_at post_key (shows_post e.active_user) i comment_up s.posts x (λ x. refl)
            found,
      )
    ]
  ]

  counted_down :
      ((j : ℕ) → count_if (live_on j) cs + bit (i == j) ≡ count_if (live_on j) s.comments)
      → (j : ℕ) (p : CirclePost)
      → lookup post_key j (update_at post_key (shows_post e.active_user) i comment_down s.posts)
        ≡ some p
      → is_null p.deleted_at ≡ true
      → p.comments_count ≡ count_if (live_on j) cs
  counted_down fewer j p h live = elim (Bool-cases (i == j)) [
    | inr apart ↦ ground (
      arith,
      fewer j,
      sound.counted j p,
      lookup-update_at_other post_key (shows_post e.active_user) i j comment_down s.posts
          (λ x. ground arith) apart,
    )
    | inl same ↦ elim (Option-cases (lookup post_key i s.posts)) [
      | inl missing ↦ absurd (
          ground (
            arith,
            lookup-update_at_missing post_key (shows_post e.active_user) i comment_down s.posts
                missing,
          ))
      | inr (x, found) ↦ ground (
        arith,
        fewer j,
        sound.counted i x found,
        active i x found,
        lookup-update_at post_key (shows_post e.active_user) i comment_down s.posts x
            (λ x. ground arith) found,
      )
    ]
  ]

-- Deleting the row of a comment that is not deleted.
pub deleted_counts :
    (e : CircleEnv) (s : CircleStore) (c : CirclePostComment)
    → HasKeys comment_key s.comments
    → lookup comment_key c.id s.comments ≡ some c
    → shows_comment e.active_user c ≡ true
    → (j : ℕ)
    → count_if (live_on j) (delete_comment_row e c.id s).comments + bit (c.post_id == j)
      ≡ count_if (live_on j) s.comments
deleted_counts e s c keyed found shown j = ground (
  arith,
  count_if-update_at comment_key (live_on j) (λ d. true) c.id
      (λ d. record d { deleted_at = some e.now }) s.comments c (keyed c.id) found,
)

pub delete-CommentsCounted :
    (e : CircleEnv) (s : CircleStore) (c : CirclePostComment)
    → lookup comment_key c.id s.comments ≡ some c
    → shows_comment e.active_user c ≡ true
    → CommentsCounted s
    → AuthorsActive e s
    → CommentsCounted (update_post e c.post_id comment_down (delete_comment_row e c.id s))
delete-CommentsCounted e s c found shown sound active = record {
  posts_keyed =
      update_at-HasKeys post_key (shows_post e.active_user) c.post_id comment_down s.posts
        (λ x. ground arith) sound.posts_keyed;
  comments_keyed =
      update_at-HasKeys comment_key (λ d. true) c.id (λ d. record d { deleted_at = some e.now })
        s.comments (λ x. refl) sound.comments_keyed;
  counted =
      counted_down e c.post_id s (delete_comment_row e c.id s).comments sound active
        (deleted_counts e s c sound.comments_keyed found shown);
}

pub create-CommentsCounted :
    (e : CircleEnv) (u i : ℕ) (text : Text) (s : CircleStore)
    → count_if (has_key comment_key e.new_id) s.comments ≡ 0
    → CommentsCounted s
    → AuthorsActive e s
    → CommentsCounted (update_post e i comment_up (add_comment e u i text s))
create-CommentsCounted e u i text s fresh sound active = record {
  posts_keyed =
      update_at-HasKeys post_key (shows_post e.active_user) i comment_up s.posts (λ x. refl)
        sound.posts_keyed;
  comments_keyed = λ j. ground (
    arith,
    fresh,
    sound.comments_keyed j,
    count_if-append (has_key comment_key j) s.comments (new_comment e u i text ∷ []),
  );
  counted =
      counted_up e i s (add_comment e u i text s).comments sound active
        (λ j. ground (arith, count_if-append (live_on j) s.comments (new_comment e u i text ∷ [])));
}
