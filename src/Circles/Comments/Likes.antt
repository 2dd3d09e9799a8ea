-- ===== src/Circles/Comments/Likes.antt =====
-- The likes of comments on circle posts and their counters.
use ziona_server.Base.{
  ℕ, ◌≤◌, ◌≡◌, ◌≢◌, refl, Bool, true, false, none, some, List, [], ◌∷◌, ◌==◌, arith, inl, inr, ◌⊎◌,
  Bool-cases, Option-cases, count_if, any_of, ok, lookup, get_where, lookup-get_where, HasKeys,
  any_of-count_if, none_of-count_if, lookup-update_at, lookup-update_at_other, update_at-HasKeys,
  subst, sym, lookup-key, count_if-filter_out, count_if-filter_out_apart, count_if-filter_out_le,
  filter_out,
}
use ziona_server.Circles.Content.{
  CirclePostComment, CommentLike, comment_key, shows_comment, post_key,
}
use ziona_server.Circles.State.{CircleStore, CircleEnv, ClientId, not_circle_member}
use ziona_server.Circles.Members.{has_circle_membership}
use ziona_server.Circles.Members.Guarded.{guarded-cases}
use ziona_server.Circles.Comments.{
  liked_by, live_comment, require_comment, like_up, like_down, switch_like,
  toggle_circle_post_comment_like, update_comment,
}

-- The likes that a comment's counter counts.
abbrev pub like_of : ℕ → CommentLike → Bool
like_of i l = l.comment_id == i

-- What a like and the taking back of one come to.
module _ (e : CircleEnv) where
  abbrev pub add_like : ℕ → ℕ → CircleStore → CircleStore
  add_like user_id comment_id s = update_comment e comment_id like_up (record s {
    comment_likes = record { comment_id = comment_id; user_id = user_id } ∷ s.comment_likes;
  })

  abbrev pub drop_like : ℕ → ℕ → CircleStore → CircleStore
  drop_like user_id comment_id s =
      update_comment e comment_id like_down
        (record s { comment_likes = filter_out (liked_by comment_id user_id) s.comment_likes })

-- Every comment counts its likes, and no user likes a comment twice.
pub record LikesTallied (s : CircleStore) : Type 0 where
  pub keyed : HasKeys comment_key s.comments
  pub once : (i u : ℕ) → count_if (liked_by i u) s.comment_likes ≤ 1
  pub tallied :
      (i : ℕ) (c : CirclePostComment)
      → lookup comment_key i s.comments ≡ some c
      → c.likes_count ≡ count_if (like_of i) s.comment_likes

liked_le : (i u : ℕ) (ls : List CommentLike) → count_if (liked_by i u) ls ≤ count_if (like_of i) ls
liked_le i u [] = omega arith
liked_le i u (l ∷ ls) = ground (arith, liked_le i u ls)

module _ (e : CircleEnv) (u : ℕ) (s : CircleStore) (c : CirclePostComment)
    (found : lookup comment_key c.id s.comments ≡ some c)
    (shown : shows_comment e.active_user c ≡ true) (sound : LikesTallied s) where
  add_like_tallied :
      any_of (liked_by c.id u) s.comment_likes ≡ false
      → (j : ℕ) (d : CirclePostComment)
      → lookup comment_key j (add_like e u c.id s).comments ≡ some d
      → d.likes_count ≡ count_if (like_of j) (add_like e u c.id s).comment_likes
  add_like_tallied off j d h = elim (Bool-cases (c.id == j)) [
    | inl same ↦ ground (
      arith,
      sound.tallied c.id c found,
      lookup-update_at comment_key (shows_comment e.active_user) c.id like_up s.comments c
          (λ x. refl) found,
    )
    | inr apart ↦ ground (
      arith,
      sound.tallied j d,
      lookup-update_at_other comment_key (shows_comment e.active_user) c.id j like_up s.comments
          (λ x. refl) apart,
    )
  ]

  add_like-LikesTallied :
      any_of (liked_by c.id u) s.comment_likes ≡ false → LikesTallied (add_like e u c.id s)
  add_like-LikesTallied off = record {
    keyed =
        update_at-HasKeys comment_key (shows_comment e.active_user) c.id like_up s.comments
          (λ x. refl) sound.keyed;
    once = λ j v.
        ground (arith, sound.once j v, none_of-count_if (liked_by c.id u) s.comment_likes off);
    tallied = add_like_tallied off;
  }

  like_positive : any_of (liked_by c.id u) s.comment_likes ≡ true → c.likes_count ≢ 0
  like_positive on = ground (
    arith,
    sound.tallied c.id c found,
    any_of-count_if (liked_by c.id u) s.comment_likes,
    liked_le c.id u s.comment_likes,
  )

  drop_like_tallied :
      any_of (liked_by c.id u) s.comment_likes ≡ true
      → (j : ℕ) (d : CirclePostComment)
      → lookup comment_key j (drop_like e u c.id s).comments ≡ some d
      → d.likes_count ≡ count_if (like_of j) (drop_like e u c.id s).comment_likes
  drop_like_tallied on j d h = elim (Bool-cases (c.id == j)) [
    | inl same ↦ ground (
      arith,
      sound.tallied c.id c found,
      sound.once c.id u,
      like_positive on,
      any_of-count_if (liked_by c.id u) s.comment_likes on,
      count_if-filter_out (like_of j) (liked_by c.id u) s.comment_likes (λ l k. ground arith),
      lookup-update_at comment_key (shows_comment e.active_user) c.id like_down s.comments c
          (λ x. ground arith) found,
    )
    | inr apart ↦ ground (
      arith,
      sound.tallied j d,
      count_if-filter_out_apart (like_of j) (liked_by c.id u) s.comment_likes (λ l k. ground arith),
      lookup-update_at_other comment_key (shows_comment e.active_user) c.id j like_down s.comments
          (λ x. ground arith) apart,
    )
  ]

  drop_like-LikesTallied :
      any_of (liked_by c.id u) s.comment_likes ≡ true → LikesTallied (drop_like e u c.id s)
  drop_like-LikesTallied on = record {
    keyed =
        update_at-HasKeys comment_key (shows_comment e.active_user) c.id like_down s.comments
          (λ x. ground arith) sound.keyed;
    once = λ j v. ground (
      arith,
      sound.once j v,
      count_if-filter_out_le (liked_by j v) (liked_by c.id u) s.comment_likes,
    );
    tallied = drop_like_tallied on;
  }

  switched :
      ((switch_like e u c.id s).1 ≡ s)
      ⊎ ((any_of (liked_by c.id u) s.comment_likes ≡ true)
          × ((switch_like e u c.id s).1 ≡ drop_like e u c.id s))
      ⊎ ((any_of (liked_by c.id u) s.comment_likes ≡ false)
          × ((switch_like e u c.id s).1 ≡ add_like e u c.id s))
  unfolding switch_like
  switched = elim (Bool-cases (any_of (liked_by c.id u) s.comment_likes)) [
    | inr off ↦ inr (inr (off, ground arith))
    | inl on ↦ elim (Bool-cases e.refuses_after_error) [
      | inl broken ↦ inl (ground arith)
      | inr handled ↦ inr (inl (on, ground arith))
    ]
  ]

  switch_like-LikesTallied : LikesTallied (switch_like e u c.id s).1
  switch_like-LikesTallied = elim switched [
    | inl same ↦ subst LikesTallied (sym same) sound
    | inr (inl (on, same)) ↦ subst LikesTallied (sym same) (drop_like-LikesTallied on)
    | inr (inr (off, same)) ↦ subst LikesTallied (sym same) (add_like-LikesTallied off)
  ]

-- A comment that is found is the row of its key, and shows.
pub require_comment-ok :
    (e : CircleEnv) (i : ClientId) (s t : CircleStore) (c : CirclePostComment) (k : ℕ)
    → HasKeys comment_key s.comments
    → require_comment e i s ≡ (ok (c, k), t)
    → (t ≡ s)
      × (lookup comment_key c.id s.comments ≡ some c)
      × (shows_comment e.active_user c ≡ true)
require_comment-ok e none s t c k keyed h = absurd (ground arith)
require_comment-ok e (some i) s t c k keyed h =
    elim (Option-cases (get_where comment_key (live_comment e) i s.comments)) [
      | inl missing ↦ absurd (ground arith)
      | inr (d, found) ↦ elim (Option-cases (lookup post_key d.post_id s.posts)) [
        | inl lost ↦ absurd (ground arith)
        | inr (p, post) ↦
            let (l, shown) =
              lookup-get_where comment_key (live_comment e) i s.comments d keyed found in
            let same = lookup-key comment_key i s.comments d l in
            (ground arith, ground arith, ground arith)
      ]
    ]

pub require_comment-reads :
    (e : CircleEnv) (i : ClientId) (s : CircleStore) → (require_comment e i s).1 ≡ s
require_comment-reads e none s = refl
require_comment-reads e (some i) s = ground arith

module _ (e : CircleEnv) (u : ℕ) (i : ClientId) (s : CircleStore) (sound : LikesTallied s) where
  toggle_cases :
      ((toggle_circle_post_comment_like e u i s).1 ≡ s)
      ⊎ ((found : CirclePostComment × ℕ) × (require_comment e i s ≡ (ok found, s))
          × (has_circle_membership (some u) found.1 s ≡ true)
          × ((toggle_circle_post_comment_like e u i s).1 ≡ (switch_like e u found.0.id s).1))
  unfolding toggle_circle_post_comment_like
  toggle_cases =
      guarded-cases (require_comment e i) not_circle_member (some u) (λ found. found.1)
        (λ found. switch_like e u found.0.id) s (require_comment-reads e i s)

  -- Likes on comments keep every counter equal to the number of likes, whatever they answer, and no
  -- user likes a comment twice.
  pub toggle_circle_post_comment_like-LikesTallied :
      LikesTallied (toggle_circle_post_comment_like e u i s).1
  toggle_circle_post_comment_like-LikesTallied = elim toggle_cases [
    | inl same ↦ subst LikesTallied (sym same) sound
    | inr ((c, k), f, m, same) ↦
        let (t, l, shown) = require_comment-ok e i s s c k sound.keyed f in
        subst LikesTallied (sym same) (switch_like-LikesTallied e u s c l shown sound)
  ]
