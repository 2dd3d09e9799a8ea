-- ===== src/Engagement/Deletion.antt =====
-- A deletion of a comment, and what it does to the limit on the depth of threads.
use ziona_server.Base.{
  ℕ, ◌≡◌, refl, true, false, none, some, List, [], ◌∷◌, ◌==◌, ltb, arith, inl, inr, Bool-cases,
  Option-cases, Text, length, ok, HasKeys, any_of, get_where, lookup-get_where, lookup-key,
  update_at,
}
use ziona_server.Engagement.State.{
  Post, Comment, EngagementStore, EngagementEnv, post_is_shown, comment_is_shown, is_active_author,
  post_id_of, comment_id_of,
}
use ziona_server.Engagement.Comments.{
  create_comment, delete_comment, mark_deleted, find_comment, new_reply, store_comment, is_blank,
  build_comment_dto, comment_max_length,
}
use ziona_server.Engagement.Threads.{create_comment_below_hidden}

module _ (e : EngagementEnv) (s : EngagementStore) where
  find_comment-mark_deleted :
      (i : ℕ) (cs : List Comment)
      → get_where comment_id_of
          (comment_is_shown s)
          i
          (update_at comment_id_of (λ d. true) i (mark_deleted e) cs)
        ≡ none
  find_comment-mark_deleted i [] = refl
  find_comment-mark_deleted i (c ∷ cs) = ground (arith, find_comment-mark_deleted i cs)

  -- Who deletes a comment is its author, and nobody finds it afterwards.
  pub find_comment-delete_comment :
      (v i k : ℕ) (t : EngagementStore)
      → HasKeys comment_id_of s.comments
      → delete_comment e v (some i) s ≡ (ok k, t)
      → (find_comment t i ≡ none)
        × ((c : Comment) × (find_comment s i ≡ some c) × (c.user_id ≡ v) × (c.post_id ≡ k))
  unfolding delete_comment
  find_comment-delete_comment v i k t keyed h = elim (Option-cases (find_comment s i)) [
    | inl missing ↦ absurd (ground arith)
    | inr (c, found) ↦
        let (row, live) =
          lookup-get_where comment_id_of (comment_is_shown s) i s.comments c keyed found in
        elim (Bool-cases (c.user_id == v)) [
          | inr other ↦ absurd (ground arith)
          | inl own ↦ (
            ground (
              arith,
              lookup-key comment_id_of i s.comments c row,
              find_comment-mark_deleted i s.comments,
            ),
            (c, found, ground arith, ground arith),
          )
        ]
  ]

module _ (e : EngagementEnv) (u v above k : ℕ) (text : Text) (s t : EngagementStore) where
  -- Once the author of a comment has deleted it, each of its answers takes a reply, however deep it
  -- stands: a text of good length from an active user on a live post is stored under the answer.
  pub create_comment-delete_comment :
      (p : Post) (c : Comment)
      → HasKeys comment_id_of s.comments
      → delete_comment e v (some above) s ≡ (ok k, t)
      → e.limiter_refuses ≡ false
      → is_blank text ≡ false
      → ltb comment_max_length (length text) ≡ false
      → any_of (is_active_author u) t.users ≡ true
      → get_where post_id_of (post_is_shown t) c.post_id t.posts ≡ some p
      → find_comment t c.id ≡ some c
      → c.parent_comment ≡ some above
      → let d = new_reply e u c.post_id text (some c.id) t in
        create_comment e u c.post_id text (some (some c.id)) t
        ≡ (ok (build_comment_dto u d (store_comment e d t)), store_comment e d t)
  create_comment-delete_comment p c keyed gone admitted filled short active post found up =
      create_comment_below_hidden e u c.post_id text t p c above admitted filled short active post
        found refl up (find_comment-delete_comment e s v above k t keyed gone).0
