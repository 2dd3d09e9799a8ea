-- ===== src/Circles/Comments/Stuck.antt =====
-- Why a like on a comment cannot be taken back: the error that tells of the like breaks the block in
-- which the like is to be deleted.
use ziona_server.Base.{
  ℕ, ◌≡◌, ◌⊎◌, true, List, [], ◌∷◌, arith, inl, inr, Bool-cases, any_of, subst, sym, some,
}
use ziona_server.Circles.State.{CircleStore, CircleEnv, ClientId, not_circle_member}
use ziona_server.Circles.Members.Guarded.{guarded-cases}
use ziona_server.Circles.Comments.{
  liked_by, require_comment, switch_like, toggle_circle_post_comment_like,
}
use ziona_server.Circles.Comments.Likes.{add_like, require_comment-reads}

-- Toggles one after the other, each by a user on a comment.
abbrev pub run_toggles : CircleEnv → List (ℕ × ClientId) → CircleStore → CircleStore
run_toggles e [] s = s
run_toggles e ((u, i) ∷ calls) s = run_toggles e calls (toggle_circle_post_comment_like e u i s).1

abbrev pub IsLiked : ℕ → ℕ → CircleStore → Type 0
IsLiked i u s = any_of (liked_by i u) s.comment_likes ≡ true

module _ (e : CircleEnv) (refuses : e.refuses_after_error ≡ true) where
  switch_like_refused :
      (u i : ℕ) (s : CircleStore)
      → ((switch_like e u i s).1 ≡ s) ⊎ ((switch_like e u i s).1 ≡ add_like e u i s)
  unfolding switch_like
  switch_like_refused u i s = elim (Bool-cases (any_of (liked_by i u) s.comment_likes)) [
    | inl on ↦ inl (ground arith)
    | inr off ↦ inr (ground arith)
  ]

  toggle-IsLiked :
      (j v u : ℕ) (i : ClientId) (s : CircleStore)
      → IsLiked j v s
      → IsLiked j v (toggle_circle_post_comment_like e u i s).1
  unfolding toggle_circle_post_comment_like
  toggle-IsLiked j v u i s liked =
      elim (guarded-cases (require_comment e i) not_circle_member (some u) (λ found. found.1)
        (λ found. switch_like e u found.0.id) s (require_comment-reads e i s)) [
          | inl same ↦ subst (IsLiked j v) (sym same) liked
          | inr (found, f, inside, same) ↦ elim (switch_like_refused u found.0.id s) [
            | inl kept ↦ subst (IsLiked j v) (sym same) (subst (IsLiked j v) (sym kept) liked)
            | inr added ↦
                subst (IsLiked j v) (sym same)
                  (subst (IsLiked j v) (sym added) (ground (arith, liked)))
          ]
        ]

  -- Where the database layer refuses queries after an error in the same transaction, no like on a
  -- comment is ever taken back: whatever toggles are called, by whomever and however they end, a like
  -- that is there stays.
  pub run_toggles-IsLiked :
      (j v : ℕ) (calls : List (ℕ × ClientId)) (s : CircleStore)
      → IsLiked j v s
      → IsLiked j v (run_toggles e calls s)
  run_toggles-IsLiked j v [] s liked = liked
  run_toggles-IsLiked j v ((u, i) ∷ calls) s liked =
      run_toggles-IsLiked j v calls (toggle_circle_post_comment_like e u i s).1
        (toggle-IsLiked j v u i s liked)
