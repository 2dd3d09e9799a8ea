-- ===== src/Engagement/Tests.antt =====
-- The theorems on comments at a small thread.
use ziona_server.Base.{
  ℕ, zero, suc, drop, subst, Bool-cases, ◌≡◌, refl, true, false, none, some, List, [], ◌∷◌, arith,
  inl, inr, codes, ok, err, lookup, HasKeys, text_eq, strip, leb, ◌&&◌, ◌==◌,
}
use ziona_server.Engagement.State.{
  Comment, EngagementStore, EngagementEnv, comment_thread_too_deep, comment_id_of,
}
use ziona_server.Engagement.Comments.{
  create_comment, delete_comment, like_comment, unlike_comment, new_reply, store_comment,
  build_comment_dto, get_thread_depth, put_like, stats_of, find_mentions, parse_mentions,
}
use ziona_server.Engagement.Depth.{IsWithin, AreShallow, AreShown}
use ziona_server.Engagement.Threads.{create_comment-AreShallow}
use ziona_server.Engagement.Likes.{one_more, unlike_comment-like_comment}
use ziona_server.Engagement.Deletion.{create_comment-delete_comment}

abbrev env : EngagementEnv
env = record {
  now = 9;
  new_id = 34;
  limiter_refuses = false;
  is_word_code = λ c. leb 97 c && leb c 122;
}

-- A comment on post 20 by user 10.
abbrev comment : ℕ → List ℕ → Comment
comment i above = record {
  id = i;
  post_id = 20;
  user_id = 10;
  parent_comment = elim above [ [] ↦ none | p ∷ ps ↦ some p ];
  text = codes "so";
  mentioned_users = [];
  created_at = 1;
  deleted_at = none;
}

-- A thread of four comments, the last one as deep as it gets.
abbrev thread : EngagementStore
thread = record {
  users =
      record { id = 10; username = codes "ann"; deleted_at = none; in_active_state = true } ∷ [];
  posts = record { id = 20; user_id = 10; deleted_at = none } ∷ [];
  comments =
      comment 33 (32 ∷ []) ∷ comment 32 (31 ∷ []) ∷ comment 31 (30 ∷ []) ∷ comment 30 [] ∷ [];
  comment_likes = [];
}

-- The same after the deletion of the third one.
abbrev cut_thread : EngagementStore
cut_thread = record thread {
  comments =
      comment 33 (32 ∷ [])
      ∷ record (comment 32 (31 ∷ [])) { deleted_at = some 9 }
      ∷ comment 31 (30 ∷ [])
      ∷ comment 30 []
      ∷ [];
}

mentions :
    find_mentions env.is_word_code 0 (codes "@al @ann, @@bob") ≡ codes "ann" ∷ codes "bob" ∷ []
mentions = refl

mentioned : parse_mentions env (codes "hi @ann") thread ≡ 10 ∷ []
unfolding parse_mentions text_eq
mentioned = refl

too_deep :
    create_comment env 10 20 (codes "no") (some (some 33)) thread
    ≡ (err comment_thread_too_deep, thread)
unfolding create_comment get_thread_depth strip
too_deep = refl

thread-HasKeys : HasKeys comment_id_of thread.comments
thread-HasKeys i = ground arith

is_cut : delete_comment env 10 (some 32) thread ≡ (ok 20, cut_thread)
unfolding delete_comment
is_cut = refl

thread-AreShown : AreShown thread
thread-AreShown i c h = ground arith

module _ (i : ℕ) (c : Comment) where
  first_row :
      (d : Comment) (rest : List Comment)
      → (comment_id_of d == i) ≡ true
      → lookup comment_id_of i (d ∷ rest) ≡ some c
      → d ≡ c
  first_row d rest t h = ground arith

  first_row-IsWithin :
      (d : Comment) (rest : List Comment)
      → IsWithin 3 thread.comments d
      → (lookup comment_id_of i rest ≡ some c → IsWithin 3 thread.comments c)
      → lookup comment_id_of i (d ∷ rest) ≡ some c
      → IsWithin 3 thread.comments c
  first_row-IsWithin d rest here there h = elim (Bool-cases (comment_id_of d == i)) [
    | inl t ↦ subst (IsWithin 3 thread.comments) (first_row d rest t h) here
    | inr n ↦ there (ground arith)
  ]

-- The comment 30 is at the top, 31 to 33 stand under one another.
thread-IsWithin :
    (i : ℕ) (c : Comment)
    → lookup comment_id_of i thread.comments ≡ some c
    → IsWithin 3 thread.comments c
thread-IsWithin i c =
    first_row-IsWithin i c (comment 33 (32 ∷ [])) (drop 1 thread.comments)
      (inr (32, comment 32 (31 ∷ []), refl, refl, refl, under 0))
      (first_row-IsWithin i c (comment 32 (31 ∷ [])) (drop 2 thread.comments) (under 1) (
        first_row-IsWithin i c (comment 31 (30 ∷ [])) (drop 3 thread.comments) (under_top 2)
          (first_row-IsWithin i c (comment 30 []) [] (inl refl) (λ h. absurd (ground arith)))))
  where
    under_top : (n : ℕ) → IsWithin (suc n) thread.comments (comment 31 (30 ∷ []))
    under_top n = inr (30, comment 30 [], refl, refl, refl, at_top n)
      where
        at_top : (m : ℕ) → IsWithin m thread.comments (comment 30 [])
        at_top zero = refl
        at_top (suc m) = inl refl

    under : (n : ℕ) → IsWithin (suc (suc n)) thread.comments (comment 32 (31 ∷ []))
    under n = inr (31, comment 31 (30 ∷ []), refl, refl, refl, under_top n)

thread-AreShallow : AreShallow thread
thread-AreShallow = record { keyed = thread-HasKeys; within = thread-IsWithin }

create_comment-AreShallow_example :
    AreShallow (create_comment env 10 20 (codes "yes") (some (some 32)) thread).1
create_comment-AreShallow_example =
    create_comment-AreShallow env 10 20 (codes "yes") thread refl thread-AreShallow thread-AreShown
      (some (some 32))

unlike_comment-like_comment_example :
    (like_comment env 10 (some 31) thread
      ≡ (ok (one_more (stats_of 31 thread)), put_like env 10 31 thread))
    × (like_comment env 10 (some 31) (put_like env 10 31 thread)
        ≡ (ok (one_more (stats_of 31 thread)), put_like env 10 31 thread))
    × (unlike_comment env 10 (some 31) (put_like env 10 31 thread)
        ≡ (ok (stats_of 31 thread), thread))
unlike_comment-like_comment_example =
    unlike_comment-like_comment env 10 31 thread (comment 31 (30 ∷ [])) refl refl refl

-- The new comment is the fifth of its thread.
create_comment-delete_comment_example :
    let d = new_reply env 10 20 (codes "no") (some 33) cut_thread in
    create_comment env 10 20 (codes "no") (some (some 33)) cut_thread
    ≡ (ok (build_comment_dto 10 d (store_comment env d cut_thread)), store_comment env d cut_thread)
unfolding strip
create_comment-delete_comment_example =
    create_comment-delete_comment env 10 10 32 20 (codes "no") thread cut_thread
      (record { id = 20; user_id = 10; deleted_at = none }) (comment 33 (32 ∷ [])) thread-HasKeys
      is_cut refl refl refl refl refl refl refl
