-- ===== src/Engagement/Threads.antt =====
-- Comments in threads: what a new comment leaves, and what a hidden parent does to the limit.
use ziona_server.Base.{
  ℕ, ◌≡◌, ◌⊎◌, refl, true, false, Option, none, some, ◌∷◌, ◌==◌, leb, ltb, arith, inl, inr,
  Bool-cases, Option-cases, count_if, Text, length, ok, lookup, has_key, any_of, Result-cases,
  get_where, lookup-get_where, lookup-key, subst, sym,
}
use ziona_server.Engagement.State.{
  Post, Comment, EngagementStore, EngagementEnv, post_is_shown, comment_is_shown, is_active_author,
  post_id_of, comment_id_of,
}
use ziona_server.Engagement.Comments.{
  create_comment, find_comment, new_reply, store_comment, is_blank, get_thread_depth,
  require_parent, build_comment_dto, comment_max_length, comment_max_thread_depth,
}
use ziona_server.Engagement.Depth.{
  IsWithin, AreShallow, AreShown, get_thread_depth-IsWithin, IsWithin-fresh,
}

-- The new id is not in use.
abbrev pub IsFresh : EngagementEnv → EngagementStore → Type 0
IsFresh e s = count_if (has_key comment_id_of e.new_id) s.comments ≡ 0

module _ (s : EngagementStore) (post_id : ℕ) where
  -- A parent that is taken shows, belongs to the post, and its depth is computed below the limit.
  abbrev Taken : Option ℕ → Type 0
  Taken parent =
      (parent ≡ none)
      ⊎ ((c : Comment) × (i : ℕ) × (parent ≡ some c.id)
          × (find_comment s i ≡ some c)
          × (c.post_id ≡ post_id)
          × (leb comment_max_thread_depth (get_thread_depth s c) ≡ false))

  require_parent-reads : (i : Option (Option ℕ)) → (require_parent post_id i s).1 ≡ s
  unfolding get_thread_depth
  require_parent-reads none = refl
  require_parent-reads (some none) = refl
  require_parent-reads (some (some i)) = ground arith

  require_parent-Taken :
      (i : Option (Option ℕ)) (parent : Option ℕ)
      → require_parent post_id i s ≡ (ok parent, s)
      → Taken parent
  unfolding get_thread_depth
  require_parent-Taken none parent h = inl (ground arith)
  require_parent-Taken (some none) parent h = absurd (ground arith)
  require_parent-Taken (some (some i)) parent h = elim (Option-cases (find_comment s i)) [
    | inl missing ↦ absurd (ground arith)
    | inr (c, found) ↦ elim (Bool-cases (c.post_id == post_id)) [
      | inr other ↦ absurd (ground arith)
      | inl same ↦ elim (Bool-cases (leb comment_max_thread_depth (get_thread_depth s c))) [
        | inl deep ↦ absurd (ground arith)
        | inr shallow ↦ inr (c, i, ground arith, found, ground arith, shallow)
      ]
    ]
  ]

module _ (e : EngagementEnv) (u post_id : ℕ) (text : Text) (s : EngagementStore) where
  -- Nothing is written, or a comment under a parent that is taken.
  created :
      (i : Option (Option ℕ))
      → ((create_comment e u post_id text i s).1 ≡ s)
        ⊎ ((parent : Option ℕ) × Taken s post_id parent
            × ((create_comment e u post_id text i s).1
                ≡ store_comment e (new_reply e u post_id text parent s) s))
  unfolding create_comment
  created i = elim (Bool-cases e.limiter_refuses) [
    | inl limited ↦ inl (ground arith)
    | inr admitted ↦ elim (Bool-cases (is_blank text)) [
      | inl blank ↦ inl (ground arith)
      | inr filled ↦ elim (Bool-cases (ltb comment_max_length (length text))) [
        | inl long ↦ inl (ground arith)
        | inr short ↦ elim (Option-cases (get_where post_id_of (post_is_shown s) post_id s.posts)) [
          | inl lost ↦ inl (ground arith)
          | inr (p, post) ↦ elim (Result-cases (require_parent post_id i s)) [
            | inr (x, t, refused) ↦ inl (ground (arith, require_parent-reads s post_id i))
            | inl (parent, t, taken) ↦ inr (
              parent,
              require_parent-Taken s post_id i parent
                  (ground (arith, require_parent-reads s post_id i)),
              ground (arith, require_parent-reads s post_id i),
            )
          ]
        ]
      ]
    ]
  ]

  module _ (fresh : IsFresh e s) (sound : AreShallow s) (shown : AreShown s) where
    new_reply-IsWithin :
        (parent : Option ℕ)
        → Taken s post_id parent
        → IsWithin 3 s.comments (new_reply e u post_id text parent s)
    new_reply-IsWithin parent (inl top) = inl top
    new_reply-IsWithin parent (inr (c, i, under, found, same, shallow)) =
        let (row, live) =
          lookup-get_where comment_id_of (comment_is_shown s) i s.comments c sound.keyed found in
        inr (
          c.id,
          c,
          under,
          ground (arith, lookup-key comment_id_of i s.comments c row),
          same,
          get_thread_depth-IsWithin s c shown (sound.within i c row) shallow,
        )

    abbrev fresh_row : Option ℕ → Comment
    fresh_row parent = new_reply e u post_id text parent s

    row_of_new :
        (parent : Option ℕ) (i : ℕ) (c : Comment)
        → (e.new_id == i) ≡ true
        → lookup comment_id_of i (fresh_row parent ∷ s.comments) ≡ some c
        → fresh_row parent ≡ c
    row_of_new parent i c new h = ground arith

    store_comment-AreShallow :
        (parent : Option ℕ)
        → Taken s post_id parent
        → AreShallow (store_comment e (new_reply e u post_id text parent s) s)
    store_comment-AreShallow parent taken = record {
      keyed = λ i. ground (arith, fresh, sound.keyed i);
      within = λ i c h. elim (Bool-cases (e.new_id == i)) [
        | inl new ↦
            subst (IsWithin 3 (fresh_row parent ∷ s.comments)) (row_of_new parent i c new h) (
              IsWithin-fresh (fresh_row parent) s.comments fresh 3 (fresh_row parent)
                (new_reply-IsWithin parent taken))
        | inr old ↦
            IsWithin-fresh (fresh_row parent) s.comments fresh 3 c (sound.within i c (ground arith))
      ];
    }

    -- Where no comment is deleted and every author is active, a call keeps threads within three
    -- levels below the top and on one post, whatever it answers. A new row draws a new id.
    pub create_comment-AreShallow :
        (i : Option (Option ℕ)) → AreShallow (create_comment e u post_id text i s).1
    create_comment-AreShallow i = elim (created i) [
      | inl same ↦ subst AreShallow (sym same) sound
      | inr (parent, taken, same) ↦
          subst AreShallow (sym same) (store_comment-AreShallow parent taken)
    ]

  -- A comment whose own parent is hidden takes a reply, however deep it stands: a text of good
  -- length from an active user on a live post is stored under it.
  pub create_comment_below_hidden :
      (p : Post) (c : Comment) (above : ℕ)
      → e.limiter_refuses ≡ false
      → is_blank text ≡ false
      → ltb comment_max_length (length text) ≡ false
      → any_of (is_active_author u) s.users ≡ true
      → get_where post_id_of (post_is_shown s) post_id s.posts ≡ some p
      → find_comment s c.id ≡ some c
      → c.post_id ≡ post_id
      → c.parent_comment ≡ some above
      → find_comment s above ≡ none
      → let d = new_reply e u post_id text (some c.id) s in
        create_comment e u post_id text (some (some c.id)) s
        ≡ (ok (build_comment_dto u d (store_comment e d s)), store_comment e d s)
  unfolding create_comment get_thread_depth
  create_comment_below_hidden p c above admitted filled short active post found same up hidden =
      ground arith
