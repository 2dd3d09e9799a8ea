-- ===== src/Circles/Comments.antt =====
-- core/circles/comment_services.py: comments on circle posts, their likes and their pages. The
-- notifications are left out.
pub mod Pages
pub mod Likes
pub mod Stuck
pub mod Counts
pub mod Mutations
use ziona_server.Base.{
  ℕ, zero, suc, ◌+◌, ◌*◌, Bool, true, false, not, ◌&&◌, Option, none, some, List, [], ◌∷◌, ◌++◌,
  ◌==◌, ltb, if◌then◌else◌, Text, strip, is_empty, take, drop, length, filter_out, any_of,
  get_where, lookup, update_where, update_at, Result, ok, err, fail, fail_if, gets, modify, pure,
  in_transaction, ◌>>=◌, ◌>>◌, Method,
}
use ziona_server.Circles.Content.{
  CirclePost, CirclePostComment, CommentLike, HiddenContent, TargetType, comment, same_target,
  is_null, shows_post, shows_comment, post_key, comment_key,
}
use ziona_server.Circles.State.{
  CircleStore, CircleEnv, C, ClientId, CircleError, not_circle_member, post_not_found,
  comment_not_found, not_comment_author, empty_comment, transaction_broken, negative_index,
  integrity_error,
}
use ziona_server.Circles.Members.{has_circle_membership, require_circle_membership}
use ziona_server.Circles.Engage.{live_post, require_post, update_post}

-- A slice of a queryset from `(page - 1) * page_size`, one longer than the page; a negative offset is
-- refused by the database layer. The page, and whether more follows.
abbrev pub page_of : {A : Type 0} → ℕ → ℕ → List A → List A × Bool
page_of offset size rows =
    let slice = take (suc size) (drop offset rows) in (take size slice, ltb size (length slice))

abbrev pub hides : ℕ → TargetType → ℕ → HiddenContent → Bool
hides viewer_id type target_id h =
    (h.user_id == viewer_id && same_target h.target_type type) && h.target_id == target_id

-- `exclude_hidden_circle_content`, as a test of one row.
abbrev pub is_hidden : Option ℕ → TargetType → ℕ → CircleStore → Bool
is_hidden none type target_id s = false
is_hidden (some viewer_id) type target_id s = any_of (hides viewer_id type target_id) s.hidden

abbrev pub liked_by : ℕ → ℕ → CommentLike → Bool
liked_by comment_id user_id l = l.comment_id == comment_id && l.user_id == user_id

abbrev pub comment_up : CirclePost → CirclePost
comment_up p = record p { comments_count = suc p.comments_count }

-- `filter(comments_count__gt=0).update(comments_count=F("comments_count") - 1)`
abbrev pub comment_down : CirclePost → CirclePost
comment_down p = elim p.comments_count [ zero ↦ p | suc n ↦ record p { comments_count = n } ]

abbrev pub like_up : CirclePostComment → CirclePostComment
like_up c = record c { likes_count = suc c.likes_count }

abbrev pub like_down : CirclePostComment → CirclePostComment
like_down c = elim c.likes_count [ zero ↦ c | suc n ↦ record c { likes_count = n } ]

abbrev pub read_likes : ℕ → C ℕ
read_likes comment_id s = elim (lookup comment_key comment_id s.comments) [
  | none ↦ (err comment_not_found, s)
  | some c ↦ (ok c.likes_count, s)
]

-- The tables inside an atomic block, and whether a database error happened in it.
pub record Block : Type 0 where
  pub store : CircleStore
  pub is_broken : Bool

abbrev pub B : Type 0 → Type 0
B = Method Block CircleError

-- `try: m; except IntegrityError: handler`
abbrev pub except_integrity : {A : Type 0} → B A → B A → B A
except_integrity m handler b =
    let (r, b') = m b in
    elim r [ ok a ↦ (ok a, b') | err integrity_error ↦ handler b' | err x ↦ (err x, b') ]

module _ (e : CircleEnv) where
  abbrev pub live_comment : CirclePostComment → Bool
  live_comment c = shows_comment e.active_user c && is_null c.deleted_at

  -- The rows of `get_circle_post_comments`, in their order.
  abbrev pub is_listed : Option ℕ → ℕ → CircleStore → CirclePostComment → Bool
  is_listed viewer_id post_id s c =
      (live_comment c && c.post_id == post_id) && not (is_hidden viewer_id comment c.id s)

  abbrev pub listed : Option ℕ → ℕ → CircleStore → List CirclePostComment
  listed viewer_id post_id s = filter_out (λ c. not (is_listed viewer_id post_id s c)) s.comments

  -- The page, whether more follows, and the number of all.
  unfoldable pub get_circle_post_comments :
      ℕ → Option ℕ → ℕ → ℕ → C (List CirclePostComment × Bool × ℕ)
  get_circle_post_comments post_id viewer_id page page_size s =
      elim (get_where post_key (live_post e) post_id s.posts) [
        | none ↦ (err post_not_found, s)
        | some p ↦
            if has_circle_membership viewer_id p.circle_id s
            then elim page [
              | zero ↦ (err negative_index, s)
              | suc before ↦
                  let rows = listed viewer_id post_id s in
                  let (shown, more) = page_of (before * page_size) page_size rows in
                  (ok (shown, more, length rows), s)
            ]
            else (ok ([], false, 0), s)
      ]

  abbrev pub new_comment : ℕ → ℕ → Text → CirclePostComment
  new_comment user_id post_id text = record {
    id = e.new_id;
    post_id = post_id;
    user_id = user_id;
    text = text;
    likes_count = 0;
    deleted_at = none;
  }

  abbrev pub add_comment : ℕ → ℕ → Text → CircleStore → CircleStore
  add_comment user_id post_id text s = record s {
    comments = s.comments ++ (new_comment user_id post_id text ∷ []);
  }

  unfoldable pub create_circle_post_comment : ℕ → ℕ → Text → C (Unit {0})
  create_circle_post_comment user_id post_id text = in_transaction (do
    fail_if (is_empty (strip text)) empty_comment
    p ← require_post e post_id
    require_circle_membership not_circle_member (some user_id) p.circle_id
    modify (add_comment user_id p.id (strip text))
    modify (update_post e p.id comment_up))

  -- The comment of a client's id with the circle of its post, which the foreign key finds whatever
  -- the state of the post.
  abbrev pub require_comment : ClientId → C (CirclePostComment × ℕ)
  require_comment none s = (err comment_not_found, s)
  require_comment (some comment_id) s =
      elim (get_where comment_key live_comment comment_id s.comments) [
        | none ↦ (err comment_not_found, s)
        | some c ↦ elim (lookup post_key c.post_id s.posts) [
          | none ↦ (err comment_not_found, s)
          | some p ↦ (ok (c, p.circle_id), s)
        ]
      ]

  abbrev pub delete_comment_row : ℕ → CircleStore → CircleStore
  delete_comment_row comment_id s = record s {
    comments =
        update_where (λ c. c.id == comment_id) (λ c. record c { deleted_at = some e.now })
          s.comments;
  }

  unfoldable pub delete_circle_post_comment : ℕ → ClientId → C (Unit {0})
  delete_circle_post_comment user_id comment_id = in_transaction (do
    found ← require_comment comment_id
    require_circle_membership not_circle_member (some user_id) found.1
    fail_if (not (found.0.user_id == user_id)) not_comment_author
    modify (delete_comment_row found.0.id)
    modify (update_post e found.0.post_id comment_down))

  abbrev pub update_comment :
      ℕ → (CirclePostComment → CirclePostComment) → CircleStore → CircleStore
  update_comment comment_id f s = record s {
    comments = update_at comment_key (shows_comment e.active_user) comment_id f s.comments;
  }

  -- A query of a block. Django refuses it, if a database error came before in the same block.
  abbrev pub query : {A : Type 0} → (CircleStore → Result CircleError A × CircleStore) → B A
  query f b = elim (b.is_broken && e.refuses_after_error) [
    | true ↦ (err transaction_broken, b)
    | false ↦ let (r, s) = f b.store in (r, record b { store = s })
  ]

  abbrev pub insert_like : ℕ → ℕ → B (Unit {0})
  insert_like user_id comment_id b =
      elim (any_of (liked_by comment_id user_id) b.store.comment_likes) [
        | true ↦ (err integrity_error, record b { is_broken = true })
        | false ↦
            query
              (modify (λ s. record s {
                comment_likes =
                    record { comment_id = comment_id; user_id = user_id } ∷ s.comment_likes;
              }))
              b
      ]

  abbrev pub delete_like : ℕ → ℕ → B (Unit {0})
  delete_like user_id comment_id = query (
      modify (λ s. record s {
        comment_likes = filter_out (liked_by comment_id user_id) s.comment_likes;
      }))

  abbrev pub leave_like : ℕ → ℕ → B (Bool × ℕ)
  leave_like user_id comment_id = do
    insert_like user_id comment_id
    query (modify (update_comment comment_id like_up))
    n ← query (read_likes comment_id)
    pure (true, n)

  abbrev pub take_back : ℕ → ℕ → B (Bool × ℕ)
  take_back user_id comment_id = do
    delete_like user_id comment_id
    query (modify (update_comment comment_id like_down))
    n ← query (read_likes comment_id)
    pure (false, n)

  -- The block begins unbroken; the handler runs in it.
  unfoldable pub switch_like : ℕ → ℕ → C (Bool × ℕ)
  switch_like user_id comment_id s =
      let (r, b) =
        except_integrity (leave_like user_id comment_id) (take_back user_id comment_id)
          (record { store = s; is_broken = false }) in
      (r, b.store)

  unfoldable pub toggle_circle_post_comment_like : ℕ → ClientId → C (Bool × ℕ)
  toggle_circle_post_comment_like user_id comment_id = in_transaction (do
    found ← require_comment comment_id
    require_circle_membership not_circle_member (some user_id) found.1
    switch_like user_id found.0.id)
