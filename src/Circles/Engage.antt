-- ===== src/Circles/Engage.antt =====
-- core/circles/services/anchor_engagement.py and the toggles of circle_posts.py: likes and prayers
-- with their counters. The notifications are left out.
pub mod Tally
pub mod Counts
pub mod Posts
pub mod Anchors
use ziona_server.Base.{
  ℕ, zero, suc, Bool, true, false, ◌&&◌, Option, none, some, List, ◌∷◌, ◌==◌, if◌then◌else◌,
  filter_out, any_of, get_where, lookup, update_at, ok, err, gets, modify, pure, in_transaction,
  ◌>>=◌, ◌>>◌, max,
}
use ziona_server.Circles.Content.{
  Anchor, CirclePost, Engagement, EngagementType, pray, like, same_engagement, is_null,
  shows_anchor, shows_post, anchor_key, post_key,
}
use ziona_server.Circles.State.{
  CircleStore, CircleEnv, C, CircleError, not_member, not_circle_member, post_not_found,
  anchor_not_found, integrity_error,
}
use ziona_server.Circles.Members.{require_circle_membership}

abbrev pub engaged : ℕ → ℕ → EngagementType → Engagement → Bool
engaged target_id user_id type g =
    (g.target_id == target_id && same_engagement g.engagement_type type) && g.user_id == user_id

abbrev pub new_engagement : ℕ → ℕ → EngagementType → Engagement
new_engagement target_id user_id type = record {
  target_id = target_id;
  user_id = user_id;
  engagement_type = type;
}

-- The two counters of a row, by the type of engagement that they count.
abbrev pub post_count : EngagementType → CirclePost → ℕ
post_count pray p = p.prayed_count
post_count like p = p.likes_count

abbrev pub set_post_count : EngagementType → ℕ → CirclePost → CirclePost
set_post_count pray n p = record p { prayed_count = n }
set_post_count like n p = record p { likes_count = n }

abbrev pub anchor_count : EngagementType → Anchor → ℕ
anchor_count pray a = a.prayed_count
anchor_count like a = a.anchor_liked_count

abbrev pub set_anchor_count : EngagementType → ℕ → Anchor → Anchor
set_anchor_count pray n a = record a { prayed_count = n }
set_anchor_count like n a = record a { anchor_liked_count = n }

-- `F(count) + 1` and `F(count) - 1`; the column refuses to go below 0.
abbrev pub post_up : EngagementType → CirclePost → CirclePost
post_up type p = set_post_count type (suc (post_count type p)) p

abbrev pub post_down : EngagementType → CirclePost → CirclePost
post_down type p = elim (post_count type p) [ zero ↦ p | suc n ↦ set_post_count type n p ]

abbrev pub anchor_up : EngagementType → Anchor → Anchor
anchor_up type a = set_anchor_count type (suc (anchor_count type a)) a

abbrev pub anchor_down : EngagementType → Anchor → Anchor
anchor_down type a = elim (anchor_count type a) [ zero ↦ a | suc n ↦ set_anchor_count type n a ]

module _ (e : CircleEnv) where
  abbrev pub live_post : CirclePost → Bool
  live_post p = shows_post e.active_user p && is_null p.deleted_at

  abbrev pub require_post : ℕ → C CirclePost
  require_post post_id s = elim (get_where post_key live_post post_id s.posts) [
    | none ↦ (err post_not_found, s)
    | some p ↦ (ok p, s)
  ]

  abbrev pub update_post : ℕ → (CirclePost → CirclePost) → CircleStore → CircleStore
  update_post post_id f s = record s {
    posts = update_at post_key (shows_post e.active_user) post_id f s.posts;
  }

  -- The new row of `get_or_create`, and the count of the post.
  abbrev pub engage_post : EngagementType → ℕ → ℕ → CircleStore → CircleStore
  engage_post type user_id post_id s =
      update_post post_id (post_up type)
        (record s { post_engagements = new_engagement post_id user_id type ∷ s.post_engagements })

  abbrev pub disengage_post : EngagementType → ℕ → ℕ → CircleStore → CircleStore
  disengage_post type user_id post_id s =
      update_post post_id (post_down type) (record s {
        post_engagements = filter_out (engaged post_id user_id type) s.post_engagements;
      })

  -- `refresh_from_db` reads the row by its key.
  abbrev pub read_post_count : EngagementType → ℕ → C ℕ
  read_post_count type post_id s = elim (lookup post_key post_id s.posts) [
    | none ↦ (err post_not_found, s)
    | some p ↦ (ok (post_count type p), s)
  ]

  -- What a toggle does once the post was found, with the answer: whether the engagement is on, and
  -- the count.
  abbrev pub switch_post : EngagementType → ℕ → CirclePost → C (Bool × ℕ)
  switch_post type user_id p s =
      if any_of (engaged p.id user_id type) s.post_engagements
      then elim (post_count type p) [
        | zero ↦ (err integrity_error, s)
        | suc n ↦
            (read_post_count type p.id >>= λ n. pure (false, n))
              (disengage_post type user_id p.id s)
      ]
      else (read_post_count type p.id >>= λ n. pure (true, n)) (engage_post type user_id p.id s)

  abbrev pub toggle_post : EngagementType → ℕ → ℕ → C (Bool × ℕ)
  toggle_post type user_id post_id = in_transaction (do
    p ← require_post post_id
    require_circle_membership not_member (some user_id) p.circle_id
    switch_post type user_id p)

  unfoldable pub like_circle_post : ℕ → ℕ → C (Bool × ℕ)
  like_circle_post user_id post_id = toggle_post like user_id post_id

  unfoldable pub pray_for_circle_post : ℕ → ℕ → C (Bool × ℕ)
  pray_for_circle_post user_id post_id = toggle_post pray user_id post_id

  abbrev pub ensure_engaged : ℕ → CirclePost → C (Bool × ℕ)
  ensure_engaged user_id p s =
      if any_of (engaged p.id user_id like) s.post_engagements
      then (ok (true, p.likes_count), s)
      else (read_post_count like p.id >>= λ n. pure (true, n)) (engage_post like user_id p.id s)

  unfoldable pub ensure_circle_post_liked : ℕ → ℕ → C (Bool × ℕ)
  ensure_circle_post_liked user_id post_id = in_transaction (do
    p ← require_post post_id
    require_circle_membership not_member (some user_id) p.circle_id
    ensure_engaged user_id p)

  abbrev pub live_anchor : Anchor → Bool
  live_anchor a = shows_anchor e.active_user a && is_null a.deleted_at

  -- `_locked_anchor`
  abbrev pub require_anchor : ℕ → C Anchor
  require_anchor anchor_id s = elim (get_where anchor_key live_anchor anchor_id s.anchors) [
    | none ↦ (err anchor_not_found, s)
    | some a ↦ (ok a, s)
  ]

  abbrev pub update_anchor : ℕ → (Anchor → Anchor) → CircleStore → CircleStore
  update_anchor anchor_id f s = record s {
    anchors = update_at anchor_key (shows_anchor e.active_user) anchor_id f s.anchors;
  }

  abbrev pub read_anchor_count : EngagementType → ℕ → C ℕ
  read_anchor_count type anchor_id s = elim (lookup anchor_key anchor_id s.anchors) [
    | none ↦ (err anchor_not_found, s)
    | some a ↦ (ok (anchor_count type a), s)
  ]

  abbrev pub engage_anchor : EngagementType → ℕ → ℕ → CircleStore → CircleStore
  engage_anchor type user_id anchor_id s = update_anchor anchor_id (anchor_up type) (record s {
    anchor_engagements = new_engagement anchor_id user_id type ∷ s.anchor_engagements;
  })

  abbrev pub disengage_anchor : EngagementType → ℕ → ℕ → CircleStore → CircleStore
  disengage_anchor type user_id anchor_id s = update_anchor anchor_id (anchor_down type) (record s {
    anchor_engagements = filter_out (engaged anchor_id user_id type) s.anchor_engagements;
  })

  abbrev pub switch_anchor : EngagementType → ℕ → Anchor → C (Bool × ℕ)
  switch_anchor type user_id a s =
      if any_of (engaged a.id user_id type) s.anchor_engagements
      then elim (anchor_count type a) [
        | zero ↦ (err integrity_error, s)
        | suc n ↦
            (read_anchor_count type a.id >>= λ n. pure (false, n))
              (disengage_anchor type user_id a.id s)
      ]
      else (read_anchor_count type a.id >>= λ n. pure (true, n)) (engage_anchor type user_id a.id s)

  abbrev pub toggle_anchor : EngagementType → ℕ → ℕ → C (Bool × ℕ)
  toggle_anchor type user_id anchor_id = in_transaction (do
    a ← require_anchor anchor_id
    require_circle_membership not_circle_member (some user_id) a.circle_id
    switch_anchor type user_id a)

  unfoldable pub pray_for_anchor : ℕ → ℕ → C (Bool × ℕ)
  pray_for_anchor user_id anchor_id = toggle_anchor pray user_id anchor_id

  unfoldable pub like_anchor : ℕ → ℕ → C (Bool × ℕ)
  like_anchor user_id anchor_id = toggle_anchor like user_id anchor_id
