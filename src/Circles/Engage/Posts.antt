-- ===== src/Circles/Engage/Posts.antt =====
-- Likes and prayers on posts: a toggle keeps the counters true, and answers with the true count.
use ziona_server.Base.{
  ℕ, ◌≡◌, true, not, some, arith, inl, inr, ◌⊎◌, Bool-cases, Option-cases, count_if, any_of, ok,
  lookup, get_where, lookup-get_where, subst, sym, any_of-filter_out_self, lookup-key,
}
use ziona_server.Circles.Content.{EngagementType, pray, like, CirclePost, post_key, shows_post}
use ziona_server.Circles.State.{not_member, CircleStore, CircleEnv}
use ziona_server.Circles.Members.{has_circle_membership, require_circle_membership}
use ziona_server.Circles.Engage.{
  require_post, engaged, live_post, switch_post, toggle_post, like_circle_post,
  pray_for_circle_post, ensure_circle_post_liked, engage_post, disengage_post,
}
use ziona_server.Circles.Members.Guarded.{guarded-cases}
use ziona_server.Circles.Engage.Tally.{counted, engaged_new}
use ziona_server.Circles.Engage.Counts.{
  engage_post-PostsTallied, disengage_post-PostsTallied, post_count_positive, switch_post_on,
  switch_post_off, PostsTallied,
}

module _ (e : CircleEnv) (t : EngagementType) (u i : ℕ) (s : CircleStore)
    (sound : PostsTallied s) where
  found_by_key :
      (p : CirclePost)
      → get_where post_key (live_post e) i s.posts ≡ some p
      → (p.id ≡ i) × (lookup post_key p.id s.posts ≡ some p) × (shows_post e.active_user p ≡ true)
  found_by_key p h =
      let (l, shown) = lookup-get_where post_key (live_post e) i s.posts p sound.keyed h in
      let same = lookup-key post_key i s.posts p l in (same, ground arith, ground arith)

  switch_post-PostsTallied :
      (p : CirclePost)
      → lookup post_key p.id s.posts ≡ some p
      → shows_post e.active_user p ≡ true
      → PostsTallied (switch_post e t u p s).1
  switch_post-PostsTallied p l shown =
      elim (Bool-cases (any_of (engaged p.id u t) s.post_engagements)) [
        | inl on ↦
            subst (λ x. PostsTallied x.1) (sym (switch_post_on e t u s p l shown sound on))
              (disengage_post-PostsTallied e t u s p l shown sound on
                (post_count_positive e t u s p l shown sound on))
        | inr off ↦
            subst (λ x. PostsTallied x.1) (sym (switch_post_off e t u s p l shown sound off))
              (engage_post-PostsTallied e t u s p l shown sound off)
      ]

  toggled :
      (p : CirclePost)
      → get_where post_key (live_post e) i s.posts ≡ some p
      → has_circle_membership (some u) p.circle_id s ≡ true
      → toggle_post e t u i s ≡ switch_post e t u p s
  unfolding require_circle_membership
  toggled p h m =
      let (same, l, shown) = found_by_key p h in
      elim (Bool-cases (any_of (engaged p.id u t) s.post_engagements)) [
        | inl on ↦ ground (arith, switch_post_on e t u s p l shown sound on)
        | inr off ↦ ground (arith, switch_post_off e t u s p l shown sound off)
      ]

  toggle_post-PostsTallied : PostsTallied (toggle_post e t u i s).1
  toggle_post-PostsTallied =
      elim (guarded-cases (require_post e i) not_member (some u) (λ p. p.circle_id)
        (switch_post e t u) s (ground arith)) [
          | inl same ↦ subst PostsTallied (sym same) sound
          | inr (p, f, m, same) ↦
              let (key, l, shown) = found_by_key p (ground arith) in
              subst PostsTallied (sym same) (switch_post-PostsTallied p l shown)
        ]

  answered :
      (p : CirclePost)
      → get_where post_key (live_post e) i s.posts ≡ some p
      → has_circle_membership (some u) p.circle_id s ≡ true
      → let on = any_of (engaged i u t) s.post_engagements in
        (s' : CircleStore) × (toggle_post e t u i s
          ≡ (ok (not on, count_if (counted i t) s'.post_engagements), s'))
        × (any_of (engaged i u t) s'.post_engagements ≡ not on)
  answered p h m =
      let (same, l, shown) = found_by_key p h in
      elim (Bool-cases (any_of (engaged p.id u t) s.post_engagements)) [
        | inl on ↦ (
          disengage_post e t u p.id s,
          ground (arith, toggled p h m, switch_post_on e t u s p l shown sound on),
          ground (arith, any_of-filter_out_self (engaged i u t) s.post_engagements),
        )
        | inr off ↦ (
          engage_post e t u p.id s,
          ground (arith, toggled p h m, switch_post_off e t u s p l shown sound off),
          ground (arith, engaged_new i u t s.post_engagements),
        )
      ]

module _ (e : CircleEnv) (u i : ℕ) (s : CircleStore) (sound : PostsTallied s) where
  -- It does nothing, or it does what the toggle does.
  ensured :
      ((ensure_circle_post_liked e u i s).1 ≡ s)
      ⊎ (ensure_circle_post_liked e u i s ≡ toggle_post e like u i s)
  unfolding ensure_circle_post_liked require_circle_membership
  ensured = elim (Option-cases (get_where post_key (live_post e) i s.posts)) [
    | inl missing ↦ inl (ground arith)
    | inr (p, h) ↦ elim (Bool-cases (has_circle_membership (some u) p.circle_id s)) [
      | inr outside ↦ inl (ground arith)
      | inl inside ↦ elim (Bool-cases (any_of (engaged p.id u like) s.post_engagements)) [
        | inl on ↦ inl (ground arith)
        | inr off ↦ inr (ground arith)
      ]
    ]
  ]

  ensure-PostsTallied : PostsTallied (ensure_circle_post_liked e u i s).1
  ensure-PostsTallied = elim ensured [
    | inl same ↦ subst PostsTallied (sym same) sound
    | inr toggles ↦
        subst (λ x. PostsTallied x.1) (sym toggles) (toggle_post-PostsTallied e like u i s sound)
  ]

  -- Likes and prayers on posts keep every counter equal to the number of its engagements, whatever
  -- they answer.
  pub like_circle_post-PostsTallied :
      PostsTallied (like_circle_post e u i s).1
      × PostsTallied (pray_for_circle_post e u i s).1
      × PostsTallied (ensure_circle_post_liked e u i s).1
  unfolding like_circle_post pray_for_circle_post
  like_circle_post-PostsTallied = (
    toggle_post-PostsTallied e like u i s sound,
    toggle_post-PostsTallied e pray u i s sound,
    ensure-PostsTallied,
  )

  -- A member's like on a post that shows turns the member's like on or off, and answers which, with
  -- the number of likes that the post then has.
  pub like_circle_post_lem :
      (p : CirclePost)
      → get_where post_key (live_post e) i s.posts ≡ some p
      → has_circle_membership (some u) p.circle_id s ≡ true
      → let on = any_of (engaged i u like) s.post_engagements in
        (s' : CircleStore) × (like_circle_post e u i s
          ≡ (ok (not on, count_if (counted i like) s'.post_engagements), s'))
        × (any_of (engaged i u like) s'.post_engagements ≡ not on)
  unfolding like_circle_post
  like_circle_post_lem p h m = answered e like u i s sound p h m
