-- ===== src/Circles/Engage/Counts.antt =====
-- The counters on posts, and one switch of an engagement.
use ziona_server.Base.{
  ℕ, suc, ◌≡◌, ◌≢◌, refl, true, false, some, if◌then◌else◌, arith, count_if, any_of, ok, lookup,
  any_of-count_if, lookup-update_at,
}
use ziona_server.Circles.Content.{
  EngagementType, pray, like, CirclePost, post_key, same_engagement, shows_post,
}
use ziona_server.Circles.State.{CircleStore, CircleEnv}
use ziona_server.Circles.Engage.{
  engaged, post_count, post_up, post_down, switch_post, engage_post, disengage_post,
}
use ziona_server.Circles.Engage.Tally.{
  IsTallied, counted, engaged_le, engage-IsTallied, disengage-IsTallied,
}

abbrev pub PostsTallied : CircleStore → Type 0
PostsTallied s = IsTallied post_key post_count s.posts s.post_engagements

post_key-up : (t : EngagementType) (p : CirclePost) → (post_up t p).id ≡ p.id
post_key-up pray p = refl
post_key-up like p = refl

post_key-down : (t : EngagementType) (p : CirclePost) → (post_down t p).id ≡ p.id
post_key-down pray p = ground arith
post_key-down like p = ground arith

post_count-up :
    (t t' : EngagementType) (p : CirclePost)
    → post_count t' (post_up t p)
      ≡ (if same_engagement t t' then suc (post_count t' p) else post_count t' p)
post_count-up pray pray p = refl
post_count-up pray like p = refl
post_count-up like pray p = refl
post_count-up like like p = refl

post_count-down :
    (t t' : EngagementType) (p : CirclePost)
    → post_count t p ≢ 0
    → post_count t' p ≡ (
        if same_engagement t t'
        then suc (post_count t' (post_down t p))
        else post_count t' (post_down t p))
post_count-down pray pray p n = ground arith
post_count-down pray like p n = ground arith
post_count-down like pray p n = ground arith
post_count-down like like p n = ground arith

module _ (e : CircleEnv) (t : EngagementType) (u : ℕ) (s : CircleStore) (p : CirclePost)
    (found : lookup post_key p.id s.posts ≡ some p) (shown : shows_post e.active_user p ≡ true)
    (sound : PostsTallied s) where
  pub engage_post-PostsTallied :
      any_of (engaged p.id u t) s.post_engagements ≡ false → PostsTallied (engage_post e t u p.id s)
  engage_post-PostsTallied absent =
      engage-IsTallied post_key post_count (shows_post e.active_user) p.id u t (post_up t)
        (post_key-up t) s.posts s.post_engagements p found shown sound (λ t'. post_count-up t t' p)
        absent

  pub disengage_post-PostsTallied :
      any_of (engaged p.id u t) s.post_engagements ≡ true
      → post_count t p ≢ 0
      → PostsTallied (disengage_post e t u p.id s)
  disengage_post-PostsTallied on positive =
      disengage-IsTallied post_key post_count (shows_post e.active_user) p.id u t (post_down t)
        (post_key-down t) s.posts s.post_engagements p found shown sound
        (λ t'. post_count-down t t' p positive) on

  -- An engagement that is on is counted.
  pub post_count_positive : any_of (engaged p.id u t) s.post_engagements ≡ true → post_count t p ≢ 0
  post_count_positive on = ground (
    arith,
    sound.tallied p.id t p found,
    any_of-count_if (engaged p.id u t) s.post_engagements,
    engaged_le p.id u t s.post_engagements,
  )

  -- The branch taken, the answer and the store after it.
  pub switch_post_on :
      any_of (engaged p.id u t) s.post_engagements ≡ true
      → switch_post e t u p s ≡ (
        ok (false, count_if (counted p.id t) (disengage_post e t u p.id s).post_engagements),
        disengage_post e t u p.id s,
      )
  switch_post_on on =
      let after = disengage_post-PostsTallied on (post_count_positive on) in
      ground (
        arith,
        post_count_positive on,
        after.tallied p.id t (post_down t p),
        lookup-update_at post_key (shows_post e.active_user) p.id (post_down t) s.posts p
            (post_key-down t) found,
      )

  pub switch_post_off :
      any_of (engaged p.id u t) s.post_engagements ≡ false
      → switch_post e t u p s ≡ (
        ok (true, count_if (counted p.id t) (engage_post e t u p.id s).post_engagements),
        engage_post e t u p.id s,
      )
  switch_post_off off =
      let after = engage_post-PostsTallied off in
      ground (
        arith,
        after.tallied p.id t (post_up t p),
        lookup-update_at post_key (shows_post e.active_user) p.id (post_up t) s.posts p
            (post_key-up t) found,
      )
