-- ===== src/Circles/Engage/Anchors.antt =====
-- The counters on anchors: a toggle keeps them true, and it answers with the true count.
use ziona_server.Base.{
  ℕ, suc, ◌≡◌, ◌≢◌, refl, true, false, not, some, if◌then◌else◌, arith, inl, inr, Bool-cases,
  count_if, any_of, ok, lookup, get_where, lookup-get_where, any_of-count_if, lookup-update_at,
  subst, sym, any_of-filter_out_self, lookup-key,
}
use ziona_server.Circles.Content.{
  EngagementType, pray, like, Anchor, anchor_key, same_engagement, shows_anchor,
}
use ziona_server.Circles.State.{not_circle_member, CircleStore, CircleEnv}
use ziona_server.Circles.Members.{has_circle_membership, require_circle_membership}
use ziona_server.Circles.Engage.{
  require_anchor, engaged, anchor_count, anchor_up, anchor_down, live_anchor, switch_anchor,
  toggle_anchor, like_anchor, pray_for_anchor, engage_anchor, disengage_anchor,
}
use ziona_server.Circles.Members.Guarded.{guarded-cases}
use ziona_server.Circles.Engage.Tally.{
  IsTallied, counted, engaged_le, engaged_new, engage-IsTallied, disengage-IsTallied,
}

abbrev pub AnchorsTallied : CircleStore → Type 0
AnchorsTallied s = IsTallied anchor_key anchor_count s.anchors s.anchor_engagements

anchor_key-up : (t : EngagementType) (p : Anchor) → (anchor_up t p).id ≡ p.id
anchor_key-up pray p = refl
anchor_key-up like p = refl

anchor_key-down : (t : EngagementType) (p : Anchor) → (anchor_down t p).id ≡ p.id
anchor_key-down pray p = ground arith
anchor_key-down like p = ground arith

anchor_count-up :
    (t t' : EngagementType) (p : Anchor)
    → anchor_count t' (anchor_up t p)
      ≡ (if same_engagement t t' then suc (anchor_count t' p) else anchor_count t' p)
anchor_count-up pray pray p = refl
anchor_count-up pray like p = refl
anchor_count-up like pray p = refl
anchor_count-up like like p = refl

anchor_count-down :
    (t t' : EngagementType) (p : Anchor)
    → anchor_count t p ≢ 0
    → anchor_count t' p ≡ (
        if same_engagement t t'
        then suc (anchor_count t' (anchor_down t p))
        else anchor_count t' (anchor_down t p))
anchor_count-down pray pray p n = ground arith
anchor_count-down pray like p n = ground arith
anchor_count-down like pray p n = ground arith
anchor_count-down like like p n = ground arith

module _ (e : CircleEnv) (t : EngagementType) (u : ℕ) (s : CircleStore) (p : Anchor)
    (found : lookup anchor_key p.id s.anchors ≡ some p)
    (shown : shows_anchor e.active_user p ≡ true) (sound : AnchorsTallied s) where
  engage_anchor-AnchorsTallied :
      any_of (engaged p.id u t) s.anchor_engagements ≡ false
      → AnchorsTallied (engage_anchor e t u p.id s)
  engage_anchor-AnchorsTallied absent =
      engage-IsTallied anchor_key anchor_count (shows_anchor e.active_user) p.id u t (anchor_up t)
        (anchor_key-up t) s.anchors s.anchor_engagements p found shown sound
        (λ t'. anchor_count-up t t' p) absent

  disengage_anchor-AnchorsTallied :
      any_of (engaged p.id u t) s.anchor_engagements ≡ true
      → anchor_count t p ≢ 0
      → AnchorsTallied (disengage_anchor e t u p.id s)
  disengage_anchor-AnchorsTallied on positive =
      disengage-IsTallied anchor_key anchor_count (shows_anchor e.active_user) p.id u t
        (anchor_down t) (anchor_key-down t) s.anchors s.anchor_engagements p found shown sound
        (λ t'. anchor_count-down t t' p positive) on

  -- An engagement that is on is counted.
  anchor_count_positive :
      any_of (engaged p.id u t) s.anchor_engagements ≡ true → anchor_count t p ≢ 0
  anchor_count_positive on = ground (
    arith,
    sound.tallied p.id t p found,
    any_of-count_if (engaged p.id u t) s.anchor_engagements,
    engaged_le p.id u t s.anchor_engagements,
  )

  -- The branch taken, the answer and the store after it.
  switch_anchor_on :
      any_of (engaged p.id u t) s.anchor_engagements ≡ true
      → switch_anchor e t u p s ≡ (
        ok (false, count_if (counted p.id t) (disengage_anchor e t u p.id s).anchor_engagements),
        disengage_anchor e t u p.id s,
      )
  switch_anchor_on on =
      let after = disengage_anchor-AnchorsTallied on (anchor_count_positive on) in
      ground (
        arith,
        anchor_count_positive on,
        after.tallied p.id t (anchor_down t p),
        lookup-update_at anchor_key (shows_anchor e.active_user) p.id (anchor_down t) s.anchors p
            (anchor_key-down t) found,
      )

  switch_anchor_off :
      any_of (engaged p.id u t) s.anchor_engagements ≡ false
      → switch_anchor e t u p s ≡ (
        ok (true, count_if (counted p.id t) (engage_anchor e t u p.id s).anchor_engagements),
        engage_anchor e t u p.id s,
      )
  switch_anchor_off off =
      let after = engage_anchor-AnchorsTallied off in
      ground (
        arith,
        after.tallied p.id t (anchor_up t p),
        lookup-update_at anchor_key (shows_anchor e.active_user) p.id (anchor_up t) s.anchors p
            (anchor_key-up t) found,
      )

module _ (e : CircleEnv) (t : EngagementType) (u i : ℕ) (s : CircleStore)
    (sound : AnchorsTallied s) where
  found_by_key :
      (p : Anchor)
      → get_where anchor_key (live_anchor e) i s.anchors ≡ some p
      → (p.id ≡ i)
        × (lookup anchor_key p.id s.anchors ≡ some p)
        × (shows_anchor e.active_user p ≡ true)
  found_by_key p h =
      let (l, shown) = lookup-get_where anchor_key (live_anchor e) i s.anchors p sound.keyed h in
      let same = lookup-key anchor_key i s.anchors p l in (same, ground arith, ground arith)

  switch_anchor-AnchorsTallied :
      (p : Anchor)
      → lookup anchor_key p.id s.anchors ≡ some p
      → shows_anchor e.active_user p ≡ true
      → AnchorsTallied (switch_anchor e t u p s).1
  switch_anchor-AnchorsTallied p l shown =
      elim (Bool-cases (any_of (engaged p.id u t) s.anchor_engagements)) [
        | inl on ↦
            subst (λ x. AnchorsTallied x.1) (sym (switch_anchor_on e t u s p l shown sound on))
              (disengage_anchor-AnchorsTallied e t u s p l shown sound on
                (anchor_count_positive e t u s p l shown sound on))
        | inr off ↦
            subst (λ x. AnchorsTallied x.1) (sym (switch_anchor_off e t u s p l shown sound off))
              (engage_anchor-AnchorsTallied e t u s p l shown sound off)
      ]

  toggled :
      (p : Anchor)
      → get_where anchor_key (live_anchor e) i s.anchors ≡ some p
      → has_circle_membership (some u) p.circle_id s ≡ true
      → toggle_anchor e t u i s ≡ switch_anchor e t u p s
  unfolding require_circle_membership
  toggled p h m =
      let (same, l, shown) = found_by_key p h in
      elim (Bool-cases (any_of (engaged p.id u t) s.anchor_engagements)) [
        | inl on ↦ ground (arith, switch_anchor_on e t u s p l shown sound on)
        | inr off ↦ ground (arith, switch_anchor_off e t u s p l shown sound off)
      ]

  toggle_anchor-AnchorsTallied : AnchorsTallied (toggle_anchor e t u i s).1
  toggle_anchor-AnchorsTallied =
      elim (guarded-cases (require_anchor e i) not_circle_member (some u) (λ p. p.circle_id)
        (switch_anchor e t u) s (ground arith)) [
          | inl same ↦ subst AnchorsTallied (sym same) sound
          | inr (p, f, m, same) ↦
              let (key, l, shown) = found_by_key p (ground arith) in
              subst AnchorsTallied (sym same) (switch_anchor-AnchorsTallied p l shown)
        ]

  answered :
      (p : Anchor)
      → get_where anchor_key (live_anchor e) i s.anchors ≡ some p
      → has_circle_membership (some u) p.circle_id s ≡ true
      → let on = any_of (engaged i u t) s.anchor_engagements in
        (s' : CircleStore) × (toggle_anchor e t u i s
          ≡ (ok (not on, count_if (counted i t) s'.anchor_engagements), s'))
        × (any_of (engaged i u t) s'.anchor_engagements ≡ not on)
  answered p h m =
      let (same, l, shown) = found_by_key p h in
      elim (Bool-cases (any_of (engaged p.id u t) s.anchor_engagements)) [
        | inl on ↦ (
          disengage_anchor e t u p.id s,
          ground (arith, toggled p h m, switch_anchor_on e t u s p l shown sound on),
          ground (arith, any_of-filter_out_self (engaged i u t) s.anchor_engagements),
        )
        | inr off ↦ (
          engage_anchor e t u p.id s,
          ground (arith, toggled p h m, switch_anchor_off e t u s p l shown sound off),
          ground (arith, engaged_new i u t s.anchor_engagements),
        )
      ]

module _ (e : CircleEnv) (u i : ℕ) (s : CircleStore) (sound : AnchorsTallied s) where
  -- Likes and prayers on anchors keep every counter equal to the number of its engagements, whatever
  -- they answer.
  pub like_anchor-AnchorsTallied :
      AnchorsTallied (like_anchor e u i s).1 × AnchorsTallied (pray_for_anchor e u i s).1
  unfolding like_anchor pray_for_anchor
  like_anchor-AnchorsTallied = (
    toggle_anchor-AnchorsTallied e like u i s sound,
    toggle_anchor-AnchorsTallied e pray u i s sound,
  )

  -- A member's prayer for an anchor that shows turns the member's prayer on or off, and answers which,
  -- with the number of prayers that the anchor then has.
  pub pray_for_anchor_lem :
      (a : Anchor)
      → get_where anchor_key (live_anchor e) i s.anchors ≡ some a
      → has_circle_membership (some u) a.circle_id s ≡ true
      → let on = any_of (engaged i u pray) s.anchor_engagements in
        (s' : CircleStore) × (pray_for_anchor e u i s
          ≡ (ok (not on, count_if (counted i pray) s'.anchor_engagements), s'))
        × (any_of (engaged i u pray) s'.anchor_engagements ≡ not on)
  unfolding pray_for_anchor
  pray_for_anchor_lem a h m = answered e pray u i s sound a h m
