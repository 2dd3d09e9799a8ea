-- ===== src/Circles/Anchors/Windows.antt =====
-- A circle has at most one anchor at a time.
use ziona_server.Base.{
  ℕ, ◌≤◌, ◌≡◌, ◌⊎◌, refl, Bool, true, false, not, ◌&&◌, Option, none, List, [], ◌∷◌, ◌==◌, ltb,
  arith, inl, inr, Bool-cases, Option-cases, Result-cases, count_if, any_of, all_of, Text, is_empty,
  subst, sym,
}
use ziona_server.Circles.Content.{Anchor, AnchorType, is_booked, is_posted, is_null, shows_anchor}
use ziona_server.Circles.State.{CircleStore, CircleEnv}
use ziona_server.Circles.Members.{find_circle}
use ziona_server.Circles.Anchors.{
  meets, new_anchor, add_anchor, create_anchor, is_active_in, read_anchor_type, is_verse,
  require_time, require_admin,
}

-- Two booked anchors of one circle whose windows meet.
abbrev pub clashes : Anchor → Anchor → Bool
clashes a b =
    ((is_null a.deleted_at && is_null b.deleted_at)
      && (is_booked a.anchor_status && is_booked b.anchor_status))
    && (a.circle_id == b.circle_id
        && (ltb a.published_at b.expires_at && ltb b.published_at a.expires_at))

abbrev pub are_apart : List Anchor → Bool
are_apart [] = true
are_apart (a ∷ rest) = not (any_of (clashes a) rest) && are_apart rest

-- No two anchors of a circle clash.
abbrev pub AreApart : CircleStore → Type 0
AreApart s = are_apart s.anchors ≡ true

-- The creators of the anchors are neither deleted nor deactivated.
abbrev pub CreatorsActive : CircleEnv → CircleStore → Type 0
CreatorsActive e s =
    all_of (λ a. shows_anchor e.active_user (record a { deleted_at = none })) s.anchors ≡ true

booked : (a : Anchor) → is_posted a.anchor_status ≡ true → is_booked a.anchor_status ≡ true
booked a h = ground arith

shown_alive :
    (e : CircleEnv) (a : Anchor)
    → shows_anchor e.active_user (record a { deleted_at = none }) ≡ true
    → is_null a.deleted_at ≡ true
    → shows_anchor e.active_user a ≡ true
shown_alive e a h live = ground arith

module _ (e : CircleEnv) where
  not_met :
      (u c start : ℕ) (type : AnchorType) (a : Anchor)
      → shows_anchor e.active_user (record a { deleted_at = none }) ≡ true
      → meets e c start a ≡ false
      → clashes (new_anchor e u c type start) a ≡ false
  not_met u c start type a active h = elim (Bool-cases (ltb e.now start)) [
    | inl later ↦ ground (arith, shown_alive e a)
    | inr now ↦ ground (arith, shown_alive e a)
  ]

  any_of-cons :
      (p : Anchor → Bool) (a : Anchor) (anchors : List Anchor)
      → p a ≡ false
      → any_of p anchors ≡ false
      → any_of p (a ∷ anchors) ≡ false
  any_of-cons p a anchors h k = ground arith

  cons-any_of :
      (p : Anchor → Bool) (a : Anchor) (anchors : List Anchor)
      → any_of p (a ∷ anchors) ≡ false
      → (p a ≡ false) × (any_of p anchors ≡ false)
  cons-any_of p a anchors h = (ground arith, ground arith)

  both : (b c : Bool) → b && c ≡ true → (b ≡ true) × (c ≡ true)
  both b c h = (ground arith, ground arith)

  no_clash :
      (u c start : ℕ) (type : AnchorType) (anchors : List Anchor)
      → all_of (λ a. shows_anchor e.active_user (record a { deleted_at = none })) anchors ≡ true
      → any_of (meets e c start) anchors ≡ false
      → any_of (clashes (new_anchor e u c type start)) anchors ≡ false
  no_clash u c start type [] active h = refl
  no_clash u c start type (a ∷ anchors) active h =
      let (first, rest) = both _ _ active in
      let (apart, others) = cons-any_of (meets e c start) a anchors h in
      any_of-cons (clashes (new_anchor e u c type start)) a anchors
        (not_met u c start type a first apart) (no_clash u c start type anchors rest others)

  -- An anchor that is active now clashes with every other one that is.
  active_apart :
      (c : ℕ) (a : Anchor) (anchors : List Anchor)
      → is_active_in e c a ≡ true
      → any_of (clashes a) anchors ≡ false
      → count_if (is_active_in e c) anchors ≡ 0
  active_apart c a [] t h = refl
  active_apart c a (b ∷ anchors) t h = ground (arith, active_apart c a anchors, booked a, booked b)

  at_most_one :
      (c : ℕ) (anchors : List Anchor)
      → are_apart anchors ≡ true
      → count_if (is_active_in e c) anchors ≤ 1
  at_most_one c [] h = omega arith
  at_most_one c (a ∷ anchors) h = ground (arith, at_most_one c anchors, active_apart c a anchors)

  -- An anchor is added whose window meets no other, or nothing changes.
  created :
      (u c : ℕ) (anchor_type book : Text) (at : Option ℕ) (s : CircleStore)
      → ((create_anchor e u c anchor_type book at s).1 ≡ s)
        ⊎ ((type : AnchorType) × (start : ℕ) × (any_of (meets e c start) s.anchors ≡ false)
            × ((create_anchor e u c anchor_type book at s).1
                ≡ add_anchor e (new_anchor e u c type start) s))
  unfolding create_anchor
  created u c anchor_type book at s = elim (Option-cases (find_circle e c s)) [
    | inl closed ↦ inl (ground arith)
    | inr (circle, found) ↦ elim (Result-cases (require_admin e c u s)) [
      | inr (x, t, refused) ↦ inl (ground arith)
      | inl (x, t, admitted) ↦ elim (Option-cases (read_anchor_type anchor_type)) [
        | inl unknown ↦ inl (ground arith)
        | inr (type, known) ↦ elim (Bool-cases (is_verse type && is_empty book)) [
          | inl missing ↦ inl (ground arith)
          | inr complete ↦ elim (Result-cases (require_time e at s)) [
            | inr (y, t', refused) ↦ inl (ground arith)
            | inl (start, t', timely) ↦ elim (Bool-cases (any_of (meets e c start) s.anchors)) [
              | inl taken ↦ inl (ground arith)
              | inr free ↦ inr (type, start, free, ground arith)
            ]
          ]
        ]
      ]
    ]
  ]

  add_anchor-AreApart :
      (a : Anchor) (s : CircleStore)
      → any_of (clashes a) s.anchors ≡ false
      → AreApart s
      → AreApart (add_anchor e a s)
  add_anchor-AreApart a s free apart = ground arith

  created_apart :
      (u c : ℕ) (anchor_type book : Text) (at : Option ℕ) (s : CircleStore)
      → CreatorsActive e s
      → AreApart s
      → AreApart (create_anchor e u c anchor_type book at s).1
  created_apart u c anchor_type book at s active apart = elim (created u c anchor_type book at s) [
    | inl same ↦ subst AreApart (sym same) apart
    | inr (type, start, free, same) ↦ subst AreApart (sym same) (
        add_anchor-AreApart (new_anchor e u c type start) s
          (no_clash u c start type s.anchors active free) apart)
  ]

-- Anchors of a circle stay apart when one is created, now or for later, so that whenever the circle is
-- asked for its active anchor there is at most one. The creators of its anchors are active when the new
-- one is created.
pub create_anchor-AreApart :
    (e now : CircleEnv) (u c : ℕ) (anchor_type book : Text) (at : Option ℕ) (s : CircleStore)
    → CreatorsActive e s
    → AreApart s
    → AreApart (create_anchor e u c anchor_type book at s).1
      × ((k : ℕ)
          → count_if (is_active_in now k) (create_anchor e u c anchor_type book at s).1.anchors ≤ 1)
create_anchor-AreApart e now u c anchor_type book at s active apart =
    let after = created_apart e u c anchor_type book at s active apart in
    (after, λ k. at_most_one now k (create_anchor e u c anchor_type book at s).1.anchors after)
