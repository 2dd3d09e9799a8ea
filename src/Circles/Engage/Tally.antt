-- ===== src/Circles/Engage/Tally.antt =====
-- Rows whose counters tell the number of engagements: what keeps them so.
use ziona_server.Base.{
  ℕ, suc, ◌≤◌, ◌≡◌, refl, Bool, true, false, ◌&&◌, some, List, [], ◌∷◌, ◌==◌, if◌then◌else◌, arith,
  inl, inr, Bool-cases, count_if, filter_out, any_of, ==_refl, lookup, update_at, HasKeys, KeepsKey,
  update_at-HasKeys, lookup-update_at, lookup-update_at_other, any_of-count_if, none_of-count_if,
  count_if-filter_out, count_if-filter_out_apart, count_if-filter_out_le,
}
use ziona_server.Circles.Content.{Engagement, EngagementType, pray, like, same_engagement}
use ziona_server.Circles.Engage.{engaged, new_engagement}

-- The engagements that a counter counts.
abbrev pub counted : ℕ → EngagementType → Engagement → Bool
counted i t g = g.target_id == i && same_engagement g.engagement_type t

same_engagement_sound : (t t' : EngagementType) → same_engagement t t' ≡ true → t ≡ t'
same_engagement_sound pray pray h = refl
same_engagement_sound pray like h = cc
same_engagement_sound like pray h = cc
same_engagement_sound like like h = refl

engage_once :
    (i u j v : ℕ) (t t' : EngagementType) (gs : List Engagement)
    → any_of (engaged i u t) gs ≡ false
    → count_if (engaged j v t') gs ≤ 1
    → count_if (engaged j v t') (new_engagement i u t ∷ gs) ≤ 1
engage_once i u j v t t' gs absent one = elim (Bool-cases (same_engagement t t')) [
  | inl same ↦
      ground (arith, none_of-count_if (engaged i u t) gs absent, same_engagement_sound t t' same)
  | inr apart ↦ ground arith
]

engaged_counted :
    (i u j : ℕ) (t t' : EngagementType) (g : Engagement)
    → (i == j) ≡ true
    → same_engagement t t' ≡ true
    → engaged i u t g ≡ true
    → counted j t' g ≡ true
engaged_counted i u j t t' g same k h = ground (arith, same_engagement_sound t t' k)

pub engaged_le :
    (i u : ℕ) (t : EngagementType) (gs : List Engagement)
    → count_if (engaged i u t) gs ≤ count_if (counted i t) gs
engaged_le i u t [] = omega arith
engaged_le i u t (g ∷ gs) = ground (arith, engaged_le i u t gs)

pub engaged_new :
    (i u : ℕ) (t : EngagementType) (gs : List Engagement)
    → any_of (engaged i u t) (new_engagement i u t ∷ gs) ≡ true
engaged_new i u pray gs = ground (arith, ==_refl i, ==_refl u)
engaged_new i u like gs = ground (arith, ==_refl i, ==_refl u)

engaged_apart :
    (i u j : ℕ) (t t' : EngagementType) (g : Engagement)
    → same_engagement t t' ≡ false
    → engaged i u t g ≡ true
    → counted j t' g ≡ false
engaged_apart i u j t t' g n h = ground (arith, same_engagement_sound g.engagement_type t)

module _ {A : Type 0} (key : A → ℕ) (count : EngagementType → A → ℕ) where
  -- Every row counts its engagements, and no user is engaged twice in the same way.
  pub record IsTallied (rows : List A) (engagements : List Engagement) : Type 0 where
    pub keyed : HasKeys key rows
    pub once : (i u : ℕ) (t : EngagementType) → count_if (engaged i u t) engagements ≤ 1
    pub tallied :
        (i : ℕ) (t : EngagementType) (x : A)
        → lookup key i rows ≡ some x
        → count t x ≡ count_if (counted i t) engagements

  module _ (q : A → Bool) (i u : ℕ) (t : EngagementType) (f : A → A) (keeps : KeepsKey key f)
      (rows : List A) (engagements : List Engagement) (x : A) (found : lookup key i rows ≡ some x)
      (shown : q x ≡ true) (sound : IsTallied rows engagements) where
    engage_other :
        (up : (t' : EngagementType)
          → count t' (f x) ≡ (if same_engagement t t' then suc (count t' x) else count t' x))
        (j : ℕ) (t' : EngagementType) (y : A)
        → lookup key j (update_at key q i f rows) ≡ some y
        → count t' y ≡ count_if (counted j t') (new_engagement i u t ∷ engagements)
    engage_other up j t' y h = elim (Bool-cases (i == j)) [
      | inl same ↦
          ground (
            arith,
            lookup-update_at key q i f rows x keeps found,
            up t',
            sound.tallied i t' x found,
          )
      | inr apart ↦
          ground (arith, lookup-update_at_other key q i j f rows keeps apart, sound.tallied j t' y)
    ]

    pub engage-IsTallied :
        ((t' : EngagementType)
          → count t' (f x) ≡ (if same_engagement t t' then suc (count t' x) else count t' x))
        → any_of (engaged i u t) engagements ≡ false
        → IsTallied (update_at key q i f rows) (new_engagement i u t ∷ engagements)
    engage-IsTallied up absent = record {
      keyed = update_at-HasKeys key q i f rows keeps sound.keyed;
      once = λ j v t'. engage_once i u j v t t' engagements absent (sound.once j v t');
      tallied = engage_other up;
    }

    disengage_other :
        ((t' : EngagementType)
          → count t' x ≡ (if same_engagement t t' then suc (count t' (f x)) else count t' (f x)))
        → any_of (engaged i u t) engagements ≡ true
        → (j : ℕ) (t' : EngagementType) (y : A) → lookup key j (update_at key q i f rows) ≡ some y
        → count t' y ≡ count_if (counted j t') (filter_out (engaged i u t) engagements)
    disengage_other down on j t' y h = elim (Bool-cases (i == j)) [
      | inr apart ↦ ground (
        arith,
        lookup-update_at_other key q i j f rows keeps apart,
        sound.tallied j t' y,
        count_if-filter_out_apart (counted j t') (engaged i u t) engagements (λ g e. ground arith),
      )
      | inl same ↦ elim (Bool-cases (same_engagement t t')) [
        | inl k ↦ ground (
          arith,
          lookup-update_at key q i f rows x keeps found,
          down t',
          sound.tallied i t' x found,
          sound.once i u t,
          any_of-count_if (engaged i u t) engagements on,
          count_if-filter_out (counted j t') (engaged i u t) engagements
              (λ g. engaged_counted i u j t t' g same k),
        )
        | inr n ↦ ground (
          arith,
          lookup-update_at key q i f rows x keeps found,
          down t',
          sound.tallied i t' x found,
          count_if-filter_out_apart (counted j t') (engaged i u t) engagements
              (λ g. engaged_apart i u j t t' g n),
        )
      ]
    ]

    pub disengage-IsTallied :
        ((t' : EngagementType)
          → count t' x ≡ (if same_engagement t t' then suc (count t' (f x)) else count t' (f x)))
        → any_of (engaged i u t) engagements ≡ true
        → IsTallied (update_at key q i f rows) (filter_out (engaged i u t) engagements)
    disengage-IsTallied down on = record {
      keyed = update_at-HasKeys key q i f rows keeps sound.keyed;
      once = λ j v t'. ground (
        arith,
        sound.once j v t',
        count_if-filter_out_le (engaged j v t') (engaged i u t) engagements,
      );
      tallied = disengage_other down on;
    }
